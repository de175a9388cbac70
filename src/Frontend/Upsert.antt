-- ===== src/Frontend/Upsert.antt =====
-- `upsertFromEvent` of packages/telemetry-core/src/frontend-reducer.ts. It gives no state where the
-- payload cannot be read, as the TypeError does.
use patze_control.Base.{
  String, Bool, true, false, ◌||◌, Option, none, some, List, [], ◌∷◌, ◌++◌, if◌then◌else◌,
}
use patze_control.Value.{is_nullish, get}
use patze_control.Telemetry.Events.{
  machine_registered, machine_heartbeat, session_state_changed, run_state_changed, run_tool_started,
  run_tool_completed, run_model_usage, run_log_emitted, TelemetryEvent,
}
use patze_control.Mapper.Types.{lookup, insert}
use patze_control.Frontend.Types.{FrontendRuntime, MutableRunDetail, SnapshotCollections}
use patze_control.Frontend.Recent.{append_recent_event}
use patze_control.Frontend.Entries.{
  string_of, trim_tool_calls, detail_of, registered, after_heartbeat, session_upserted,
  run_upserted, started_call, completed_call, usage_after, log_entry, last_logs,
}

module _ (runtime : FrontendRuntime) where
  -- The collections behind an event whose payload can be read, before `trimToolCalls`, and whether it
  -- has changed them.
  unfoldable pub upsert_readable : SnapshotCollections → TelemetryEvent → SnapshotCollections × Bool
  unfolding registered after_heartbeat session_upserted run_upserted started_call completed_call
      usage_after log_entry lookup insert
  upsert_readable c event =
      let machine_id = string_of runtime (get event.payload "machineId") in
      let session_id = string_of runtime (get event.payload "sessionId") in
      let run_id = string_of runtime (get event.payload "runId") in
      let call_id = string_of runtime (get event.payload "toolCallId") in
      let detail = detail_of runtime run_id (lookup run_id c.run_details) in
      elim event.event_type [
        | machine_registered ↦
            (record c { machines = insert machine_id (registered runtime event) c.machines }, true)
        | machine_heartbeat ↦ (
          record c {
            machines =
                insert machine_id (after_heartbeat runtime (lookup machine_id c.machines) event)
                  c.machines;
          },
          true,
        )
        | session_state_changed ↦ (
          record c {
            sessions =
                insert session_id (session_upserted runtime (lookup session_id c.sessions) event)
                  c.sessions;
          },
          true,
        )
        | run_state_changed ↦ (
          record c {
            runs = insert run_id (run_upserted runtime (lookup run_id c.runs) event) c.runs;
          },
          true,
        )
        | run_tool_started ↦ (
          record c {
            run_details =
                insert run_id
                  (record detail {
                    tool_calls = insert call_id (started_call runtime event) detail.tool_calls;
                  })
                  c.run_details;
          },
          true,
        )
        | run_tool_completed ↦ (
          record c {
            run_details =
                insert run_id
                  (record detail {
                    tool_calls =
                        insert call_id
                          (completed_call runtime (lookup call_id detail.tool_calls) event)
                          detail.tool_calls;
                  })
                  c.run_details;
          },
          true,
        )
        | run_model_usage ↦ (
          record c {
            run_details =
                insert run_id
                  (record detail {
                    model_usage = some (usage_after runtime detail.model_usage event);
                  })
                  c.run_details;
          },
          true,
        )
        | run_log_emitted ↦
            (record c { logs = last_logs runtime (c.logs ++ (log_entry runtime event ∷ [])) }, true)
        | _ ↦ (c, false)
      ]

  -- The payload and the resource of a heartbeat are read; other events read the payload only.
  abbrev pub cannot_read : TelemetryEvent → Bool
  cannot_read event = elim event.event_type [
    | machine_registered ↦ is_nullish event.payload
    | machine_heartbeat ↦ is_nullish event.payload || is_nullish (get event.payload "resource")
    | session_state_changed ↦ is_nullish event.payload
    | run_state_changed ↦ is_nullish event.payload
    | run_tool_started ↦ is_nullish event.payload
    | run_tool_completed ↦ is_nullish event.payload
    | run_model_usage ↦ is_nullish event.payload
    | run_log_emitted ↦ is_nullish event.payload
    | _ ↦ false
  ]

  abbrev put_trimmed :
      String
      → List (String × MutableRunDetail)
      → Option MutableRunDetail
      → Option (List (String × MutableRunDetail))
  put_trimmed run_id details none = none
  put_trimmed run_id details (some detail) = some (insert run_id detail details)

  -- `trimToolCalls` of the run.
  unfoldable pub trim_run :
      String → List (String × MutableRunDetail) → Option (List (String × MutableRunDetail))
  unfolding trim_tool_calls lookup insert
  trim_run run_id details = elim (lookup run_id details) [
    | none ↦ some details
    | some detail ↦ put_trimmed run_id details (trim_tool_calls runtime detail)
  ]

  unfoldable pub upsert_from_event :
      SnapshotCollections → TelemetryEvent → Option (SnapshotCollections × Bool)
  unfolding upsert_readable trim_run
  upsert_from_event c event =
      let out = upsert_readable c event in
      let run_id = string_of runtime (get event.payload "runId") in
      if cannot_read event then none else elim event.event_type [
        | run_tool_started ↦ elim (trim_run run_id out.0.run_details) [
          | none ↦ none
          | some run_details ↦ some (record out.0 { run_details = run_details }, out.1)
        ]
        | _ ↦ some out
      ]

  -- The loop of `reduceFrontendSnapshotMany`, without the time of the last update.
  unfoldable pub upsert_all : SnapshotCollections → List TelemetryEvent → Option SnapshotCollections
  unfolding upsert_from_event append_recent_event
  upsert_all c [] = some c
  upsert_all c (event ∷ events) = elim (upsert_from_event c event) [
    | none ↦ none
    | some out ↦ elim (append_recent_event runtime out.0 event) [
      | none ↦ none
      | some c' ↦ upsert_all c' events
    ]
  ]
