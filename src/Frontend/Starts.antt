-- ===== src/Frontend/Starts.antt =====
-- Where the tool calls have texts as their starts, trimming them does not throw, and they keep them.
use patze_control.Base.{
  Bool, true, false, Option, none, some, String, ◌==◌, List, [], ◌∷◌, All, keep, length, leb,
  Bool-cases, Option-cases, ◌≡◌, refl, subst, inl, inr,
}
use patze_control.Value.{is_string, get}
use patze_control.Telemetry.Events.{
  run_tool_started, run_tool_completed, run_model_usage, TelemetryEvent,
}
use patze_control.Mapper.Types.{lookup, insert}
use patze_control.Frontend.Types.{
  FrontendRuntime, FrontendToolCallSnapshot, MutableRunDetail, SnapshotCollections,
  max_tool_calls_per_run,
}
use patze_control.Frontend.Entries.{
  Calls, string_of, values, delete_first, trim_tool_calls, detail_of, started_call, completed_call,
  usage_after,
}
use patze_control.Frontend.Upsert.{cannot_read, upsert_readable, trim_run, upsert_from_event}

abbrev pub HasTextStart : FrontendToolCallSnapshot → Type 0
HasTextStart call = is_string call.started_at ≡ true

-- The sort does not throw on texts.
abbrev pub SortsTexts : FrontendRuntime → Type 0
SortsTexts runtime =
    (calls : List FrontendToolCallSnapshot)
    → All HasTextStart calls
    → (sorted : List FrontendToolCallSnapshot) × (runtime.sort_by_start calls ≡ some sorted)

abbrev pub HasTextStarts : MutableRunDetail → Type 0
HasTextStarts detail = All (λ e. HasTextStart e.1) detail.tool_calls

abbrev pub AllTextStarts : SnapshotCollections → Type 0
AllTextStarts c = All (λ e. HasTextStarts e.1) c.run_details

-- The event of a starting tool call brings a text, as the ingestor and JSON leave it.
abbrev pub BringsText : TelemetryEvent → Type 0
BringsText event = elim event.event_type [
  | run_tool_started ↦ is_string (get event.payload "startedAt") ≡ true
  | _ ↦ Unit
]

module _ {V : Type 0} (P : V → Type 0) where
  insert-All :
      (k : String) (v : V) (es : List (String × V))
      → P v
      → All (λ e. P e.1) es
      → All (λ e. P e.1) (insert k v es)
  unfolding insert
  insert-All k v [] p all = (p, tt)
  insert-All k v (e ∷ es) p (this, all) = elim (Bool-cases (e.0 == k)) [
    | inl here ↦ rw here (p, all)
    | inr later ↦ rw later (this, insert-All k v es p all)
  ]

  lookup-All :
      (k : String) (v : V) (es : List (String × V))
      → lookup k es ≡ some v
      → All (λ e. P e.1) es
      → P v
  unfolding lookup
  lookup-All k v [] e all = cc e
  lookup-All k v (e ∷ es) q (this, all) = elim (Bool-cases (e.0 == k)) [
    | inl here ↦ let same : some e.1 ≡ some v = rw here at q in subst (λ o. OptionHas o) same this
    | inr later ↦ lookup-All k v es (rw later at q) all
  ]
    where
      OptionHas : Option V → Type 0
      OptionHas none = Unit
      OptionHas (some w) = P w

keep-All :
    (p : String × FrontendToolCallSnapshot → Bool) (es : Calls)
    → All (λ e. HasTextStart e.1) es
    → All (λ e. HasTextStart e.1) (keep p es)
keep-All p [] all = tt
keep-All p (e ∷ es) (this, all) = elim (Bool-cases (p e)) [
  | inl kept ↦ rw kept (this, keep-All p es all)
  | inr dropped ↦ rw dropped (keep-All p es all)
]

module _ (runtime : FrontendRuntime) where
  values-All : (es : Calls) → All (λ e. HasTextStart e.1) es → All HasTextStart (values runtime es)
  values-All [] all = tt
  values-All (e ∷ es) (this, all) = (this, values-All es all)

  detail_of-HasTextStarts :
      (id : String) (details : List (String × MutableRunDetail))
      → All (λ e. HasTextStarts e.1) details
      → HasTextStarts (detail_of runtime id (lookup id details))
  detail_of-HasTextStarts id details all = elim (Option-cases (lookup id details)) [
    | inl missing ↦ rw missing tt
    | inr (detail, found) ↦ rw found (lookup-All HasTextStarts id detail details found all)
  ]

module _ (runtime : FrontendRuntime) (sorts : SortsTexts runtime) where
  trim_tool_calls-HasTextStarts :
      (detail : MutableRunDetail)
      → HasTextStarts detail
      → (trimmed : MutableRunDetail) × (trim_tool_calls runtime detail ≡ some trimmed)
        × HasTextStarts trimmed
  unfolding trim_tool_calls
  trim_tool_calls-HasTextStarts detail starts =
      elim (Bool-cases (leb (length detail.tool_calls) max_tool_calls_per_run)) [
        | inl few ↦ (detail, rw few refl, starts)
        | inr many ↦
            let (sorted, e) =
              sorts (values runtime detail.tool_calls)
                (values-All runtime detail.tool_calls starts) in
            (
              delete_first runtime sorted detail,
              rw (many, e) refl,
              keep-All _ detail.tool_calls starts,
            )
      ]

  trim_run-lem :
      (id : String) (details : List (String × MutableRunDetail))
      → All (λ e. HasTextStarts e.1) details
      → (details' : List (String × MutableRunDetail)) × (trim_run runtime id details
          ≡ some details')
        × All (λ e. HasTextStarts e.1) details'
  unfolding trim_run
  trim_run-lem id details all = elim (Option-cases (lookup id details)) [
    | inl missing ↦ (details, rw (trim_run, missing) refl, all)
    | inr (detail, found) ↦
        let (trimmed, e, starts) =
          trim_tool_calls-HasTextStarts detail
            (lookup-All HasTextStarts id detail details found all) in
        (
          insert id trimmed details,
          rw (trim_run, found, e) refl,
          insert-All HasTextStarts id trimmed details starts all,
        )
  ]

completed_call-HasTextStart :
    (runtime : FrontendRuntime) (id : String) (event : TelemetryEvent) (calls : Calls)
    → All (λ e. HasTextStart e.1) calls
    → HasTextStart (completed_call runtime (lookup id calls) event)
unfolding completed_call
completed_call-HasTextStart runtime id event calls all = elim (Option-cases (lookup id calls)) [
  | inl missing ↦ rw missing refl
  | inr (call, found) ↦ rw found (lookup-All HasTextStart id call calls found all)
]

upsert_readable-AllTextStarts :
    (runtime : FrontendRuntime) (c : SnapshotCollections) (event : TelemetryEvent)
    → BringsText event
    → AllTextStarts c
    → AllTextStarts (upsert_readable runtime c event).0
unfolding upsert_readable started_call usage_after
upsert_readable-AllTextStarts runtime c event brings all =
    let run_id = string_of runtime (get event.payload "runId") in
    let call_id = string_of runtime (get event.payload "toolCallId") in
    let detail = detail_of runtime run_id (lookup run_id c.run_details) in
    let starts : HasTextStarts detail = detail_of-HasTextStarts runtime run_id c.run_details all in
    (elim event.event_type
        as (λ t.
          BringsText (record event { event_type = t })
          → AllTextStarts (upsert_readable runtime c (record event { event_type = t })).0) [
            | run_tool_started ↦ λ b.
                insert-All HasTextStarts run_id _ c.run_details
                  (insert-All HasTextStart call_id (started_call runtime event) detail.tool_calls b
                    starts)
                  all
            | run_tool_completed ↦ λ b.
                insert-All HasTextStarts run_id _ c.run_details
                  (insert-All HasTextStart call_id
                    (completed_call runtime (lookup call_id detail.tool_calls) event)
                    detail.tool_calls
                    (completed_call-HasTextStart runtime call_id event detail.tool_calls starts)
                    starts)
                  all
            | run_model_usage ↦ λ b. insert-All HasTextStarts run_id _ c.run_details starts all
            | _ ↦ λ b. all
          ])
      brings

-- An event that can be read does not throw, and what is trimmed is neither a session nor a run.
pub upsert_from_event-returns :
    (runtime : FrontendRuntime) (c : SnapshotCollections) (event : TelemetryEvent)
    → SortsTexts runtime
    → cannot_read runtime event ≡ false
    → BringsText event
    → AllTextStarts c
    → (out : SnapshotCollections × Bool) × (upsert_from_event runtime c event ≡ some out)
      × AllTextStarts out.0
      × (out.0.sessions ≡ (upsert_readable runtime c event).0.sessions)
      × (out.0.runs ≡ (upsert_readable runtime c event).0.runs)
unfolding upsert_from_event
upsert_from_event-returns runtime c event sorts readable brings all =
    let after = upsert_readable-AllTextStarts runtime c event brings all in
    let out = upsert_readable runtime c event in
    let (details, e, starts) =
      trim_run-lem runtime sorts (string_of runtime (get event.payload "runId")) out.0.run_details
        after in
    rw readable
      (elim event.event_type
        as (λ t.
          (result : SnapshotCollections × Bool) × ((elim t
              as (λ u. Option (SnapshotCollections × Bool)) [
                | run_tool_started ↦
                    elim (trim_run runtime (string_of runtime (get event.payload "runId"))
                      out.0.run_details) [
                        | none ↦ none
                        | some run_details ↦
                            some (record out.0 { run_details = run_details }, out.1)
                      ]
                | _ ↦ some out
              ])
            ≡ some result)
          × AllTextStarts result.0
          × (result.0.sessions ≡ out.0.sessions)
          × (result.0.runs ≡ out.0.runs)) [
            | run_tool_started ↦
                ((record out.0 { run_details = details }, out.1), rw e refl, starts, refl, refl)
            | _ ↦ (out, refl, after, refl, refl)
          ])
