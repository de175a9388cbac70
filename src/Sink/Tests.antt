-- ===== src/Sink/Tests.antt =====
-- The theorems about the sink at concrete inputs.
use patze_control.Base.{
  ℕ, zero, suc, ◌≤◌, true, false, some, none, List, [], ◌∷◌, length, ◌≡◌, refl, arith,
}
use patze_control.Value.{Value, text, object, field, end, get, has, lookup_field}
use patze_control.Value.Json.{is_json}
use patze_control.Sink.Post.{Response, answered, Server, post_with_retry}
use patze_control.Sink.Rounds.{HasBatchRoute, IsDelivery, post_with_retry-IsDelivery}
use patze_control.Sink.Queue.{
  HttpSinkAdapterOptions, HttpSinkAdapter, new_sink, is_envelope, persist_queue, hydrate_queue,
  close,
}
use patze_control.Sink.Order.{
  ingests, begins, ends, hydrates, persists, SinkCall, History, IsConserved, sink_run,
  sink_run-IsConserved,
}
use patze_control.Sink.Close.{Leaves, close_ends}
use patze_control.Sink.Spool.{queue_survives_restart}

-- A server that is busy at first, and then takes every batch.
abbrev busy_at_first : ℕ → Response
busy_at_first zero = answered 503
busy_at_first (suc n) = answered 200

abbrev busy_server : Server
busy_server = record { batch = busy_at_first; single = λ attempt i. answered 404 }

busy_server-HasBatchRoute : HasBatchRoute busy_server
busy_server-HasBatchRoute zero status e = ground arith
busy_server-HasBatchRoute (suc n) status e = ground arith

abbrev event_named : Value → Value
event_named id = object (
    field "version" (text "telemetry.v1") (
      field "id" id (
        field "ts" (text "2026-01-01T00:00:00.000Z") (
          field "machineId" (text "m1") (
            field "severity" (text "info") (
              field "type" (text "run.state.changed")
                (field "payload" (object end) (field "trace" (object end) end))))))))

abbrev small_sink : HttpSinkAdapter
small_sink = record {
  batch_size = 2;
  max_retries = 3;
  max_backoff_ms = 10_000;
  max_queue_size = 3;
  circuit_breaker_threshold = 1;
  circuit_breaker_cooldown_ms = 15_000;
  has_spool = true;
  queue = [];
  in_flight = none;
  consecutive_failures = 0;
  circuit_open_until_ms = 0;
  spool = none;
  hydrated_count = 0;
  dropped_on_hydrate = 0;
}

abbrev full_sink : HttpSinkAdapter
full_sink = record small_sink {
  queue = event_named (text "evt_1") ∷ event_named (text "evt_2") ∷ event_named (text "evt_3") ∷ [];
}

abbrev some_calls : List SinkCall
some_calls =
    ingests 1 (event_named (text "evt_1"))
    ∷ ingests 2 (event_named (text "evt_2"))
    ∷ ingests 3 (event_named (text "evt_3"))
    ∷ hydrates (event_named (text "evt_0") ∷ [])
    ∷ ends 4 false
    ∷ persists
    ∷ begins 5
    ∷ []

abbrev new_history : History
new_history = record { sink = small_sink; accepted = []; posted = []; hydrated = false }

post_with_retry-IsDelivery_example :
    IsDelivery busy_server 3 full_sink.queue (post_with_retry busy_server 3 full_sink.queue)
post_with_retry-IsDelivery_example = post_with_retry-IsDelivery busy_server 3 full_sink.queue

new_history-IsConserved : IsConserved new_history
new_history-IsConserved = record {
  conserved = refl;
  small_chunk = omega arith;
  room = omega arith;
  busy = λ b. omega arith;
}

sink_run-IsConserved_example : IsConserved (sink_run new_history some_calls)
sink_run-IsConserved_example = sink_run-IsConserved new_history some_calls new_history-IsConserved

close_ends_example : Leaves full_sink (close (λ i. busy_server) (λ i. 7) 3 full_sink)
close_ends_example =
    close_ends (λ i. busy_server) (λ i. 7) 3 full_sink (λ i. busy_server-HasBatchRoute)
      (omega arith) (omega arith)

abbrev small_options : HttpSinkAdapterOptions
small_options = record {
  batch_size = some 2;
  max_retries = none;
  max_backoff_ms = none;
  max_queue_size = some 5;
  circuit_breaker_threshold = none;
  circuit_breaker_cooldown_ms = none;
  has_spool = true;
}

room_for_three :
    length full_sink.queue ≤ (new_sink small_options (persist_queue full_sink).spool).max_queue_size
unfolding new_sink
room_for_three = omega arith

queue_survives_restart_example :
    (hydrate_queue (λ t. "2026") (new_sink small_options (persist_queue full_sink).spool)).queue
    ≡ full_sink.queue
unfolding is_envelope is_json get has lookup_field
queue_survives_restart_example =
    queue_survives_restart (λ t. "2026") small_options full_sink refl refl
      (refl, (refl, (refl, tt))) (refl, (refl, (refl, tt))) room_for_three
