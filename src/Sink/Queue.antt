-- ===== src/Sink/Queue.antt =====
-- The queue of the sink, its flushes, its circuit breaker and its spool file
-- (packages/telemetry-core/src/transports.ts).
use patze_control.Base.{
  ℕ, zero, suc, ◌+◌, ◌-◌, max, Bool, true, false, not, ◌&&◌, ◌||◌, Option, none, some, is_some,
  String, map, List, [], ◌∷◌, ◌++◌, length, take, drop, keep, or_else, leb, ltb, eqb, if◌then◌else◌,
}
use patze_control.Value.{Value, is_record, is_string, get, has}
use patze_control.Value.Json.{json_value}
use patze_control.Sink.Post.{Server, post_with_retry}

pub record HttpSinkAdapterOptions : Type 0 where
  pub batch_size : Option ℕ
  pub max_retries : Option ℕ
  pub max_backoff_ms : Option ℕ
  pub max_queue_size : Option ℕ
  pub circuit_breaker_threshold : Option ℕ
  pub circuit_breaker_cooldown_ms : Option ℕ
  pub has_spool : Bool

-- `in_flight` is the chunk of the flush under way; there is one while `flushing` is set. `spool` is
-- what the file holds.
pub record HttpSinkAdapter : Type 0 where
  pub batch_size : ℕ
  pub max_retries : ℕ
  pub max_backoff_ms : ℕ
  pub max_queue_size : ℕ
  pub circuit_breaker_threshold : ℕ
  pub circuit_breaker_cooldown_ms : ℕ
  pub has_spool : Bool
  pub queue : List Value
  pub in_flight : Option (List Value)
  pub consecutive_failures : ℕ
  pub circuit_open_until_ms : ℕ
  pub spool : Option (List Value)
  pub hydrated_count : ℕ
  pub dropped_on_hydrate : ℕ

unfoldable pub new_sink : HttpSinkAdapterOptions → Option (List Value) → HttpSinkAdapter
new_sink options spool =
    let batch_size = max 1 (or_else options.batch_size 50) in
    record {
      batch_size = batch_size;
      max_retries = or_else options.max_retries 3;
      max_backoff_ms = max 500 (or_else options.max_backoff_ms 10_000);
      max_queue_size = max batch_size (or_else options.max_queue_size 10_000);
      circuit_breaker_threshold = max 1 (or_else options.circuit_breaker_threshold 5);
      circuit_breaker_cooldown_ms = max 500 (or_else options.circuit_breaker_cooldown_ms 15_000);
      has_spool = options.has_spool;
      queue = [];
      in_flight = none;
      consecutive_failures = 0;
      circuit_open_until_ms = 0;
      spool = spool;
      hydrated_count = 0;
      dropped_on_hydrate = 0;
    }

unfoldable pub is_envelope : Value → Bool
is_envelope value =
    is_record value
    && is_string (get value "version")
    && is_string (get value "id")
    && is_string (get value "ts")
    && is_string (get value "machineId")
    && is_string (get value "severity")
    && is_string (get value "type")
    && has "payload" value
    && is_record (get value "trace")

-- `flush` up to its await: the chunk leaves the queue.
unfoldable pub flush_begin : ℕ → HttpSinkAdapter → HttpSinkAdapter
flush_begin now sink =
    if is_some sink.in_flight || eqb (length sink.queue) 0
    then sink
    else if ltb now sink.circuit_open_until_ms
    then sink
    else record sink {
      in_flight = some (take sink.batch_size sink.queue);
      queue = drop sink.batch_size sink.queue;
    }

-- A failed chunk goes back to the front; enough failures in a row open the circuit.
abbrev pub after_failure : ℕ → List Value → HttpSinkAdapter → HttpSinkAdapter
after_failure now chunk sink =
    let failures = sink.consecutive_failures + 1 in
    let opens = leb sink.circuit_breaker_threshold failures in
    record sink {
      in_flight = none;
      queue = chunk ++ sink.queue;
      consecutive_failures = if opens then 0 else failures;
      circuit_open_until_ms =
          if opens then now + sink.circuit_breaker_cooldown_ms else sink.circuit_open_until_ms;
    }

abbrev pub after_success : HttpSinkAdapter → HttpSinkAdapter
after_success sink = record sink {
  in_flight = none;
  consecutive_failures = 0;
  circuit_open_until_ms = 0;
}

-- The rest of `flush`, with the result of `postWithRetry`.
unfoldable pub flush_end : ℕ → Bool → HttpSinkAdapter → HttpSinkAdapter
flush_end now ok sink = elim sink.in_flight [
  | none ↦ sink
  | some chunk ↦ if ok then after_success sink else after_failure now chunk sink
]

-- The event is queued, and a full batch starts a flush; the Boolean is `ok`.
unfoldable pub enqueue : ℕ → Value → HttpSinkAdapter → HttpSinkAdapter × Bool
unfolding flush_begin
enqueue now event sink =
    if leb sink.max_queue_size (length sink.queue)
    then (sink, false)
    else let pushed = record sink { queue = sink.queue ++ (event ∷ []) } in
      (if leb sink.batch_size (length pushed.queue) then flush_begin now pushed else pushed, true)

unfoldable pub sink_ingest : ℕ → Value → HttpSinkAdapter → HttpSinkAdapter × Bool
unfolding enqueue
sink_ingest now event sink =
    if not (is_envelope event) then (sink, false) else enqueue now event sink

-- A whole flush while nothing else happens, with what the server has accepted.
unfoldable pub flush : Server → ℕ → HttpSinkAdapter → HttpSinkAdapter × List Value
unfolding flush_begin flush_end
flush server now sink =
    let begun = flush_begin now sink in
    elim sink.in_flight [
      | some chunk ↦ (sink, [])
      | none ↦ elim begun.in_flight [
        | none ↦ (sink, [])
        | some chunk ↦
            let posted = post_with_retry server sink.max_retries chunk in
            (flush_end now posted.ok begun, posted.received)
      ]
    ]

-- `persistQueueToDisk`, when the file system works: the chunk in flight is not part of the queue.
unfoldable pub persist_queue : HttpSinkAdapter → HttpSinkAdapter
persist_queue sink = if sink.has_spool then record sink { spool = some sink.queue } else sink

abbrev pub hydrate_from : List Value → HttpSinkAdapter → HttpSinkAdapter
hydrate_from valid sink =
    let limited = take sink.max_queue_size valid in
    if eqb (length valid) 0 then sink else record sink {
      queue = sink.queue ++ limited;
      hydrated_count = length limited;
      dropped_on_hydrate = length valid - length limited;
    }

-- `hydrateQueueFromDisk`; `none` is a file that is missing or does not hold an array. The file holds
-- the text that `JSON.stringify` makes of the spooled values.
unfoldable pub hydrate_queue : (ℕ → String) → HttpSinkAdapter → HttpSinkAdapter
unfolding is_envelope json_value
hydrate_queue to_iso_string sink = if not sink.has_spool then sink else elim sink.spool [
  | none ↦ sink
  | some items ↦ hydrate_from (keep is_envelope (map (json_value to_iso_string) items)) sink
]

-- The loop of `close`, in which each flush meets its own server and clock: it ends when the queue is
-- empty or a flush has left its length. `none` says that the rounds did not suffice.
unfoldable pub close_from :
    (ℕ → Server) → (ℕ → ℕ) → ℕ → HttpSinkAdapter → Option (HttpSinkAdapter × List Value)
unfolding flush
close_from servers clock zero sink = if eqb (length sink.queue) 0 then some (sink, []) else none
close_from servers clock (suc rounds) sink =
    let (flushed, received) = flush (servers rounds) (clock rounds) sink in
    let rest = close_from servers clock rounds flushed in
    if eqb (length sink.queue) 0
    then some (sink, [])
    else if eqb (length flushed.queue) (length sink.queue)
    then some (flushed, received)
    else elim rest [ none ↦ none | some (closed, more) ↦ some (closed, received ++ more) ]

abbrev then_persist : Option (HttpSinkAdapter × List Value) → Option (HttpSinkAdapter × List Value)
then_persist none = none
then_persist (some (sink, received)) = some (persist_queue sink, received)

unfoldable pub close :
    (ℕ → Server) → (ℕ → ℕ) → ℕ → HttpSinkAdapter → Option (HttpSinkAdapter × List Value)
unfolding close_from
close servers clock rounds sink = then_persist (close_from servers clock rounds sink)
