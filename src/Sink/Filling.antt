-- ===== src/Sink/Filling.antt =====
-- A sink with room queues the envelopes that it is handed.
use patze_control.Base.{
  ℕ, ◌+◌, ◌≤◌, ◌<◌, Bool, true, false, List, [], ◌∷◌, ◌++◌, length, length-append, length-drop, All,
  leb, Bool-cases, ◌≡◌, refl, sym, ap, ◌∙◌, inl, inr, arith,
}
use mathlib.Core.List.{append_assoc, append-nil}
use patze_control.Value.{Value}
use patze_control.Sink.Queue.{HttpSinkAdapter, flush_begin, enqueue, sink_ingest}
use patze_control.Sink.Order.{chunk_of, held, take-drop}
use patze_control.Sink.Spool.{IsEnvelope}

-- The events are handed to `ingest` one after the other; the Booleans are its answers.
unfoldable pub ingest_each : ℕ → List Value → HttpSinkAdapter → HttpSinkAdapter × List Bool
ingest_each now [] sink = (sink, [])
ingest_each now (event ∷ events) sink =
    let (sink', ok) = sink_ingest now event sink in
    let (sink'', oks) = ingest_each now events sink' in (sink'', ok ∷ oks)

-- The sink has taken in `taken`, behind what it held.
pub record Fills (taken : List Value) (sink sink' : HttpSinkAdapter) : Type 0 where
  pub held_after : held sink' ≡ held sink ++ taken
  pub queue_after : length sink'.queue ≤ length sink.queue + length taken
  pub bound_after : sink'.max_queue_size ≡ sink.max_queue_size

flush_begin-Fills : (now : ℕ) (sink : HttpSinkAdapter) → Fills [] sink (flush_begin now sink)
unfolding flush_begin
flush_begin-Fills now sink =
    let b = sink.batch_size in
    let q = sink.queue in
    ground (arith, take-drop b q, length-drop b q, append-nil q, append-nil (held sink))

Fills-trans :
    (xs ys : List Value) (a b c : HttpSinkAdapter)
    → Fills xs a b
    → Fills ys b c
    → Fills (xs ++ ys) a c
Fills-trans xs ys a b c f g = record {
  held_after = g.held_after ∙ ap (λ l. l ++ ys) f.held_after ∙ append_assoc (held a) xs ys;
  queue_after = omega (arith, f.queue_after, g.queue_after, length-append xs ys);
  bound_after = g.bound_after ∙ f.bound_after;
}

push-Fills :
    (event : Value) (sink : HttpSinkAdapter)
    → Fills (event ∷ []) sink (record sink { queue = sink.queue ++ (event ∷ []) })
push-Fills event sink = record {
  held_after = sym (append_assoc (chunk_of sink.in_flight) sink.queue (event ∷ []));
  queue_after = omega (arith, length-append sink.queue (event ∷ []));
  bound_after = refl;
}

sink_ingest-Fills :
    (now : ℕ) (event : Value) (sink : HttpSinkAdapter)
    → IsEnvelope event
    → length sink.queue < sink.max_queue_size
    → ((sink_ingest now event sink).1 ≡ true)
      × Fills (event ∷ []) sink (sink_ingest now event sink).0
unfolding sink_ingest enqueue
sink_ingest-Fills now event sink fits room =
    let pushed = record sink { queue = sink.queue ++ (event ∷ []) } in
    let free : leb sink.max_queue_size (length sink.queue) ≡ false = ground (arith, room) in
    elim (Bool-cases (leb sink.batch_size (length pushed.queue))) [
      | inl whole ↦
          rw (fits, free, whole)
            (
              refl,
              Fills-trans (event ∷ []) [] sink pushed _ (push-Fills event sink)
                  (flush_begin-Fills now pushed),
            )
      | inr part ↦ rw (fits, free, part) (refl, push-Fills event sink)
    ]

pub ingest_each-Fills :
    (now : ℕ) (events : List Value) (sink : HttpSinkAdapter)
    → All IsEnvelope events
    → length sink.queue + length events ≤ sink.max_queue_size
    → All (λ ok. ok ≡ true) (ingest_each now events sink).1
      × Fills events sink (ingest_each now events sink).0
unfolding ingest_each
ingest_each-Fills now [] sink fits room = (
  tt,
  record {
    held_after = sym (append-nil (held sink));
    queue_after = omega arith;
    bound_after = refl;
  },
)
ingest_each-Fills now (event ∷ events) sink (this, fits) room =
    let (ok, first) = sink_ingest-Fills now event sink this (omega (arith, room)) in
    let sink' = (sink_ingest now event sink).0 in
    let (oks, later) =
      ingest_each-Fills now events sink' fits
        (omega (arith, room, first.queue_after, first.bound_after)) in
    ((ok, oks), Fills-trans (event ∷ []) events sink sink' _ first later)
