-- ===== src/Sink/Close.antt =====
-- The loop of `close` ends, and loses nothing.
use mathlib.Core.List.{append_assoc}
use patze_control.Base.{
  ℕ, zero, suc, ◌+◌, ◌≤◌, Option, some, List, [], ◌++◌, length, length-drop, take, ltb, eqb,
  Bool-cases, Option-cases, ◌≡◌, ◌⊎◌, refl, ap, ◌∙◌, inl, inr, arith,
}
use patze_control.Value.{Value}
use patze_control.Sink.Post.{Server, post_with_retry}
use patze_control.Sink.Rounds.{HasBatchRoute, post_with_retry_once}
use patze_control.Sink.Queue.{
  HttpSinkAdapter, flush_begin, flush_end, flush, persist_queue, close_from, close,
}
use patze_control.Sink.Order.{take-drop}

-- A flush hands over a part of the queue's front, or leaves the queue as it is.
flush_cases :
    (server : Server) (now : ℕ) (sink : HttpSinkAdapter)
    → HasBatchRoute server
    → 1 ≤ sink.batch_size
    → let (flushed, received) = flush server now sink in
      (flushed.batch_size ≡ sink.batch_size)
      × (received ++ flushed.queue ≡ sink.queue)
      × ((flushed.queue ≡ sink.queue) ⊎ (length flushed.queue + 1 ≤ length sink.queue))
unfolding flush flush_begin flush_end
flush_cases server now sink route size =
    let b = sink.batch_size in
    let q = sink.queue in
    let chunk = take b q in
    let once = post_with_retry_once server sink.max_retries chunk route in
    elim (Option-cases sink.in_flight) [
      | inr (held, busy) ↦ ground arith
      | inl idle ↦ elim (Bool-cases (eqb (length q) 0)) [
        | inl empty ↦ ground arith
        | inr full ↦ elim (Bool-cases (ltb now sink.circuit_open_until_ms)) [
          | inl tripped ↦ ground arith
          | inr closed ↦ elim (Bool-cases (post_with_retry server sink.max_retries chunk).ok) [
            | inl done ↦ ground (arith, take-drop b q, length-drop b q)
            | inr failure ↦ ground (arith, take-drop b q)
          ]
        ]
      ]
    ]

-- What the loop of `close` gives: the server has the front of the queue, the sink holds the rest.
abbrev pub Leaves : HttpSinkAdapter → Option (HttpSinkAdapter × List Value) → Type 0
Leaves sink out =
    (closed : HttpSinkAdapter) × (received : List Value) × (out ≡ some (closed, received))
    × (received ++ closed.queue ≡ sink.queue)

close_from_ends :
    (servers : ℕ → Server) (clock : ℕ → ℕ) (rounds : ℕ) (sink : HttpSinkAdapter)
    → ((i : ℕ) → HasBatchRoute (servers i))
    → 1 ≤ sink.batch_size
    → length sink.queue ≤ rounds
    → Leaves sink (close_from servers clock rounds sink)
unfolding close_from
close_from_ends servers clock zero sink routes size enough = (sink, [], ground arith, refl)
close_from_ends servers clock (suc rounds) sink routes size enough =
    let f = flush (servers rounds) (clock rounds) sink in
    let flushed = f.0 in
    let (same_size, moved, shorter) =
      flush_cases (servers rounds) (clock rounds) sink (routes rounds) size in
    elim (Bool-cases (eqb (length sink.queue) 0)) [
      | inl empty ↦ (sink, [], rw (close_from, empty) refl, refl)
      | inr full ↦ elim (Bool-cases (eqb (length flushed.queue) (length sink.queue))) [
        | inl stuck ↦ (flushed, f.1, rw (close_from, full, stuck) refl, moved)
        | inr less ↦
            let (closed, more, ends, kept) =
              close_from_ends servers clock rounds flushed routes (ground arith) (ground arith) in
            (
              closed,
              f.1 ++ more,
              rw (close_from, full, less, ends) refl,
              append_assoc f.1 more closed.queue ∙ ap (λ l. f.1 ++ l) kept ∙ moved,
            )
      ]
    ]

persist_queue-queue : (sink : HttpSinkAdapter) → (persist_queue sink).queue ≡ sink.queue
unfolding persist_queue
persist_queue-queue sink = ground arith

-- Where the server knows the batch route, `close` ends after as many flushes as the queue has events
-- at most, whatever the server answers, and every event of the queue is then either with the server
-- or still in the queue, in its order.
pub close_ends :
    (servers : ℕ → Server) (clock : ℕ → ℕ) (rounds : ℕ) (sink : HttpSinkAdapter)
    → ((i : ℕ) → HasBatchRoute (servers i))
    → 1 ≤ sink.batch_size
    → length sink.queue ≤ rounds
    → Leaves sink (close servers clock rounds sink)
unfolding close
close_ends servers clock rounds sink routes size enough =
    let (closed, received, ends, kept) =
      close_from_ends servers clock rounds sink routes size enough in
    (
      persist_queue closed,
      received,
      rw (close, ends) refl,
      ap (λ l. received ++ l) (persist_queue-queue closed) ∙ kept,
    )
