-- ===== src/Sink/Order.antt =====
-- No accepted event is lost or overtaken in the sink, and its memory is bounded.
use mathlib.Core.List.{append_assoc, append-nil}
use patze_control.Base.{
  ℕ, zero, suc, ◌+◌, ◌≤◌, ◌<◌, Bool, true, false, Option, none, some, is_some, List, [], ◌∷◌, ◌++◌,
  length, length-append, length-take, length-drop, take, drop, keep, eqb, subst, ◌⊎◌, leb,
  if◌then◌else◌, Bool-cases, Option-cases, ◌≡◌, refl, sym, ap, inl, inr, arith,
}
use patze_control.Value.{Value}
use patze_control.Sink.Queue.{
  HttpSinkAdapter, flush_begin, flush_end, hydrate_from, is_envelope, persist_queue, sink_ingest,
}

-- What the code around the sink does: it hands over an event, the timer starts a flush, the posting
-- of the chunk in flight ends, the hydration that the constructor starts has read these items, or the
-- queue is written to the spool.
pub data SinkCall : Type 0 where
  ingests : ℕ → Value → SinkCall
  begins : ℕ → SinkCall
  ends : ℕ → Bool → SinkCall
  hydrates : List Value → SinkCall
  persists : SinkCall

-- The sink with the events that it has accepted or read back, those whose chunk has been posted, and
-- whether the constructor's hydration is over.
pub record History : Type 0 where
  pub sink : HttpSinkAdapter
  pub accepted : List Value
  pub posted : List Value
  pub hydrated : Bool

abbrev pub chunk_of : Option (List Value) → List Value
chunk_of none = []
chunk_of (some chunk) = chunk

abbrev if_accepted : Bool → Value → List Value
if_accepted ok event = if ok then event ∷ [] else []

unfoldable pub sink_step : History → SinkCall → History
sink_step h (ingests now event) =
    let (sink', ok) = sink_ingest now event h.sink in
    record h { sink = sink'; accepted = h.accepted ++ if_accepted ok event }
sink_step h (begins now) = record h { sink = flush_begin now h.sink }
sink_step h (ends now ok) = record h {
  sink = flush_end now ok h.sink;
  posted = h.posted ++ (if ok then chunk_of h.sink.in_flight else []);
}
sink_step h (hydrates items) =
    let valid = keep is_envelope items in
    if h.hydrated then h else record h {
      sink = hydrate_from valid h.sink;
      accepted = h.accepted ++ take h.sink.max_queue_size valid;
      hydrated = true;
    }
sink_step h persists = record h { sink = persist_queue h.sink }

unfoldable pub sink_run : History → List SinkCall → History
sink_run h [] = h
sink_run h (c ∷ cs) = sink_run (sink_step h c) cs

-- The events that the sink holds, in the order in which they will be posted.
abbrev pub held : HttpSinkAdapter → List Value
held sink = chunk_of sink.in_flight ++ sink.queue

-- What the queue can hold: the hydration does not look at what is in it.
abbrev pub queue_limit : History → ℕ
queue_limit h =
    if h.hydrated then h.sink.max_queue_size + h.sink.max_queue_size else h.sink.max_queue_size

pub record IsConserved (h : History) : Type 0 where
  pub conserved : h.posted ++ held h.sink ≡ h.accepted
  pub small_chunk : length (chunk_of h.sink.in_flight) ≤ h.sink.batch_size
  pub room :
      length (chunk_of h.sink.in_flight) + length h.sink.queue ≤ queue_limit h + h.sink.batch_size
  pub busy : is_some h.sink.in_flight ≡ true → length h.sink.queue ≤ queue_limit h

pub take-drop : (n : ℕ) (xs : List Value) → take n xs ++ drop n xs ≡ xs
take-drop zero xs = refl
take-drop (suc n) [] = refl
take-drop (suc n) (x ∷ xs) = ap (λ l. x ∷ l) (take-drop n xs)

take_none : (n : ℕ) (xs : List Value) → eqb (length xs) 0 ≡ true → take n xs ≡ []
take_none zero [] e = refl
take_none (suc n) [] e = refl
take_none n (x ∷ xs) e = absurd (ground arith)

flush_begin-IsConserved :
    (now : ℕ) (h : History)
    → IsConserved h
    → IsConserved (record h { sink = flush_begin now h.sink })
unfolding flush_begin
flush_begin-IsConserved now h c =
    let b = h.sink.batch_size in
    let q = h.sink.queue in ground (arith, take-drop b q, length-take b q, length-drop b q)

flush_end-IsConserved :
    (now : ℕ) (ok : Bool) (h : History) → IsConserved h → IsConserved (sink_step h (ends now ok))
unfolding sink_step flush_end
flush_end-IsConserved now ok h c = elim (Option-cases h.sink.in_flight) [
  | inl idle ↦ ground (arith, append-nil h.posted)
  | inr (chunk, busy) ↦ ground (
    arith,
    append-nil h.posted,
    append_assoc h.posted chunk h.sink.queue,
    length-append chunk h.sink.queue,
  )
]

push-IsConserved :
    (event : Value) (h : History)
    → IsConserved h
    → length h.sink.queue < h.sink.max_queue_size
    → IsConserved (record h {
      sink = record h.sink { queue = h.sink.queue ++ (event ∷ []) };
      accepted = h.accepted ++ (event ∷ []);
    })
push-IsConserved event h c room = ground (
  arith,
  length-append h.sink.queue (event ∷ []),
  append_assoc (chunk_of h.sink.in_flight) h.sink.queue (event ∷ []),
  append_assoc h.posted (held h.sink) (event ∷ []),
)

-- The three ends of `ingest`.
sink_ingest_cases :
    (now : ℕ) (event : Value) (sink : HttpSinkAdapter)
    → let pushed = record sink { queue = sink.queue ++ (event ∷ []) } in
      (sink_ingest now event sink ≡ (sink, false))
      ⊎ ((length sink.queue < sink.max_queue_size)
          × ((sink_ingest now event sink ≡ (pushed, true))
              ⊎ (sink_ingest now event sink ≡ (flush_begin now pushed, true))))
unfolding sink_ingest
sink_ingest_cases now event sink = elim (Bool-cases (is_envelope event)) [
  | inr other ↦ inl (rw other refl)
  | inl fits ↦ elim (Bool-cases (leb sink.max_queue_size (length sink.queue))) [
    | inl full ↦ inl (rw (fits, full) refl)
    | inr free ↦ inr (
      ground arith,
      elim (Bool-cases (leb sink.batch_size (length (sink.queue ++ (event ∷ []))))) [
        | inl whole ↦ inr (rw (fits, free, whole) refl)
        | inr part ↦ inl (rw (fits, free, part) refl)
      ],
    )
  ]
]

ingest-IsConserved :
    (now : ℕ) (event : Value) (h : History)
    → IsConserved h
    → IsConserved (sink_step h (ingests now event))
unfolding sink_step
ingest-IsConserved now event h c = elim (sink_ingest_cases now event h.sink) [
  | inl q ↦ after q (rw (append-nil h.accepted) c)
  | inr (room, inl q) ↦ after q (push-IsConserved event h c room)
  | inr (room, inr q) ↦ after q (flush_begin-IsConserved now _ (push-IsConserved event h c room))
]
  where
    after :
        {p : HttpSinkAdapter × Bool}
        → sink_ingest now event h.sink ≡ p
        → IsConserved (record h { sink = p.0; accepted = h.accepted ++ if_accepted p.1 event })
        → IsConserved (record h {
          sink = (sink_ingest now event h.sink).0;
          accepted = h.accepted ++ if_accepted (sink_ingest now event h.sink).1 event;
        })
    after q k =
        subst
          (λ r.
            IsConserved (record h { sink = r.0; accepted = h.accepted ++ if_accepted r.1 event }))
          (sym q) k

-- Only the queue, the chunk and the bounds matter.
moved-IsConserved :
    (h : History) (sink : HttpSinkAdapter) (queue : List Value)
    → sink.queue ≡ queue
    → sink.in_flight ≡ h.sink.in_flight
    → sink.batch_size ≡ h.sink.batch_size
    → sink.max_queue_size ≡ h.sink.max_queue_size
    → IsConserved (record h { sink = record h.sink { queue = queue } })
    → IsConserved (record h { sink = sink })
moved-IsConserved h sink queue q f b m c = record {
  conserved = rw (q, f) c.conserved;
  small_chunk = rw (f, b) c.small_chunk;
  room = rw (q, f, b, m) c.room;
  busy = rw (q, f, m) c.busy;
}

hydrated-IsConserved :
    (limited : List Value) (h : History)
    → h.hydrated ≡ false
    → length limited ≤ h.sink.max_queue_size
    → IsConserved h
    → IsConserved (record h {
      sink = record h.sink { queue = h.sink.queue ++ limited };
      accepted = h.accepted ++ limited;
      hydrated = true;
    })
hydrated-IsConserved limited h first short c = ground (
  arith,
  length-append h.sink.queue limited,
  append_assoc (chunk_of h.sink.in_flight) h.sink.queue limited,
  append_assoc h.posted (held h.sink) limited,
)

hydrate_from-queue :
    (valid : List Value) (sink : HttpSinkAdapter)
    → (hydrate_from valid sink).queue ≡ sink.queue ++ take sink.max_queue_size valid
hydrate_from-queue valid sink = elim (Bool-cases (eqb (length valid) 0)) [
  | inl nothing ↦ ground (arith, append-nil sink.queue, take_none sink.max_queue_size valid nothing)
  | inr filled ↦ ground arith
]

hydrate-IsConserved :
    (items : List Value) (h : History) → IsConserved h → IsConserved (sink_step h (hydrates items))
unfolding sink_step
hydrate-IsConserved items h c =
    let valid = keep is_envelope items in
    let limited = take h.sink.max_queue_size valid in
    elim (Bool-cases h.hydrated) [
      | inl over ↦ simp over c
      | inr first ↦ simp first (
          moved-IsConserved (record h { accepted = h.accepted ++ limited; hydrated = true })
            (hydrate_from valid h.sink) (h.sink.queue ++ limited) (hydrate_from-queue valid h.sink)
            (ground arith) (ground arith) (ground arith)
            (hydrated-IsConserved limited h first
              (omega (arith, length-take h.sink.max_queue_size valid)) c))
    ]

persist-IsConserved : (h : History) → IsConserved h → IsConserved (sink_step h persists)
unfolding sink_step persist_queue
persist-IsConserved h c =
    moved-IsConserved h (persist_queue h.sink) h.sink.queue (ground arith) (ground arith)
      (ground arith) (ground arith) c

-- Whatever calls come in whatever order, the one hydration of the sink among them, the posted events,
-- the chunk in flight and the queue together are the events accepted or read back, in their order:
-- none is lost, doubled or overtaken. The sink holds a batch more than its `maxQueueSize` at most, and
-- once it is hydrated a batch more than twice that.
pub sink_run-IsConserved :
    (h : History) (cs : List SinkCall) → IsConserved h → IsConserved (sink_run h cs)
unfolding sink_run
sink_run-IsConserved h [] c = c
sink_run-IsConserved h (ingests now event ∷ cs) c =
    sink_run-IsConserved (sink_step h (ingests now event)) cs (ingest-IsConserved now event h c)
sink_run-IsConserved h (begins now ∷ cs) c =
    sink_run-IsConserved (sink_step h (begins now)) cs
      (unfold sink_step in flush_begin-IsConserved now h c)
sink_run-IsConserved h (ends now ok ∷ cs) c =
    sink_run-IsConserved (sink_step h (ends now ok)) cs (flush_end-IsConserved now ok h c)
sink_run-IsConserved h (hydrates items ∷ cs) c =
    sink_run-IsConserved (sink_step h (hydrates items)) cs (hydrate-IsConserved items h c)
sink_run-IsConserved h (persists ∷ cs) c =
    sink_run-IsConserved (sink_step h persists) cs (persist-IsConserved h c)
