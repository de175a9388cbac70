-- ===== src/Telemetry/Log.antt =====
-- The log and the bus: bounds, batches, and delivery to every listener.
use patze_control.Base.{
  ℕ, zero, suc, ◌+◌, ◌-◌, ◌≤◌, min, List, [], ◌∷◌, ◌++◌, map, ltb, length, length-append,
  length-drop, drop, Bool-cases, ◌≡◌, refl, sym, ap, ◌∙◌, inl, inr, arith,
}
use mathlib.Core.List.{append_assoc, append-nil}
use patze_control.Telemetry.Events.{TelemetryEvent, clone_and_freeze_event}
use patze_control.Telemetry.EventStore.{
  EventStore, emit, emit_all, evict_if_needed, append, append_many,
}

drop-all : (xs : List TelemetryEvent) (n : ℕ) → length xs ≤ n → drop n xs ≡ []
drop-all [] zero h = refl
drop-all [] (suc n) h = refl
drop-all (x ∷ xs) zero h = absurd (omega arith)
drop-all (x ∷ xs) (suc n) h = drop-all xs n (omega arith)

-- The newest entries of a log, as many as the bound allows.
unfoldable pub newest : ℕ → List TelemetryEvent → List TelemetryEvent
newest n xs = drop (length xs - n) xs

pub evict-newest : (n : ℕ) (xs : List TelemetryEvent) → evict_if_needed n xs ≡ newest n xs
unfolding evict_if_needed newest
evict-newest n xs = elim (Bool-cases (ltb n (length xs))) [
  | inl t ↦ rw t refl
  | inr t ↦ rw t (let e : length xs - n ≡ 0 = ground arith in rw e refl)
]

pub length-newest : (n : ℕ) (xs : List TelemetryEvent) → length (newest n xs) ≡ min n (length xs)
unfolding newest
length-newest n xs = omega (arith, length-drop (length xs - n) xs)

drop-append :
    (k : ℕ) (xs ys : List TelemetryEvent) → k ≤ length xs → drop k (xs ++ ys) ≡ drop k xs ++ ys
drop-append zero xs ys h = refl
drop-append (suc k) [] ys h = absurd (omega arith)
drop-append (suc k) (x ∷ xs) ys h = drop-append k xs ys (omega arith)

drop-drop : (k j : ℕ) (xs : List TelemetryEvent) → drop k (drop j xs) ≡ drop (j + k) xs
drop-drop k zero xs = let e : 0 + k ≡ k = omega arith in rw e refl
drop-drop k (suc j) (x ∷ xs) =
    let e : suc j + k ≡ suc (j + k) = omega arith in rw e (drop-drop k j xs)
drop-drop zero (suc j) [] = let e : suc j + 0 ≡ suc j = omega arith in rw e refl
drop-drop (suc k) (suc j) [] = let e : suc j + suc k ≡ suc (j + suc k) = omega arith in rw e refl

-- Trimming before more entries come in changes nothing.
pub newest-append :
    (n : ℕ) (xs ys : List TelemetryEvent) → newest n (newest n xs ++ ys) ≡ newest n (xs ++ ys)
unfolding newest
newest-append n xs ys =
    let a = length xs in
    let b = length ys in
    let first : drop (a - n) xs ++ ys ≡ drop (a - n) (xs ++ ys) =
      sym (drop-append (a - n) xs ys (omega arith)) in
    rw first (
      drop-drop _ (a - n) (xs ++ ys)
      ∙ ap (λ k. drop k (xs ++ ys))
          (omega (arith, length-append xs ys, length-drop (a - n) (xs ++ ys))))

pub newest_all : (n : ℕ) (xs : List TelemetryEvent) → length xs ≤ n → newest n xs ≡ xs
unfolding newest
newest_all n xs h = let e : length xs - n ≡ 0 = omega arith in rw e refl

pub newest_idem : (n : ℕ) (xs : List TelemetryEvent) → newest n (newest n xs) ≡ newest n xs
newest_idem n xs = newest_all n (newest n xs) (omega (arith, length-newest n xs))

module _ {ℓ} {W : Type ℓ} where
  -- Append the events one at a time.
  unfoldable pub append_each : List TelemetryEvent → EventStore W → W → EventStore W × W
  append_each [] store w = (store, w)
  append_each (event ∷ events) store w =
      let (store', w', stored) = append event store w in append_each events store' w'

  append_each-log :
      (events : List TelemetryEvent) (store : EventStore W) (w : W)
      → newest store.max_log_size store.log ≡ store.log
      → append_each events store w ≡ (
        record store {
          log = newest store.max_log_size (store.log ++ map clone_and_freeze_event events);
        },
        emit_all store.listeners (map clone_and_freeze_event events) w,
      )
  unfolding append_each append emit_all
  append_each-log [] store w h = rw (append-nil store.log, h) refl
  append_each-log (event ∷ events) store w h =
      let n = store.max_log_size in
      let stored = clone_and_freeze_event event in
      let rest = map clone_and_freeze_event events in
      rw (evict-newest n (store.log ++ (stored ∷ []))) (
        append_each-log events (record store { log = newest n (store.log ++ (stored ∷ [])) })
          (emit store.listeners stored w) (newest_idem n _)
        ∙ ap
            (λ l. (
              record store { log = l },
              emit_all store.listeners rest (emit store.listeners stored w),
            ))
            (newest-append n (store.log ++ (stored ∷ [])) rest
              ∙ ap (newest n) (append_assoc store.log (stored ∷ []) rest)))

  -- A batch leaves the store, and what its listeners act on, as the same events appended one at a
  -- time do, for a log within its bound.
  pub append_many-append_each :
      (events : List TelemetryEvent) (store : EventStore W) (w : W)
      → length store.log ≤ store.max_log_size
      → let (store', w', appended) = append_many events store w in
        append_each events store w ≡ (store', w')
  unfolding append_many
  append_many-append_each events store w h =
      append_each-log events store w (newest_all store.max_log_size store.log h)
      ∙ ap
          (λ l. (
            record store { log = l },
            emit_all store.listeners (map clone_and_freeze_event events) w,
          ))
          (sym (evict-newest store.max_log_size _))

  -- An append keeps the newest entries within the bound, the new one last.
  pub append-log :
      (event : TelemetryEvent) (store : EventStore W) (w : W)
      → let log' = (append event store w).0.log in
        (log' ≡ newest store.max_log_size (store.log ++ (clone_and_freeze_event event ∷ [])))
        × (length log' ≤ store.max_log_size)
  unfolding append
  append-log event store w =
      let e = evict-newest store.max_log_size (store.log ++ (clone_and_freeze_event event ∷ [])) in
      (
        e,
        rw e (
            omega (
              arith,
              length-newest store.max_log_size (store.log ++ (clone_and_freeze_event event ∷ [])),
            )),
      )
