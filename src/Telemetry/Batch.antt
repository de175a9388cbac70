-- ===== src/Telemetry/Batch.antt =====
-- What one input and a batch of inputs do to the store and to its listeners.
use mathlib.Core.List.{append_assoc, append-nil}
use patze_control.Base.{
  ◌+◌, ◌≤◌, List, [], ◌∷◌, ◌++◌, length, ◌≡◌, ◌⊎◌, refl, sym, ap, ◌∙◌, inl, inr, arith,
}
use patze_control.Value.{Value}
use patze_control.Telemetry.Events.{TelemetryEvent, clone_and_freeze_event}
use patze_control.Telemetry.EventStore.{EventStore, append, emit, emit_all}
use patze_control.Telemetry.Timestamps.{Runtime}
use patze_control.Telemetry.Ingestor.{
  IngestError, Result, ok, fail, check_input, ingest, ingest_many,
}
use patze_control.Telemetry.Log.{newest, newest_all, newest_idem, newest-append, evict-newest}

pub Result-cases {ℓ} :
    {A : Type ℓ} (r : Result A) → ((a : A) × (r ≡ ok a)) ⊎ ((e : IngestError) × (r ≡ fail e))
Result-cases (ok a) = inl (a, refl)
Result-cases (fail e) = inr (e, refl)

module _ {ℓ} {W : Type ℓ} (runtime : Runtime) where
  -- An input is either accepted, and its frozen event is stored, emitted and returned, or rejected
  -- with the error of the tests, and then the store and what its listeners act on stay as they are.
  pub ingest_cases :
      (store : EventStore W) (w : W) (value : Value)
      → ((event : TelemetryEvent) × (check_input runtime value ≡ ok event)
          × (ingest runtime store w value ≡ (
            record store {
              log = newest store.max_log_size (store.log ++ (clone_and_freeze_event event ∷ []));
            },
            emit store.listeners (clone_and_freeze_event event) w,
            ok (clone_and_freeze_event event),
          )))
        ⊎ ((e : IngestError) × (check_input runtime value ≡ fail e)
            × (ingest runtime store w value ≡ (store, w, fail e)))
  unfolding ingest append
  ingest_cases store w value = elim (Result-cases (check_input runtime value)) [
    | inl (event, p) ↦
        let stored = clone_and_freeze_event event in
        inl (
          event,
          p,
          rw p (
              ap (λ l. (record store { log = l }, emit store.listeners stored w, ok stored))
                (evict-newest store.max_log_size _)),
        )
    | inr (e, p) ↦ inr (e, p, rw p refl)
  ]

  -- The store, the world and the two lists that a batch gives.
  abbrev pub BatchGives :
      EventStore W
      → W
      → List Value
      → EventStore W × W × (List TelemetryEvent × List IngestError)
      → Type ℓ
  BatchGives store w values out =
      (out.0 ≡ record store { log = newest store.max_log_size (store.log ++ out.2.0) })
      × (out.1 ≡ emit_all store.listeners out.2.0 w)
      × (length out.2.0 + length out.2.1 ≡ length values)

  batch :
      (values : List Value) (store : EventStore W) (w : W)
      → newest store.max_log_size store.log ≡ store.log
      → BatchGives store w values (ingest_many runtime store w values)
  unfolding ingest_many emit_all
  batch [] store w h = (
    ap (λ l. record store { log = l })
        (sym h ∙ ap (newest store.max_log_size) (sym (append-nil store.log))),
    refl,
    omega arith,
  )
  batch (value ∷ values) store w h = elim (ingest_cases store w value) [
    | inl (event, p, q) ↦
        let n = store.max_log_size in
        let stored = clone_and_freeze_event event in
        let store1 : EventStore W = record store { log = newest n (store.log ++ (stored ∷ [])) } in
        let w1 = emit store.listeners stored w in
        let (a, b, c) = batch values store1 w1 (newest_idem n _) in
        rw q (
          a
              ∙ ap (λ l. record store { log = l })
                  (newest-append n (store.log ++ (stored ∷ [])) _
                    ∙ ap (newest n) (append_assoc store.log (stored ∷ []) _)),
          b,
          omega (arith, c),
        )
    | inr (e, p, q) ↦ let (a, b, c) = batch values store w h in rw q (a, b, omega (arith, c))
  ]

  -- A batch stores the accepted events in order behind the log, within its bound, hands each of them
  -- to all listeners in that order, and answers every input once. The log is within its bound before.
  pub ingest_many-batch :
      (values : List Value) (store : EventStore W) (w : W)
      → length store.log ≤ store.max_log_size
      → BatchGives store w values (ingest_many runtime store w values)
  ingest_many-batch values store w h =
      batch values store w (newest_all store.max_log_size store.log h)
