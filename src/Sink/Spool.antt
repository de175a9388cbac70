-- ===== src/Sink/Spool.antt =====
-- The queue survives a restart through the spool file.
use patze_control.Base.{
  ℕ, ◌≤◌, zero, suc, true, String, map, List, [], ◌∷◌, length, take, keep, All, ◌≡◌, refl, ap,
  arith,
}
use patze_control.Value.{Value}
use patze_control.Value.Json.{is_json, json_value, json_value-is_json}
use patze_control.Sink.Queue.{
  HttpSinkAdapterOptions, HttpSinkAdapter, new_sink, is_envelope, persist_queue, hydrate_queue,
}

abbrev pub IsEnvelope : Value → Type 0
IsEnvelope value = is_envelope value ≡ true

keep-envelopes : (xs : List Value) → All IsEnvelope xs → keep is_envelope xs ≡ xs
keep-envelopes [] all = refl
keep-envelopes (x ∷ xs) (fits, all) = ground (arith, keep-envelopes xs all)

abbrev pub IsJson : Value → Type 0
IsJson value = is_json value ≡ true

map-json_value :
    (to_iso_string : ℕ → String) (xs : List Value)
    → All IsJson xs
    → map (json_value to_iso_string) xs ≡ xs
map-json_value to_iso_string [] js = refl
map-json_value to_iso_string (x ∷ xs) (j, js) =
    rw (json_value-is_json to_iso_string x j, map-json_value to_iso_string xs js) refl

take_all : (n : ℕ) (xs : List Value) → length xs ≤ n → take n xs ≡ xs
take_all zero [] h = refl
take_all zero (x ∷ xs) h = ground arith
take_all (suc n) [] h = refl
take_all (suc n) (x ∷ xs) h = ap (λ l. x ∷ l) (take_all n xs (omega arith))

-- A sink that is made anew over the spool that another one has written takes over its whole queue,
-- in its order, where the queue holds envelopes of values that JSON can hold and fits into the new
-- sink's bound.
pub queue_survives_restart :
    (to_iso_string : ℕ → String) (options : HttpSinkAdapterOptions) (sink : HttpSinkAdapter)
    → options.has_spool ≡ true
    → sink.has_spool ≡ true
    → All IsEnvelope sink.queue
    → All IsJson sink.queue
    → length sink.queue ≤ (new_sink options (persist_queue sink).spool).max_queue_size
    → (hydrate_queue to_iso_string (new_sink options (persist_queue sink).spool)).queue ≡ sink.queue
unfolding new_sink persist_queue hydrate_queue
queue_survives_restart to_iso_string options sink spools spooled envelopes json fits = ground (
  arith,
  map-json_value to_iso_string sink.queue json,
  keep-envelopes sink.queue envelopes,
  take_all (new_sink options (persist_queue sink).spool).max_queue_size sink.queue fits,
)
