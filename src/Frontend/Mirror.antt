-- ===== src/Frontend/Mirror.antt =====
-- Two maps that say the same, entry by entry.
use patze_control.Base.{
  Option, none, some, String, ◌==◌, eq_iff, List, [], ◌∷◌, Bool-cases, ◌≡◌, refl, ap, inl, inr,
}
use patze_control.Value.{Value, text, same_key}
use patze_control.Telemetry.Projections.{map_get, map_set}
use patze_control.Mapper.Types.{lookup, insert}

module _ {P S : Type 0} (R : P → S → Type 0) where
  -- The entries agree, and so do their keys.
  abbrev pub Mirrors : List (Value × P) → List (String × S) → Type 0
  Mirrors [] [] = Unit
  Mirrors [] (f ∷ fs) = ⊥
  Mirrors (e ∷ es) [] = ⊥
  Mirrors (e ∷ es) (f ∷ fs) = (e.0 ≡ text f.0) × R e.1 f.1 × Mirrors es fs

  abbrev pub OptionAgrees : Option P → Option S → Type 0
  OptionAgrees none none = Unit
  OptionAgrees none (some s) = ⊥
  OptionAgrees (some p) none = ⊥
  OptionAgrees (some p) (some s) = R p s

  pub map_get-lookup :
      (k : String) (es : List (Value × P)) (fs : List (String × S))
      → Mirrors es fs
      → OptionAgrees (map_get (text k) es) (lookup k fs)
  unfolding map_get lookup same_key
  map_get-lookup k [] [] m = tt
  map_get-lookup k [] (f ∷ fs) m = absurd m
  map_get-lookup k (e ∷ es) [] m = absurd m
  map_get-lookup k ((j, p) ∷ es) ((i, s) ∷ fs) (key, this, m) = rw key (elim (Bool-cases (i == k)) [
    | inl here ↦ rw here this
    | inr later ↦ rw later (map_get-lookup k es fs m)
  ])

  pub map_set-insert :
      (k : String) (p : P) (s : S) (es : List (Value × P)) (fs : List (String × S))
      → Mirrors es fs
      → R p s
      → Mirrors (map_set (text k) p es) (insert k s fs)
  unfolding map_set insert same_key
  map_set-insert k p s [] [] m r = (refl, r, tt)
  map_set-insert k p s [] (f ∷ fs) m r = absurd m
  map_set-insert k p s (e ∷ es) [] m r = absurd m
  map_set-insert k p s ((j, q) ∷ es) ((i, t) ∷ fs) (key, this, m) r =
      rw key (elim (Bool-cases (i == k)) [
        | inl here ↦ rw here (ap text ((eq_iff i k).0 here), r, m)
        | inr later ↦ rw later (refl, this, map_set-insert k p s es fs m r)
      ])
