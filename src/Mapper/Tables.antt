-- ===== src/Mapper/Tables.antt =====
-- Maps with distinct keys.
use patze_control.Base.{
  Bool, false, none, some, String, ◌==◌, eq_iff, List, [], ◌∷◌, keep, Bool-cases, ◌≡◌, refl, ◌∙◌,
  subst, inl, inr, arith,
}
use patze_control.Mapper.Types.{lookup, insert}

pub differ_sym : (s t : String) → (s == t) ≡ false → (t == s) ≡ false
differ_sym s t e = ground (arith, eq_iff s t, eq_iff t s)

module _ {ℓ} {V : Type ℓ} where
  abbrev pub HasUniqueKeys : List (String × V) → Type ℓ
  HasUniqueKeys [] = Unit
  HasUniqueKeys (e ∷ es) = (lookup e.0 es ≡ none) × HasUniqueKeys es

  pub lookup-insert_same :
      (k : String) (v : V) (m : List (String × V)) → lookup k (insert k v m) ≡ some v
  unfolding lookup insert
  lookup-insert_same k v [] = ground (arith, eq_iff k k)
  lookup-insert_same k v (e ∷ es) = ground (arith, eq_iff k k, lookup-insert_same k v es)

  pub lookup-insert_other :
      (k j : String) (v : V) (m : List (String × V))
      → (k == j) ≡ false
      → lookup j (insert k v m) ≡ lookup j m
  unfolding lookup insert
  lookup-insert_other k j v [] d = ground arith
  lookup-insert_other k j v (e ∷ es) d = ground (arith, eq_iff e.0 k, lookup-insert_other k j v es)

  pub insert-HasUniqueKeys :
      (k : String) (v : V) (m : List (String × V)) → HasUniqueKeys m → HasUniqueKeys (insert k v m)
  unfolding lookup insert
  insert-HasUniqueKeys k v [] u = (refl, tt)
  insert-HasUniqueKeys k v (e ∷ es) (new, u) = elim (Bool-cases (e.0 == k)) [
    | inl same ↦ rw (insert, same) (subst (λ j. lookup j es ≡ none) ((eq_iff e.0 k).0 same) new, u)
    | inr other ↦
        rw (insert, other)
          (
            lookup-insert_other k e.0 v es (differ_sym e.0 k other) ∙ new,
            insert-HasUniqueKeys k v es u,
          )
  ]

  lookup-keep :
      (p : String × V → Bool) (k : String) (m : List (String × V))
      → lookup k m ≡ none
      → lookup k (keep p m) ≡ none
  unfolding lookup
  lookup-keep p k [] h = refl
  lookup-keep p k (e ∷ es) h = ground (arith, lookup-keep p k es)

  pub keep-HasUniqueKeys :
      (p : String × V → Bool) (m : List (String × V)) → HasUniqueKeys m → HasUniqueKeys (keep p m)
  keep-HasUniqueKeys p [] u = tt
  keep-HasUniqueKeys p (e ∷ es) (new, u) = elim (Bool-cases (p e)) [
    | inl kept ↦ rw kept (lookup-keep p e.0 es new, keep-HasUniqueKeys p es u)
    | inr dropped ↦ rw dropped (keep-HasUniqueKeys p es u)
  ]
