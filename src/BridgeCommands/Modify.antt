-- ===== src/BridgeCommands/Modify.antt =====
-- What a method's find-and-write does to the list of commands, for any test and any outcome.
use patze_control.Base.{
  ℕ, zero, suc, Bool, true, false, none, some, List, [], ◌∷◌, ◌++◌, find_index, get_elem?, set, All,
  Bool-cases, ◌≡◌, refl, sym, subst, ◌⊎◌, inl, inr, arith,
}
use mathlib.Core.Option.{some-injective}
use patze_control.BridgeCommands.Types.{BridgeCommandRecord}
use patze_control.BridgeCommands.Store.{
  BridgeCommandStore, Outcome, refuse, unchanged, put, modify, modify_at, conclude,
}
use patze_control.BridgeCommands.Methods.{expire_all, expire_command, expire_leases, is_overdue}

-- `ys` is `xs` with each entry replaced by one that `R` allows, and perhaps more entries behind.
abbrev pub Extends :
    (BridgeCommandRecord → BridgeCommandRecord → Type 0)
    → List BridgeCommandRecord
    → List BridgeCommandRecord
    → Type 0
Extends R [] ys = Unit
Extends R (x ∷ xs) [] = ⊥
Extends R (x ∷ xs) (y ∷ ys) = R x y × Extends R xs ys

-- The first entry that passes a test, with all before it.
abbrev pub IsFirst :
    (BridgeCommandRecord → Bool) → List BridgeCommandRecord → ℕ → BridgeCommandRecord → Type 0
IsFirst p [] i r = ⊥
IsFirst p (x ∷ xs) zero r = (x ≡ r) × (p x ≡ true)
IsFirst p (x ∷ xs) (suc i) r = (p x ≡ false) × IsFirst p xs i r

abbrev pub NoneSuch : (BridgeCommandRecord → Bool) → List BridgeCommandRecord → Type 0
NoneSuch p xs = All (λ x. p x ≡ false) xs

pub find_index-cases :
    (p : BridgeCommandRecord → Bool) (xs : List BridgeCommandRecord)
    → ((find_index p xs ≡ none) × NoneSuch p xs)
      ⊎ ((i : ℕ) × (r : BridgeCommandRecord) × (find_index p xs ≡ some i)
          × (get_elem? xs i ≡ some r)
          × (p r ≡ true)
          × IsFirst p xs i r)
find_index-cases p [] = inl (refl, tt)
find_index-cases p (x ∷ xs) = elim (Bool-cases (p x)) [
  | inl hit ↦ inr (0, x, rw hit refl, refl, hit, (refl, hit))
  | inr miss ↦ elim (find_index-cases p xs) [
    | inl (e, h) ↦ inl (rw (miss, e) refl, (miss, h))
    | inr (i, r, e, g, t, f) ↦ inr (suc i, r, rw (miss, e) refl, g, t, (miss, f))
  ]
]

module _ {κ} (P : BridgeCommandRecord → Type κ) where
  set-All :
      (xs : List BridgeCommandRecord) (i : ℕ) (n : BridgeCommandRecord)
      → All P xs
      → P n
      → All P (set xs i n)
  set-All [] i n h k = tt
  set-All (x ∷ xs) zero n h k = (k, h.1)
  set-All (x ∷ xs) (suc i) n h k = (h.0, set-All xs i n h.1 k)

  get_elem?-All :
      (xs : List BridgeCommandRecord) (i : ℕ) (r : BridgeCommandRecord)
      → All P xs
      → get_elem? xs i ≡ some r
      → P r
  get_elem?-All [] i r h e = cc
  get_elem?-All (x ∷ xs) zero r h e = ground (arith, h.0)
  get_elem?-All (x ∷ xs) (suc i) r h e = get_elem?-All xs i r h.1 e

  pub modify-All :
      (p : BridgeCommandRecord → Bool) (decide : BridgeCommandRecord → Outcome)
      → ((r n : BridgeCommandRecord) → p r ≡ true → P r → decide r ≡ put n → P n)
      → (s : BridgeCommandStore) → All P s.commands
      → All P (modify p decide s).0.commands
  unfolding modify
  modify-All p decide sound s h = elim (find_index-cases p s.commands) [
    | inl (e, _) ↦ rw (e, modify) h
    | inr (i, r, e, g, t, _) ↦
        rw (e, modify)
          (rw (g, modify_at)
            (write i r (decide r) (λ n d. sound r n t (get_elem?-All s.commands i r h g) d)))
  ]
    where
      write :
          (i : ℕ) (r : BridgeCommandRecord) (o : Outcome)
          → ((n : BridgeCommandRecord) → o ≡ put n → P n)
          → All P (conclude s i r o).0.commands
      write i r refuse k = h
      write i r unchanged k = h
      write i r (put n) k = set-All s.commands i n h (k n refl)

  pub expire_all-All :
      (now : ℕ)
      → ((r : BridgeCommandRecord) → P r → is_overdue now r ≡ true → P (expire_command now r))
      → (xs : List BridgeCommandRecord) → All P xs
      → All P (expire_all now xs).0
  unfolding expire_all
  expire_all-All now sound [] h = tt
  expire_all-All now sound (x ∷ xs) h = elim (Bool-cases (is_overdue now x)) [
    | inl o ↦ rw o (sound x h.0 o, expire_all-All now sound xs h.1)
    | inr o ↦ rw o (h.0, expire_all-All now sound xs h.1)
  ]

-- The same for a relation between each command and what becomes of it.
module _ (R : BridgeCommandRecord → BridgeCommandRecord → Type 0)
    (R-refl : (r : BridgeCommandRecord) → R r r) where
  pub Extends-refl : (xs : List BridgeCommandRecord) → Extends R xs xs
  Extends-refl [] = tt
  Extends-refl (x ∷ xs) = (R-refl x, Extends-refl xs)

  pub Extends-append : (xs ys : List BridgeCommandRecord) → Extends R xs (xs ++ ys)
  Extends-append [] ys = tt
  Extends-append (x ∷ xs) ys = (R-refl x, Extends-append xs ys)

  set-Extends :
      (xs : List BridgeCommandRecord) (i : ℕ) (r n : BridgeCommandRecord)
      → get_elem? xs i ≡ some r
      → R r n
      → Extends R xs (set xs i n)
  set-Extends [] i r n e k = tt
  set-Extends (x ∷ xs) zero r n e k =
      (subst (λ z. R z n) (some-injective _ _ (sym e)) k, Extends-refl xs)
  set-Extends (x ∷ xs) (suc i) r n e k = (R-refl x, set-Extends xs i r n e k)

  pub modify-Extends :
      (p : BridgeCommandRecord → Bool) (decide : BridgeCommandRecord → Outcome)
      → ((r n : BridgeCommandRecord) → p r ≡ true → decide r ≡ put n → R r n)
      → (s : BridgeCommandStore) → Extends R s.commands (modify p decide s).0.commands
  unfolding modify
  modify-Extends p decide allowed s = elim (find_index-cases p s.commands) [
    | inl (e, _) ↦ rw (e, modify) (Extends-refl s.commands)
    | inr (i, r, e, g, t, _) ↦
        rw (e, modify) (rw (g, modify_at) (write i r g (decide r) (λ n d. allowed r n t d)))
  ]
    where
      write :
          (i : ℕ) (r : BridgeCommandRecord)
          → get_elem? s.commands i ≡ some r
          → (o : Outcome) → ((n : BridgeCommandRecord) → o ≡ put n → R r n)
          → Extends R s.commands (conclude s i r o).0.commands
      write i r g refuse k = Extends-refl s.commands
      write i r g unchanged k = Extends-refl s.commands
      write i r g (put n) k = set-Extends s.commands i r n g (k n refl)

  pub expire_all-Extends :
      (now : ℕ)
      → ((r : BridgeCommandRecord) → is_overdue now r ≡ true → R r (expire_command now r))
      → (xs : List BridgeCommandRecord) → Extends R xs (expire_all now xs).0
  unfolding expire_all
  expire_all-Extends now allowed [] = tt
  expire_all-Extends now allowed (x ∷ xs) = elim (Bool-cases (is_overdue now x)) [
    | inl o ↦ rw o (allowed x o, expire_all-Extends now allowed xs)
    | inr o ↦ rw o (R-refl x, expire_all-Extends now allowed xs)
  ]

pub Extends-trans :
    (R : BridgeCommandRecord → BridgeCommandRecord → Type 0)
    → ((a b c : BridgeCommandRecord) → R a b → R b c → R a c)
    → (xs ys zs : List BridgeCommandRecord) → Extends R xs ys
    → Extends R ys zs
    → Extends R xs zs
Extends-trans R t [] ys zs h k = tt
Extends-trans R t (x ∷ xs) [] zs h k = absurd h
Extends-trans R t (x ∷ xs) (y ∷ ys) [] h k = absurd k
Extends-trans R t (x ∷ xs) (y ∷ ys) (z ∷ zs) h k =
    (t x y z h.0 k.0, Extends-trans R t xs ys zs h.1 k.1)

-- `expireLeases` leaves the list that its loop builds, whether or not it saves.
pub expire_all-unchanged :
    (now : ℕ) (xs : List BridgeCommandRecord)
    → (expire_all now xs).1 ≡ false
    → (expire_all now xs).0 ≡ xs
unfolding expire_all
expire_all-unchanged now [] e = refl
expire_all-unchanged now (x ∷ xs) e = ground (arith, expire_all-unchanged now xs)

pub commands-expire_leases :
    (now : ℕ) (s : BridgeCommandStore)
    → (expire_leases now s).commands ≡ (expire_all now s.commands).0
unfolding expire_leases
commands-expire_leases now s = ground (arith, expire_all-unchanged now s.commands)
