-- ===== src/BridgeCommands/Listing.antt =====
-- What `list` returns.
use mathlib.Core.List.{Perm}
use mathlib.Core.List.Perm
use patze_control.Base.{
  ℕ, zero, suc, ◌≤◌, min, Bool, List, [], ◌∷◌, ◌++◌, All, Bool-cases, keep, take, drop, length,
  length-take, ltb, ◌≡◌, refl, inl, inr, arith, All-take,
}
use patze_control.BridgeCommands.Types.{BridgeCommandRecord, BridgeCommandFilter}
use patze_control.BridgeCommands.Store.{BridgeCommandStore}
use patze_control.BridgeCommands.Methods.{
  is_listed, is_older, insert_sorted, sort, list, list_limit,
}

insert_sorted-perm :
    (after : BridgeCommandRecord → BridgeCommandRecord → Bool) (a : BridgeCommandRecord)
    (xs : List BridgeCommandRecord)
    → Perm (insert_sorted after a xs) (a ∷ xs)
unfolding insert_sorted
insert_sorted-perm after a [] = Perm.refl _
insert_sorted-perm after a (b ∷ bs) = elim (Bool-cases (after a b)) [
  | inl t ↦ rw t (Perm.trans (Perm.cons b (insert_sorted-perm after a bs)) (Perm.swap _ _ _))
  | inr t ↦ rw t (Perm.refl _)
]

sort-perm :
    (after : BridgeCommandRecord → BridgeCommandRecord → Bool) (xs : List BridgeCommandRecord)
    → Perm (sort after xs) xs
unfolding sort
sort-perm after [] = Perm.refl _
sort-perm after (x ∷ xs) =
    Perm.trans (insert_sorted-perm after x (sort after xs)) (Perm.cons x (sort-perm after xs))

-- No entry was created before one that stands behind it.
abbrev pub IsNewestFirst : List BridgeCommandRecord → Type 0
IsNewestFirst [] = Unit {0}
IsNewestFirst (a ∷ bs) = All (λ b. b.created_at ≤ a.created_at) bs × IsNewestFirst bs

insert_sorted-below :
    (n : ℕ) (a : BridgeCommandRecord) (xs : List BridgeCommandRecord)
    → a.created_at ≤ n
    → All (λ b. b.created_at ≤ n) xs
    → All (λ b. b.created_at ≤ n) (insert_sorted is_older a xs)
unfolding insert_sorted
insert_sorted-below n a [] h k = (h, tt)
insert_sorted-below n a (b ∷ bs) h k = elim (Bool-cases (ltb a.created_at b.created_at)) [
  | inl t ↦ rw t (k.0, insert_sorted-below n a bs h k.1)
  | inr t ↦ rw t (h, k)
]

All-below_mono :
    (m n : ℕ) (xs : List BridgeCommandRecord)
    → m ≤ n
    → All (λ b. b.created_at ≤ m) xs
    → All (λ b. b.created_at ≤ n) xs
All-below_mono m n [] h k = tt
All-below_mono m n (x ∷ xs) h k = (omega arith, All-below_mono m n xs h k.1)

insert_sorted-IsNewestFirst :
    (a : BridgeCommandRecord) (xs : List BridgeCommandRecord)
    → IsNewestFirst xs
    → IsNewestFirst (insert_sorted is_older a xs)
unfolding insert_sorted
insert_sorted-IsNewestFirst a [] h = (tt, tt)
insert_sorted-IsNewestFirst a (b ∷ bs) h = elim (Bool-cases (ltb a.created_at b.created_at)) [
  | inl t ↦ rw t (
    insert_sorted-below b.created_at a bs (ground arith) h.0,
    insert_sorted-IsNewestFirst a bs h.1,
  )
  | inr t ↦ rw t ((ground arith, All-below_mono b.created_at a.created_at bs (ground arith) h.0), h)
]

sort-IsNewestFirst : (xs : List BridgeCommandRecord) → IsNewestFirst (sort is_older xs)
unfolding sort
sort-IsNewestFirst [] = tt
sort-IsNewestFirst (x ∷ xs) =
    insert_sorted-IsNewestFirst x (sort is_older xs) (sort-IsNewestFirst xs)

take-IsNewestFirst :
    (n : ℕ) (xs : List BridgeCommandRecord) → IsNewestFirst xs → IsNewestFirst (take n xs)
take-IsNewestFirst zero xs h = tt
take-IsNewestFirst (suc n) [] h = tt
take-IsNewestFirst (suc n) (x ∷ xs) h =
    (All-take (λ b. b.created_at ≤ x.created_at) n xs h.0, take-IsNewestFirst n xs h.1)

take-drop : (n : ℕ) (xs : List BridgeCommandRecord) → take n xs ++ drop n xs ≡ xs
take-drop zero xs = refl
take-drop (suc n) [] = refl
take-drop (suc n) (x ∷ xs) = rw (take-drop n xs) refl

-- `list` gives the commands that the filter selects, newest first: at least 1 and at most 500 are
-- allowed, the limit cuts only the oldest off (`cut` is what it leaves out), and it cuts nothing
-- while there is room.
pub list_lem :
    (filter : BridgeCommandFilter) (s : BridgeCommandStore)
    → let n = list_limit filter.limit in
      let selected = keep (is_listed filter) s.commands in
      (cut : List BridgeCommandRecord) × Perm (list filter s ++ cut) selected
      × IsNewestFirst (list filter s ++ cut)
      × (length (list filter s) ≡ min n (length (list filter s ++ cut)))
      × (1 ≤ n)
      × (n ≤ 500)
unfolding list list_limit
list_lem filter s =
    let n = list_limit filter.limit in
    let sorted = sort is_older (keep (is_listed filter) s.commands) in
    (
      drop n sorted,
      rw (take-drop n sorted) (sort-perm is_older _),
      rw (take-drop n sorted) (sort-IsNewestFirst _),
      rw (take-drop n sorted) (length-take n sorted),
      omega arith,
      omega arith,
    )
