-- ===== src/Bridge/Lines.antt =====
-- Lines, and the part of a text up to its last line end.
use mathlib.Core.List.{append_assoc, append-nil}
use patze_control.Base.{
  ℕ, Bool, true, false, List, [], ◌∷◌, ◌++◌, length, drop, keep, eqb, Bool-cases, ◌≡◌, ◌⊎◌, refl,
  ap, inl, inr, arith,
}
use patze_control.Bridge.Delta.{Bytes, newline, is_filled, consumable, split_lines, lines_of}

filled_middle : (u v : Bytes) (b : ℕ) → is_filled (u ++ (b ∷ v)) ≡ true
filled_middle [] v b = refl
filled_middle (x ∷ u) v b = refl

pub empty_of : (xs : Bytes) → is_filled xs ≡ false → xs ≡ []
empty_of [] e = refl
empty_of (x ∷ xs) e = cc

split_head : (u : Bytes) → (line : Bytes) × (lines : List Bytes) × (split_lines u ≡ line ∷ lines)
unfolding split_lines
split_head [] = ([], [], refl)
split_head (b ∷ u) =
    let (line, lines, e) = split_head u in
    elim (Bool-cases (eqb b newline)) [
      | inl here ↦ ([], line ∷ lines, rw (split_lines, here, e) refl)
      | inr other ↦ (b ∷ line, lines, rw (split_lines, other, e) refl)
    ]

-- A text up to its last line end.
consumable_cases :
    (xs : Bytes) → (consumable xs ≡ []) ⊎ ((u : Bytes) × (consumable xs ≡ u ++ (newline ∷ [])))
unfolding consumable
consumable_cases [] = inl refl
consumable_cases (b ∷ bs) = elim (consumable_cases bs) [
  | inr (u, e) ↦ inr (b ∷ u, rw (consumable, e, filled_middle u [] newline) refl)
  | inl e ↦ elim (Bool-cases (eqb b newline)) [
    | inl here ↦ inr ([], ground arith)
    | inr none_here ↦ inl (ground arith)
  ]
]

consumable-newline :
    (u ys : Bytes) → consumable (u ++ (newline ∷ ys)) ≡ u ++ (newline ∷ consumable ys)
unfolding consumable
consumable-newline [] ys = elim (Bool-cases (is_filled (consumable ys))) [
  | inl filled ↦ rw filled refl
  | inr empty ↦ rw (empty_of (consumable ys) empty) refl
]
consumable-newline (b ∷ u) ys =
    rw (consumable, consumable-newline u ys, filled_middle u (consumable ys) newline) refl

pub consumable_prefix : (xs : Bytes) → consumable xs ++ drop (length (consumable xs)) xs ≡ xs
unfolding consumable
consumable_prefix [] = refl
consumable_prefix (b ∷ bs) = elim (Bool-cases (is_filled (consumable bs))) [
  | inl filled ↦ rw (consumable, filled) (ap (λ l. b ∷ l) (consumable_prefix bs))
  | inr empty ↦ elim (Bool-cases (eqb b newline)) [
    | inl here ↦ rw (consumable, empty, here) refl
    | inr other ↦ rw (consumable, empty, other) refl
  ]
]

split_newline : (u ys : Bytes) → split_lines (u ++ (newline ∷ ys)) ≡ split_lines u ++ split_lines ys
unfolding split_lines
split_newline [] ys = refl
split_newline (b ∷ u) ys =
    let (line, lines, e) = split_head u in
    elim (Bool-cases (eqb b newline)) [
      | inl here ↦ rw (split_lines, here, split_newline u ys) refl
      | inr other ↦ rw (split_lines, other, split_newline u ys, e) refl
    ]

keep-append : (p : Bytes → Bool) (xs ys : List Bytes) → keep p (xs ++ ys) ≡ keep p xs ++ keep p ys
keep-append p [] ys = refl
keep-append p (x ∷ xs) ys = ground (arith, keep-append p xs ys)

lines_of-newline :
    (u ys : Bytes) → lines_of (u ++ (newline ∷ ys)) ≡ lines_of (u ++ (newline ∷ [])) ++ lines_of ys
unfolding lines_of split_lines
lines_of-newline u ys =
    rw
      (
        split_newline u ys,
        split_newline u [],
        keep-append is_filled (split_lines u) (split_lines ys),
        keep-append is_filled (split_lines u) ([] ∷ []),
        append-nil (keep is_filled (split_lines u)),
      )
      refl

-- Behind a part that ends with a line, lines and complete lines go on.
pub lines_of-consumable :
    (c ys : Bytes) → lines_of (consumable c ++ ys) ≡ lines_of (consumable c) ++ lines_of ys
lines_of-consumable c ys = elim (consumable_cases c) [
  | inl e ↦ rw e (unfold lines_of split_lines in refl)
  | inr (u, e) ↦ rw (e, append_assoc u (newline ∷ []) ys) (lines_of-newline u ys)
]

pub consumable-append :
    (c ys : Bytes) → consumable (consumable c ++ ys) ≡ consumable c ++ consumable ys
consumable-append c ys = elim (consumable_cases c) [
  | inl e ↦ rw e refl
  | inr (u, e) ↦
      rw (e, append_assoc u (newline ∷ []) ys, append_assoc u (newline ∷ []) (consumable ys))
        (consumable-newline u ys)
]
