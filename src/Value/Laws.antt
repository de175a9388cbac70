-- ===== src/Value/Laws.antt =====
-- Laws of reading, writing, comparing and freezing values.
use patze_control.Base.{
  true, false, some, String, ◌==◌, eq_iff, if◌then◌else◌, Bool-cases, ◌≡◌, refl, ap, inl, inr,
  arith,
}
use patze_control.Value.{
  Value, undefined, null, bool, number, text, date, array, object, Items, nil, cons, Fields, end,
  field, lookup_field, or_undefined, get, put_field, same_key, deep_freeze, freeze_items,
  freeze_fields, is_record, is_nullish,
}

pub lookup_field-put_field :
    (k j : String) (v : Value) (fs : Fields)
    → lookup_field j (put_field k v fs) ≡ (if k == j then some v else lookup_field j fs)
unfolding lookup_field put_field
lookup_field-put_field k j v end = refl
lookup_field-put_field k j v (field i w fs) =
    ground (arith, eq_iff k j, eq_iff i k, eq_iff i j, lookup_field-put_field k j v fs)

-- Keys that a Map holds to be the same are equal.
pub same_key→eq : (a b : Value) → same_key a b ≡ true → a ≡ b
unfolding same_key
same_key→eq undefined b h = ground arith
same_key→eq null b h = ground arith
same_key→eq (bool x) b h = ground arith
same_key→eq (number x) b h = ground arith
same_key→eq (text s) (text t) h = ap text ((eq_iff s t).0 h)
same_key→eq (text s) b h = ground arith
same_key→eq (date x) b h = ground arith
same_key→eq (array x) b h = ground arith
same_key→eq (object x) b h = ground arith

-- No `Date` object stands anywhere in the value, as in parsed JSON.
unfoldable mutual
  pub IsDateFree : Value → Type 0
  IsDateFree undefined = Unit
  IsDateFree null = Unit
  IsDateFree (bool b) = Unit
  IsDateFree (number n) = Unit
  IsDateFree (text s) = Unit
  IsDateFree (date t) = ⊥
  IsDateFree (array xs) = IsDateFreeItems xs
  IsDateFree (object fs) = IsDateFreeFields fs

  pub IsDateFreeItems : Items → Type 0
  IsDateFreeItems nil = Unit
  IsDateFreeItems (cons v vs) = IsDateFree v × IsDateFreeItems vs

  pub IsDateFreeFields : Fields → Type 0
  IsDateFreeFields end = Unit
  IsDateFreeFields (field k v fs) = IsDateFree v × IsDateFreeFields fs

-- Freezing leaves a value without dates as it is.
mutual
  unfolding deep_freeze IsDateFree

  freeze_same : (v : Value) → IsDateFree v → deep_freeze v ≡ v
  freeze_same undefined h = refl
  freeze_same null h = refl
  freeze_same (bool b) h = refl
  freeze_same (number n) h = refl
  freeze_same (text s) h = refl
  freeze_same (date t) h = absurd h
  freeze_same (array xs) h = ap array (freeze_items_same xs h)
  freeze_same (object fs) h = ap object (freeze_fields_same fs h)

  freeze_items_same : (xs : Items) → IsDateFreeItems xs → freeze_items xs ≡ xs
  freeze_items_same nil h = refl
  freeze_items_same (cons v vs) h = cc (freeze_same v h.0, freeze_items_same vs h.1)

  freeze_fields_same : (fs : Fields) → IsDateFreeFields fs → freeze_fields fs ≡ fs
  freeze_fields_same end h = refl
  freeze_fields_same (field k v fs) h = cc (freeze_same v h.0, freeze_fields_same fs h.1)

-- A frozen value has no dates.
mutual
  unfolding deep_freeze IsDateFree

  freeze_free : (v : Value) → IsDateFree (deep_freeze v)
  freeze_free undefined = tt
  freeze_free null = tt
  freeze_free (bool b) = tt
  freeze_free (number n) = tt
  freeze_free (text s) = tt
  freeze_free (date t) = tt
  freeze_free (array xs) = freeze_items_free xs
  freeze_free (object fs) = freeze_fields_free fs

  freeze_items_free : (xs : Items) → IsDateFreeItems (freeze_items xs)
  freeze_items_free nil = tt
  freeze_items_free (cons v vs) = (freeze_free v, freeze_items_free vs)

  freeze_fields_free : (fs : Fields) → IsDateFreeFields (freeze_fields fs)
  freeze_fields_free end = tt
  freeze_fields_free (field k v fs) = (freeze_free v, freeze_fields_free fs)

pub deep_freeze_same : (v : Value) → IsDateFree v → deep_freeze v ≡ v
deep_freeze_same v h = freeze_same v h

pub deep_freeze-IsDateFree : (v : Value) → IsDateFree (deep_freeze v)
deep_freeze-IsDateFree v = freeze_free v

put_field_free :
    (k : String) (s : String) (fs : Fields)
    → IsDateFreeFields fs
    → IsDateFreeFields (put_field k (text s) fs)
unfolding put_field IsDateFree
put_field_free k s end h = (tt, tt)
put_field_free k s (field j w fs) h = elim (Bool-cases (j == k)) [
  | inl e ↦ rw e (tt, h.1)
  | inr e ↦ rw e (h.0, put_field_free k s fs h.1)
]

-- Writing a text into a field of an object keeps it free of dates.
pub put_field-IsDateFree :
    (k : String) (s : String) (fs : Fields)
    → IsDateFree (object fs)
    → IsDateFree (object (put_field k (text s) fs))
unfolding IsDateFree
put_field-IsDateFree k s fs h = put_field_free k s fs h

lookup_field-freeze :
    (k : String) (fs : Fields)
    → or_undefined (lookup_field k (freeze_fields fs))
      ≡ deep_freeze (or_undefined (lookup_field k fs))
unfolding lookup_field deep_freeze
lookup_field-freeze k end = refl
lookup_field-freeze k (field j v fs) = elim (Bool-cases (j == k)) [
  | inl e ↦ rw e refl
  | inr e ↦ rw e (lookup_field-freeze k fs)
]

pub get-deep_freeze : (v : Value) (k : String) → get (deep_freeze v) k ≡ deep_freeze (get v k)
unfolding get deep_freeze
get-deep_freeze (object fs) k = lookup_field-freeze k fs
get-deep_freeze undefined k = refl
get-deep_freeze null k = refl
get-deep_freeze (bool b) k = refl
get-deep_freeze (number n) k = refl
get-deep_freeze (text s) k = refl
get-deep_freeze (date t) k = refl
get-deep_freeze (array xs) k = refl

pub is_record-deep_freeze : (v : Value) → is_record (deep_freeze v) ≡ is_record v
unfolding deep_freeze
is_record-deep_freeze undefined = refl
is_record-deep_freeze _ = refl

pub is_record→not_nullish : (v : Value) → is_record v ≡ true → is_nullish v ≡ false
is_record→not_nullish v h = ground arith
