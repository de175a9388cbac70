-- ===== src/Value/Json.antt =====
-- What is left of a value once it has been written with `JSON.stringify` and read back with
-- `JSON.parse`; `toISOString` is a parameter.
use patze_control.Base.{
  ℕ, ◌/◌, ◌%◌, Bool, true, false, not, ◌&&◌, some, none, String, eqb, if◌then◌else◌, ◌≡◌, refl,
  arith, ap,
}
use patze_control.Value.{
  Value, undefined, null, bool, number, text, date, array, object, Items, nil, cons, Fields, end,
  field, is_undefined,
}

-- An exponent of all ones stands for an infinity or NaN.
abbrev pub is_finite : ℕ → Bool
is_finite n = not (eqb (n / 0x10000000000000 % 2048) 2047)

-- An item that is `undefined` is written as null, a field that is so is left out.
module _ (to_iso_string : ℕ → String) where
  unfoldable mutual
    pub json_value : Value → Value
    json_value undefined = null
    json_value null = null
    json_value (bool b) = bool b
    json_value (number n) = if is_finite n then number n else null
    json_value (text s) = text s
    json_value (date none) = null
    json_value (date (some t)) = text (to_iso_string t)
    json_value (array xs) = array (json_items xs)
    json_value (object fs) = object (json_fields fs)

    pub json_items : Items → Items
    json_items nil = nil
    json_items (cons v vs) = cons (json_value v) (json_items vs)

    pub json_fields : Fields → Fields
    json_fields end = end
    json_fields (field k v fs) =
        let rest = json_fields fs in if is_undefined v then rest else field k (json_value v) rest

-- The values that JSON can hold.
unfoldable mutual
  pub is_json : Value → Bool
  is_json undefined = false
  is_json null = true
  is_json (bool b) = true
  is_json (number n) = is_finite n
  is_json (text s) = true
  is_json (date t) = false
  is_json (array xs) = are_json xs
  is_json (object fs) = has_json fs

  pub are_json : Items → Bool
  are_json nil = true
  are_json (cons v vs) = is_json v && are_json vs

  pub has_json : Fields → Bool
  has_json end = true
  has_json (field k v fs) = is_json v && has_json fs

is_json→defined : (v : Value) → is_json v ≡ true → is_undefined v ≡ false
unfolding is_json
is_json→defined undefined e = absurd (ground arith)
is_json→defined null e = refl
is_json→defined (bool b) e = refl
is_json→defined (number n) e = refl
is_json→defined (text s) e = refl
is_json→defined (date t) e = refl
is_json→defined (array xs) e = refl
is_json→defined (object fs) e = refl

module _ (to_iso_string : ℕ → String) where
  -- They come back as they were.
  mutual
    unfolding is_json json_value

    pub json_value-is_json : (v : Value) → is_json v ≡ true → json_value to_iso_string v ≡ v
    json_value-is_json undefined e = absurd (ground arith)
    json_value-is_json null e = refl
    json_value-is_json (bool b) e = refl
    json_value-is_json (number n) e = rw e refl
    json_value-is_json (text s) e = refl
    json_value-is_json (date t) e = absurd (ground arith)
    json_value-is_json (array xs) e = ap array (json_items-are_json xs e)
    json_value-is_json (object fs) e = ap object (json_fields-has_json fs e)

    pub json_items-are_json : (xs : Items) → are_json xs ≡ true → json_items to_iso_string xs ≡ xs
    json_items-are_json nil e = refl
    json_items-are_json (cons v vs) e = ground (arith, json_value-is_json v, json_items-are_json vs)

    pub json_fields-has_json :
        (fs : Fields) → has_json fs ≡ true → json_fields to_iso_string fs ≡ fs
    json_fields-has_json end e = refl
    json_fields-has_json (field k v fs) e =
        ground (arith, is_json→defined v, json_value-is_json v, json_fields-has_json fs)
