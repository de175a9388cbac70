-- ===== src/Value.antt =====
-- The values of type `unknown` that the services take in: parsed JSON, `undefined` and `Date`
-- objects, with the tests and copies of packages/telemetry-core/src/utils.ts.
pub mod Laws
pub mod Json
use patze_control.Base.{
  ℕ, zero, suc, Bool, true, false, not, ◌&&◌, ◌||◌, Option, none, some, String, ◌==◌, eqb,
  if◌then◌else◌,
}

-- A number is its bit pattern as an IEEE double, with one pattern for both zeros and one for NaN.
-- A `Date` holds its time value, counted in milliseconds from the earliest date; an invalid one
-- holds none.
mutual
  pub data Value : Type 0 where
    undefined : Value
    null : Value
    bool : Bool → Value
    number : ℕ → Value
    text : String → Value
    date : Option ℕ → Value
    array : Items → Value
    object : Fields → Value

  pub data Items : Type 0 where
    nil : Items
    cons : Value → Items → Items

  pub data Fields : Type 0 where
    end : Fields
    field : String → Value → Fields → Fields

-- `typeof value === 'object' && value !== null`.
abbrev pub is_record : Value → Bool
is_record (date t) = true
is_record (array xs) = true
is_record (object fs) = true
is_record _ = false

-- `typeof value === 'string'`, and so on.
abbrev pub is_string : Value → Bool
is_string (text s) = true
is_string _ = false

abbrev pub is_number : Value → Bool
is_number (number n) = true
is_number _ = false

abbrev pub is_boolean : Value → Bool
is_boolean (bool b) = true
is_boolean _ = false

abbrev pub is_date : Value → Bool
is_date (date t) = true
is_date _ = false

abbrev pub is_undefined : Value → Bool
is_undefined undefined = true
is_undefined _ = false

-- Reading a property of `null` or `undefined` throws a TypeError.
abbrev pub is_nullish : Value → Bool
is_nullish undefined = true
is_nullish null = true
is_nullish _ = false

abbrev pub nan : ℕ
nan = 0x7ff8000000000000

-- The test that a condition makes of a value.
unfoldable pub is_truthy : Value → Bool
is_truthy undefined = false
is_truthy null = false
is_truthy (bool b) = b
is_truthy (number n) = not (eqb n 0) && not (eqb n nan)
is_truthy (text s) = not (s == "")
is_truthy (date t) = true
is_truthy (array xs) = true
is_truthy (object fs) = true

unfoldable pub lookup_field : String → Fields → Option Value
lookup_field k end = none
lookup_field k (field j v fs) = if j == k then some v else lookup_field k fs

abbrev pub or_undefined : Option Value → Value
or_undefined none = undefined
or_undefined (some v) = v

-- `value.name`, for names that only an object written by the code or by JSON can have.
unfoldable pub get : Value → String → Value
unfolding lookup_field
get (object fs) k = or_undefined (lookup_field k fs)
get _ k = undefined

-- `name in value`.
unfoldable pub has : String → Value → Bool
unfolding lookup_field
has k (object fs) = elim (lookup_field k fs) [ none ↦ false | some v ↦ true ]
has k _ = false

-- `fields[name] = value`.
unfoldable pub put_field : String → Value → Fields → Fields
put_field k v end = field k v end
put_field k v (field j w fs) = if j == k then field j v fs else field j w (put_field k v fs)

-- `value === 'text'`.
abbrev pub equals_text : Value → String → Bool
equals_text (text s) t = s == t
equals_text _ t = false

-- The comparison of the keys of a Map. Two objects are the same only if they are one object, and
-- the stored events are copies that share none.
unfoldable pub same_key : Value → Value → Bool
same_key undefined undefined = true
same_key null null = true
same_key (bool a) (bool b) = (a && b) || (not a && not b)
same_key (number a) (number b) = eqb a b
same_key (text a) (text b) = a == b
same_key _ _ = false

-- `deepFreezeUnknown`: the copy `{ ...value }` of a `Date` has no fields.
unfoldable mutual
  pub deep_freeze : Value → Value
  deep_freeze undefined = undefined
  deep_freeze null = null
  deep_freeze (bool b) = bool b
  deep_freeze (number n) = number n
  deep_freeze (text s) = text s
  deep_freeze (date t) = object end
  deep_freeze (array xs) = array (freeze_items xs)
  deep_freeze (object fs) = object (freeze_fields fs)

  pub freeze_items : Items → Items
  freeze_items nil = nil
  freeze_items (cons v vs) = cons (deep_freeze v) (freeze_items vs)

  pub freeze_fields : Fields → Fields
  freeze_fields end = end
  freeze_fields (field k v fs) = field k (deep_freeze v) (freeze_fields fs)
