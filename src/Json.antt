-- ===== src/Json.antt =====
-- The values that the program handles as `unknown` and `Record<string, unknown>`: what
-- `JSON.parse` yields, and `bigint`. `undefined` is `none` of `Option Value`.
pub mod Objects
use auditable_mcp_sdk_ts.Base.{
  ℕ, suc, Bool, true, false, Option, none, some, if◌then◌else◌, Text, lit, same_text, ◌==◌,
}
use auditable_mcp_sdk_ts.Base.Exec.{Result, ok, err, type_error}

-- `negsuc n` is -(n + 1)
pub data ℤ : Type 0 where
  pos : ℕ → ℤ
  negsuc : ℕ → ℤ

abbrev pub magnitude : ℤ → ℕ
magnitude (pos n) = n
magnitude (negsuc n) = suc n

-- An IEEE-754 double, as far as the code tells them apart: an integer value, a finite value that
-- is no integer (named by its bit pattern), ±Infinity, or NaN.
pub data Number : Type 0 where
  integer : ℤ → Number
  fraction : ℕ → Number
  infinite : Bool → Number
  nan : Number

mutual
  pub data Value : Type 0 where
    null : Value
    bool : Bool → Value
    num : Number → Value
    bigint : ℤ → Value
    str : Text → Value
    arr : Items → Value
    obj : Members → Value

  pub data Items : Type 0 where
    nil : Items
    cons : Value → Items → Items

  -- An object's members, in the order of `Object.entries`.
  pub data Members : Type 0 where
    end : Members
    member : Text → Value → Members → Members

unfoldable pub find_member : Text → Members → Option Value
find_member k end = none
find_member k (member j v ms) = if same_text j k then some v else find_member k ms

-- `event[k]` on a value that is an object; any other value has no member `k`.
unfoldable pub get : Text → Value → Option Value
unfolding find_member
get k (obj ms) = find_member k ms
get k _ = none

-- `v !== null && typeof v === 'object'`; an array is an object too.
abbrev pub is_object : Option Value → Bool
is_object (some (arr xs)) = true
is_object (some (obj ms)) = true
is_object _ = false

-- `v !== undefined && typeof v === 'object'`, which `null` passes
abbrev pub is_structured : Option Value → Bool
is_structured (some null) = true
is_structured v = is_object v

-- `typeof v === 'string'`, with the string
abbrev pub as_text : Option Value → Option Text
as_text (some (str s)) = some s
as_text _ = none

-- `typeof v === 'number'`, with the number
abbrev pub as_number : Option Value → Option Number
as_number (some (num n)) = some n
as_number _ = none

-- `v === s` for a string `s`
abbrev pub is_text : Text → Option Value → Bool
is_text s (some (str t)) = same_text t s
is_text s _ = false

-- `v !== undefined && v !== null`
abbrev pub is_present : Option Value → Bool
is_present none = false
is_present (some null) = false
is_present _ = true

unfoldable pub type_of : Option Value → Text
type_of none = lit "undefined"
type_of (some (bool b)) = lit "boolean"
type_of (some (num n)) = lit "number"
type_of (some (bigint n)) = lit "bigint"
type_of (some (str s)) = lit "string"
type_of _ = lit "object"

-- JavaScript's `String(v)` rests on the language's number formatting and on the object's own
-- `toString`, which may be missing: then it throws a `TypeError`.
pub record ToText : Type 0 where
  pub number_text : Number → Text
  pub bigint_text : ℤ → Text
  -- `JSON.stringify` of a number
  pub json_number : Number → Text
  pub object_text : Value → Option Text

unfoldable pub string_of : ToText → Option Value → Result Text
string_of t none = ok (lit "undefined")
string_of t (some null) = ok (lit "null")
string_of t (some (bool b)) = ok (if b then lit "true" else lit "false")
string_of t (some (num n)) = ok (t.number_text n)
string_of t (some (bigint n)) = ok (t.bigint_text n)
string_of t (some (str s)) = ok s
string_of t (some (arr xs)) = elim (t.object_text (arr xs)) [
  | none ↦ err type_error
  | some s ↦ ok s
]
string_of t (some (obj ms)) = elim (t.object_text (obj ms)) [
  | none ↦ err type_error
  | some s ↦ ok s
]

abbrev same_integer : ℤ → ℤ → Bool
same_integer (pos a) (pos b) = a == b
same_integer (negsuc a) (negsuc b) = a == b
same_integer _ _ = false

abbrev same_bool : Bool → Bool → Bool
same_bool true true = true
same_bool false false = true
same_bool _ _ = false

abbrev same_number : Number → Number → Bool
same_number (integer a) (integer b) = same_integer a b
same_number (fraction a) (fraction b) = a == b
same_number (infinite a) (infinite b) = same_bool a b
same_number _ _ = false

-- `a === b` where `b` is a primitive: an object is never identical to one.
unfoldable pub strict_equal : Option Value → Option Value → Bool
strict_equal none none = true
strict_equal (some null) (some null) = true
strict_equal (some (bool a)) (some (bool b)) = same_bool a b
strict_equal (some (num a)) (some (num b)) = same_number a b
strict_equal (some (bigint a)) (some (bigint b)) = same_integer a b
strict_equal (some (str a)) (some (str b)) = same_text a b
strict_equal _ _ = false
