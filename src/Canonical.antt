-- ===== src/Canonical.antt =====
-- src/canonical.ts: the numeric guard, the surrogate guard, canonical serialization and hashing.
-- The serializer (`canonicalize`), SHA-256 and the hex and UTF-8 codecs are packages: parameters.
pub mod Surrogates
use auditable_mcp_sdk_ts.Base.{
  ℕ, ◌-◌, ◌^◌, Bool, true, false, ◌||◌, not, ltb, Option, none, some, List, [], ◌∷◌, ◌++◌, Text,
  lit,
}
use auditable_mcp_sdk_ts.Base.Exec.{Result, ok, err, not_canonical}
use auditable_mcp_sdk_ts.Base.Exec.Try.{◌>>=◌, ◌>>◌, throw_if}
use auditable_mcp_sdk_ts.Json.{
  ToText, Number, integer, fraction, infinite, nan, magnitude, Value, null, bool, num, bigint, str,
  arr, obj, Items, nil, cons, Members, end, member,
}
use Surrogates.{lone_surrogate}

pub record Packages : Type 0 where
  pub to_text : ToText
  pub jcs : Value → Option Text
  pub encode_utf8 : Text → List ℕ
  pub sha256 : List ℕ → List ℕ
  pub bytes_to_hex : List ℕ → Text

abbrev pub max_safe_integer : ℕ
max_safe_integer = 2 ^ 53 - 1

unfoldable pub unsafe_number : Number → Bool
unsafe_number (integer n) = ltb max_safe_integer (magnitude n)
unsafe_number (fraction bits) = false
unsafe_number (infinite sign) = true
unsafe_number nan = true

unfoldable mutual
  unfolding unsafe_number

  pub has_unsafe_number : Value → Bool
  has_unsafe_number (num n) = unsafe_number n
  has_unsafe_number (bigint n) = true
  has_unsafe_number (arr xs) = some_unsafe xs
  has_unsafe_number (obj ms) = some_member_unsafe ms
  has_unsafe_number null = false
  has_unsafe_number (bool b) = false
  has_unsafe_number (str s) = false

  pub some_unsafe : Items → Bool
  some_unsafe nil = false
  some_unsafe (cons v xs) = has_unsafe_number v || some_unsafe xs

  pub some_member_unsafe : Members → Bool
  some_member_unsafe end = false
  some_member_unsafe (member k v ms) = has_unsafe_number v || some_member_unsafe ms

unfoldable mutual
  pub has_lone_surrogate : Value → Bool
  has_lone_surrogate (str s) = lone_surrogate s
  has_lone_surrogate (arr xs) = some_lone xs
  has_lone_surrogate (obj ms) = some_member_lone ms
  has_lone_surrogate null = false
  has_lone_surrogate (bool b) = false
  has_lone_surrogate (num n) = false
  has_lone_surrogate (bigint n) = false

  pub some_lone : Items → Bool
  some_lone nil = false
  some_lone (cons v xs) = has_lone_surrogate v || some_lone xs

  pub some_member_lone : Members → Bool
  some_member_lone end = false
  some_member_lone (member k v ms) =
      (lone_surrogate k || has_lone_surrogate v) || some_member_lone ms

unfoldable pub some_or_throw : Option Text → Result Text
some_or_throw none = err not_canonical
some_or_throw (some s) = ok s

unfoldable pub canonicalize : Packages → Value → Result Text
unfolding some_or_throw
canonicalize p value = do
  throw_if (has_unsafe_number value) not_canonical
  throw_if (has_lone_surrogate value) not_canonical
  some_or_throw (p.jcs value)

unfoldable pub sha256_hex : Packages → Text → Text
sha256_hex p s = p.bytes_to_hex (p.sha256 (p.encode_utf8 s))

unfoldable pub hash_canonical : Packages → Value → Result Text
hash_canonical p value = do
  canonical ← canonicalize p value
  ok (lit "sha256:" ++ sha256_hex p canonical)
