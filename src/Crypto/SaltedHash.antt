-- ===== src/Crypto/SaltedHash.antt =====
-- src/salted-hash.ts: the Disclosure of a context, its salted hash, and opening it. `JSON` and the
-- UTF-8 decoder are parameters.
pub mod Opening
use auditable_mcp_sdk_ts.Base.{
  ℕ, Bool, ◌||◌, not, Option, none, some, List, Text, same_text, if◌then◌else◌,
}
use auditable_mcp_sdk_ts.Base.Regex.{matches}
use auditable_mcp_sdk_ts.Json.{Value, str, arr, obj, Members, nil, cons}
use auditable_mcp_sdk_ts.Canonical.{Packages}
use auditable_mcp_sdk_ts.Models.Patterns.{salted_hash_regex}
use auditable_mcp_sdk_ts.Crypto.Base64.{bytes_to_base64url, base64url_to_bytes}

pub record JsonText : Type 0 where
  -- `JSON.stringify`
  pub stringify : Value → Text
  -- `JSON.parse`; `none` if it threw
  pub parse : Text → Option Value
  -- `new TextDecoder('utf-8', { fatal: true }).decode`; `none` if it threw
  pub decode_utf8 : List ℕ → Option Text

-- `newSalt`, of the bytes that the random source gave
unfoldable pub salt_of : List ℕ → Text
salt_of bytes = bytes_to_base64url bytes

-- `[salt, context]`
abbrev pub pair : Text → Members → Value
pair salt context = arr (cons (str salt) (cons (obj context) nil))

-- `disclosureOf`
unfoldable pub disclosure_of : Packages → JsonText → Text → Members → Text
disclosure_of p j salt context =
    bytes_to_base64url (p.encode_utf8 (j.stringify (pair salt context)))

-- `saltedHashOf`
unfoldable pub salted_hash_of : Packages → Text → Text
salted_hash_of p disclosure = bytes_to_base64url (p.sha256 (p.encode_utf8 disclosure))

-- The context of a two-element array of a string salt and an object.
abbrev pub context_of : Option Value → Option Members
context_of (some (arr (cons (str salt) (cons (obj context) nil)))) = some context
context_of _ = none

abbrev pub parsed : JsonText → Option Text → Option Value
parsed j none = none
parsed j (some text) = j.parse text

abbrev pub open_bytes : Packages → JsonText → Text → Text → Option (List ℕ) → Option Members
open_bytes p j disclosure salted_hash none = none
open_bytes p j disclosure salted_hash (some bytes) =
    if not (same_text (salted_hash_of p disclosure) salted_hash)
    then none
    else context_of (parsed j (j.decode_utf8 bytes))

-- `openSaltedHash`
unfoldable pub open_salted_hash : Packages → JsonText → Text → Text → Option Members
open_salted_hash p j disclosure salted_hash =
    if not (matches salted_hash_regex salted_hash)
    then none
    else open_bytes p j disclosure salted_hash (base64url_to_bytes (str disclosure))
