-- ===== src/Crypto/Tests.antt =====
-- Concrete codecs for the salted hash, and the theorems of src/crypto and src/salted-hash.ts at
-- concrete bytes.
use auditable_mcp_sdk_ts.Base.{
  ℕ, ◌/◌, ◌+◌, ◌*◌, ◌≡◌, refl, arith, true, some, List, [], ◌∷◌, map, Text, lit, length,
}
use auditable_mcp_sdk_ts.Json.{str, Members, member, end}
use auditable_mcp_sdk_ts.Canonical.{Packages}
use auditable_mcp_sdk_ts.Samples.{packages}
use auditable_mcp_sdk_ts.Samples.Encoding.{encode}
use auditable_mcp_sdk_ts.Samples.Bytes.{low_byte, fit, fit-below, length-fit}
use auditable_mcp_sdk_ts.Crypto.Base64.{
  all_of, url_character, bytes_to_base64url, base64url_to_bytes,
}
use auditable_mcp_sdk_ts.Crypto.Base64.Laws.{
  AllBelow, none_below, also_below, base64url_to_bytes-bytes_to_base64url,
  base64url_to_bytes-strict, length-bytes_to_base64url,
}
use auditable_mcp_sdk_ts.Crypto.SaltedHash.{
  JsonText, pair, disclosure_of, salted_hash_of, open_salted_hash,
}
use auditable_mcp_sdk_ts.Crypto.SaltedHash.Opening.{
  Laws, open_salted_hash-disclosure_of, open_salted_hash-binding,
}

abbrev bytes : List ℕ
bytes = 251 ∷ 240 ∷ 0 ∷ 255 ∷ []

bytes-below : AllBelow 256 bytes
bytes-below =
    also_below (omega arith)
      (also_below (omega arith) (also_below (omega arith) (also_below (omega arith) none_below)))

base64url_to_bytes-bytes_to_base64url_example :
    base64url_to_bytes (str (bytes_to_base64url bytes)) ≡ some bytes
base64url_to_bytes-bytes_to_base64url_example =
    base64url_to_bytes-bytes_to_base64url bytes bytes-below

base64url_to_bytes-strict_example : bytes_to_base64url bytes ≡ bytes_to_base64url bytes
base64url_to_bytes-strict_example =
    base64url_to_bytes-strict (bytes_to_base64url bytes)
      (base64url_to_bytes-bytes_to_base64url bytes bytes-below)

length-bytes_to_base64url_example : length (bytes_to_base64url bytes) ≡ (4 * length bytes + 2) / 3
length-bytes_to_base64url_example = length-bytes_to_base64url bytes bytes-below

abbrev byte_packages : Packages
byte_packages = record packages { encode_utf8 = map low_byte; sha256 = fit 32 }

abbrev context : Members
context = member (lit "k") (str (lit "v")) end

abbrev json : JsonText
json = record {
  stringify = λ v. encode v [];
  parse = λ t. some (pair (lit "salt") context);
  decode_utf8 = λ bs. some bs;
}

low-below : (ns : List ℕ) → AllBelow 256 (map low_byte ns)
low-below [] = none_below
low-below (n ∷ ns) = also_below (omega arith) (low-below ns)

cons_parts : {m n : ℕ} {ms ns : List ℕ} → m ∷ ms ≡ n ∷ ns → (m ≡ n) × (ms ≡ ns)
cons_parts e = (cc, cc)

legal-low :
    (c : ℕ) (cs : Text)
    → all_of url_character (c ∷ cs) ≡ true
    → (low_byte c ≡ c) × (all_of url_character cs ≡ true)
unfolding all_of url_character
legal-low c cs q = ground arith

low-legal :
    (s t : Text)
    → all_of url_character s ≡ true
    → all_of url_character t ≡ true
    → map low_byte s ≡ map low_byte t
    → s ≡ t
low-legal [] [] p q e = refl
low-legal [] (d ∷ ds) p q e = absurd cc
low-legal (c ∷ cs) [] p q e = absurd cc
low-legal (c ∷ cs) (d ∷ ds) p q e =
    let (x, legal) = legal-low c cs p in
    let (y, legal') = legal-low d ds q in
    let (head, tail) = cons_parts e in
    let same = low-legal cs ds legal legal' tail in
    let one : c ≡ d = omega (arith, x, y, head) in λ i. one i ∷ same i

json-Laws : Laws byte_packages
json-Laws = record {
  utf8_below = low-below;
  utf8_inj = low-legal;
  sha256_below = fit-below 32;
  length-sha256 = length-fit 32;
}

abbrev disclosure : Text
disclosure = disclosure_of byte_packages json (lit "salt") context

open_salted_hash-disclosure_of_example :
    open_salted_hash byte_packages json disclosure (salted_hash_of byte_packages disclosure)
    ≡ some context
open_salted_hash-disclosure_of_example =
    open_salted_hash-disclosure_of byte_packages json-Laws json (lit "salt") context refl

open_salted_hash-binding_example : (disclosure ≡ disclosure) × (context ≡ context)
open_salted_hash-binding_example =
    open_salted_hash-binding byte_packages json-Laws json disclosure disclosure
      (salted_hash_of byte_packages disclosure) context context (λ q. refl)
      open_salted_hash-disclosure_of_example open_salted_hash-disclosure_of_example
