-- ===== src/Crypto/SaltedHash/Opening.antt =====
-- What opens a salted hash: the Disclosure that it was made from, and no other.
use auditable_mcp_sdk_ts.Base.{
  ◌%◌, is_some, ℕ, zero, suc, ◌≡◌, refl, sym, ap, ◌∙◌, arith, Bool, true, false, ◌&&◌, ◌||◌, not,
  Option, none, some, List, same_text, same_text_iff, [], ◌∷◌, Text, leb, ◌==◌, if◌then◌else◌,
  length,
}
use auditable_mcp_sdk_ts.Base.Regex.{
  Regex, range, chars, times, seq, choice, empty, never, matches, derive, nullable, ◌or◌,
}
use auditable_mcp_sdk_ts.Base.Regex.Laws.{matches-seq_never, matches-seq_empty, matches-seq_choice}
use auditable_mcp_sdk_ts.Json.{str, Members}
use auditable_mcp_sdk_ts.Canonical.{Packages}
use auditable_mcp_sdk_ts.Models.Patterns.{salted_hash_regex}
use auditable_mcp_sdk_ts.Crypto.Base64.{
  all_of, url_character, bytes_to_base64url, base64url_to_bytes, same_encoding, atob, padded,
}
use auditable_mcp_sdk_ts.Crypto.Base64.Laws.{
  AllBelow, base64url_to_bytes-bytes_to_base64url, all_of-bytes_to_base64url,
  length-bytes_to_base64url, bytes_to_base64url_inj,
}
use auditable_mcp_sdk_ts.Crypto.SaltedHash.{
  JsonText, pair, disclosure_of, salted_hash_of, open_salted_hash, open_bytes, parsed, context_of,
}

abbrev base64url : Regex
base64url = range b'A' b'Z' or range b'a' b'z' or range b'0' b'9' or chars "_-"

abbrev tested : Bool → Regex
tested b = if b then empty else never

matches-tested :
    (b : Bool) (s : Regex) (t : Text) → matches (seq (tested b) s) t ≡ (b && matches s t)
matches-tested true s t = matches-seq_empty s t
matches-tested false s t = matches-seq_never s t

any_of :
    (x y z w : Bool) (s : Regex) (t : Text)
    → (x || (y || (z || w))) ≡ true
    → matches (seq (choice (tested x) (choice (tested y) (choice (tested z) (tested w)))) s) t
      ≡ matches s t
any_of x y z w s t e = ground (
  arith,
  matches-seq_choice (tested x) (choice (tested y) (choice (tested z) (tested w))) s t,
  matches-seq_choice (tested y) (choice (tested z) (tested w)) s t,
  matches-seq_choice (tested z) (tested w) s t,
  matches-tested x s t,
  matches-tested y s t,
  matches-tested z s t,
  matches-tested w s t,
)

matches-derived :
    (c : ℕ) (s : Regex) (t : Text)
    → url_character c ≡ true
    → matches (seq (derive c base64url) s) t ≡ matches s t
unfolding derive url_character
matches-derived c s t legal =
    any_of (leb b'A' c && leb c b'Z') (leb b'a' c && leb c b'z') (leb b'0' c && leb c b'9')
      ((b'_' == c) || ((b'-' == c) || false)) s t (ground arith)

matches-seq_base64url :
    (c : ℕ) (s : Regex) (cs : Text)
    → url_character c ≡ true
    → matches (seq base64url s) (c ∷ cs) ≡ matches s cs
unfolding matches derive nullable
matches-seq_base64url c s cs legal = matches-derived c s cs legal

-- `[A-Za-z0-9_-]{n}` matches the texts of `n` of its characters.
matches-times_base64url :
    (n : ℕ) (t : Text)
    → all_of url_character t ≡ true
    → length t ≡ n
    → matches (times n base64url) t ≡ true
unfolding matches nullable all_of
matches-times_base64url zero [] legal l = refl
matches-times_base64url zero (c ∷ cs) legal l = absurd (omega arith)
matches-times_base64url (suc n) [] legal l = absurd (omega arith)
matches-times_base64url (suc n) (c ∷ cs) legal l =
    matches-seq_base64url c (times n base64url) cs (ground arith)
    ∙ matches-times_base64url n cs (ground arith) (omega arith)

-- What the salted hash relies on: the UTF-8 codec gives bytes and undoes itself, and SHA-256 gives 32 bytes and has no collision.
pub record Laws (p : Packages) : Type 0 where
  pub utf8_below : (t : Text) → AllBelow 256 (p.encode_utf8 t)
  -- texts of the alphabet are ASCII, which is encoded as itself
  pub utf8_inj :
      (s t : Text)
      → all_of url_character s ≡ true
      → all_of url_character t ≡ true
      → p.encode_utf8 s ≡ p.encode_utf8 t
      → s ≡ t
  pub sha256_below : (bytes : List ℕ) → AllBelow 256 (p.sha256 bytes)
  pub length-sha256 : (bytes : List ℕ) → length (p.sha256 bytes) ≡ 32

hashed :
    {salted expected : Text} (same : Bool) (value : Option Members) {context : Members}
    → same_text salted expected ≡ same
    → (if not same then none else value) ≡ some context
    → salted ≡ expected
hashed {salted} {expected} true value e q = (same_text_iff salted expected).0 e
hashed false value e q = absurd cc

url_only :
    (legal odd : Bool) (bytes : Option (List ℕ))
    → is_some (if not legal || odd then none else bytes) ≡ true
    → legal ≡ true
url_only true odd bytes q = refl
url_only false odd bytes q = absurd cc

opened_by :
    (p : Packages) (j : JsonText) (disclosure salted_hash : Text) (refused : Bool)
    (raw : Option (List ℕ)) {context : Members}
    → (if refused then none else open_bytes p j disclosure salted_hash raw) ≡ some context
    → (salted_hash_of p disclosure ≡ salted_hash) × is_some raw ≡ true
opened_by p j disclosure salted_hash true raw q = absurd cc
opened_by p j disclosure salted_hash false none q = absurd cc
opened_by p j disclosure salted_hash false (some bytes) q = (
  hashed (same_text (salted_hash_of p disclosure) salted_hash)
      (context_of (parsed j (j.decode_utf8 bytes))) refl q,
  refl,
)

is_some-url_character :
    (text : Text)
    → is_some (base64url_to_bytes (str text)) ≡ true
    → all_of url_character text ≡ true
unfolding base64url_to_bytes
is_some-url_character text q =
    url_only (all_of url_character text) (length text % 4 == 1)
      (same_encoding text (atob (padded text))) q

module _ (p : Packages) (laws : Laws p) (j : JsonText) where
  salted_hash-matches :
      (disclosure : Text) → matches salted_hash_regex (salted_hash_of p disclosure) ≡ true
  unfolding salted_hash_of salted_hash_regex
  salted_hash-matches disclosure =
      let bytes = p.sha256 (p.encode_utf8 disclosure) in
      let below = laws.sha256_below (p.encode_utf8 disclosure) in
      let size = laws.length-sha256 (p.encode_utf8 disclosure) in
      let l = length-bytes_to_base64url bytes below in
      matches-times_base64url 43 (bytes_to_base64url bytes) (all_of-bytes_to_base64url bytes below)
        (omega (arith, l, size))

  opened :
      (disclosure : Text) (salt : Text) (context : Members) (bytes : List ℕ)
      → base64url_to_bytes (str disclosure) ≡ some bytes
      → parsed j (j.decode_utf8 bytes) ≡ some (pair salt context)
      → open_salted_hash p j disclosure (salted_hash_of p disclosure) ≡ some context
  unfolding open_salted_hash
  opened disclosure salt context bytes raw value =
      let same =
        (same_text_iff (salted_hash_of p disclosure) (salted_hash_of p disclosure)).1 refl in
      rw (salted_hash-matches disclosure, raw, same, value) refl

  -- The Disclosure of a context opens its own salted hash, to that context, where the decoder
  -- and `JSON.parse` read back the salt and the context that `JSON.stringify` and the encoder wrote.
  pub open_salted_hash-disclosure_of :
      (salt : Text) (context : Members)
      → parsed j (j.decode_utf8 (p.encode_utf8 (j.stringify (pair salt context))))
        ≡ some (pair salt context)
      → open_salted_hash p j
          (disclosure_of p j salt context)
          (salted_hash_of p (disclosure_of p j salt context))
        ≡ some context
  unfolding disclosure_of
  open_salted_hash-disclosure_of salt context read =
      let v = pair salt context in
      let text = j.stringify v in
      opened (bytes_to_base64url (p.encode_utf8 text)) salt context (p.encode_utf8 text)
        (base64url_to_bytes-bytes_to_base64url (p.encode_utf8 text) (laws.utf8_below text)) read

  hash-of-opened :
      (disclosure salted_hash : Text) (context : Members)
      → open_salted_hash p j disclosure salted_hash ≡ some context
      → (salted_hash_of p disclosure ≡ salted_hash) × (all_of url_character disclosure ≡ true)
  unfolding open_salted_hash
  hash-of-opened disclosure salted_hash context q =
      let raw = base64url_to_bytes (str disclosure) in
      let (same, whole) =
        opened_by p j disclosure salted_hash (not (matches salted_hash_regex salted_hash)) raw q in
      (same, is_some-url_character disclosure whole)

  -- Two Disclosures that open one salted hash are one, and open it to one context, where they are no
  -- collision of SHA-256.
  pub open_salted_hash-binding :
      (d e salted_hash : Text) (c c' : Members)
      → (p.sha256 (p.encode_utf8 d) ≡ p.sha256 (p.encode_utf8 e)
          → p.encode_utf8 d ≡ p.encode_utf8 e)
      → open_salted_hash p j d salted_hash ≡ some c
      → open_salted_hash p j e salted_hash ≡ some c'
      → (d ≡ e) × (c ≡ c')
  unfolding salted_hash_of
  open_salted_hash-binding d e salted_hash c c' apart q r =
      let (hash, legal) = hash-of-opened d salted_hash c q in
      let (hash', legal') = hash-of-opened e salted_hash c' r in
      let same = hash ∙ sym hash' in
      let bytes =
        bytes_to_base64url_inj (p.sha256 (p.encode_utf8 d)) (p.sha256 (p.encode_utf8 e))
          (laws.sha256_below (p.encode_utf8 d)) (laws.sha256_below (p.encode_utf8 e)) same in
      let one = laws.utf8_inj d e legal legal' (apart bytes) in
      let both : some c ≡ some c' = sym q ∙ ap (λ t. open_salted_hash p j t salted_hash) one ∙ r in
      (one, ground (arith, both))
