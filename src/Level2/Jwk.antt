-- ===== src/Level2/Jwk.antt =====
-- src/l2/jwk.ts: registry entries as a JWK Set, and the two methods of `KeyRegistry` that write and read
-- one. Wordings of errors are not modelled.
pub mod Read
use auditable_mcp_sdk_ts.Base.{
  ℕ, zero, suc, ◌+◌, ◌/◌, ◌%◌, ◌^◌, Bool, true, false, ◌&&◌, ◌||◌, not, Option, none, some, List,
  [], ◌∷◌, ◌++◌, Text, lit, has, text_eq, is_some, same_text, ◌==◌, if◌then◌else◌, length,
}
use auditable_mcp_sdk_ts.Base.Exec.{Result, ok, err, invalid_argument}
use auditable_mcp_sdk_ts.Base.Exec.Try.{◌>>=◌, ◌>>◌, throw_if}
use auditable_mcp_sdk_ts.Json.{
  Value, null, bool, str, arr, obj, Items, nil, cons, Members, end, member, find_member, get,
  as_text, is_text, string_of,
}
use auditable_mcp_sdk_ts.Canonical.{Packages}
use auditable_mcp_sdk_ts.Crypto.Base64.{bytes_to_base64url, base64url_to_bytes}
use auditable_mcp_sdk_ts.Crypto.SaltedHash.{JsonText}
use auditable_mcp_sdk_ts.Host.Sessions.{before}
use auditable_mcp_sdk_ts.Level2.Keys.{
  Algorithm, ed25519, es256, Role, tool, host, RegisteredKey, Curves, Registry, Entry, load_entries,
  is_revoked,
}

abbrev pub kid : Text
kid = lit "kid"

abbrev pub kty : Text
kty = lit "kty"

abbrev pub crv : Text
crv = lit "crv"

abbrev pub alg : Text
alg = lit "alg"

abbrev pub x_name : Text
x_name = lit "x"

abbrev pub y_name : Text
y_name = lit "y"

-- `ROLE_MEMBER` and `REVOKED_MEMBER`
abbrev pub role_member : Text
role_member = lit "amcp_role"

abbrev pub revoked_member : Text
revoked_member = lit "amcp_revoked"

-- `PARAMETERS`
abbrev pub kty_of : Algorithm → Text
kty_of ed25519 = lit "OKP"
kty_of es256 = lit "EC"

abbrev pub crv_of : Algorithm → Text
crv_of ed25519 = lit "Ed25519"
crv_of es256 = lit "P-256"

abbrev pub alg_of : Algorithm → Text
alg_of ed25519 = lit "Ed25519"
alg_of es256 = lit "ES256"

abbrev pub role_text : Role → Text
role_text tool = lit "tool"
role_text host = lit "host"

-- `fixedLength`
abbrev of_length : ℕ → Option (List ℕ) → Result (List ℕ)
of_length n none = err invalid_argument
of_length n (some raw) = if length raw == n then ok raw else err invalid_argument

abbrev decoded_member : Option Value → Option (List ℕ)
decoded_member none = none
decoded_member (some v) = base64url_to_bytes v

unfoldable pub fixed_length : Option Value → ℕ → Result (List ℕ)
fixed_length value n = of_length n (decoded_member value)

-- The value in `width` bytes, the most significant first.
abbrev pub big_endian : ℕ → ℕ → List ℕ
big_endian zero n = []
big_endian (suc width) n = ((n / 256 ^ width) % 256) ∷ big_endian width n

-- `{ [REVOKED_MEMBER]: true }` or nothing
abbrev pub revocation : Bool → Members
revocation true = member revoked_member (bool true) end
revocation false = end

abbrev pub described : Text → Algorithm → Members → Members
described id a rest =
    member kid (str id)
      (member kty (str (kty_of a)) (member crv (str (crv_of a)) (member alg (str (alg_of a)) rest)))

abbrev pub ends : Role → Bool → Members
ends role revoked = member role_member (str (role_text role)) (revocation revoked)

abbrev pub point_jwk : Text → Role → Bool → Option (ℕ × ℕ) → Result Members
point_jwk id role revoked none = err invalid_argument
point_jwk id role revoked (some (x, y)) = ok (
    described id es256 (
      member x_name (str (bytes_to_base64url (big_endian 32 x)))
        (member y_name (str (bytes_to_base64url (big_endian 32 y))) (ends role revoked))))

-- `publicJwk`
unfoldable pub public_jwk : Curves → Text → List ℕ → Algorithm → Role → Bool → Result Members
public_jwk c id key ed25519 role revoked =
    if not (length key == 32)
    then err invalid_argument
    else ok
        (described id ed25519 (member x_name (str (bytes_to_base64url key)) (ends role revoked)))
public_jwk c id key es256 role revoked = point_jwk id role revoked (c.p256_affine key)

abbrev non_empty : Option Text → Result Text
non_empty none = err invalid_argument
non_empty (some []) = err invalid_argument
non_empty (some (u ∷ us)) = ok (u ∷ us)

abbrev names_algorithm : Members → Algorithm → Bool
names_algorithm jwk a =
    is_text (kty_of a) (find_member kty jwk) && is_text (crv_of a) (find_member crv jwk)

unfoldable pub algorithm_of : Members → Result Algorithm
algorithm_of jwk =
    if names_algorithm jwk ed25519
    then ok ed25519
    else if names_algorithm jwk es256
    then ok es256
    else err invalid_argument

abbrev pub role_of : Option Value → Result Role
role_of v =
    if is_text (role_text tool) v
    then ok tool
    else if is_text (role_text host) v
    then ok host
    else err invalid_argument

-- `jwk[REVOKED_MEMBER] ?? false`, which must be a boolean
abbrev pub revoked_of : Option Value → Result Bool
revoked_of none = ok false
revoked_of (some null) = ok false
revoked_of (some (bool b)) = ok b
revoked_of (some v) = err invalid_argument

-- The public key of the JWK's coordinates.
unfoldable pub key_of : Curves → Members → Algorithm → Result (List ℕ)
key_of c jwk ed25519 = fixed_length (find_member x_name jwk) 32
key_of c jwk es256 = do
  x ← fixed_length (find_member x_name jwk) 32
  y ← fixed_length (find_member y_name jwk) 32
  throw_if (not (is_some (c.p256_bytes (4 ∷ (x ++ y))))) invalid_argument
  ok (4 ∷ (x ++ y))

-- `publicKeyOf`
unfoldable pub public_key_of : Curves → Members → Result Entry
public_key_of c jwk = do
  throw_if (is_some (find_member (lit "d") jwk)) invalid_argument
  id ← non_empty (as_text (find_member kid jwk))
  a ← algorithm_of jwk
  throw_if (is_some (find_member alg jwk) && not (is_text (alg_of a) (find_member alg jwk)))
      invalid_argument
  role ← role_of (find_member role_member jwk)
  revoked ← revoked_of (find_member revoked_member jwk)
  key ← key_of c jwk a
  ok (record { key_id = id; public_key = key; algorithm = a; role = role; revoked = revoked })

abbrev as_members : Value → Result Members
as_members (obj ms) = ok ms
as_members _ = err invalid_argument

unfoldable pub members_of : Items → Result (List Members)
members_of nil = ok []
members_of (cons v vs) = do ms ← as_members v; rest ← members_of vs; ok (ms ∷ rest)

unfoldable pub entries_of : Curves → List Members → Result (List Entry)
entries_of c [] = ok []
entries_of c (jwk ∷ jwks) = do
  entry ← public_key_of c jwk
  rest ← entries_of c jwks
  ok (entry ∷ rest)

abbrev as_items : Option Value → Result Items
as_items (some (arr vs)) = ok vs
as_items _ = err invalid_argument

-- `loadJwks`
unfoldable pub load_jwks : Curves → Registry → Value → Result Registry
load_jwks c g document = do
  items ← as_items (get (lit "keys") document)
  jwks ← members_of items
  entries ← entries_of c jwks
  load_entries c g entries

-- The entries by their key ids.
unfoldable pub insert_key :
    Text × RegisteredKey → List (Text × RegisteredKey) → List (Text × RegisteredKey)
insert_key k [] = k ∷ []
insert_key k (j ∷ js) =
    let rest = insert_key k js in if before j.0 k.0 then j ∷ rest else k ∷ j ∷ js

unfoldable pub sorted_keys : List (Text × RegisteredKey) → List (Text × RegisteredKey)
sorted_keys [] = []
sorted_keys (k ∷ ks) = insert_key k (sorted_keys ks)

unfoldable pub jwks_of :
    Curves → Role → List Text → List (Text × RegisteredKey) → Result (List Members)
jwks_of c role revoked [] = ok []
jwks_of c role revoked ((id, e) ∷ keys) = do
  jwk ← public_jwk c id e.public_key e.algorithm role (has id revoked)
  rest ← jwks_of c role revoked keys
  ok (jwk ∷ rest)

abbrev pub items_of : List Members → Items
items_of [] = nil
items_of (ms ∷ rest) = cons (obj ms) (items_of rest)

-- `toJwks`
unfoldable pub to_jwks : Curves → Registry → Result Value
to_jwks c g = do
  jwks ← jwks_of c g.role g.revoked (sorted_keys g.keys)
  ok (obj (member (lit "keys") (arr (items_of jwks)) end))

-- `THUMBPRINT_MEMBERS`
unfoldable pub thumbprint_members : Text → Result (List Text)
thumbprint_members t =
    if same_text t (lit "OKP")
    then ok (crv ∷ kty ∷ x_name ∷ [])
    else if same_text t (lit "EC")
    then ok (crv ∷ kty ∷ x_name ∷ y_name ∷ [])
    else err invalid_argument

abbrev text_member : Option Value → Result Value
text_member (some (str s)) = ok (str s)
text_member _ = err invalid_argument

-- `"name":value` for each member, with commas between
unfoldable pub rendered : JsonText → Members → List Text → Result Text
rendered j jwk [] = ok []
rendered j jwk (name ∷ []) = do
  v ← text_member (find_member name jwk)
  ok (j.stringify (str name) ++ lit ":" ++ j.stringify v)
rendered j jwk (name ∷ next ∷ names) = do
  v ← text_member (find_member name jwk)
  rest ← rendered j jwk (next ∷ names)
  ok (j.stringify (str name) ++ lit ":" ++ j.stringify v ++ lit "," ++ rest)

-- `jwkThumbprint`
unfoldable pub jwk_thumbprint : Packages → JsonText → Members → Result Text
jwk_thumbprint p j jwk = do
  t ← string_of p.to_text (find_member kty jwk)
  names ← thumbprint_members t
  body ← rendered j jwk names
  ok (bytes_to_base64url (p.sha256 (p.encode_utf8 (lit "{" ++ body ++ lit "}"))))
