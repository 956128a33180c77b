-- ===== src/Level2/Keys.antt =====
-- src/l2/keys.ts: the registry of public keys. The curve libraries are parameters.
use auditable_mcp_sdk_ts.Base.{
  ℕ, Bool, true, false, ◌&&◌, ◌||◌, not, Option, none, some, List, [], ◌∷◌, Text, nat_eq, list_beq,
  text_eq, ◌==◌, is_some, if◌then◌else◌, lookup, insert, has, add, length,
}
use auditable_mcp_sdk_ts.Base.Exec.{Result, ok, err, invalid_argument}
use auditable_mcp_sdk_ts.Base.Exec.Try.{◌>>=◌, ◌>>◌, throw_if}

-- `SignatureAlgorithm`
pub data Algorithm : Type 0 where
  ed25519 es256 : Algorithm

-- `KeyRole`
pub data Role : Type 0 where
  tool host : Role

-- `RegisteredKey`; a key is its bytes.
pub record RegisteredKey : Type 0 where
  pub algorithm : Algorithm
  pub public_key : List ℕ

pub record Curves : Type 0 where
  -- `ed25519.utils.isValidPublicKey(key, false)`
  pub is_ed25519_point : List ℕ → Bool
  -- `p256.Point.fromBytes(key).assertValidity()` does not throw
  pub is_p256_point : List ℕ → Bool
  -- `p256.Point.fromBytes(key).toBytes(false)`; `none` if it threw
  pub p256_bytes : List ℕ → Option (List ℕ)
  -- `p256.Point.fromBytes(key).toAffine()`; `none` if it threw
  pub p256_affine : List ℕ → Option (ℕ × ℕ)

-- `bytesEqual`
unfoldable pub bytes_equal : List ℕ → List ℕ → Bool
unfolding list_beq
bytes_equal = list_beq ◌==◌

abbrev pub same_algorithm : Algorithm → Algorithm → Bool
same_algorithm ed25519 ed25519 = true
same_algorithm es256 es256 = true
same_algorithm _ _ = false

abbrev pub same_role : Role → Role → Bool
same_role tool tool = true
same_role host host = true
same_role _ _ = false

abbrev first_byte : List ℕ → Option ℕ
first_byte [] = none
first_byte (b ∷ bs) = some b

abbrev is_byte : ℕ → Option ℕ → Bool
is_byte n none = false
is_byte n (some b) = b == n

-- A SEC1 point, uncompressed or compressed.
unfoldable pub is_tagged : List ℕ → Bool
is_tagged key =
    (length key == 65 && is_byte 4 (first_byte key))
    || (length key == 33 && (is_byte 2 (first_byte key) || is_byte 3 (first_byte key)))

-- `isKeyOf`
unfoldable pub is_key_of : Curves → List ℕ → Algorithm → Bool
is_key_of c key ed25519 = (length key == 32) && c.is_ed25519_point key
is_key_of c key es256 = is_tagged key && c.is_p256_point key

abbrev pub same_points : Option (List ℕ) → Option (List ℕ) → Bool → Bool
same_points (some a) (some b) same = bytes_equal a b
same_points _ _ same = same

-- `sameKey`
unfoldable pub same_key : Curves → List ℕ → List ℕ → Algorithm → Bool
same_key c a b ed25519 = bytes_equal a b
same_key c a b es256 = same_points (c.p256_bytes a) (c.p256_bytes b) (bytes_equal a b)

-- `KeyRegistry`
pub record Registry : Type 0 where
  pub role : Role
  pub keys : List (Text × RegisteredKey)
  pub revoked : List Text

abbrev pub new_registry : Role → Registry
new_registry role = record { role = role; keys = []; revoked = [] }

abbrev pub is_empty : Text → Bool
is_empty [] = true
is_empty (u ∷ us) = false

-- The key id is bound to another key.
abbrev pub conflicts : Curves → List ℕ → Algorithm → Option RegisteredKey → Bool
conflicts c key algorithm none = false
conflicts c key algorithm (some e) =
    not (same_algorithm e.algorithm algorithm) || not (same_key c e.public_key key algorithm)

-- The new entries, of what `register` writes.
unfoldable pub register_in :
    Curves
    → List (Text × RegisteredKey)
    → Text
    → List ℕ
    → Algorithm
    → Result (List (Text × RegisteredKey))
register_in c keys id key algorithm = do
  throw_if (is_empty id) invalid_argument
  throw_if (not (is_key_of c key algorithm)) invalid_argument
  throw_if (conflicts c key algorithm (lookup id keys)) invalid_argument
  ok (insert id (record { algorithm = algorithm; public_key = key }) keys)

-- `register`; the type of its argument has only the two algorithms.
unfoldable pub register : Curves → Registry → Text → List ℕ → Algorithm → Result Registry
register c g id key algorithm = do
  keys ← register_in c g.keys id key algorithm
  ok (record g { keys = keys })

-- `JwkEntry`
pub record Entry : Type 0 where
  pub key_id : Text
  pub public_key : List ℕ
  pub algorithm : Algorithm
  pub role : Role
  pub revoked : Bool

abbrev pub all_of_role : Role → List Entry → Bool
all_of_role role [] = true
all_of_role role (e ∷ es) = same_role e.role role && all_of_role role es

-- The rehearsal: the registry's own entries are registered again, then those of the set.
unfoldable pub register_own :
    Curves
    → List (Text × RegisteredKey)
    → List (Text × RegisteredKey)
    → Result (List (Text × RegisteredKey))
register_own c [] keys = ok keys
register_own c ((id, e) ∷ own) keys = do
  keys' ← register_in c keys id e.public_key e.algorithm
  register_own c own keys'

unfoldable pub register_all :
    Curves → List Entry → List (Text × RegisteredKey) → Result (List (Text × RegisteredKey))
register_all c [] keys = ok keys
register_all c (e ∷ es) keys = do
  keys' ← register_in c keys e.key_id e.public_key e.algorithm
  register_all c es keys'

unfoldable pub revoke_all : List Entry → List Text → List Text
revoke_all [] revoked = revoked
revoke_all (e ∷ es) revoked = revoke_all es (if e.revoked then add e.key_id revoked else revoked)

-- `loadJwks`, of the entries that the set's JWKs are read as.
unfoldable pub load_entries : Curves → Registry → List Entry → Result Registry
load_entries c g entries = do
  throw_if (not (all_of_role g.role entries)) invalid_argument
  own ← register_own c g.keys []
  keys ← register_all c entries own
  ok (record g { keys = keys; revoked = revoke_all entries g.revoked })

-- `revoke`
unfoldable pub revoke : Registry → Text → Result Registry
revoke g id =
    if is_some (lookup id g.keys)
    then ok (record g { revoked = add id g.revoked })
    else err invalid_argument

-- `isRevoked`
unfoldable pub is_revoked : Registry → Text → Bool
is_revoked g id = has id g.revoked

-- `get`
unfoldable pub get_key : Registry → Text → Option RegisteredKey
get_key g id = lookup id g.keys

abbrev pub same_entry : Curves → RegisteredKey → RegisteredKey → Bool
same_entry c a b =
    same_algorithm a.algorithm b.algorithm && same_key c a.public_key b.public_key a.algorithm

abbrev pub some_same : Curves → RegisteredKey → List (Text × RegisteredKey) → Bool
some_same c a [] = false
some_same c a ((id, b) ∷ keys) = same_entry c a b || some_same c a keys

abbrev pub some_shared : Curves → List (Text × RegisteredKey) → List (Text × RegisteredKey) → Bool
some_shared c [] hosts = false
some_shared c ((id, a) ∷ tools) hosts = some_same c a hosts || some_shared c tools hosts

-- `assertRegistriesDisjoint`
unfoldable pub assert_registries_disjoint : Curves → Registry → Registry → Result (Unit {0})
assert_registries_disjoint c tools hosts = do
  throw_if (not (same_role tools.role tool) || not (same_role hosts.role host)) invalid_argument
  throw_if (some_shared c tools.keys hosts.keys) invalid_argument
  ok tt
