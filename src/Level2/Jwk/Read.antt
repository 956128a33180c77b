-- ===== src/Level2/Jwk/Read.antt =====
-- A JWK that src/l2/jwk.ts writes is read back as the entry that it was written from.
use auditable_mcp_sdk_ts.Base.{
  ℕ, zero, suc, ◌≡◌, refl, sym, ap, ◌∙◌, arith, Bool, true, false, not, Option, none, some, List,
  [], ◌∷◌, ◌++◌, Text, same_text, list_beq, ◌==◌, if◌then◌else◌, is_some, length,
}
use auditable_mcp_sdk_ts.Base.Exec.{ok, err, invalid_argument}
use auditable_mcp_sdk_ts.Json.{str, Members, member, find_member}
use auditable_mcp_sdk_ts.Crypto.Base64.{bytes_to_base64url}
use auditable_mcp_sdk_ts.Crypto.Base64.Laws.{
  AllBelow, none_below, also_below, base64url_to_bytes-bytes_to_base64url,
}
use auditable_mcp_sdk_ts.Level2.Keys.{
  Algorithm, ed25519, es256, Role, tool, host, Curves, Entry, is_empty,
}
use auditable_mcp_sdk_ts.Level2.Bound.{point}
use auditable_mcp_sdk_ts.Level2.Jwk.{
  x_name, y_name, fixed_length, big_endian, described, ends, point_jwk, public_jwk, key_of,
  public_key_of, algorithm_of,
}

big_endian-below : (width n : ℕ) → AllBelow 256 (big_endian width n)
big_endian-below zero n = none_below
big_endian-below (suc width) n = also_below (omega arith) (big_endian-below width n)

length-big_endian : (width n : ℕ) → length (big_endian width n) ≡ width
length-big_endian zero n = refl
length-big_endian (suc width) n = omega (arith, length-big_endian width n)

fixed_length-encoded :
    (bytes : List ℕ) (n : ℕ)
    → AllBelow 256 bytes
    → length bytes ≡ n
    → fixed_length (some (str (bytes_to_base64url bytes))) n ≡ ok bytes
unfolding fixed_length
fixed_length-encoded bytes n below size =
    rw (base64url_to_bytes-bytes_to_base64url bytes below) (ground (arith, size))

abbrev pub entry_of : Text → List ℕ → Algorithm → Role → Bool → Entry
entry_of id key a role revoked = record {
  key_id = id;
  public_key = key;
  algorithm = a;
  role = role;
  revoked = revoked;
}

read_described :
    (c : Curves) (u : ℕ) (us : Text) (key : List ℕ) (role : Role) (revoked : Bool) (x : Text)
    → fixed_length (some (str x)) 32 ≡ ok key
    → public_key_of c (described (u ∷ us) ed25519 (member x_name (str x) (ends role revoked)))
      ≡ ok (entry_of (u ∷ us) key ed25519 role revoked)
unfolding public_key_of algorithm_of key_of find_member same_text list_beq
read_described c u us key tool true x e = rw e refl
read_described c u us key tool false x e = rw e refl
read_described c u us key host true x e = rw e refl
read_described c u us key host false x e = rw e refl

read_point :
    (c : Curves) (u : ℕ) (us : Text) (x y : List ℕ) (role : Role) (revoked : Bool) (s t : Text)
    → fixed_length (some (str s)) 32 ≡ ok x
    → fixed_length (some (str t)) 32 ≡ ok y
    → is_some (c.p256_bytes (4 ∷ (x ++ y))) ≡ true
    → public_key_of c (
        described
          (u ∷ us)
          es256
          (member x_name (str s) (member y_name (str t) (ends role revoked))))
      ≡ ok (entry_of (u ∷ us) (4 ∷ (x ++ y)) es256 role revoked)
unfolding public_key_of algorithm_of key_of find_member same_text list_beq
read_point c u us x y tool true s t e f d = rw (e, f, d) refl
read_point c u us x y tool false s t e f d = rw (e, f, d) refl
read_point c u us x y host true s t e f d = rw (e, f, d) refl
read_point c u us x y host false s t e f d = rw (e, f, d) refl

-- What is documented of the curve library: the uncompressed form of a point's coordinates is a key of
-- that point.
pub record HasCoordinates (c : Curves) : Type 0 where
  pub p256_bytes-affine :
      (key : List ℕ) (x y : ℕ)
      → c.p256_affine key ≡ some (x, y)
      → c.p256_bytes (4 ∷ (big_endian 32 x ++ big_endian 32 y)) ≡ c.p256_bytes key
  pub p256_bytes-some :
      (key : List ℕ) (x y : ℕ) → c.p256_affine key ≡ some (x, y) → is_some (c.p256_bytes key) ≡ true

-- The JWK is read as an entry of the same id, algorithm, role and revocation, and of the same key.
pub data ReadsBack (c : Curves) (id : Text) (key : List ℕ) (a : Algorithm) (role : Role)
    (revoked : Bool) : Members → Type 0 where
  reads_back :
      {jwk : Members} (key' : List ℕ)
      → public_key_of c jwk ≡ ok (entry_of id key' a role revoked)
      → point c a key' ≡ point c a key
      → ReadsBack c id key a role revoked jwk

written_key :
    (c : Curves) (u : ℕ) (us : Text) (key : List ℕ) (role : Role) (revoked : Bool) (jwk : Members)
    (sized : Bool)
    → AllBelow 256 key
    → (length key == 32) ≡ sized
    → (if not sized
        then err invalid_argument
        else ok (
            described
              (u ∷ us)
              ed25519
              (member x_name (str (bytes_to_base64url key)) (ends role revoked))))
      ≡ ok jwk
    → ReadsBack c (u ∷ us) key ed25519 role revoked jwk
written_key c u us key role revoked jwk false below size q = absurd cc
written_key c u us key role revoked jwk true below size q =
    let x = bytes_to_base64url key in
    let is : described (u ∷ us) ed25519 (member x_name (str x) (ends role revoked)) ≡ jwk = cc in
    let known = fixed_length-encoded key 32 below (ground (arith, size)) in
    reads_back key (ap (public_key_of c) (sym is) ∙ read_described c u us key role revoked x known)
      refl

written_point :
    (c : Curves) (u : ℕ) (us : Text) (key : List ℕ) (role : Role) (revoked : Bool) (jwk : Members)
    (affine : Option (ℕ × ℕ))
    → HasCoordinates c
    → c.p256_affine key ≡ affine
    → point_jwk (u ∷ us) role revoked affine ≡ ok jwk
    → ReadsBack c (u ∷ us) key es256 role revoked jwk
written_point c u us key role revoked jwk none law at q = absurd cc
written_point c u us key role revoked jwk (some (x, y)) law at q =
    let s = bytes_to_base64url (big_endian 32 x) in
    let t = bytes_to_base64url (big_endian 32 y) in
    let is : described (u ∷ us) es256
          (member x_name (str s) (member y_name (str t) (ends role revoked)))
        ≡ jwk =
      cc in
    let known =
      fixed_length-encoded (big_endian 32 x) 32 (big_endian-below 32 x) (length-big_endian 32 x) in
    let known' =
      fixed_length-encoded (big_endian 32 y) 32 (big_endian-below 32 y) (length-big_endian 32 y) in
    let same = law.p256_bytes-affine key x y at in
    reads_back (4 ∷ (big_endian 32 x ++ big_endian 32 y))
      (ap (public_key_of c) (sym is)
        ∙ read_point c u us (big_endian 32 x) (big_endian 32 y) role revoked s t known known'
            (ap is_some same ∙ law.p256_bytes-some key x y at))
      same

-- A registry entry that is written as a JWK is read back as an entry of the same id, algorithm, role
-- and revocation, and of the same bytes or curve point, where the id is not empty, the key consists of
-- bytes, and the curve library decodes the coordinates that it gives.
pub public_key_of-public_jwk :
    (c : Curves) (id : Text) (key : List ℕ) (a : Algorithm) (role : Role) (revoked : Bool)
    (jwk : Members)
    → HasCoordinates c
    → is_empty id ≡ false
    → AllBelow 256 key
    → public_jwk c id key a role revoked ≡ ok jwk
    → ReadsBack c id key a role revoked jwk
unfolding public_jwk
public_key_of-public_jwk c [] key a role revoked jwk law named below q = absurd cc
public_key_of-public_jwk c (u ∷ us) key ed25519 role revoked jwk law named below q =
    written_key c u us key role revoked jwk (length key == 32) below refl q
public_key_of-public_jwk c (u ∷ us) key es256 role revoked jwk law named below q =
    written_point c u us key role revoked jwk (c.p256_affine key) law refl q
