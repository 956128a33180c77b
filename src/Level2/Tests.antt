-- ===== src/Level2/Tests.antt =====
-- A registry, a signer and the theorems of src/l2 at them.
use auditable_mcp_sdk_ts.Base.{
  ℕ, ◌≡◌, refl, true, false, ◌&&◌, not, none, some, List, [], ◌∷◌, Text, lit, lookup, insert, has,
  add, same_text, same_text_iff, list_beq, text_eq,
}
use auditable_mcp_sdk_ts.Base.Exec.{Result, ok, err}
use auditable_mcp_sdk_ts.Hashing.{replicate}
use auditable_mcp_sdk_ts.Json
use auditable_mcp_sdk_ts.Json.{str, Members, member, end, find_member, as_text}
use auditable_mcp_sdk_ts.Fields
use auditable_mcp_sdk_ts.Canonical
use auditable_mcp_sdk_ts.Models.Earlier.{is_earlier_version}
use auditable_mcp_sdk_ts.Reasons.{unknown_key}
use auditable_mcp_sdk_ts.Samples
use auditable_mcp_sdk_ts.Samples.{packages, session_a, attempt_a}
use auditable_mcp_sdk_ts.Samples.Bytes.{fit, fit-below, length-fit}
use auditable_mcp_sdk_ts.Level2
use auditable_mcp_sdk_ts.Level2.Keys.{
  Curves, Registry, RegisteredKey, ed25519, tool, get_key, is_revoked, revoke, is_key_of,
  register_in, register,
}
use auditable_mcp_sdk_ts.Level2.Bound.{
  Becomes, unchanged, then_step, registers, revokes, Binds, registry-Binds, registry-revoked,
}
use auditable_mcp_sdk_ts.Level2.Signing.{Engines, sign_event}
use auditable_mcp_sdk_ts.Level2.Checking.{verify_arriving, check_event, verify_event}
use auditable_mcp_sdk_ts.Level2.Checking.Verified.{
  SignsFor, verify_arriving-sign_event, verify_arriving-none, revoke-verify,
}
use auditable_mcp_sdk_ts.Crypto.Base64.{bytes_to_base64url}
use auditable_mcp_sdk_ts.Crypto.Base64.Laws.{AllBelow, none_below, also_below}
use auditable_mcp_sdk_ts.Level2.Jwk.{x_name, big_endian, described, ends, public_jwk}
use auditable_mcp_sdk_ts.Level2.Jwk.Read.{HasCoordinates, ReadsBack, public_key_of-public_jwk}
use auditable_mcp_sdk_ts.Base.{zero, suc, ◌<◌, ◌++◌, arith}
use auditable_mcp_sdk_ts.Level2.Reconcile.{
  Observation, reconcile, destinations, was_observed, was_reported, reconcile_iff,
}

-- A curve of one point.
abbrev one_point : List ℕ
one_point = 4 ∷ (big_endian 32 1 ++ big_endian 32 2)

abbrev curves : Curves
curves = record {
  is_ed25519_point = λ key. true;
  is_p256_point = λ key. true;
  p256_bytes = λ key. some one_point;
  p256_affine = λ key. some (1, 2);
}

abbrev key : List ℕ
key = replicate 32 1

abbrev other_key : List ℕ
other_key = replicate 32 2

abbrev entry : RegisteredKey
entry = record { algorithm = ed25519; public_key = key }

abbrev registry : Registry
registry = record { role = tool; keys = (lit "k", entry) ∷ []; revoked = [] }

abbrev grown : Registry
grown = record {
  role = tool;
  keys = (lit "k", entry) ∷ (lit "l", record { algorithm = ed25519; public_key = other_key }) ∷ [];
  revoked = lit "k" ∷ [];
}

registry-Becomes : Becomes curves registry grown
unfolding register register_in is_key_of lookup insert revoke has add same_text
registry-Becomes =
    then_step (then_step unchanged (registers (lit "l") other_key ed25519 refl))
      (revokes (lit "k") refl)

found_key : lookup (lit "k") registry.keys ≡ some entry
unfolding lookup same_text
found_key = refl

registry-Binds_example : Binds curves entry (lit "k") grown.keys
registry-Binds_example =
    registry-Binds curves (lit "k") entry registry grown registry-Becomes found_key

k_is_revoked : is_revoked grown (lit "k") ≡ true
unfolding is_revoked has same_text
k_is_revoked = refl

registry-revoked_example : is_revoked grown (lit "k") ≡ true
registry-revoked_example = registry-revoked curves (lit "k") grown grown unchanged k_is_revoked

-- The payload itself is the signature, cut to 64 bytes.
abbrev engines : Engines
engines = record {
  sign = λ payload private_key. fit 64 payload;
  ed25519_verify = λ payload signature public_key. some (same_text (fit 64 payload) signature);
  ecdsa_verify = λ payload signature public_key. none;
}

engines-SignsFor : SignsFor engines key key
engines-SignsFor = record {
  signature_below = fit-below 64;
  length-signature = length-fit 64;
  verifies = λ payload.
      let same = (same_text_iff (fit 64 payload) (fit 64 payload)).1 refl in λ i. some (same i);
}

abbrev event : Members
event = member Fields.id (str (lit "e")) end

abbrev signed_by : Result Members → Members
signed_by (ok ms) = ms
signed_by (err thrown) = end

abbrev signed_event : Members
signed_event = signed_by (sign_event packages engines event (lit "k") 3 key)

event_is_signed : sign_event packages engines event (lit "k") 3 key ≡ ok signed_event
unfolding Json.Objects.without Json.Objects.assign Level2.Signing.signature_payload
    Level2.Signing.numbered_event sign_event Canonical.unsafe_number Canonical.has_unsafe_number
    Canonical.some_unsafe Canonical.some_member_unsafe Canonical.has_lone_surrogate
    Canonical.some_lone Canonical.some_member_lone Canonical.some_or_throw Canonical.canonicalize
    Canonical.Surrogates.is_high Canonical.Surrogates.is_low Canonical.Surrogates.starts_low
    Canonical.Surrogates.lone_after Canonical.Surrogates.lone_surrogate Samples.Encoding.number_tag
    Samples.Encoding.encode_text Samples.Encoding.encode Samples.Encoding.encode_items
    Samples.Encoding.encode_members same_text list_beq find_member
event_is_signed = refl

event_is_current : is_earlier_version (find_member Fields.spec_version event) ≡ false
unfolding is_earlier_version find_member same_text
event_is_current = refl

found_entry : get_key registry (lit "k") ≡ some entry
unfolding get_key lookup same_text
found_entry = refl

k_is_live : is_revoked registry (lit "k") ≡ false
unfolding is_revoked has
k_is_live = refl

verify_arriving-sign_event_example :
    (verify_arriving packages engines registry signed_event ≡ none)
    × (check_event packages engines registry signed_event ≡ true)
verify_arriving-sign_event_example =
    verify_arriving-sign_event packages engines registry event (lit "k") 3 key entry signed_event
      engines-SignsFor refl found_entry k_is_live event_is_current event_is_signed

verify_arriving-none_example :
    (key_id : Text) × (bound : RegisteredKey) × (as_text (find_member Fields.key_id signed_event)
      ≡ some key_id)
    × (get_key registry key_id ≡ some bound)
    × (is_revoked registry key_id ≡ false)
    × (verify_event packages engines bound signed_event ≡ true)
verify_arriving-none_example =
    verify_arriving-none packages engines registry signed_event verify_arriving-sign_event_example.0

abbrev withdrawn : Registry
withdrawn = record registry { revoked = lit "k" ∷ [] }

k_is_withdrawn : revoke registry (lit "k") ≡ ok withdrawn
unfolding revoke lookup same_text has add
k_is_withdrawn = refl

event_names_k : as_text (find_member Fields.key_id signed_event) ≡ some (lit "k")
unfolding Json.Objects.without Json.Objects.assign Level2.Signing.signature_payload
    Level2.Signing.numbered_event sign_event Canonical.unsafe_number Canonical.has_unsafe_number
    Canonical.some_unsafe Canonical.some_member_unsafe Canonical.has_lone_surrogate
    Canonical.some_lone Canonical.some_member_lone Canonical.some_or_throw Canonical.canonicalize
    Canonical.Surrogates.is_high Canonical.Surrogates.is_low Canonical.Surrogates.starts_low
    Canonical.Surrogates.lone_after Canonical.Surrogates.lone_surrogate Samples.Encoding.number_tag
    Samples.Encoding.encode_text Samples.Encoding.encode Samples.Encoding.encode_items
    Samples.Encoding.encode_members same_text list_beq find_member
event_names_k = refl

revoke-verify_example :
    (verify_arriving packages engines withdrawn signed_event ≡ some unknown_key)
    × (check_event packages engines withdrawn signed_event
        ≡ check_event packages engines registry signed_event)
revoke-verify_example =
    revoke-verify packages engines registry withdrawn (lit "k") signed_event signed_event
      k_is_withdrawn event_names_k

abbrev sightings : List Observation
sightings = record { session_id = session_a; destination = lit "d" } ∷ []

reconcile_iff_example :
    has (lit "d") (destinations (reconcile [] sightings session_a))
    ≡ (was_observed session_a (lit "d") sightings && not (was_reported session_a (lit "d") []))
reconcile_iff_example = reconcile_iff [] sightings session_a (lit "d")

curves-HasCoordinates : HasCoordinates curves
curves-HasCoordinates = record {
  p256_bytes-affine = λ k x y at. refl;
  p256_bytes-some = λ k x y at. refl;
}

replicate-below : (n b : ℕ) → b < 256 → AllBelow 256 (replicate n b)
replicate-below zero b small = none_below
replicate-below (suc n) b small = also_below small (replicate-below n b small)

abbrev written_key : Members
written_key =
    described (lit "k") ed25519 (member x_name (str (bytes_to_base64url key)) (ends tool true))

key_is_written : public_jwk curves (lit "k") key ed25519 tool true ≡ ok written_key
unfolding public_jwk
key_is_written = refl

public_key_of-public_jwk_example : ReadsBack curves (lit "k") key ed25519 tool true written_key
public_key_of-public_jwk_example =
    public_key_of-public_jwk curves (lit "k") key ed25519 tool true written_key
      curves-HasCoordinates refl (replicate-below 32 1 (omega arith)) key_is_written
