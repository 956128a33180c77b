-- ===== src/Level2/Checking.antt =====
-- src/l2/verification.ts: the verifiers over a registry of keys.
pub mod Verified
use auditable_mcp_sdk_ts.Base.{
  ℕ, Bool, true, false, ◌&&◌, ◌||◌, not, Option, none, some, List, Text, ◌==◌, if◌then◌else◌,
  length,
}
use auditable_mcp_sdk_ts.Base.Exec.{Result, ok, err, invalid_argument}
use auditable_mcp_sdk_ts.Base.Exec.Try.{◌>>=◌, ◌>>◌, throw_if}
use auditable_mcp_sdk_ts.Json.{Value, str, Members, find_member, as_text}
use auditable_mcp_sdk_ts.Fields
use auditable_mcp_sdk_ts.Reasons.{Code, unknown_key, signature_invalid}
use auditable_mcp_sdk_ts.Canonical.{Packages}
use auditable_mcp_sdk_ts.Models.Earlier.{is_earlier_version}
use auditable_mcp_sdk_ts.Crypto.Base64.{base64_to_bytes, base64url_to_bytes}
use auditable_mcp_sdk_ts.Level2.Keys.{
  Algorithm, ed25519, es256, RegisteredKey, Registry, Role, tool, host, same_role, get_key,
  is_revoked,
}
use auditable_mcp_sdk_ts.Level2.Signing.{Engines, signature_payload}

abbrev strictly : Option Value → Option (List ℕ)
strictly none = none
strictly (some v) = base64url_to_bytes v

abbrev loosely : Option Text → Option (List ℕ)
loosely none = none
loosely (some t) = base64_to_bytes t

-- `decodeSignature`
unfoldable pub decode_signature : Members → Option (List ℕ)
decode_signature event =
    if is_earlier_version (find_member Fields.spec_version event)
    then loosely (as_text (find_member Fields.signature event))
    else strictly (find_member Fields.signature event)

-- What a primitive gives, `false` where it throws.
abbrev or_false : Option Bool → Bool
or_false none = false
or_false (some b) = b

abbrev primitive : Engines → Algorithm → List ℕ → List ℕ → List ℕ → Option Bool
primitive e ed25519 = e.ed25519_verify
primitive e es256 = e.ecdsa_verify

-- `verifyRaw`: both algorithms have signatures of 64 bytes.
unfoldable pub verify_raw : Engines → RegisteredKey → Result (List ℕ) → List ℕ → Bool
verify_raw e entry (err thrown) signature = false
verify_raw e entry (ok payload) signature =
    if not (length signature == 64)
    then false
    else or_false (primitive e entry.algorithm payload signature entry.public_key)

abbrev verify_decoded : Packages → Engines → RegisteredKey → Members → Option (List ℕ) → Bool
verify_decoded p e entry event none = false
verify_decoded p e entry event (some signature) =
    verify_raw e entry (signature_payload p event) signature

-- `verifyEd25519Signature` or `verifyEcdsaSignature`, by the entry's algorithm.
unfoldable pub verify_event : Packages → Engines → RegisteredKey → Members → Bool
verify_event p e entry event = verify_decoded p e entry event (decode_signature event)

abbrev entry_of : Registry → Option Text → Option RegisteredKey
entry_of g none = none
entry_of g (some key_id) = get_key g key_id

abbrev revoked_id : Registry → Option Text → Bool
revoked_id g none = false
revoked_id g (some key_id) = is_revoked g key_id

abbrev judged : Packages → Engines → Members → Bool → Option RegisteredKey → Option Code
judged p e event refused none = some unknown_key
judged p e event true (some entry) = some unknown_key
judged p e event false (some entry) =
    if verify_event p e entry event then none else some signature_invalid

-- `rejectReason`
unfoldable pub reject_reason : Packages → Engines → Registry → Members → Bool → Option Code
reject_reason p e g event include_revoked =
    let key_id = as_text (find_member Fields.key_id event) in
    judged p e event (not include_revoked && revoked_id g key_id) (entry_of g key_id)

abbrev is_none : Option Code → Bool
is_none none = true
is_none (some code) = false

-- `check` and `verify` of `KeyRegistryVerifier`: the ledger verifier's, and the host's.
unfoldable pub check_event : Packages → Engines → Registry → Members → Bool
check_event p e g event = is_none (reject_reason p e g event true)

unfoldable pub verify_arriving : Packages → Engines → Registry → Members → Option Code
verify_arriving p e g event = reject_reason p e g event false

-- The constructors of the two verifiers refuse a registry of the other role.
unfoldable pub new_verifier : Registry → Result Registry
new_verifier g = do throw_if (not (same_role g.role tool)) invalid_argument; ok g

unfoldable pub new_countersignature_verifier : Registry → Result Registry
new_countersignature_verifier g = do throw_if (not (same_role g.role host)) invalid_argument; ok g

abbrev detached : Engines → List ℕ → RegisteredKey → Option (List ℕ) → Bool
detached e payload entry none = false
detached e payload entry (some signature) = verify_raw e entry (ok payload) signature

-- `verifyDetachedSignature`
unfoldable pub verify_detached : Engines → List ℕ → Text → RegisteredKey → Bool
verify_detached e payload encoded entry =
    detached e payload entry (base64url_to_bytes (str encoded))

abbrev countersigned_by : Engines → List ℕ → Text → Option RegisteredKey → Bool
countersigned_by e payload encoded none = false
countersigned_by e payload encoded (some entry) = verify_detached e payload encoded entry

-- `check` and `verify` of `CountersignatureRegistryVerifier`
unfoldable pub check_countersignature : Engines → Registry → Text → Text → List ℕ → Bool
check_countersignature e g host_key_id signature payload =
    countersigned_by e payload signature (get_key g host_key_id)

unfoldable pub verify_countersignature : Engines → Registry → Text → Text → List ℕ → Bool
verify_countersignature e g host_key_id signature payload =
    not (is_revoked g host_key_id) && check_countersignature e g host_key_id signature payload
