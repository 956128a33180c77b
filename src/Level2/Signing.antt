-- ===== src/Level2/Signing.antt =====
-- src/l2/signing.ts: the signed payload, and stamping an event. The signature engines are parameters.
use auditable_mcp_sdk_ts.Base.{ℕ, Bool, Option, List, Text}
use auditable_mcp_sdk_ts.Base.Exec.{Result, ok}
use auditable_mcp_sdk_ts.Base.Exec.Try.{◌>>=◌}
use auditable_mcp_sdk_ts.Json.{str, obj, Members}
use auditable_mcp_sdk_ts.Json.Objects.{without, assign}
use auditable_mcp_sdk_ts.Fields
use auditable_mcp_sdk_ts.Canonical.{Packages, canonicalize}
use auditable_mcp_sdk_ts.Hashing.{seq_value}
use auditable_mcp_sdk_ts.Crypto.Base64.{bytes_to_base64url}

-- `Ed25519Engine` and `EcdsaVerify`; `none` where a primitive threw. Payload, signature, key.
pub record Engines : Type 0 where
  pub sign : List ℕ → List ℕ → List ℕ
  pub ed25519_verify : List ℕ → List ℕ → List ℕ → Option Bool
  pub ecdsa_verify : List ℕ → List ℕ → List ℕ → Option Bool

-- `signaturePayload`
unfoldable pub signature_payload : Packages → Members → Result (List ℕ)
signature_payload p event = do
  canonical ← canonicalize p (obj (without Fields.signature event))
  ok (p.encode_utf8 canonical)

-- The event with `key_id` and `signer_seq`.
unfoldable pub numbered_event : Members → Text → ℕ → Members
numbered_event event key_id signer_seq =
    assign Fields.signer_seq (seq_value signer_seq) (assign Fields.key_id (str key_id) event)

-- `signEvent`
unfoldable pub sign_event : Packages → Engines → Members → Text → ℕ → List ℕ → Result Members
sign_event p e event key_id signer_seq private_key = do
  payload ← signature_payload p (numbered_event event key_id signer_seq)
  ok (
      assign Fields.signature (str (bytes_to_base64url (e.sign payload private_key)))
        (numbered_event event key_id signer_seq))

-- `Ed25519Countersigner.sign`
unfoldable pub countersign : Engines → List ℕ → List ℕ → Text
countersign e private_key payload = bytes_to_base64url (e.sign payload private_key)
