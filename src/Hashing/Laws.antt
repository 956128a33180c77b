-- ===== src/Hashing/Laws.antt =====
-- What the chain relies on: SHA-256 separates the canonical texts that are hashed, and RFC 8785
-- serializes an object member by member, so that the text of a preimage fixes that of its parts.
use auditable_mcp_sdk_ts.Base.{ℕ, false, ◌≡◌, ◌≢◌, ◌∙◌, sym, arith, Text, some}
use auditable_mcp_sdk_ts.Json.{Value}
use auditable_mcp_sdk_ts.Canonical.{Packages, has_lone_surrogate, canonicalize, sha256_hex}
use auditable_mcp_sdk_ts.Base.Exec.{ok}
use auditable_mcp_sdk_ts.Hashing.{preimage, compute_record_hash, genesis_hash}

pub record HashLaws (p : Packages) : Type 0 where
  -- SHA-256 has no collision among canonical texts, whose values hold no lone surrogate
  pub sha256_inj :
      (v w : Value) (s t : Text)
      → has_lone_surrogate v ≡ false
      → has_lone_surrogate w ≡ false
      → p.jcs v ≡ some s
      → p.jcs w ≡ some t
      → sha256_hex p s ≡ sha256_hex p t
      → s ≡ t
  -- no text hashes to 64 zeros
  pub sha256_ne : (s : Text) → sha256_hex p s ≢ genesis_hash
  -- RFC 8785 §3.2: the serialization of the four members determines each
  pub jcs_preimage :
      (e e' : Value) (n n' : ℕ) (t t' h h' : Text) (c : Text)
      → p.jcs (preimage e n t h) ≡ some c
      → p.jcs (preimage e' n' t' h') ≡ some c
      → (p.jcs e ≡ p.jcs e') × (n ≡ n') × (t ≡ t') × (h ≡ h')

-- A record hash is a SHA-256 digest of a canonical preimage.
pub record_hash-inv :
    (p : Packages) (e : Value) (n : ℕ) (t h x : Text)
    → compute_record_hash p e n t h ≡ ok x
    → (c : Text) × (p.jcs (preimage e n t h) ≡ some c)
      × (sha256_hex p c ≡ x)
      × (has_lone_surrogate (preimage e n t h) ≡ false)
unfolding compute_record_hash canonicalize
record_hash-inv p e n t h x q = ground arith

module _ (p : Packages) (laws : HashLaws p) where
  -- Two records with one hash have canonically equal events and the same host-assigned fields.
  pub record_hash_inj :
      (e e' : Value) (n n' : ℕ) (t t' h h' x : Text)
      → compute_record_hash p e n t h ≡ ok x
      → compute_record_hash p e' n' t' h' ≡ ok x
      → (p.jcs e ≡ p.jcs e') × (n ≡ n') × (t ≡ t') × (h ≡ h')
  record_hash_inj e e' n n' t t' h h' x a b =
      let (c, s, q, w) = record_hash-inv p e n t h x a in
      let (c', s', q', w') = record_hash-inv p e' n' t' h' x b in
      let same =
        laws.sha256_inj (preimage e n t h) (preimage e' n' t' h') c c' w w' s s' (q ∙ sym q') in
      laws.jcs_preimage e e' n n' t t' h h' c s (rw same s')

  pub record_hash-ne-genesis :
      (e : Value) (n : ℕ) (t h : Text) → compute_record_hash p e n t h ≢ ok genesis_hash
  record_hash-ne-genesis e n t h a =
      let (c, s, q, w) = record_hash-inv p e n t h genesis_hash a in laws.sha256_ne c q
