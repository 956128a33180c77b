-- ===== src/Reasons.antt =====
-- src/reasons.ts: the Tier-1 codes. One string may be a reject reason, an abort reason and an
-- anomaly kind; the field that it stands in tells which.
use auditable_mcp_sdk_ts.Base.{Text, lit}

pub data Code : Type 0 where
  schema_invalid replay_detected signature_invalid l2_unsigned unknown_key internal_error : Code
  hash_mismatch host_rejected host_unavailable host_uncountersigned host_signature_invalid : Code
  record_hash_mismatch digest_mismatch principal_mismatch seq_gap signer_seq_gap : Code
  orphaned_outcome unresolved_attempt unreported_egress : Code

-- The string that a code is on the wire.
unfoldable pub text_of : Code → Text
text_of schema_invalid = lit "schema-invalid"
text_of replay_detected = lit "replay-detected"
text_of signature_invalid = lit "signature-invalid"
text_of l2_unsigned = lit "l2-unsigned"
text_of unknown_key = lit "unknown-key"
text_of internal_error = lit "internal-error"
text_of hash_mismatch = lit "hash-mismatch"
text_of host_rejected = lit "host-rejected"
text_of host_unavailable = lit "host-unavailable"
text_of host_uncountersigned = lit "host-uncountersigned"
text_of host_signature_invalid = lit "host-signature-invalid"
text_of record_hash_mismatch = lit "record-hash-mismatch"
text_of digest_mismatch = lit "digest-mismatch"
text_of principal_mismatch = lit "principal-mismatch"
text_of seq_gap = lit "seq-gap"
text_of signer_seq_gap = lit "signer-seq-gap"
text_of orphaned_outcome = lit "orphaned-outcome"
text_of unresolved_attempt = lit "unresolved-attempt"
text_of unreported_egress = lit "unreported-egress"
