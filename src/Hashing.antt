-- ===== src/Hashing.antt =====
-- src/hashing.ts: the record-hash preimage, the countersignature payload and the genesis link.
pub mod Laws
use auditable_mcp_sdk_ts.Base.{ℕ, zero, suc, Bool, List, [], ◌∷◌, Text}
use auditable_mcp_sdk_ts.Base.Exec.{Result, ok}
use auditable_mcp_sdk_ts.Base.Exec.Try.{◌>>=◌}
use auditable_mcp_sdk_ts.Json.{Value, num, str, obj, end, member, integer, pos}
use auditable_mcp_sdk_ts.Fields
use auditable_mcp_sdk_ts.Canonical.{Packages, canonicalize, sha256_hex}

abbrev pub replicate : ℕ → ℕ → Text
replicate zero c = []
replicate (suc n) c = c ∷ replicate n c

-- `'0'.repeat(64)`
unfoldable pub genesis_hash : Text
genesis_hash = replicate 64 b'0'

-- A sequence number as a JSON value.
abbrev pub seq_value : ℕ → Value
seq_value n = num (integer (pos n))

-- `{ event, host_ts, previous_hash, seq }`
unfoldable pub preimage : Value → ℕ → Text → Text → Value
preimage event seq host_ts previous_hash = obj (
    member Fields.event event (
      member Fields.host_ts (str host_ts)
        (member Fields.previous_hash (str previous_hash) (member Fields.seq (seq_value seq) end))))

unfoldable pub compute_record_hash : Packages → Value → ℕ → Text → Text → Result Text
compute_record_hash p event seq host_ts previous_hash = do
  canonical ← canonicalize p (preimage event seq host_ts previous_hash)
  ok (sha256_hex p canonical)

-- The bytes that a countersignature covers.
unfoldable pub countersignature_payload : Packages → ℕ → Text → Text → Text → Text → Result (List ℕ)
countersignature_payload p seq host_ts log_id previous_hash record_hash = do
  canonical ← canonicalize p (
      obj (
        member Fields.host_ts (str host_ts) (
          member Fields.log_id (str log_id) (
            member Fields.previous_hash (str previous_hash) (
              member Fields.record_hash (str record_hash)
                (member Fields.seq (seq_value seq) end))))))
  ok (p.encode_utf8 canonical)
