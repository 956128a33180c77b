-- ===== src/Ledger.antt =====
-- src/ledger.ts: sealed records and the hash chain of one partition.
pub mod Chain
pub mod Tamper
use auditable_mcp_sdk_ts.Base.{ℕ, ◌+◌, Option, none, some, List, [], ◌∷◌, ◌++◌, Text}
use auditable_mcp_sdk_ts.Base.Exec.{Result, ok}
use auditable_mcp_sdk_ts.Base.Exec.Try.{◌>>=◌}
use auditable_mcp_sdk_ts.Json.{Value}
use auditable_mcp_sdk_ts.Canonical.{Packages}
use auditable_mcp_sdk_ts.Hashing.{genesis_hash, compute_record_hash}

pub record SealedRecord : Type 0 where
  pub event : Value
  pub seq : ℕ
  pub host_ts : Text
  pub previous_hash : Text
  pub record_hash : Text
  pub host_signature : Option Text
  pub host_key_id : Option Text
  pub log_id : Option Text

pub record Ledger : Type 0 where
  pub partition : Text
  pub held : List SealedRecord
  pub count : ℕ
  pub tail_hash : Text

-- The constructor.
unfoldable pub new_ledger : Text → Ledger
new_ledger partition = record {
  partition = partition;
  held = [];
  count = 0;
  tail_hash = genesis_hash;
}

unfoldable pub seal : Packages → Value → Text → Ledger → Result SealedRecord
seal p event host_ts l = do
  hash ← compute_record_hash p event l.count host_ts l.tail_hash
  ok (record {
    event = event;
    seq = l.count;
    host_ts = host_ts;
    previous_hash = l.tail_hash;
    record_hash = hash;
    host_signature = none;
    host_key_id = none;
    log_id = none;
  })

unfoldable pub commit : SealedRecord → Ledger → Ledger
commit r l = record l { held = l.held ++ r ∷ []; count = l.count + 1; tail_hash = r.record_hash }

unfoldable pub append : Packages → Value → Text → Ledger → Result (SealedRecord × Ledger)
unfolding seal commit
append p event host_ts l = do sealed ← seal p event host_ts l; ok (sealed, commit sealed l)

unfoldable pub resume_from : Option SealedRecord → Ledger → Ledger
resume_from none l = record l { held = []; count = 0; tail_hash = genesis_hash }
resume_from (some tail) l = record l {
  held = [];
  count = tail.seq + 1;
  tail_hash = tail.record_hash;
}

-- `digest()`
abbrev pub digest : Ledger → Text
digest l = l.tail_hash
