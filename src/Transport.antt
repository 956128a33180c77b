-- ===== src/Transport.antt =====
-- src/transport.ts: the host's answers to an attempt.
use auditable_mcp_sdk_ts.Base.{ℕ, Option, none, some, Text}
use auditable_mcp_sdk_ts.Reasons.{Code}

-- The countersignature triple of an accept.
pub record Countersignature : Type 0 where
  pub host_signature : Text
  pub host_key_id : Text
  pub log_id : Text

-- `AcceptResponse`
pub record Acceptance : Type 0 where
  pub seq : ℕ
  pub record_hash : Text
  pub host_ts : Text
  pub previous_hash : Text
  pub countersignature : Option Countersignature

-- `AttemptResponse`
pub data Response : Type 0 where
  accepted : Acceptance → Response
  rejected : Code → Response
  unavailable : Response

-- The three appear together or not at all.
unfoldable pub whole_triple : Option Text → Option Text → Option Text → Option Countersignature
whole_triple (some s) (some k) (some l) =
    some (record { host_signature = s; host_key_id = k; log_id = l })
whole_triple _ _ _ = none

-- `accept(…)`
unfoldable pub accept : ℕ → Text → Text → Text → Option Text → Option Text → Option Text → Response
unfolding whole_triple
accept seq record_hash host_ts previous_hash signature key log = accepted (record {
  seq = seq;
  record_hash = record_hash;
  host_ts = host_ts;
  previous_hash = previous_hash;
  countersignature = whole_triple signature key log;
})
