-- ===== src/Host/Frame.antt =====
-- What the checks before a seal leave alone: the chain, what is remembered of it, and the host's
-- configuration.
use auditable_mcp_sdk_ts.Base.{ℕ, Bool, Option, Text, ◌≡◌, refl, text_eq}
use auditable_mcp_sdk_ts.Base.Exec.Keeps.{Keeps, keeps_rules}
use auditable_mcp_sdk_ts.Json.{Value}
use auditable_mcp_sdk_ts.Reasons.{Code}
use auditable_mcp_sdk_ts.Host.State.{Host, Session, World}
use auditable_mcp_sdk_ts.Host.Seal.{flag, change_session}
use auditable_mcp_sdk_ts.Host.Admit.{admit, verify_signature, check_replay, decide, receive_in}
use auditable_mcp_sdk_ts.Host.Handlers.{remember_rejected}
use auditable_mcp_sdk_ts.Host.Checks.{admit-Keeps, verify_signature-Keeps, check_replay-Keeps}

-- `h` has the chain, the memory of it, and the configuration of `h0`.
abbrev pub Frame : Host → Host → Type 0
Frame h0 h =
    (h.ledger ≡ h0.ledger)
    × (h.sealed_attempts ≡ h0.sealed_attempts)
    × (h.sealed_digests ≡ h0.sealed_digests)
    × (h.config ≡ h0.config)
    × (h.persistence_available ≡ h0.persistence_available)
    × (h.tail_uncertain ≡ h0.tail_uncertain)
    × (h.issued ≡ h0.issued)

pub Frame-refl : (h : Host) → Frame h h
Frame-refl h = (refl, refl, refl, refl, refl, refl, refl)

module _ (h0 : Host) where
  pub flag-Frame : (id : Text) (k : Code) → Keeps (Frame h0) (flag id k)
  unfolding flag
  flag-Frame id k = record { at = λ s h. h }

  pub change_session-Frame :
      (id : Text) (f : Session → Session) → Keeps (Frame h0) (change_session id f)
  unfolding change_session
  change_session-Frame id f = record { at = λ s h. h }

  pub remember_rejected-Frame : (id : Text) → Keeps (Frame h0) (remember_rejected id)
  remember_rejected-Frame id = record { at = λ s h. h }

  received-Frame :
      (session key : Text) (n : ℕ) → Keeps (Frame h0) (change_session session (receive_in key n))
  received-Frame session key n = change_session-Frame session (receive_in key n)

  pub admit-Frame :
      (event : Value) (expected : Option Text) (attempt : Bool)
      → Keeps (Frame h0) (admit event expected attempt)
  admit-Frame = admit-Keeps (Frame h0) flag-Frame received-Frame

  pub verify_signature-Frame :
      (w : World) (event : Value) (session : Text)
      → Keeps (Frame h0) (verify_signature w event session)
  verify_signature-Frame = verify_signature-Keeps (Frame h0) flag-Frame received-Frame

  pub check_replay-Frame :
      (event : Value) (session : Text) → Keeps (Frame h0) (check_replay event session)
  check_replay-Frame = check_replay-Keeps (Frame h0) flag-Frame received-Frame

  pub decide-Frame : (event : Value) (session : Text) → Keeps (Frame h0) (decide event session)
  unfolding decide
  decide-Frame event session = search (keeps_rules, change_session-Frame)
