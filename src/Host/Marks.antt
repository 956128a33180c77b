-- ===== src/Host/Marks.antt =====
-- The checks before a seal also leave alone what each session has accepted and concluded.
use auditable_mcp_sdk_ts.Base.{
  ℕ, Bool, Option, none, some, List, Text, ◌≡◌, refl, ◌∙◌, arith, lookup, lookup-insert, text_eq,
  same_text_iff,
}
use auditable_mcp_sdk_ts.Base.Exec.Keeps.{Keeps, keeps_rules}
use auditable_mcp_sdk_ts.Json.{Value}
use auditable_mcp_sdk_ts.Reasons.{Code}
use auditable_mcp_sdk_ts.Host.State.{Host, Session, World}
use auditable_mcp_sdk_ts.Host.Seal.{flag, change_session, change_in}
use auditable_mcp_sdk_ts.Host.Admit.{
  admit, verify_signature, check_replay, decide, receive_in, decide_in,
}
use auditable_mcp_sdk_ts.Host.Handlers.{is_accepted, terminal_of}
use auditable_mcp_sdk_ts.Host.Frame.{Frame, Frame-refl}
use auditable_mcp_sdk_ts.Host.Checks.{admit-Keeps, verify_signature-Keeps, check_replay-Keeps}

-- Every session has accepted and concluded the same.
pub record SameMarks (sessions0 sessions : List (Text × Session)) : Type 0 where
  pub accepts :
      (session id : Text)
      → is_accepted id (lookup session sessions) ≡ is_accepted id (lookup session sessions0)
  pub ends :
      (session id : Text)
      → terminal_of id (lookup session sessions) ≡ terminal_of id (lookup session sessions0)

abbrev pub Marks : Host → Host → Type 0
Marks h0 h = Frame h0 h × SameMarks h0.sessions h.sessions

changed :
    (id : Text) (f : Session → Session) (sessions : List (Text × Session)) (o : Option Session)
    → lookup id sessions ≡ o
    → ((s : Session) → (f s).accepted ≡ s.accepted)
    → ((s : Session) → (f s).terminal ≡ s.terminal)
    → SameMarks sessions (change_in id f sessions o)
changed id f sessions none e accepts ends = record { accepts = λ s i. refl; ends = λ s i. refl }
changed id f sessions (some t) e accepts ends = record {
  accepts = λ s i. ground (arith, lookup-insert id s (f t) sessions, accepts t, same_text_iff id s);
  ends = λ s i. ground (arith, lookup-insert id s (f t) sessions, ends t, same_text_iff id s);
}

SameMarks-trans : (a b c : List (Text × Session)) → SameMarks a b → SameMarks b c → SameMarks a c
SameMarks-trans a b c m n = record {
  accepts = λ s i. n.accepts s i ∙ m.accepts s i;
  ends = λ s i. n.ends s i ∙ m.ends s i;
}

pub Marks-refl : (h : Host) → Marks h h
Marks-refl h = (Frame-refl h, record { accepts = λ s i. refl; ends = λ s i. refl })

decide_in-accepted : (o : Option (Text × ℕ)) (s : Session) → (decide_in o s).accepted ≡ s.accepted
decide_in-accepted none s = refl
decide_in-accepted (some t) s = refl

decide_in-terminal : (o : Option (Text × ℕ)) (s : Session) → (decide_in o s).terminal ≡ s.terminal
decide_in-terminal none s = refl
decide_in-terminal (some t) s = refl

module _ (h0 : Host) where
  pub flag-Marks : (id : Text) (k : Code) → Keeps (Marks h0) (flag id k)
  unfolding flag
  flag-Marks id k = record { at = λ s h. h }

  change_session-Marks :
      (id : Text) (f : Session → Session)
      → ((s : Session) → (f s).accepted ≡ s.accepted)
      → ((s : Session) → (f s).terminal ≡ s.terminal)
      → Keeps (Marks h0) (change_session id f)
  unfolding change_session
  change_session-Marks id f accepts ends = record {
    at = λ h m. (
      m.0,
      SameMarks-trans h0.sessions h.sessions (change_in id f h.sessions (lookup id h.sessions)) m.1
          (changed id f h.sessions (lookup id h.sessions) refl accepts ends),
    );
  }

  received-Marks :
      (session key : Text) (n : ℕ) → Keeps (Marks h0) (change_session session (receive_in key n))
  received-Marks session key n =
      change_session-Marks session (receive_in key n) (λ s. refl) (λ s. refl)

  pub admit-Marks :
      (event : Value) (expected : Option Text) (attempt : Bool)
      → Keeps (Marks h0) (admit event expected attempt)
  admit-Marks = admit-Keeps (Marks h0) flag-Marks received-Marks

  pub verify_signature-Marks :
      (w : World) (event : Value) (session : Text)
      → Keeps (Marks h0) (verify_signature w event session)
  verify_signature-Marks = verify_signature-Keeps (Marks h0) flag-Marks received-Marks

  pub check_replay-Marks :
      (event : Value) (session : Text) → Keeps (Marks h0) (check_replay event session)
  check_replay-Marks = check_replay-Keeps (Marks h0) flag-Marks received-Marks

  decided-Marks :
      (session : Text) (o : Option (Text × ℕ))
      → Keeps (Marks h0) (change_session session (decide_in o))
  decided-Marks session o =
      change_session-Marks session (decide_in o) (decide_in-accepted o) (decide_in-terminal o)

  pub decide-Marks : (event : Value) (session : Text) → Keeps (Marks h0) (decide event session)
  unfolding decide
  decide-Marks event session = search (keeps_rules, decided-Marks)
