-- ===== src/Session/Numbers.antt =====
-- The `signer_seq` values of one call (src/session.ts): the events that are handed to the transport
-- bear the numbers from the call's next one on, one after another.
use auditable_mcp_sdk_ts.Base.{
  ℕ, suc, Bool, true, false, ◌≡◌, refl, Option, none, some, List, [], ◌∷◌, Text,
}
use auditable_mcp_sdk_ts.Base.Exec.{
  Result, ok, err, Error, Exec, usage, not_canonical, type_error, invalid_argument, foreign,
  aborted,
}
use auditable_mcp_sdk_ts.Base.Exec.Run.{pure, lift, modify, ◌>>=◌, ◌>>◌, >>=-eq-ok}
use auditable_mcp_sdk_ts.Base.Exec.Keeps.{Keeps, keeps_rules}
use auditable_mcp_sdk_ts.Json.{Value, num, integer, pos, get}
use auditable_mcp_sdk_ts.Fields
use auditable_mcp_sdk_ts.Models.{attempted, audit_event_schema}
use auditable_mcp_sdk_ts.Transport.{Response}
use auditable_mcp_sdk_ts.Session.{Sign, Check, Session, Call, calls, numbering, run_numbered}
use auditable_mcp_sdk_ts.Session.Emission.{Action, build, stamp, parse, wire_event, emit_outcome}
use auditable_mcp_sdk_ts.Session.Acting.{Answer, answer_of, caught, send_attempt}

-- An event that was handed to the transport. Its number was taken, unless the transport threw on an
-- outcome, or refused an attempt as a use against its contract: then the next event bears it again.
pub record Handed : Type 0 where
  pub event : Value
  pub is_taken : Bool

-- What is outside of the session, and the events that the transport was handed, the last one first.
pub record Logged (T : Type 0) : Type 0 where
  pub inner : T
  pub log : List Handed

abbrev pub is_outcome_taken : Result (Unit {0}) → Bool
is_outcome_taken (ok done) = true
is_outcome_taken (err e) = false

abbrev pub is_attempt_taken : Result Response → Bool
is_attempt_taken (err usage) = false
is_attempt_taken _ = true

module _ {T : Type 0} where
  abbrev pub inside : {A : Type 0} → Exec T A → Exec (Logged T) A
  inside m w = let (r, t) = m w.inner in (r, record w { inner = t })

  -- A call of the transport that is given `event`.
  abbrev pub hands :
      {A : Type 0} → (Result A → Bool) → (Value → Exec T A) → Value → Exec (Logged T) A
  hands taken m event w =
      let (r, t) = m event w.inner in
      (r, record { inner = t; log = record { event = event; is_taken = taken r } ∷ w.log })

  abbrev pub check_inside : Option (Check T) → Option (Check (Logged T))
  check_inside none = none
  check_inside (some check) = some (λ key signature payload. inside (check key signature payload))

  -- A session that signs with `sign`, over a transport that also logs what it is handed.
  abbrev pub logged : Session T → Sign T → Session (Logged T)
  logged s sign = record {
    outside = record {
      send_attempt = hands is_attempt_taken s.outside.send_attempt;
      send_outcome = hands is_outcome_taken s.outside.send_outcome;
      new_id = inside s.outside.new_id;
      now = inside s.outside.now;
      random_bytes = inside s.outside.random_bytes;
    };
    session_id = s.session_id;
    signer = some (λ v n. inside (sign v n));
    polluted_stop = s.polluted_stop;
    countersignature_verifier = check_inside s.countersignature_verifier;
    require_countersign = s.require_countersign;
  }

abbrev pub Bears : Value → ℕ → Type 0
Bears event n = get Fields.signer_seq event ≡ some (num (integer (pos n)))

-- What `EventSigner.sign` promises: the event that it returns bears the number that it was given.
pub record IsNumbering {T : Type 0} (sign : Sign T) : Type 0 where
  pub at : (v : Value) (n : ℕ) (t : T) {v' : Value} {t' : T} → sign v n t ≡ (ok v', t') → Bears v' n

-- The numbers of a log run from the first number on without a gap, up to the next number of the call.
pub data IsNumbered (first : ℕ) : List Handed → ℕ → Type 0 where
  nothing_handed : IsNumbered first [] first
  took :
      {event : Value} {log : List Handed} {n : ℕ}
      → IsNumbered first log n
      → Bears event n
      → IsNumbered first (record { event = event; is_taken = true } ∷ log) (suc n)
  left :
      {event : Value} {log : List Handed} {n : ℕ}
      → IsNumbered first log n
      → Bears event n
      → IsNumbered first (record { event = event; is_taken = false } ∷ log) n

-- The sections of one call's operations that number and emit an event.
pub data Section : Type 0 where
  attempting : Action → Section
  concluding : Action → Text → Option Text → Section

abbrev At : {T : Type 0} → ℕ → List Handed → Call (Logged T) → Type 0
At n log c = (c.next ≡ n) × (c.world.log ≡ log)

abbrev pub Numbered : {T : Type 0} → ℕ → Call (Logged T) → Type 0
Numbered first c = IsNumbered first c.world.log c.next

module _ {T : Type 0} (s : Session T) (sign : Sign T) where
  -- Sections one after another, whichever of them throw.
  abbrev pub sections : List Section → Call (Logged T) → Call (Logged T)
  sections [] c = c
  sections (attempting a ∷ xs) c =
      sections xs (numbering (logged s sign) (send_attempt (logged s sign) a) c).1
  sections (concluding a outcome reason ∷ xs) c =
      sections xs (emit_outcome (logged s sign) a outcome reason c).1

  Keeps-inside :
      {A : Type 0} (k : ℕ) (log : List Handed) (m : Exec T A) → Keeps (At k log) (calls (inside m))
  Keeps-inside k log m = record { at = λ c kept. kept }

  build-Keeps :
      (k : ℕ) (log : List Handed) (a : Action) (outcome : Text) (n : ℕ) (reason : Option Text)
      → Keeps (At k log) (build (logged s sign) a outcome (some n) reason)
  unfolding build stamp
  build-Keeps k log a outcome n reason = search (keeps_rules, Keeps-inside)

  build-Bears :
      (a : Action) (outcome : Text) (n : ℕ) (reason : Option Text) (c : Call (Logged T)) {v : Value}
      {c' : Call (Logged T)}
      → IsNumbering sign
      → build (logged s sign) a outcome (some n) reason c ≡ (ok v, c')
      → Bears v n
  unfolding build stamp
  build-Bears a outcome n reason c numbers q =
      let stamped = λ (event : Value). calls (inside (sign event n)) in
      let checked = λ (ts : Text).
        lift {S = Call (Logged T)}
          (parse audit_event_schema (wire_event (logged s sign) a ts outcome reason)) in
      let (ts, c1, k1, q1) =
        >>=-eq-ok (calls (inside s.outside.now)) (λ ts. checked ts >>= stamped) c q in
      let (event, c2, k2, q2) = >>=-eq-ok (checked ts) stamped c1 q1 in
      numbers.at event n c2.world.inner (λ i. ((q2 i).0, (q2 i).1.world.inner))

  -- The body of a section ran in the state `c`: it returned and took the number, or threw and left it.
  data Emitted (first : ℕ) (c : Call (Logged T)) {A : Type 0}
      : Result A × Call (Logged T) → Type 0 where
    returned :
        (x : A) (c1 : Call (Logged T))
        → IsNumbered first c1.world.log (suc c.next)
        → Emitted first c (ok x, c1)
    thrown : (e : Error) (c1 : Call (Logged T)) → Numbered first c1 → Emitted first c (err e, c1)

  Numbered-after :
      (first : ℕ) (c : Call (Logged T)) {A : Type 0} (ran : Result A × Call (Logged T))
      → Emitted first c ran
      → Numbered first
          ((lift ran.0 >>= λ x.
              modify (λ (d : Call (Logged T)). record d { next = suc c.next }) >> pure x)
            ran.1).1
  Numbered-after first c ran (returned x c1 numbered) = numbered
  Numbered-after first c ran (thrown e c1 numbered) = numbered

  -- The answer to an attempt that the transport was handed.
  answered-Emitted :
      (first : ℕ) (c c1 : Call (Logged T)) (v : Value) (ran : Result Response × T)
      → At c.next c.world.log c1
      → Numbered first c
      → Bears v c.next
      → Emitted first c {A = Value × Answer} (
          (lift (answer_of ran.0) >>= λ answer. pure (v, answer)) (record c1 {
            world = record {
              inner = ran.1;
              log = record { event = v; is_taken = is_attempt_taken ran.0 } ∷ c1.world.log;
            };
          }))
  answered-Emitted first c c1 v (ok r, t) (e, l) numbered bears =
      returned _ _ (took (rw l numbered) bears)
  answered-Emitted first c c1 v (err usage, t) (e, l) numbered bears =
      thrown _ _ (rw e (left (rw l numbered) bears))
  answered-Emitted first c c1 v (err not_canonical, t) (e, l) numbered bears =
      returned _ _ (took (rw l numbered) bears)
  answered-Emitted first c c1 v (err type_error, t) (e, l) numbered bears =
      returned _ _ (took (rw l numbered) bears)
  answered-Emitted first c c1 v (err invalid_argument, t) (e, l) numbered bears =
      returned _ _ (took (rw l numbered) bears)
  answered-Emitted first c c1 v (err foreign, t) (e, l) numbered bears =
      returned _ _ (took (rw l numbered) bears)
  answered-Emitted first c c1 v (err (aborted x y z), t) (e, l) numbered bears =
      returned _ _ (took (rw l numbered) bears)

  attempt-Emitted :
      (first : ℕ) (c : Call (Logged T)) (a : Action) (ran : Result Value × Call (Logged T))
      → At c.next c.world.log ran.1
      → Numbered first c
      → ((v : Value) → ran.0 ≡ ok v → Bears v c.next)
      → Emitted first c {A = Value × Answer} (
          (lift ran.0 >>= λ v.
          caught (calls (hands is_attempt_taken s.outside.send_attempt v)) >>= λ answer.
          pure (v, answer))
            ran.1)
  attempt-Emitted first c a (ok v, c1) same numbered bears =
      answered-Emitted first c c1 v (s.outside.send_attempt v c1.world.inner) same numbered
        (bears v refl)
  attempt-Emitted first c a (err e, c1) (k, l) numbered bears = thrown e c1 (rw (k, l) numbered)

  concluded-Emitted :
      (first : ℕ) (c c1 : Call (Logged T)) (v : Value) (ran : Result (Unit {0}) × T)
      → At c.next c.world.log c1
      → Numbered first c
      → Bears v c.next
      → Emitted first c (
        ran.0,
        record c1 {
          world = record {
            inner = ran.1;
            log = record { event = v; is_taken = is_outcome_taken ran.0 } ∷ c1.world.log;
          };
        },
      )
  concluded-Emitted first c c1 v (ok u, t) (k, l) numbered bears =
      returned _ _ (took (rw l numbered) bears)
  concluded-Emitted first c c1 v (err e, t) (k, l) numbered bears =
      thrown _ _ (rw k (left (rw l numbered) bears))

  outcome-Emitted :
      (first : ℕ) (c : Call (Logged T)) (ran : Result Value × Call (Logged T))
      → At c.next c.world.log ran.1
      → Numbered first c
      → ((v : Value) → ran.0 ≡ ok v → Bears v c.next)
      → Emitted first c
          ((lift ran.0 >>= λ v. calls (hands is_outcome_taken s.outside.send_outcome v)) ran.1)
  outcome-Emitted first c (ok v, c1) same numbered bears =
      concluded-Emitted first c c1 v (s.outside.send_outcome v c1.world.inner) same numbered
        (bears v refl)
  outcome-Emitted first c (err e, c1) (k, l) numbered bears = thrown e c1 (rw (k, l) numbered)

  -- What the event that a section builds is: it bears the section's number.
  built :
      (a : Action) (outcome : Text) (reason : Option Text) (c : Call (Logged T)) (v : Value)
      → IsNumbering sign
      → (build (logged s sign) a outcome (some c.next) reason c).0 ≡ ok v
      → Bears v c.next
  built a outcome reason c v numbers q =
      let c' = (build (logged s sign) a outcome (some c.next) reason c).1 in
      build-Bears a outcome c.next reason c numbers (λ i. (q i, c'))

  attempting-Numbered :
      (first : ℕ) (a : Action) (c : Call (Logged T))
      → IsNumbering sign
      → Numbered first c
      → Numbered first (numbering (logged s sign) (send_attempt (logged s sign) a) c).1
  unfolding numbering run_numbered send_attempt
  attempting-Numbered first a c numbers so_far =
      let ran = build (logged s sign) a attempted (some c.next) none c in
      let same = (build-Keeps c.next c.world.log a attempted c.next none).at c (refl, refl) in
      Numbered-after first c (send_attempt (logged s sign) a (some c.next) c)
        (attempt-Emitted first c a ran same so_far (λ v. built a attempted none c v numbers))

  concluding-Numbered :
      (first : ℕ) (a : Action) (outcome : Text) (reason : Option Text) (c : Call (Logged T))
      → IsNumbering sign
      → Numbered first c
      → Numbered first (emit_outcome (logged s sign) a outcome reason c).1
  unfolding numbering run_numbered emit_outcome
  concluding-Numbered first a outcome reason c numbers so_far =
      let ran = build (logged s sign) a outcome (some c.next) reason c in
      let same = (build-Keeps c.next c.world.log a outcome c.next reason).at c (refl, refl) in
      let send = λ (v : Value). calls (hands is_outcome_taken s.outside.send_outcome v) in
      Numbered-after first c ((lift ran.0 >>= send) ran.1)
        (outcome-Emitted first c ran same so_far (λ v. built a outcome reason c v numbers))

  -- However the sections of a call come about, and whichever of them throw, where the signer puts the
  -- number that it is given into the event: the events that the transport was handed bear the numbers
  -- from the first on, each the one after the last that was taken, and the next number of the call
  -- follows on them. Only an outcome on which the transport threw, and an attempt that it refused as a
  -- use against its contract, leave their number to the next event.
  pub sections-IsNumbered :
      (first : ℕ) (xs : List Section) (c : Call (Logged T))
      → IsNumbering sign
      → IsNumbered first c.world.log c.next
      → IsNumbered first (sections xs c).world.log (sections xs c).next
  sections-IsNumbered first [] c numbers so_far = so_far
  sections-IsNumbered first (attempting a ∷ xs) c numbers so_far =
      sections-IsNumbered first xs (numbering (logged s sign) (send_attempt (logged s sign) a) c).1
        numbers (attempting-Numbered first a c numbers so_far)
  sections-IsNumbered first (concluding a outcome reason ∷ xs) c numbers so_far =
      sections-IsNumbered first xs (emit_outcome (logged s sign) a outcome reason c).1 numbers
        (concluding-Numbered first a outcome reason c numbers so_far)
