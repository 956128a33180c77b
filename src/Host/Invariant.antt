-- ===== src/Host/Invariant.antt =====
-- What the host keeps true of its chain and of its memory of it, whatever it is asked.
use auditable_mcp_sdk_ts.Base.{
  Bool, true, false, Option, none, some, List, [], ◌∷◌, ◌++◌, Text, ◌≡◌, refl, ◌∙◌, sym, ap, ◌⊎◌,
  inl, inr, arith, lookup, insert, length, lookup-insert, text_eq, if◌then◌else◌, same_text,
  same_text_iff, ==_iff,
}
use auditable_mcp_sdk_ts.Base.Exec.{Result, ok, err, Exec}
use auditable_mcp_sdk_ts.Base.Exec.Run.{pure, lift, modify, ◌>>=◌, ◌>>◌}
use auditable_mcp_sdk_ts.Base.Exec.Keeps.{
  Keeps, keeps_rules, Keeps-bind, Keeps-lift, Keeps-modify, Keeps-pure,
}
use auditable_mcp_sdk_ts.Json.{Value, get, string_of}
use auditable_mcp_sdk_ts.Fields
use auditable_mcp_sdk_ts.Canonical.{Packages}
use auditable_mcp_sdk_ts.Hashing.{compute_record_hash, genesis_hash}
use auditable_mcp_sdk_ts.Ledger
use auditable_mcp_sdk_ts.Ledger.{SealedRecord, Ledger, commit}
use auditable_mcp_sdk_ts.Ledger.Chain.{IsSound, chain_tail, Continues, commit-IsSound}
use auditable_mcp_sdk_ts.Host.State.{
  Host, World, Stored, stored, repository_error, other_error, Loaded, tail, load_error, load_threw,
  event_id,
}
use auditable_mcp_sdk_ts.Host.Seal.{
  seal, persist, after_append, commit_and_remember, commit_record, remember, remembered,
  countersign_with, is_attempt, digest_of, change_session, settle_tail, settle_with, adopt,
  chain_known, is_unchanged, accept_adopted, continues, settled,
}
use auditable_mcp_sdk_ts.Host.Sealing.{seal-Continues_of}

-- `r` is one of the records.
abbrev pub Holds : SealedRecord → List SealedRecord → Type 0
Holds r [] = ⊥
Holds r (q ∷ qs) = (q ≡ r) ⊎ Holds r qs

-- Every record that the host answers a repeat from is in the ledger, and is the attempt of its id.
abbrev pub Recorded : List SealedRecord → List (Text × SealedRecord) → Type 0
Recorded held attempts =
    (id : Text) (r : SealedRecord)
    → lookup id attempts ≡ some r
    → Holds r held × (event_id r.event ≡ id) × (is_attempt r.event ≡ true)

-- The records since the host was started, over a store that held `base`, continue its chain, and the
-- host's memory of both is true.
pub record IsKept (p : Packages) (base : List SealedRecord) (l : Ledger)
    (attempts : List (Text × SealedRecord)) : Type 0 where
  pub sound : IsSound p (length base) (chain_tail genesis_hash base) l
  pub recorded : Recorded (base ++ l.held) attempts

abbrev pub Kept : Packages → List SealedRecord → Host → Type 0
Kept p base h = IsKept p base h.ledger h.sealed_attempts

pub record IsKeptWith (p : Packages) (base : List SealedRecord) (r : SealedRecord) (l : Ledger)
    (attempts : List (Text × SealedRecord)) : Type 0 where
  pub kept : IsKept p base l attempts
  pub held : Holds r (base ++ l.held)

pub append_assoc : (xs ys zs : List SealedRecord) → (xs ++ ys) ++ zs ≡ xs ++ (ys ++ zs)
append_assoc [] ys zs = refl
append_assoc (x ∷ xs) ys zs = ap (λ (l : List SealedRecord). x ∷ l) (append_assoc xs ys zs)

pub Holds-snoc : (r : SealedRecord) (qs : List SealedRecord) → Holds r (qs ++ r ∷ [])
Holds-snoc r [] = inl refl
Holds-snoc r (q ∷ qs) = inr (Holds-snoc r qs)

pub Holds-mono : (r s : SealedRecord) (qs : List SealedRecord) → Holds r qs → Holds r (qs ++ s ∷ [])
Holds-mono r s [] m = absurd m
Holds-mono r s (q ∷ qs) (inl e) = inl e
Holds-mono r s (q ∷ qs) (inr m) = inr (Holds-mono r s qs m)

insert_cases :
    (r : SealedRecord) (held : List SealedRecord) (attempts : List (Text × SealedRecord))
    (id : Text) (q : SealedRecord) (same : Bool)
    → Holds r held
    → is_attempt r.event ≡ true
    → (same ≡ true → event_id r.event ≡ id)
    → (if same then some r else lookup id attempts) ≡ some q
    → Recorded held attempts
    → Holds q held × (event_id q.event ≡ id) × (is_attempt q.event ≡ true)
insert_cases r held attempts id q true m a e s k =
    let same : r ≡ q = ground arith in ((rw same at m), (rw same at (e refl)), (rw same at a))
insert_cases r held attempts id q false m a e s k = k id q s

Recorded-insert :
    (r : SealedRecord) (held : List SealedRecord) (attempts : List (Text × SealedRecord))
    (attempt : Bool)
    → is_attempt r.event ≡ attempt
    → Holds r held
    → Recorded held attempts
    → Recorded held (if attempt then insert (event_id r.event) r attempts else attempts)
Recorded-insert r held attempts true a m k = λ id q s.
    insert_cases r held attempts id q (same_text (event_id r.event) id) m a
      (λ e. (same_text_iff (event_id r.event) id).0 e)
      (sym (lookup-insert (event_id r.event) id r attempts) ∙ s) k
Recorded-insert r held attempts false a m k = k

-- What the store hands back after a write whose fate is unknown is a record as a host sealed it.
abbrev pub IsHonest : Packages → Loaded → Type 0
IsHonest p load_error = Unit
IsHonest p load_threw = Unit
IsHonest p (tail none) = Unit
IsHonest p (tail (some r)) =
    compute_record_hash p r.event r.seq r.host_ts r.previous_hash ≡ ok r.record_hash

module _ (p : Packages) (base : List SealedRecord) where
  -- While a record is the ledger's, remembering it keeps the memory true.
  abbrev pub With : SealedRecord → Host → Type 0
  With r h = IsKeptWith p base r h.ledger h.sealed_attempts

  pub remember-With : (r : SealedRecord) → Keeps (With r) (remember p r)
  unfolding remember
  remember-With r =
      Keeps-bind (lift (digest_of p r.event)) (λ d. modify (remembered r d))
        (Keeps-lift (digest_of p r.event))
        (λ d. Keeps-modify (remembered r d) (λ h w. record {
          kept = record {
            sound = w.kept.sound;
            recorded =
                Recorded-insert r (base ++ h.ledger.held) h.sealed_attempts (is_attempt r.event)
                  refl w.held w.kept.recorded;
          };
          held = w.held;
        }))

  commit-With :
      (r : SealedRecord) (h : Host)
      → Kept p base h
      → Continues p h.ledger r
      → With r (record h { ledger = commit r h.ledger })
  unfolding commit
  commit-With r h k c =
      let assoc = append_assoc base h.ledger.held (r ∷ []) in
      record {
        kept = record {
          sound = commit-IsSound p k.sound r c;
          recorded = λ id q s.
              let (m, e, a) = k.recorded id q s in
              ((rw assoc at (Holds-mono q r (base ++ h.ledger.held) m)), e, a);
        };
        held = rw assoc at (Holds-snoc r (base ++ h.ledger.held));
      }

  commit_and_remember-Kept :
      (r : SealedRecord) (h : Host)
      → Kept p base h
      → Continues p h.ledger r
      → Kept p base (commit_and_remember p r h).1
  unfolding commit_and_remember commit_record
  commit_and_remember-Kept r h k c =
      let rest =
        Keeps-bind {P = With r} (remember p r) (λ _. pure (some r)) (remember-With r)
          (λ _. Keeps-pure (some r)) in
      (rest.at (record h { ledger = commit r h.ledger }) (commit-With r h k c)).kept

  after_append-Kept :
      (r : SealedRecord) (outcome : Stored) (h : Host)
      → Kept p base h
      → Continues p h.ledger r
      → Kept p base (after_append p r outcome h).1
  unfolding after_append
  after_append-Kept r stored h k c = commit_and_remember-Kept r h k c
  after_append-Kept r repository_error h k c = k
  after_append-Kept r other_error h k c = k

  append_if-Kept :
      (w : World) (r : SealedRecord) (h : Host) (durable : Bool)
      → Kept p base h
      → Continues p h.ledger r
      → Kept p base
          ((if durable then after_append p r (w.append r) else commit_and_remember p r) h).1
  append_if-Kept w r h true k c = after_append-Kept r (w.append r) h k c
  append_if-Kept w r h false k c = commit_and_remember-Kept r h k c

  persist-Kept :
      (w : World) (o : Option SealedRecord) (h : Host)
      → Kept p base h
      → ((r : SealedRecord) → o ≡ some r → Continues p h.ledger r)
      → Kept p base (persist p w o h).1
  unfolding persist
  persist-Kept w none h k c = k
  persist-Kept w (some r) h k c = append_if-Kept w r h h.config.has_repository k (c r refl)

  after_lift :
      {A B : Type 0} (r : Result A) (f : A → Exec Host B) (h : Host)
      → Kept p base h
      → ((a : A) → r ≡ ok a → Kept p base (f a h).1)
      → Kept p base ((lift r >>= f) h).1
  after_lift (ok a) f h k c = c a refl
  after_lift (err e) f h k c = k

  pub seal-Kept : (w : World) (event : Value) → Keeps (Kept p base) (seal p w event)
  unfolding seal
  seal-Kept w event = record {
    at = λ h k.
        after_lift (Ledger.seal p event w.now h.ledger)
          (λ x. lift (countersign_with p w h x h.config.countersigner) >>= persist p w) h k
          (λ x fresh.
            after_lift (countersign_with p w h x h.config.countersigner) (persist p w) h k
              (λ o complete.
                persist-Kept w o h k
                  (λ r e. seal-Continues_of p w h event x r fresh (complete ∙ ap ok e))));
  }

  landed-Continues :
      (r : SealedRecord) (l : Ledger)
      → continues r l ≡ true
      → IsHonest p (tail (some r))
      → Continues p l r
  unfolding continues
  landed-Continues r l c e =
      let seq : r.seq ≡ l.count = ground (arith, ==_iff r.seq l.count) in
      let at : r.previous_hash ≡ l.tail_hash =
        ground (arith, same_text_iff r.previous_hash l.tail_hash) in
      record { at_seq = seq; at_link = at; hashed = rw (seq, at) at e }

  accept_adopted-With :
      (r : SealedRecord) (attempt : Bool) (session id : Text)
      → Keeps (With r) (accept_adopted attempt session id)
  unfolding change_session
  accept_adopted-With r true session id = record { at = λ h k. k }
  accept_adopted-With r false session id = record { at = λ h k. k }

  settled-With : (r : SealedRecord) → Keeps (With r) settled
  settled-With r = record { at = λ h k. k }

  adopt_rest-With :
      (r : SealedRecord)
      → Keeps (With r) (
          remember p r
          >> (lift (string_of p.to_text (get Fields.session_id r.event)) >>= λ session.
              accept_adopted (is_attempt r.event) session (event_id r.event) >> settled))
  adopt_rest-With r = search (keeps_rules, remember-With, accept_adopted-With, settled-With)

  adopt-Kept :
      (r : SealedRecord) (h : Host)
      → Kept p base h
      → Continues p h.ledger r
      → Kept p base (adopt p r h).1
  unfolding adopt commit_record
  adopt-Kept r h k c =
      ((adopt_rest-With r).at (record h { ledger = commit r h.ledger }) (commit-With r h k c)).kept

  adopt_if-Kept :
      (r : SealedRecord) (h : Host) (fits : Bool)
      → continues r h.ledger ≡ fits
      → Kept p base h
      → IsHonest p (tail (some r))
      → Kept p base (if fits then adopt p r h else (ok false, h)).1
  adopt_if-Kept r h true e k honest = adopt-Kept r h k (landed-Continues r h.ledger e honest)
  adopt_if-Kept r h false e k honest = k

  settle_with-Kept :
      (o : Option SealedRecord) (same : Bool) (h : Host)
      → Kept p base h
      → IsHonest p (tail o)
      → Kept p base (settle_with p o same h).1
  unfolding settle_with
  settle_with-Kept o true h k honest = k
  settle_with-Kept none false h k honest = k
  settle_with-Kept (some r) false h k honest =
      adopt_if-Kept r h (continues r h.ledger) refl k honest

  settle_tail-Kept : (o : Loaded) → IsHonest p o → Keeps (Kept p base) (settle_tail p o)
  unfolding settle_tail
  settle_tail-Kept load_error honest = record { at = λ h k. k }
  settle_tail-Kept load_threw honest = record { at = λ h k. k }
  settle_tail-Kept (tail o) honest = record {
    at = λ h k. settle_with-Kept o (is_unchanged o h.ledger) h k honest;
  }

  pub chain_known-Kept :
      (w : World) → IsHonest p w.load_tail → Keeps (Kept p base) (chain_known p w)
  unfolding chain_known
  chain_known-Kept w honest = search (keeps_rules, settle_tail-Kept)
