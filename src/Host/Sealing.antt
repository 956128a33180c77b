-- ===== src/Host/Sealing.antt =====
-- What `#seal` does to the host, by its result.
use auditable_mcp_sdk_ts.Base.{
  Bool, true, false, Option, none, some, Text, ◌≡◌, refl, ◌∙◌, ap, if◌then◌else◌, arith, insert,
  add, text_eq,
}
use auditable_mcp_sdk_ts.Base.Exec.{Result, ok, Exec}
use auditable_mcp_sdk_ts.Base.Exec.Run.{pure, lift, modify, ◌>>=◌, >>=-eq-ok}
use auditable_mcp_sdk_ts.Json.{Value}
use auditable_mcp_sdk_ts.Canonical.{Packages}
use auditable_mcp_sdk_ts.Hashing.{countersignature_payload}
use auditable_mcp_sdk_ts.Base.Exec.Try
use auditable_mcp_sdk_ts.Ledger
use auditable_mcp_sdk_ts.Ledger.{SealedRecord, commit}
use auditable_mcp_sdk_ts.Ledger.Chain.{Continues, seal-Continues}
use auditable_mcp_sdk_ts.Host.State.{
  Host, World, Stored, stored, repository_error, other_error, event_id,
}
use auditable_mcp_sdk_ts.Host.Seal.{
  seal, persist, after_append, commit_and_remember, commit_record, remember, remembered,
  countersign_with, with_signature, is_attempt, digest_of,
}

-- Everything but the chain and the memory of it is as it was.
abbrev pub SameSessions : Host → Host → Type 0
SameSessions h h' =
    (h'.sessions ≡ h.sessions)
    × (h'.config ≡ h.config)
    × (h'.issued ≡ h.issued)
    × (h'.rejected_ids ≡ h.rejected_ids)
    × (h'.anomalies ≡ h.anomalies)
    × (h'.persistence_available ≡ h.persistence_available)

-- A commit of `r` has been made and remembered.
pub record Committed (p : Packages) (r : SealedRecord) (h h' : Host) : Type 0 where
  pub ledger : h'.ledger ≡ commit r h.ledger
  pub attempts : h'.sealed_attempts ≡ (
      if is_attempt r.event
      then insert (event_id r.event) r h.sealed_attempts
      else h.sealed_attempts)
  pub digest : Text
  pub digested : digest_of p r.event ≡ ok digest
  pub digests : h'.sealed_digests ≡ add digest h.sealed_digests
  pub certain : h'.tail_uncertain ≡ h.tail_uncertain
  pub rest : SameSessions h h'

committed :
    (p : Packages) (r r' : SealedRecord) (h h' : Host) (d : Text) (s s1 : Host)
    → lift (digest_of p r.event) (record h { ledger = commit r h.ledger }) ≡ (ok d, s)
    → modify (remembered r d) s ≡ (ok tt, s1)
    → pure (some r) s1 ≡ (ok (some r'), h')
    → (r ≡ r') × Committed p r h h'
committed p r r' h h' d s s1 e k k1 = (
  cc,
  record {
    ledger = ground arith;
    attempts = ground arith;
    digest = d;
    digested = cc;
    digests = ground arith;
    certain = ground arith;
    rest = ground arith;
  },
)

commit_and_remember-some :
    (p : Packages) (r r' : SealedRecord) (h h' : Host)
    → commit_and_remember p r h ≡ (ok (some r'), h')
    → (r ≡ r') × Committed p r h h'
unfolding commit_and_remember commit_record remember
commit_and_remember-some p r r' h h' q =
    let h1 = record h { ledger = commit r h.ledger } in
    let (u, s1, e1, k1) = >>=-eq-ok (remember p r) (λ _. pure (some r)) h1 q in
    let (d, s2, e2, k2) =
      >>=-eq-ok (lift (digest_of p r.event)) (λ d. modify (remembered r d)) h1 e1 in
    committed p r r' h h' d s2 s1 e2 k2 k1

after_append-some :
    (p : Packages) (r r' : SealedRecord) (outcome : Stored) (h h' : Host)
    → after_append p r outcome h ≡ (ok (some r'), h')
    → (r ≡ r') × Committed p r h h'
unfolding after_append
after_append-some p r r' stored h h' q = commit_and_remember-some p r r' h h' q
after_append-some p r r' repository_error h h' q = cc
after_append-some p r r' other_error h h' q = cc

append_if-some :
    (p : Packages) (w : World) (r r' : SealedRecord) (h h' : Host) (durable : Bool)
    → (if durable then after_append p r (w.append r) else commit_and_remember p r) h
      ≡ (ok (some r'), h')
    → (r ≡ r') × Committed p r h h'
append_if-some p w r r' h h' true q = after_append-some p r r' (w.append r) h h' q
append_if-some p w r r' h h' false q = commit_and_remember-some p r r' h h' q

persist-some :
    (p : Packages) (w : World) (o : Option SealedRecord) (r' : SealedRecord) (h h' : Host)
    → persist p w o h ≡ (ok (some r'), h')
    → (o ≡ some r') × Committed p r' h h'
unfolding persist
persist-some p w none r' h h' q = cc
persist-some p w (some r) r' h h' q =
    let (e, c) = append_if-some p w r r' h h' h.config.has_repository q in (ap some e, (rw e at c))

-- A countersignature changes nothing that the record hash covers.
record Signed (p : Packages) (h : Host) (r r' : SealedRecord) : Type 0 where
  event : r'.event ≡ r.event
  seq : r'.seq ≡ r.seq
  time : r'.host_ts ≡ r.host_ts
  link : r'.previous_hash ≡ r.previous_hash
  hash : r'.record_hash ≡ r.record_hash

with_signature-Signed :
    (p : Packages) (h : Host) (r : SealedRecord) (key : Text) (o : Option Text) {r' : SealedRecord}
    → with_signature h r key o ≡ ok (some r')
    → Signed p h r r'
with_signature-Signed p h r key none q = cc
with_signature-Signed p h r key (some signature) {r'} q = record {
  event = ground arith;
  seq = ground arith;
  time = ground arith;
  link = ground arith;
  hash = ground arith;
}

countersign_with-Signed :
    (p : Packages) (w : World) (h : Host) (r : SealedRecord) (o : Option Text) {r' : SealedRecord}
    → countersign_with p w h r o ≡ ok (some r')
    → Signed p h r r'
unfolding countersign_with
countersign_with-Signed p w h r none {r'} q = record {
  event = ground arith;
  seq = ground arith;
  time = ground arith;
  link = ground arith;
  hash = ground arith;
}
countersign_with-Signed p w h r (some key) q =
    let (payload, e, k) =
      Try.>>=-eq-ok
        (countersignature_payload p r.seq r.host_ts h.config.log_id r.previous_hash r.record_hash)
        (λ payload. with_signature h r key (w.sign payload)) q in
    with_signature-Signed p h r key (w.sign payload) k

-- A record that `#seal` returned is that of the event at the end of the chain, and is committed.
pub record Appended (p : Packages) (w : World) (event : Value) (r : SealedRecord) (h h' : Host)
    : Type 0 where
  pub event_is : r.event ≡ event
  pub time_is : r.host_ts ≡ w.now
  pub continues : Continues p h.ledger r
  pub committed : Committed p r h h'

seal-parts :
    (p : Packages) (e : Value) (t : Text) (l : Ledger.Ledger) {r : SealedRecord}
    → Ledger.seal p e t l ≡ ok r
    → (r.event ≡ e) × (r.host_ts ≡ t)
unfolding Ledger.seal
seal-parts p e t l q = ground arith

-- The record that is to be stored continues the chain, countersigned or not.
pub seal-Continues_of :
    (p : Packages) (w : World) (h : Host) (event : Value) (x r : SealedRecord)
    → Ledger.seal p event w.now h.ledger ≡ ok x
    → countersign_with p w h x h.config.countersigner ≡ ok (some r)
    → Continues p h.ledger r
seal-Continues_of p w h event x r fresh complete =
    let signed = countersign_with-Signed p w h x h.config.countersigner complete in
    let cont = seal-Continues p event w.now h.ledger fresh in
    record {
      at_seq = signed.seq ∙ cont.at_seq;
      at_link = signed.link ∙ cont.at_link;
      hashed = rw (signed.event, signed.time, signed.hash) cont.hashed;
    }

of_pair : {A : Type 0} {r : Result A} {h s : Host} {a : A} → lift r h ≡ (ok a, s) → r ≡ ok a
of_pair e = ap (λ x. x.0) e

-- A step that writes nothing leaves the host for the next.
same_host :
    {A B : Type 0} (f : A → Exec Host B) {r : Result A} {h s : Host} {a : A} {b : Result B × Host}
    → lift r h ≡ (ok a, s)
    → f a s ≡ b
    → f a h ≡ b
same_host f {a = a} e k = ap (λ x. f a x.1) e ∙ k

pub seal-some :
    (p : Packages) (w : World) (event : Value) (r : SealedRecord) (h h' : Host)
    → seal p w event h ≡ (ok (some r), h')
    → Appended p w event r h h'
unfolding seal
seal-some p w event r h h' q =
    let next = λ (x : SealedRecord).
      lift (countersign_with p w h x h.config.countersigner) >>= persist p w in
    let (x, s1, e1, k1) = >>=-eq-ok (lift (Ledger.seal p event w.now h.ledger)) next h q in
    let (o, s2, e2, k2) =
      >>=-eq-ok (lift (countersign_with p w h x h.config.countersigner)) (persist p w) h
        (same_host next e1 k1) in
    let (e3, c) = persist-some p w o r h h' (same_host (persist p w) e2 k2) in
    let fresh = of_pair e1 in
    let complete = of_pair e2 ∙ ap ok e3 in
    let signed = countersign_with-Signed p w h x h.config.countersigner complete in
    let parts = seal-parts p event w.now h.ledger fresh in
    record {
      event_is = signed.event ∙ parts.0;
      time_is = signed.time ∙ parts.1;
      continues = seal-Continues_of p w h event x r fresh complete;
      committed = c;
    }

-- Where `#seal` returns nothing, the chain and the memory of it are as they were.
abbrev pub Untouched : Host → Host → Type 0
Untouched h0 h = (h.ledger ≡ h0.ledger) × (h.sealed_attempts ≡ h0.sealed_attempts)

none_left :
    (p : Packages) (r : SealedRecord) (h h' : Host)
    → commit_and_remember p r h ≡ (ok none, h')
    → Untouched h h'
unfolding commit_and_remember commit_record
none_left p r h h' q =
    let h1 = record h { ledger = commit r h.ledger } in
    let (u, s, e, k) = >>=-eq-ok (remember p r) (λ _. pure (some r)) h1 q in cc

after_append-none :
    (p : Packages) (r : SealedRecord) (outcome : Stored) (h h' : Host)
    → after_append p r outcome h ≡ (ok none, h')
    → Untouched h h'
unfolding after_append
after_append-none p r stored h h' q = none_left p r h h' q
after_append-none p r repository_error h h' q = ground arith
after_append-none p r other_error h h' q = cc

append_if-none :
    (p : Packages) (w : World) (r : SealedRecord) (h h' : Host) (durable : Bool)
    → (if durable then after_append p r (w.append r) else commit_and_remember p r) h ≡ (ok none, h')
    → Untouched h h'
append_if-none p w r h h' true q = after_append-none p r (w.append r) h h' q
append_if-none p w r h h' false q = none_left p r h h' q

persist-none :
    (p : Packages) (w : World) (o : Option SealedRecord) (h h' : Host)
    → persist p w o h ≡ (ok none, h')
    → Untouched h h'
unfolding persist
persist-none p w none h h' q = let same : h ≡ h' = ap (λ x. x.1) q in rw same (refl, refl)
persist-none p w (some r) h h' q = append_if-none p w r h h' h.config.has_repository q

pub seal-none :
    (p : Packages) (w : World) (event : Value) (h h' : Host)
    → seal p w event h ≡ (ok none, h')
    → Untouched h h'
unfolding seal
seal-none p w event h h' q =
    let next = λ (x : SealedRecord).
      lift (countersign_with p w h x h.config.countersigner) >>= persist p w in
    let (x, s1, e1, k1) = >>=-eq-ok (lift (Ledger.seal p event w.now h.ledger)) next h q in
    let (o, s2, e2, k2) =
      >>=-eq-ok (lift (countersign_with p w h x h.config.countersigner)) (persist p w) h
        (same_host next e1 k1) in
    persist-none p w o h h' (same_host (persist p w) e2 k2)
