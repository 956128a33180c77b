-- ===== src/Verify/Clean.antt =====
-- The findings of `verifyChain` that are about the chain itself, and that the other checks of the
-- loop add none of them.
use auditable_mcp_sdk_ts.Base.{
  Text, Bool, true, false, ◌&&◌, not, Option, none, some, List, [], ◌∷◌, ◌++◌, ◌≡◌, refl, ◌∙◌,
  arith, Bool-cases, Option-cases, inl, inr, is_some,
}
use auditable_mcp_sdk_ts.Base.Exec.{ok}
use auditable_mcp_sdk_ts.Base.Exec.Try.{>>=-eq-ok}
use auditable_mcp_sdk_ts.Json.{Value, get, is_present}
use auditable_mcp_sdk_ts.Fields
use auditable_mcp_sdk_ts.Reasons.{
  Code, schema_invalid, seq_gap, record_hash_mismatch, orphaned_outcome, replay_detected,
  signature_invalid,
}
use auditable_mcp_sdk_ts.Canonical.{Packages}
use auditable_mcp_sdk_ts.Ledger.{SealedRecord}
use auditable_mcp_sdk_ts.Verify.Inputs.{Issue, Inputs, ExpectedIdentity}
use auditable_mcp_sdk_ts.Verify.Step.{
  Progress, issue, issue_if, triple_of, Triple, check_principal, check_signature, check_identity,
  check_countersignature, correlate, correlate_as, correlate_named, correlation_key, check_number,
  check_level2,
}

-- The kinds that speak of the positions, the links and the hashes of the chain.
abbrev pub is_chain_code : Code → Bool
is_chain_code schema_invalid = true
is_chain_code seq_gap = true
is_chain_code record_hash_mismatch = true
is_chain_code _ = false

-- No finding is about the chain.
abbrev pub clean : List Issue → Bool
clean [] = true
clean (i ∷ is) = not (is_chain_code i.kind) && clean is

pub clean-append : (xs ys : List Issue) → clean (xs ++ ys) ≡ (clean xs && clean ys)
clean-append [] ys = refl
clean-append (x ∷ xs) ys = ground (arith, clean-append xs ys)

-- What a check adds leaves the chain's verdict as it was.
pub clean-extend : (xs ys : List Issue) → clean ys ≡ true → clean (xs ++ ys) ≡ clean xs
clean-extend xs ys h = ground (arith, clean-append xs ys)

pub check_principal-clean :
    (inputs : Inputs) (r : SealedRecord) {found : List Issue}
    → check_principal inputs r ≡ ok found
    → clean found ≡ true
unfolding check_principal
check_principal-clean inputs r q = ground arith

check_identity-clean :
    (o : Option ExpectedIdentity) (r : SealedRecord) (t : Triple)
    → clean (check_identity o r t) ≡ true
unfolding check_identity
check_identity-clean o r t = ground arith

check_signature-clean :
    (p : Packages) (inputs : Inputs) (r : SealedRecord) (b : Bool) (t : Triple)
    {found : List Issue × Bool}
    → check_signature p inputs r b t ≡ ok found
    → clean found.0 ≡ true
unfolding check_signature
check_signature-clean p inputs r b t q = ground arith

-- A finding of another kind, made or not.
clean-issue_if :
    (xs : List Issue) (b : Bool) (r : SealedRecord) (k : Code)
    → is_chain_code k ≡ false
    → clean (xs ++ issue_if b r k) ≡ clean xs
clean-issue_if xs b r k h = clean-extend xs (issue_if b r k) (ground arith)

ok-clean :
    (s s' t : Progress)
    → ok t ≡ ok s'
    → clean t.issues ≡ clean s.issues
    → clean s'.issues ≡ clean s.issues
ok-clean s s' t q h = ground arith

pub check_countersignature-clean :
    (p : Packages) (inputs : Inputs) (r : SealedRecord) (b : Bool) (s : Progress) {s' : Progress}
    → check_countersignature p inputs r b s ≡ ok s'
    → clean s'.issues ≡ clean s.issues
unfolding check_countersignature
check_countersignature-clean p inputs r b s {s'} q =
    let t = triple_of r.host_signature r.host_key_id r.log_id in
    let (found, e, q') = >>=-eq-ok (check_signature p inputs r b t) _ q in
    let ids = check_identity inputs.expected_identity r t in
    let fresh = check_signature-clean p inputs r b t e in
    let more = check_identity-clean inputs.expected_identity r t in
    let added = clean-extend s.issues (found.0 ++ ids) (clean-extend found.0 ids more ∙ fresh) in
    ok-clean s s' _ q' added

correlate_as-clean :
    (r : SealedRecord) (inner : Option Value) (operation : List Text) (attempt : Bool)
    (s : Progress)
    → clean (correlate_as r inner operation attempt s).issues ≡ clean s.issues
correlate_as-clean r inner operation true s = refl
correlate_as-clean r inner operation false s = clean-issue_if s.issues _ r orphaned_outcome refl

correlate_named-clean :
    (p : Packages) (inputs : Inputs) (r : SealedRecord) (inner id : Option Value) (named : Bool)
    (s : Progress) {s' : Progress}
    → correlate_named p inputs r inner id named s ≡ ok s'
    → clean s'.issues ≡ clean s.issues
correlate_named-clean p inputs r inner id false s {s'} q = ok-clean s s' s q refl
correlate_named-clean p inputs r inner id true s {s'} q =
    let (key, e, q1) = >>=-eq-ok (correlation_key p inputs r.event inner id) _ q in
    let (attempt, e', q2) = >>=-eq-ok (inputs.adapter.is_attempt r.event) _ q1 in
    ok-clean s s' _ q2 (correlate_as-clean r inner key attempt s)

pub correlate-clean :
    (p : Packages) (inputs : Inputs) (r : SealedRecord) (inner : Option Value) (s : Progress)
    {s' : Progress}
    → correlate p inputs r inner s ≡ ok s'
    → clean s'.issues ≡ clean s.issues
unfolding correlate
correlate-clean p inputs r inner s q =
    let (id, e, q1) = >>=-eq-ok (inputs.adapter.id_of r.event) _ q in
    correlate_named-clean p inputs r inner id (is_present id) s q1

pub check_number-clean :
    (p : Packages) (r : SealedRecord) (inner : Option Value) (s : Progress)
    → clean (check_number p r inner s).issues ≡ clean s.issues
unfolding check_number
check_number-clean p r inner s =
    ground (arith, clean-extend s.issues (issue r replay_detected) refl)

pub check_level2-clean :
    (inputs : Inputs) (r : SealedRecord) (inner : Option Value) (s : Progress) {s' : Progress}
    → check_level2 inputs r inner s ≡ ok s'
    → clean s'.issues ≡ clean s.issues
unfolding check_level2
check_level2-clean inputs r none s {s'} q = ok-clean s s' s q refl
check_level2-clean inputs r (some e) s {s'} q =
    elim (Bool-cases (is_some (get Fields.signature e))) [
      | inl signed ↦ elim (Option-cases inputs.signature_checker) [
        | inl no_checker ↦ ok-clean s s' _ (rw (signed, no_checker) at q) refl
        | inr (c, given) ↦
            let (passes, e', q1) = >>=-eq-ok (c e) _ (rw (signed, given) at q) in
            ok-clean s s' _ q1 (clean-issue_if s.issues (not passes) r signature_invalid refl)
      ]
      | inr unsigned ↦ ok-clean s s' s (rw unsigned at q) refl
    ]
