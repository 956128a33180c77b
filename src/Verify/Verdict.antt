-- ===== src/Verify/Verdict.antt =====
-- What the report of `verifyChain` says about the chain, and what it takes to pass.
use auditable_mcp_sdk_ts.Base.{
  ℕ, suc, true, Option, List, [], ◌∷◌, ◌++◌, Text, ◌≡◌, refl, ◌∙◌, sym, ap, ◌↔◌, arith, map, length,
}
use auditable_mcp_sdk_ts.Base.Exec.{ok, invalid_argument}
use auditable_mcp_sdk_ts.Base.Exec.Try.{>>=-eq-ok, throw_if}
use auditable_mcp_sdk_ts.Json.{is_structured}
use auditable_mcp_sdk_ts.Canonical.{Packages}
use auditable_mcp_sdk_ts.Hashing.{compute_record_hash, genesis_hash}
use auditable_mcp_sdk_ts.Ledger.{SealedRecord}
use auditable_mcp_sdk_ts.Ledger.Chain.{IsChain, chain_tail}
use auditable_mcp_sdk_ts.Verify.Inputs.{Inputs, Report}
use auditable_mcp_sdk_ts.Verify.Accounting.{Gap, unaccounted_signer_seq}
use auditable_mcp_sdk_ts.Verify.Step.{Progress, step}
use auditable_mcp_sdk_ts.Verify.Report.{
  run_steps, verify_chain, start, gap_issue, digest_issues, report_of, no_issues, events_of,
}
use auditable_mcp_sdk_ts.Verify.Clean.{clean, clean-extend}
use auditable_mcp_sdk_ts.Verify.Soundness.{
  fits-iff-IsChain, run_steps-clean, step-clean, prev_after-ok,
}

clean-gaps : (gaps : List Gap) → clean (map gap_issue gaps) ≡ true
clean-gaps [] = refl
clean-gaps (g ∷ gaps) = clean-gaps gaps

clean-digest : (o : Option Text) (t : Text) → clean (digest_issues o t) ≡ true
unfolding digest_issues
clean-digest o t = ground arith

-- What a report that was returned was made of.
pub record Made (p : Packages) (inputs : Inputs) (records : List SealedRecord) (rep : Report)
    : Type 0 where
  pub last : Progress
  pub gaps : List Gap
  pub looped : run_steps p inputs 0 records start ≡ ok last
  pub issues :
      rep.issues
      ≡ last.issues ++ (map gap_issue gaps ++ digest_issues inputs.anchored_digest last.prev)
  pub digests : rep.computed_digest ≡ last.prev
  pub oks : rep.is_ok ≡ no_issues rep.issues

ok-inj : (r s : Report) → ok r ≡ ok s → r ≡ s
ok-inj r s q = cc

pub verify_chain-Made :
    (p : Packages) (inputs : Inputs) (records : List SealedRecord) {rep : Report}
    → verify_chain p inputs records ≡ ok rep
    → Made p inputs records rep
unfolding verify_chain
verify_chain-Made p inputs records {rep} q =
    let (u, e0, q0) =
      >>=-eq-ok (throw_if (is_structured inputs.expected_principal) invalid_argument) _ q in
    let (s, e1, q1) = >>=-eq-ok (run_steps p inputs 0 records start) _ q0 in
    let (events, e2, q2) = >>=-eq-ok (events_of inputs records) _ q1 in
    let (gaps, e3, q3) = >>=-eq-ok (unaccounted_signer_seq p.to_text events) _ q2 in
    let found = s.issues ++ (map gap_issue gaps ++ digest_issues inputs.anchored_digest s.prev) in
    let same = ok-inj (report_of (length records) s found) rep q3 in
    record {
      last = s;
      gaps = gaps;
      looped = e1;
      issues = sym (ap (λ (t : Report). t.issues) same);
      digests = sym (ap (λ (t : Report). t.computed_digest) same);
      oks = ap (λ (t : Report). t.is_ok) (sym same) ∙ ap (λ (t : Report). no_issues t.issues) same;
    }

-- A report that `verifyChain` returned has no finding about positions, links, hashes or canonical form
-- exactly when the records are a hash chain from genesis.
pub verify_chain-decides-IsChain :
    (p : Packages) (inputs : Inputs) (records : List SealedRecord) {rep : Report}
    → verify_chain p inputs records ≡ ok rep
    → (clean rep.issues ≡ true) ↔ IsChain p 0 genesis_hash records
verify_chain-decides-IsChain p inputs records {rep} q =
    let m = verify_chain-Made p inputs records q in
    let extra = map gap_issue m.gaps ++ digest_issues inputs.anchored_digest m.last.prev in
    let added =
      clean-extend (map gap_issue m.gaps) (digest_issues inputs.anchored_digest m.last.prev)
        (clean-digest inputs.anchored_digest m.last.prev)
      ∙ clean-gaps m.gaps in
    let verdict =
      ap clean m.issues
      ∙ clean-extend m.last.issues extra added
      ∙ run_steps-clean p inputs 0 records start m.looped in
    let f = fits-iff-IsChain p 0 genesis_hash records in
    ((λ h. f.0 (sym verdict ∙ h)), (λ c. verdict ∙ f.1 c))

-- Over a chain the loop ends at the chain's own tail.
pub run_steps-tail :
    (p : Packages) (inputs : Inputs) (n : ℕ) (rs : List SealedRecord) (s : Progress) {s' : Progress}
    → run_steps p inputs n rs s ≡ ok s'
    → IsChain p n s.prev rs
    → s'.prev ≡ chain_tail s.prev rs
unfolding run_steps
run_steps-tail p inputs n [] s {s'} q c = ground arith
run_steps-tail p inputs n (r ∷ rs) s {s'} q c =
    let (s1, e, q1) = >>=-eq-ok (step p inputs n r s) _ q in
    let (found, prev) = step-clean p inputs n r s e in
    let hash = compute_record_hash p r.event r.seq r.host_ts s.prev in
    let made : hash ≡ ok r.record_hash = rw c.0 c.2 in
    let at : s1.prev ≡ r.record_hash = prev ∙ prev_after-ok r hash made in
    run_steps-tail p inputs (suc n) rs s1 q1 (rw at c.3) ∙ ap (λ (t : Text). chain_tail t rs) at
