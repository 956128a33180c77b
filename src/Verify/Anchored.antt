-- ===== src/Verify/Anchored.antt =====
-- The chain check against a ledger kept by a host: what the ledger holds passes, and a list of
-- records that passes under the ledger's anchored digest is that ledger's.
use auditable_mcp_sdk_ts.Base.{
  true, Option, some, List, [], ◌∷◌, ◌++◌, Text, same_text_iff, ◌≡◌, refl, ◌∙◌, sym, arith, map,
}
use auditable_mcp_sdk_ts.Base.Exec.{ok}
use auditable_mcp_sdk_ts.Canonical.{Packages}
use auditable_mcp_sdk_ts.Hashing.{genesis_hash}
use auditable_mcp_sdk_ts.Hashing.Laws.{HashLaws}
use auditable_mcp_sdk_ts.Ledger.{SealedRecord, Ledger, digest}
use auditable_mcp_sdk_ts.Ledger.Chain.{IsSound}
use auditable_mcp_sdk_ts.Ledger.Tamper.{SameChain, digest-SameChain}
use auditable_mcp_sdk_ts.Verify.Inputs.{Issue, Inputs, Report}
use auditable_mcp_sdk_ts.Verify.Report.{verify_chain, start, digest_issues, no_issues, gap_issue}
use auditable_mcp_sdk_ts.Verify.Clean.{clean}
use auditable_mcp_sdk_ts.Verify.Verdict.{
  verify_chain-Made, verify_chain-decides-IsChain, run_steps-tail,
}

-- What a sound ledger holds from genesis on is reported clean, with the ledger's own digest.
pub verify_chain-accepts :
    (p : Packages) (inputs : Inputs) (l : Ledger) {rep : Report}
    → IsSound p 0 genesis_hash l
    → verify_chain p inputs l.held ≡ ok rep
    → (clean rep.issues ≡ true) × (rep.computed_digest ≡ digest l)
verify_chain-accepts p inputs l {rep} sound q =
    let m = verify_chain-Made p inputs l.held q in
    (
      (verify_chain-decides-IsChain p inputs l.held q).1 sound.chained,
      m.digests ∙ run_steps-tail p inputs 0 l.held start m.looped sound.chained ∙ sym sound.linked,
    )

append-is-nil : (xs ys : List Issue) → no_issues (xs ++ ys) ≡ true → (xs ≡ []) × (ys ≡ [])
append-is-nil [] [] h = (refl, refl)
append-is-nil [] (y ∷ ys) h = cc
append-is-nil (x ∷ xs) ys h = cc

no_digest_issue : (o : Option Text) (t u : Text) → o ≡ some t → digest_issues o u ≡ [] → t ≡ u
unfolding digest_issues
no_digest_issue o t u e h = ground (arith, same_text_iff t u)

clean-nil : (xs : List Issue) → no_issues xs ≡ true → clean xs ≡ true
clean-nil [] h = refl
clean-nil (x ∷ xs) h = cc

-- Records that pass without a finding under the anchored digest of a sound ledger are the records of
-- that ledger, one by one: canonically equal events, positions, times, links and hashes.
pub verify_chain-tamper_evident :
    (p : Packages) (laws : HashLaws p) (inputs : Inputs) (records : List SealedRecord) (l : Ledger)
    {rep : Report}
    → IsSound p 0 genesis_hash l
    → inputs.anchored_digest ≡ some (digest l)
    → verify_chain p inputs records ≡ ok rep
    → rep.is_ok ≡ true
    → SameChain p records l.held
verify_chain-tamper_evident p laws inputs records l {rep} sound anchored q passes =
    let m = verify_chain-Made p inputs records q in
    let none_found : no_issues rep.issues ≡ true = sym m.oks ∙ passes in
    let chain =
      (verify_chain-decides-IsChain p inputs records q).0 (clean-nil rep.issues none_found) in
    let digests = digest_issues inputs.anchored_digest m.last.prev in
    let parts =
      append-is-nil m.last.issues (map gap_issue m.gaps ++ digests) (rw m.issues at none_found) in
    let none_here = append-is-nil (map gap_issue m.gaps) digests (rw (parts.1)) in
    let same = no_digest_issue inputs.anchored_digest (digest l) m.last.prev anchored none_here.1 in
    let tail = run_steps-tail p inputs 0 records start m.looped chain in
    digest-SameChain p laws records l.held chain sound.chained (sym tail ∙ sym same ∙ sound.linked)
