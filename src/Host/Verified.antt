-- ===== src/Host/Verified.antt =====
-- The chain that a host keeps, over any calls and a restart, against `verifyChain`.
use auditable_mcp_sdk_ts.Base.{
  ℕ, suc, ◌+◌, true, some, List, [], ◌∷◌, ◌++◌, Text, ◌≡◌, refl, ◌∙◌, sym, arith, length,
  length-append,
}
use auditable_mcp_sdk_ts.Base.Exec.{Result, ok, err}
use auditable_mcp_sdk_ts.Base.Exec.Try
use auditable_mcp_sdk_ts.Canonical.{Packages}
use auditable_mcp_sdk_ts.Hashing.{genesis_hash}
use auditable_mcp_sdk_ts.Hashing.Laws.{HashLaws}
use auditable_mcp_sdk_ts.Ledger.{SealedRecord, Ledger, digest}
use auditable_mcp_sdk_ts.Ledger.Chain.{IsChain, chain_tail, IsSound}
use auditable_mcp_sdk_ts.Ledger.Tamper.{SameChain}
use auditable_mcp_sdk_ts.Verify.Inputs.{Inputs, Report}
use auditable_mcp_sdk_ts.Verify.Report.{verify_chain}
use auditable_mcp_sdk_ts.Verify.Clean.{clean}
use auditable_mcp_sdk_ts.Verify.Anchored.{verify_chain-accepts, verify_chain-tamper_evident}
use auditable_mcp_sdk_ts.Host.State.{Host, Options, new_host}
use auditable_mcp_sdk_ts.Host.Sessions.{OpenSession, resume, resume_with, resumed}
use auditable_mcp_sdk_ts.Host.Reached.{Reaches, reached-Kept, started-Kept}

IsChain-append :
    (p : Packages) (n : ℕ) (link : Text) (xs ys : List SealedRecord)
    → IsChain p n link xs
    → IsChain p (n + length xs) (chain_tail link xs) ys
    → IsChain p n link (xs ++ ys)
IsChain-append p n link [] ys c d = let z : n + 0 ≡ n = omega arith in rw z at d
IsChain-append p n link (x ∷ xs) ys c d =
    let z : n + suc (length xs) ≡ suc n + length xs = omega arith in
    (c.0, c.1, c.2, IsChain-append p (suc n) x.record_hash xs ys c.3 (rw z at d))

chain_tail-append :
    (link : Text) (xs ys : List SealedRecord)
    → chain_tail link (xs ++ ys) ≡ chain_tail (chain_tail link xs) ys
chain_tail-append link [] ys = refl
chain_tail-append link (x ∷ xs) ys = chain_tail-append x.record_hash xs ys

-- The records of the store before the host was started, and those that it sealed since, as one ledger.
abbrev pub whole : List SealedRecord → Host → Ledger
whole base h = record h.ledger { held = base ++ h.ledger.held }

whole-IsSound :
    (p : Packages) (base : List SealedRecord) (h : Host)
    → IsChain p 0 genesis_hash base
    → IsSound p (length base) (chain_tail genesis_hash base) h.ledger
    → IsSound p 0 genesis_hash (whole base h)
whole-IsSound p base h c s =
    let z : length base ≡ 0 + length base = omega arith in
    record {
      chained = IsChain-append p 0 genesis_hash base h.ledger.held c (rw z at s.chained);
      counted = omega (arith, s.counted, length-append base h.ledger.held);
      linked = s.linked ∙ sym (chain_tail-append genesis_hash base h.ledger.held);
    }

new_host-attempts :
    (partition : Text) (options : Options) {h : Host}
    → new_host partition options ≡ ok h
    → h.sealed_attempts ≡ []
unfolding new_host
new_host-attempts partition options q = ground arith

ok-resumed : (r : Result Unit × Host) {h : Host} → resumed r ≡ ok h → r.1 ≡ h
ok-resumed (ok u, h) q = ground arith
ok-resumed (err e, h) q = cc

-- Over a store that holds a sound chain, whatever a resumed host is then asked, the store's records and
-- those that the host sealed since are one sound chain: consecutive positions, every link, every hash,
-- and the host's count and tail hash are those of the whole. A tail that the store hands back after a
-- failed write has the hash of its own content.
pub resumed-IsSound :
    (p : Packages) (partition : Text) (options : Options) (base : List SealedRecord)
    (os : List OpenSession) (h0 h : Host)
    → IsChain p 0 genesis_hash base
    → resume p partition options base os ≡ ok h0
    → Reaches p h0 h
    → IsSound p 0 genesis_hash (whole base h)
unfolding resume
resumed-IsSound p partition options base os h0 h c q reached =
    let (fresh, e, k) =
      Try.>>=-eq-ok (new_host partition options) (λ h. resumed (resume_with p base os h)) q in
    let here : (resume_with p base os fresh).1 ≡ h0 = ok-resumed (resume_with p base os fresh) k in
    let kept =
      rw here at (started-Kept p base fresh os c (new_host-attempts partition options e)) in
    whole-IsSound p base h c (reached-Kept p base h0 h kept reached).sound

-- `verifyChain` on the records of a store that holds a sound chain and those of the host resumed over
-- it, after any calls in which a tail that the store hands back has the hash of its own content: a
-- report that is returned has no finding about the chain, and its digest is the host's own.
pub resumed-verify_chain :
    (p : Packages) (inputs : Inputs) (partition : Text) (options : Options)
    (base : List SealedRecord) (os : List OpenSession) (h0 h : Host) {rep : Report}
    → IsChain p 0 genesis_hash base
    → resume p partition options base os ≡ ok h0
    → Reaches p h0 h
    → verify_chain p inputs (base ++ h.ledger.held) ≡ ok rep
    → (clean rep.issues ≡ true) × (rep.computed_digest ≡ digest h.ledger)
resumed-verify_chain p inputs partition options base os h0 h c q reached v =
    verify_chain-accepts p inputs (whole base h)
      (resumed-IsSound p partition options base os h0 h c q reached) v

-- Records that pass `verifyChain` without a finding, under the digest of a resumed host as the anchored
-- digest, are the records of its store and its own chain, one by one, where the store holds a sound
-- chain, a tail that it hands back has the hash of its own content, and the laws of the hash hold.
pub resumed-tamper_evident :
    (p : Packages) (laws : HashLaws p) (inputs : Inputs) (partition : Text) (options : Options)
    (base : List SealedRecord) (os : List OpenSession) (h0 h : Host) (records : List SealedRecord)
    {rep : Report}
    → IsChain p 0 genesis_hash base
    → resume p partition options base os ≡ ok h0
    → Reaches p h0 h
    → inputs.anchored_digest ≡ some (digest h.ledger)
    → verify_chain p inputs records ≡ ok rep
    → rep.is_ok ≡ true
    → SameChain p records (base ++ h.ledger.held)
resumed-tamper_evident p laws inputs partition options base os h0 h records c q reached anchored v
      passes =
    verify_chain-tamper_evident p laws inputs records (whole base h)
      (resumed-IsSound p partition options base os h0 h c q reached) anchored v passes
