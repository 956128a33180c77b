-- ===== src/Ledger/Tamper.antt =====
-- Tamper evidence: the tail hash of a chain that starts at genesis fixes every record of it.
use auditable_mcp_sdk_ts.Base.{ℕ, suc, ◌+◌, ◌≡◌, refl, ◌∙◌, sym, List, [], ◌∷◌, arith, Text, length}
use auditable_mcp_sdk_ts.Base.Exec.{ok}
use auditable_mcp_sdk_ts.Json.{Value}
use auditable_mcp_sdk_ts.Canonical.{Packages}
use auditable_mcp_sdk_ts.Hashing.{genesis_hash, compute_record_hash}
use auditable_mcp_sdk_ts.Hashing.Laws.{HashLaws, record_hash_inj, record_hash-ne-genesis}
use auditable_mcp_sdk_ts.Ledger.{SealedRecord}
use auditable_mcp_sdk_ts.Ledger.Chain.{chain_tail, IsChain}

-- Two records that a hash cannot tell apart: canonically equal events, and the same host fields.
-- (The countersignature is not in the preimage.)
pub record SameSealed (p : Packages) (r s : SealedRecord) : Type 0 where
  pub events : p.jcs r.event ≡ p.jcs s.event
  pub seqs : r.seq ≡ s.seq
  pub times : r.host_ts ≡ s.host_ts
  pub links : r.previous_hash ≡ s.previous_hash
  pub hashes : r.record_hash ≡ s.record_hash

abbrev pub SameChain : Packages → List SealedRecord → List SealedRecord → Type 0
SameChain p [] [] = Unit
SameChain p [] (s ∷ ss) = ⊥
SameChain p (r ∷ rs) [] = ⊥
SameChain p (r ∷ rs) (s ∷ ss) = SameSealed p r s × SameChain p rs ss

-- What the tail hash of a chain that is not empty was computed from.
tail_preimage :
    (p : Packages) (n : ℕ) (h : Text) (r : SealedRecord) (rs : List SealedRecord)
    → IsChain p n h (r ∷ rs)
    → (e : Value) × (t : Text) × (g : Text) × (compute_record_hash p e (n + length rs) t g
        ≡ ok (chain_tail h (r ∷ rs)))
tail_preimage p n h r [] c = let z : n + 0 ≡ n = omega arith in (r.event, r.host_ts, h, rw z c.2)
tail_preimage p n h r (q ∷ rs) c =
    let z : n + suc (length rs) ≡ suc n + length rs = omega arith in
    let (e, t, g, x) = tail_preimage p (suc n) r.record_hash q rs c.3 in (e, t, g, rw z x)

module _ (p : Packages) (laws : HashLaws p) where
  length_of_tail :
      (rs ss : List SealedRecord)
      → IsChain p 0 genesis_hash rs
      → IsChain p 0 genesis_hash ss
      → chain_tail genesis_hash rs ≡ chain_tail genesis_hash ss
      → length rs ≡ length ss
  length_of_tail [] [] c d q = refl
  length_of_tail [] (s ∷ ss) c d q =
      let (e, t, g, x) = tail_preimage p 0 genesis_hash s ss d in
      absurd (record_hash-ne-genesis p laws e (0 + length ss) t g (rw (← q) at x))
  length_of_tail (r ∷ rs) [] c d q =
      let (e, t, g, x) = tail_preimage p 0 genesis_hash r rs c in
      absurd (record_hash-ne-genesis p laws e (0 + length rs) t g (rw q at x))
  length_of_tail (r ∷ rs) (s ∷ ss) c d q =
      let (e, t, g, x) = tail_preimage p 0 genesis_hash r rs c in
      let (e', t', g', x') = tail_preimage p 0 genesis_hash s ss d in
      let same =
        record_hash_inj p laws e e' (0 + length rs) (0 + length ss) t t' g g' _ (rw q at x) x' in
      omega (arith, same.1)

  same_links :
      (n n' : ℕ) (h h' : Text) (rs ss : List SealedRecord)
      → length rs ≡ length ss
      → IsChain p n h rs
      → IsChain p n' h' ss
      → chain_tail h rs ≡ chain_tail h' ss
      → (h ≡ h') × SameChain p rs ss
  same_links n n' h h' [] [] e c d q = (q, tt)
  same_links n n' h h' [] (s ∷ ss) e c d q = absurd (omega arith)
  same_links n n' h h' (r ∷ rs) [] e c d q = absurd (omega arith)
  same_links n n' h h' (r ∷ rs) (s ∷ ss) e c d q =
      let (hash, rest) =
        same_links (suc n) (suc n') r.record_hash s.record_hash rs ss (omega arith) c.3 d.3 q in
      let (event, seq, time, link) =
        record_hash_inj p laws r.event s.event n n' r.host_ts s.host_ts h h' s.record_hash
          (rw hash at c.2) d.2 in
      (
        link,
        (
          record {
            events = event;
            seqs = c.0 ∙ seq ∙ sym d.0;
            times = time;
            links = c.1 ∙ link ∙ sym d.1;
            hashes = hash;
          },
          rest,
        ),
      )

  -- Two hash chains from genesis with one tail hash hold the same records, one by one, where the laws
  -- of the hash hold.
  pub digest-SameChain :
      (rs ss : List SealedRecord)
      → IsChain p 0 genesis_hash rs
      → IsChain p 0 genesis_hash ss
      → chain_tail genesis_hash rs ≡ chain_tail genesis_hash ss
      → SameChain p rs ss
  digest-SameChain rs ss c d q =
      (same_links 0 0 genesis_hash genesis_hash rs ss (length_of_tail rs ss c d q) c d q).1
