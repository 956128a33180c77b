-- ===== src/Ledger/Chain.antt =====
-- A sound chain, as a statement on records alone, and what a ledger's operations do to it.
use auditable_mcp_sdk_ts.Base.{
  ℕ, suc, ◌+◌, ◌≡◌, refl, ◌∙◌, sym, List, [], ◌∷◌, ◌++◌, arith, Text, length, length-append,
}
use auditable_mcp_sdk_ts.Base.Exec.{ok}
use auditable_mcp_sdk_ts.Json.{Value}
use auditable_mcp_sdk_ts.Canonical.{Packages}
use auditable_mcp_sdk_ts.Hashing.{genesis_hash, compute_record_hash}
use auditable_mcp_sdk_ts.Ledger.{SealedRecord, Ledger, new_ledger, seal, commit}

-- The hash that the record after `rs` links to, where the first of them links to `h`.
abbrev pub chain_tail : Text → List SealedRecord → Text
chain_tail h [] = h
chain_tail h (r ∷ rs) = chain_tail r.record_hash rs

-- `rs` continues a chain at position `n` from the link `h`: the positions are consecutive, every
-- record links to the one before it, and every stored hash is that of its record.
abbrev pub IsChain : Packages → ℕ → Text → List SealedRecord → Type 0
IsChain p n h [] = Unit
IsChain p n h (r ∷ rs) =
    (r.seq ≡ n)
    × (r.previous_hash ≡ h)
    × (compute_record_hash p r.event n r.host_ts h ≡ ok r.record_hash)
    × IsChain p (suc n) r.record_hash rs

-- The records that a ledger holds continue its chain from position `n` and link `h`.
pub record IsSound (p : Packages) (n : ℕ) (h : Text) (l : Ledger) : Type 0 where
  pub chained : IsChain p n h l.held
  pub counted : l.count ≡ n + length l.held
  pub linked : l.tail_hash ≡ chain_tail h l.held

-- A record that the ledger may commit.
pub record Continues (p : Packages) (l : Ledger) (r : SealedRecord) : Type 0 where
  pub at_seq : r.seq ≡ l.count
  pub at_link : r.previous_hash ≡ l.tail_hash
  pub hashed : compute_record_hash p r.event l.count r.host_ts l.tail_hash ≡ ok r.record_hash

pub IsChain-snoc :
    (p : Packages) (n : ℕ) (h : Text) (rs : List SealedRecord) (r : SealedRecord)
    → IsChain p n h rs
    → r.seq ≡ n + length rs
    → r.previous_hash ≡ chain_tail h rs
    → compute_record_hash p r.event (n + length rs) r.host_ts (chain_tail h rs) ≡ ok r.record_hash
    → IsChain p n h (rs ++ r ∷ [])
IsChain-snoc p n h [] r c s l e = let z : n + 0 ≡ n = omega arith in (s ∙ z, l, (rw z at e), tt)
IsChain-snoc p n h (q ∷ rs) r c s l e =
    let z : n + suc (length rs) ≡ suc n + length rs = omega arith in
    (c.0, c.1, c.2, IsChain-snoc p (suc n) q.record_hash rs r c.3 (s ∙ z) l (rw z at e))

pub chain_tail-snoc :
    (h : Text) (rs : List SealedRecord) (r : SealedRecord)
    → chain_tail h (rs ++ r ∷ []) ≡ r.record_hash
chain_tail-snoc h [] r = refl
chain_tail-snoc h (q ∷ rs) r = chain_tail-snoc q.record_hash rs r

module _ (p : Packages) {n : ℕ} {h : Text} {l : Ledger} (sound : IsSound p n h l) where
  pub commit-IsSound : (r : SealedRecord) → Continues p l r → IsSound p n h (commit r l)
  unfolding commit
  commit-IsSound r c = record {
    chained =
        IsChain-snoc p n h l.held r sound.chained (c.at_seq ∙ sound.counted)
          (c.at_link ∙ sound.linked) (rw (← sound.counted, ← sound.linked) c.hashed);
    counted = omega (arith, sound.counted, length-append l.held (r ∷ []));
    linked = sym (chain_tail-snoc h l.held r);
  }

pub seal-Continues :
    (p : Packages) (e : Value) (t : Text) (l : Ledger) {r : SealedRecord}
    → seal p e t l ≡ ok r
    → Continues p l r
unfolding seal
seal-Continues p e t l q = ground arith

pub new_ledger-IsSound : (p : Packages) (part : Text) → IsSound p 0 genesis_hash (new_ledger part)
unfolding new_ledger
new_ledger-IsSound p part = record { chained = tt; counted = refl; linked = refl }
