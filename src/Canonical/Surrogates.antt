-- ===== src/Canonical/Surrogates.antt =====
-- `LONE_SURROGATE` of src/canonical.ts: a high surrogate with no low one after it, or a low one
-- with no high one before it.
use auditable_mcp_sdk_ts.Base.{
  ℕ, Bool, true, false, ◌||◌, ◌&&◌, not, leb, [], ◌∷◌, Text, ◌≡◌, refl, ◌↔◌, inl, inr, arith,
  Bool-cases,
}

unfoldable pub is_high : ℕ → Bool
is_high u = leb 0xd800 u && leb u 0xdbff

unfoldable pub is_low : ℕ → Bool
is_low u = leb 0xdc00 u && leb u 0xdfff

unfoldable pub starts_low : Text → Bool
unfolding is_low
starts_low [] = false
starts_low (u ∷ us) = is_low u

-- The scan of a string whose last unit before it was, or was not, a high surrogate.
unfoldable pub lone_after : Bool → Text → Bool
unfolding is_high is_low starts_low
lone_after high [] = false
lone_after high (u ∷ us) =
    (is_high u && not (starts_low us)) || ((is_low u && not high) || lone_after (is_high u) us)

unfoldable pub lone_surrogate : Text → Bool
unfolding lone_after
lone_surrogate = lone_after false

-- A UTF-16 string that is well formed: a sequence of Unicode scalar values, each one unit outside
-- the surrogate range or a high surrogate with a low one.
pub data IsWellFormed : Text → Type 0 where
  empty : IsWellFormed []
  scalar :
      {u : ℕ} {us : Text}
      → is_high u ≡ false
      → is_low u ≡ false
      → IsWellFormed us
      → IsWellFormed (u ∷ us)
  pair :
      {h l : ℕ} {us : Text}
      → is_high h ≡ true
      → is_low l ≡ true
      → IsWellFormed us
      → IsWellFormed (h ∷ l ∷ us)

low-not_high : (u : ℕ) → is_low u ≡ true → is_high u ≡ false
unfolding is_high is_low
low-not_high u h = ground arith

lone_after-IsWellFormed : (us : Text) → IsWellFormed us → lone_after false us ≡ false
unfolding lone_after
lone_after-IsWellFormed us empty = refl
lone_after-IsWellFormed us (scalar {u = u} {us = rest} h l w) =
    ground (arith, lone_after-IsWellFormed rest w)
lone_after-IsWellFormed us (pair {h = h} {l = l} {us = rest} hh hl w) =
    ground (arith, low-not_high l hl, lone_after-IsWellFormed rest w)

lone_step :
    (high : Bool) (u : ℕ) (us : Text)
    → lone_after high (u ∷ us) ≡ false
    → (is_high u ≡ true → starts_low us ≡ true)
      × (is_low u ≡ true → high ≡ true)
      × (lone_after (is_high u) us ≡ false)
unfolding lone_after
lone_step high u us e = ground arith

not_low : (u : ℕ) → (is_low u ≡ true → false ≡ true) → is_low u ≡ false
not_low u h = elim (Bool-cases (is_low u)) [ inl low ↦ absurd (cc (h low)) | inr other ↦ other ]

starts_low-cons : (v : ℕ) (us : Text) → starts_low (v ∷ us) ≡ is_low v
unfolding starts_low
starts_low-cons v us = refl

scan-IsWellFormed : (us : Text) → lone_after false us ≡ false → IsWellFormed us
scan-IsWellFormed [] e = empty
scan-IsWellFormed (u ∷ []) e =
    let s = lone_step false u [] e in
    elim (Bool-cases (is_high u)) [
      | inl high ↦ absurd (unfold starts_low in cc (s.0 high))
      | inr other ↦ scalar other (not_low u s.1) empty
    ]
scan-IsWellFormed (u ∷ v ∷ us) e =
    let s = lone_step false u (v ∷ us) e in
    elim (Bool-cases (is_high u)) [
      | inl high ↦
          let low : is_low v ≡ true = rw starts_low-cons at (s.0 high) in
          let s' = lone_step (is_high u) v us s.2 in
          pair high low (scan-IsWellFormed us (rw (low-not_high v low) at s'.2))
      | inr other ↦ scalar other (not_low u s.1) (scan-IsWellFormed (v ∷ us) (rw other at s.2))
    ]

-- `hasLoneSurrogate` refuses exactly the strings that are not well-formed UTF-16.
pub lone_surrogate-iff-IsWellFormed : (us : Text) → (lone_surrogate us ≡ false) ↔ IsWellFormed us
unfolding lone_surrogate
lone_surrogate-iff-IsWellFormed us = (scan-IsWellFormed us, lone_after-IsWellFormed us)
