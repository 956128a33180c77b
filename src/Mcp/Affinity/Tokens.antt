-- ===== src/Mcp/Affinity/Tokens.antt =====
-- What a round token of src/mcp/affinity.ts names: the instance that minted it.
use auditable_mcp_sdk_ts.Base.{
  ℕ, ◌≡◌, refl, sym, ap, ◌∙◌, arith, Bool, true, false, ◌||◌, not, Option, none, some, List, [],
  ◌∷◌, ◌++◌, Text, ◌==◌, ==_iff, if◌then◌else◌, length, Bool-cases, inl, inr,
}
use auditable_mcp_sdk_ts.Crypto.Base64.{all_of, url_character, bytes_to_base64url}
use auditable_mcp_sdk_ts.Crypto.Base64.Laws.{
  AllBelow, all_of-bytes_to_base64url, length-bytes_to_base64url,
}
use auditable_mcp_sdk_ts.Mcp.Affinity.{
  round_token_prefix, is_instance_id, mint_round_token, after_prefix, extend, split_at_dot,
  is_random_part, instance_of_parts, instance_of_rest, instance_of_token,
}

after_prefix-append : (p t : Text) → after_prefix p (p ++ t) ≡ some t
unfolding after_prefix
after_prefix-append [] t = refl
after_prefix-append (u ∷ us) t = ground (arith, after_prefix-append us t)

url_character-dot : (u : ℕ) → url_character u ≡ true → (u == b'.') ≡ false
unfolding url_character
url_character-dot u q = ground arith

all_of-cons :
    (u : ℕ) (us : Text)
    → all_of url_character (u ∷ us) ≡ true
    → (url_character u ≡ true) × (all_of url_character us ≡ true)
unfolding all_of
all_of-cons u us q = ground arith

split_at_dot-cons :
    (u : ℕ) (us : Text) → (u == b'.') ≡ false → split_at_dot (u ∷ us) ≡ extend u (split_at_dot us)
unfolding split_at_dot
split_at_dot-cons u us e = rw e refl

split_at_dot-append :
    (s t : Text) → all_of url_character s ≡ true → split_at_dot (s ++ (b'.' ∷ t)) ≡ some (s, t)
unfolding split_at_dot
split_at_dot-append [] t q = refl
split_at_dot-append (u ∷ us) t q =
    let (legal, rest) = all_of-cons u us q in
    split_at_dot-cons u (us ++ (b'.' ∷ t)) (url_character-dot u legal)
    ∙ ap (extend u) (split_at_dot-append us t rest)

parts-instance :
    (s t : Text)
    → is_instance_id s ≡ true
    → is_random_part t ≡ true
    → instance_of_parts (some (s, t)) ≡ some s
parts-instance s t e f = rw (e, f) refl

instance-all_of : (s : Text) → is_instance_id s ≡ true → all_of url_character s ≡ true
unfolding is_instance_id
instance-all_of s q = ground arith

random-is_random_part :
    (random : List ℕ)
    → AllBelow 256 random
    → length random ≡ 32
    → is_random_part (bytes_to_base64url random) ≡ true
unfolding is_random_part
random-is_random_part random below size =
    let l = length-bytes_to_base64url random below in
    rw (all_of-bytes_to_base64url random below) (ground (arith, l, size))

-- A token that an instance mints of 32 random bytes names that instance.
pub instance_of_token-mint_round_token :
    (s : Text) (random : List ℕ)
    → is_instance_id s ≡ true
    → AllBelow 256 random
    → length random ≡ 32
    → instance_of_token (mint_round_token s random) ≡ some s
unfolding instance_of_token mint_round_token
instance_of_token-mint_round_token s random named below size =
    let part = bytes_to_base64url random in
    ap instance_of_rest (after_prefix-append round_token_prefix (s ++ (b'.' ∷ part)))
    ∙ ap instance_of_parts (split_at_dot-append s part (instance-all_of s named))
    ∙ parts-instance s part named (random-is_random_part random below size)

-- A token of the form that is minted.
pub data IsToken (s : Text) : Text → Type 0 where
  is_token :
      (random : Text)
      → is_instance_id s ≡ true
      → is_random_part random ≡ true
      → IsToken s (round_token_prefix ++ (s ++ (b'.' ∷ random)))

prefixed : (p token rest : Text) → after_prefix p token ≡ some rest → token ≡ p ++ rest
unfolding after_prefix
prefixed [] token rest q = ground arith
prefixed (u ∷ us) [] rest q = absurd cc
prefixed (u ∷ us) (v ∷ vs) rest q = ground (arith, ==_iff u v, prefixed us vs rest)

extend-some :
    (u : ℕ) (o : Option (Text × Text)) (s t : Text)
    → extend u o ≡ some (s, t)
    → (before : Text) × (s ≡ u ∷ before) × (o ≡ some (before, t))
extend-some u none s t q = absurd cc
extend-some u (some (before, after)) s t q = (before, cc, cc)

split_at_dot-some : (token s t : Text) → split_at_dot token ≡ some (s, t) → token ≡ s ++ (b'.' ∷ t)
unfolding split_at_dot
split_at_dot-some [] s t q = absurd cc
split_at_dot-some (u ∷ us) s t q = elim (Bool-cases (u == b'.')) [
  | inl dot ↦ ground (arith, ==_iff u b'.')
  | inr other ↦
      let (before, head, rest) =
        extend-some u (split_at_dot us) s t (sym (split_at_dot-cons u us other) ∙ q) in
      let tail = split_at_dot-some us before t rest in
      ap (λ x. u ∷ x) tail ∙ ap (λ x. x ++ (b'.' ∷ t)) (sym head)
]

parts_named :
    (o : Option (Text × Text)) (s : Text)
    → instance_of_parts o ≡ some s
    → (t : Text) × (o ≡ some (s, t)) × (is_instance_id s ≡ true) × (is_random_part t ≡ true)
parts_named none s q = absurd cc
parts_named (some (s', t)) s q = both (is_instance_id s') (is_random_part t) refl refl q
  where
    both :
        (a b : Bool)
        → is_instance_id s' ≡ a
        → is_random_part t ≡ b
        → (if not a || not b then none else some s') ≡ some s
        → (t' : Text) × ◌≡◌ {A = Option (Text × Text)} (some (s', t)) (some (s, t'))
          × (is_instance_id s ≡ true)
          × (is_random_part t' ≡ true)
    both false b e f r = absurd cc
    both true false e f r = absurd cc
    both true true e f r =
        let same : s' ≡ s = cc in (t, (λ i. some (same i, t)), ap is_instance_id (sym same) ∙ e, f)

rest_named :
    (o : Option Text) (s : Text)
    → instance_of_rest o ≡ some s
    → (rest : Text) × (o ≡ some rest) × (instance_of_parts (split_at_dot rest) ≡ some s)
rest_named none s q = absurd cc
rest_named (some rest) s q = (rest, refl, q)

-- Whatever names an instance is a token of the form that is minted: the prefix, that instance's name, a
-- dot and 43 characters of the URL alphabet.
pub instance_of_token-IsToken :
    (token s : Text) → instance_of_token token ≡ some s → IsToken s token
unfolding instance_of_token
instance_of_token-IsToken token s q =
    let (rest, cut, named) = rest_named (after_prefix round_token_prefix token) s q in
    let (t, split, whole, random) = parts_named (split_at_dot rest) s named in
    let is =
      prefixed round_token_prefix token rest cut
      ∙ ap (λ x. round_token_prefix ++ x) (split_at_dot-some rest s t split) in
    rw is (is_token t whole random)
