-- ===== src/Level2/Bound.antt =====
-- §10.9 of src/l2/keys.ts: a key id names one key for life, and revocation is forward-only.
use auditable_mcp_sdk_ts.Base.{
  ℕ, ◌≡◌, refl, sym, ap, ◌∙◌, inl, inr, arith, Bool, true, false, not, Option, none, some, List, [],
  ◌∷◌, Text, nat_eq, list_beq_iff, text_eq, same_text_iff, Bool-cases, is_some, if◌then◌else◌,
  lookup, lookup-insert, insert, has, add, has-add_mono,
}
use auditable_mcp_sdk_ts.Base.Exec.{ok, err, invalid_argument}
use auditable_mcp_sdk_ts.Base.Exec.Try.{◌>>=◌, ◌>>◌, throw_if, >>=-eq-ok}
use auditable_mcp_sdk_ts.Level2.Keys.{
  Algorithm, ed25519, es256, RegisteredKey, Curves, bytes_equal, same_algorithm, same_points,
  same_key, Registry, conflicts, register_in, register, Entry, register_own, register_all,
  revoke_all, load_entries, revoke, is_revoked, is_key_of, all_of_role, is_empty,
}

bytes_equal_iff : (a b : List ℕ) → bytes_equal a b ≡ true → a ≡ b
unfolding bytes_equal
bytes_equal_iff a b = (list_beq_iff nat_eq a b).0

ok_inj : {A : Type 0} {a b : A} → ok a ≡ ok b → a ≡ b
ok_inj q = cc

some_inj : {A : Type 0} {a b : A} → some a ≡ some b → a ≡ b
some_inj q = cc

module _ (id' id : Text) (x : RegisteredKey) (own : List (Text × RegisteredKey)) where
  lookup-head : text_eq.beq id' id ≡ true → lookup id ((id', x) ∷ own) ≡ some x
  unfolding lookup
  lookup-head e = rw e refl

  lookup-tail : text_eq.beq id' id ≡ false → lookup id ((id', x) ∷ own) ≡ lookup id own
  unfolding lookup
  lookup-tail e = rw e refl

lookup-nil : (id : Text) (e : RegisteredKey) → lookup id [] ≡ some e → ⊥
unfolding lookup
lookup-nil id e q = absurd cc

passed :
    {A : Type 0} (x y z : Bool) {a b : A}
    → (throw_if x invalid_argument
        >> (throw_if y invalid_argument >> (throw_if z invalid_argument >> ok a)))
      ≡ ok b
    → (z ≡ false) × (b ≡ a)
passed true y z q = absurd cc
passed false true z q = absurd cc
passed false false true q = absurd cc
passed false false false q = (refl, cc)

module _ (c : Curves) where
  -- The key that an entry names: its bytes, or the point that they encode.
  abbrev pub point : Algorithm → List ℕ → Option (List ℕ)
  point ed25519 key = some key
  point es256 key = c.p256_bytes key

  abbrev pub IsAlike : RegisteredKey → RegisteredKey → Type 0
  IsAlike a b =
      (a.algorithm ≡ b.algorithm)
      × (point a.algorithm a.public_key ≡ point b.algorithm b.public_key)

  same_algorithm_iff : (a b : Algorithm) → same_algorithm a b ≡ true → a ≡ b
  same_algorithm_iff ed25519 ed25519 e = refl
  same_algorithm_iff es256 es256 e = refl
  same_algorithm_iff ed25519 es256 e = absurd cc
  same_algorithm_iff es256 ed25519 e = absurd cc

  same_points-point :
      (x y : Option (List ℕ)) (same : Bool)
      → same_points x y same ≡ true
      → (same ≡ true → x ≡ y)
      → x ≡ y
  same_points-point none none same e f = refl
  same_points-point none (some y) same e f = f e
  same_points-point (some x) none same e f = f e
  same_points-point (some x) (some y) same e f = ap some (bytes_equal_iff x y e)

  same_key-point :
      (algorithm : Algorithm) (a b : List ℕ)
      → same_key c a b algorithm ≡ true
      → point algorithm a ≡ point algorithm b
  unfolding same_key
  same_key-point ed25519 a b e = ap some (bytes_equal_iff a b e)
  same_key-point es256 a b e =
      same_points-point (c.p256_bytes a) (c.p256_bytes b) (bytes_equal a b) e
        (λ same. ap (λ k. c.p256_bytes k) (bytes_equal_iff a b same))

  alike :
      (e : RegisteredKey) (key : List ℕ) (algorithm : Algorithm)
      → conflicts c key algorithm (some e) ≡ false
      → IsAlike e (record { algorithm = algorithm; public_key = key })
  alike e key algorithm q =
      let same = same_algorithm_iff e.algorithm algorithm (ground arith) in
      let one : same_key c e.public_key key algorithm ≡ true = ground arith in
      (same, ap (λ a. point a e.public_key) same ∙ same_key-point algorithm e.public_key key one)

  -- The id is bound in `keys` to the key that `e` names.
  pub data Binds (e : RegisteredKey) (id : Text) (keys : List (Text × RegisteredKey)) : Type 0 where
    binds : (e' : RegisteredKey) → lookup id keys ≡ some e' → IsAlike e e' → Binds e id keys

  registered_in :
      (keys keys' : List (Text × RegisteredKey)) (id : Text) (key : List ℕ) (algorithm : Algorithm)
      → register_in c keys id key algorithm ≡ ok keys'
      → (conflicts c key algorithm (lookup id keys) ≡ false)
        × (keys' ≡ insert id (record { algorithm = algorithm; public_key = key }) keys)
  unfolding register_in
  registered_in keys keys' id key algorithm q =
      passed (is_empty id) (not (is_key_of c key algorithm))
        (conflicts c key algorithm (lookup id keys)) q

  lookup-registered :
      (keys : List (Text × RegisteredKey)) (id : Text) (new : RegisteredKey)
      → lookup id (insert id new keys) ≡ some new
  lookup-registered keys id new =
      lookup-insert id id new keys ∙ rw ((same_text_iff id id).1 refl) refl

  register_in-Binds :
      (e : RegisteredKey) (id : Text) (keys keys' : List (Text × RegisteredKey)) (id' : Text)
      (key : List ℕ) (algorithm : Algorithm)
      → register_in c keys id' key algorithm ≡ ok keys'
      → Binds e id keys
      → Binds e id keys'
  register_in-Binds e id keys keys' id' key algorithm q (binds e' found (a, k)) =
      let (free, same) = registered_in keys keys' id' key algorithm q in
      let new : RegisteredKey = record { algorithm = algorithm; public_key = key } in
      let now = ap (lookup id) same ∙ lookup-insert id' id new keys in
      elim (Bool-cases (text_eq.beq id' id)) [
        | inl hit ↦
            let one = (same_text_iff id' id).0 hit in
            let there : lookup id' keys ≡ some e' = ap (λ x. lookup x keys) one ∙ found in
            let (b, l) =
              alike e' key algorithm (ap (conflicts c key algorithm) (sym there) ∙ free) in
            binds new (now ∙ rw hit refl) (a ∙ b, k ∙ l)
        | inr miss ↦ binds e' (now ∙ rw miss found) (a, k)
      ]

  register_own-Binds :
      (e : RegisteredKey) (id : Text) (own keys keys' : List (Text × RegisteredKey))
      → register_own c own keys ≡ ok keys'
      → Binds e id keys
      → Binds e id keys'
  unfolding register_own
  register_own-Binds e id [] keys keys' q b = rw (ok_inj q) at b
  register_own-Binds e id ((id', x) ∷ own) keys keys' q b =
      let (k, made, rest) =
        >>=-eq-ok (register_in c keys id' x.public_key x.algorithm) (register_own c own) q in
      register_own-Binds e id own k keys' rest
        (register_in-Binds e id keys k id' x.public_key x.algorithm made b)

  -- Registering the entries of a registry again loses none.
  register_own-own :
      (e : RegisteredKey) (id : Text) (own keys keys' : List (Text × RegisteredKey))
      → register_own c own keys ≡ ok keys'
      → lookup id own ≡ some e
      → Binds e id keys'
  unfolding register_own
  register_own-own e id [] keys keys' q found = absurd (lookup-nil id e found)
  register_own-own e id ((id', x) ∷ own) keys keys' q found =
      let (k, made, rest) =
        >>=-eq-ok (register_in c keys id' x.public_key x.algorithm) (register_own c own) q in
      let (free, same) = registered_in keys k id' x.public_key x.algorithm made in
      elim (Bool-cases (text_eq.beq id' id)) [
        | inl hit ↦
            let head : x ≡ e = some_inj (sym (lookup-head id' id x own hit) ∙ found) in
            let one = (same_text_iff id' id).0 hit in
            let there =
              ap (lookup id) same
              ∙ ap (λ i. lookup id (insert i x keys)) one
              ∙ lookup-registered keys id x in
            register_own-Binds e id own k keys' rest (
              binds x there (
                ap (λ y. y.algorithm) (sym head),
                ap (λ y. point y.algorithm y.public_key) (sym head),
              ))
        | inr miss ↦
            register_own-own e id own k keys' rest (sym (lookup-tail id' id x own miss) ∙ found)
      ]

  register_all-Binds :
      (e : RegisteredKey) (id : Text) (es : List Entry) (keys keys' : List (Text × RegisteredKey))
      → register_all c es keys ≡ ok keys'
      → Binds e id keys
      → Binds e id keys'
  unfolding register_all
  register_all-Binds e id [] keys keys' q b = rw (ok_inj q) at b
  register_all-Binds e id (x ∷ es) keys keys' q b =
      let (k, made, rest) =
        >>=-eq-ok (register_in c keys x.key_id x.public_key x.algorithm) (register_all c es) q in
      register_all-Binds e id es k keys' rest
        (register_in-Binds e id keys k x.key_id x.public_key x.algorithm made b)

  -- One call of a method that changes a registry and returns.
  pub data Step (g : Registry) : Registry → Type 0 where
    registers :
        {g' : Registry} (id : Text) (key : List ℕ) (algorithm : Algorithm)
        → register c g id key algorithm ≡ ok g'
        → Step g g'
    loads : {g' : Registry} (entries : List Entry) → load_entries c g entries ≡ ok g' → Step g g'
    revokes : {g' : Registry} (id : Text) → revoke g id ≡ ok g' → Step g g'

  pub data Becomes (g : Registry) : Registry → Type 0 where
    unchanged : Becomes g g
    then_step : {g1 g2 : Registry} → Becomes g g1 → Step g1 g2 → Becomes g g2

  load_entries-parts :
      (g g' : Registry) (entries : List Entry)
      → load_entries c g entries ≡ ok g'
      → (own : List (Text × RegisteredKey)) × (register_own c g.keys [] ≡ ok own)
        × (register_all c entries own ≡ ok g'.keys)
        × (g'.revoked ≡ revoke_all entries g.revoked)
  unfolding load_entries
  load_entries-parts g g' entries q =
      let finish = λ (keys : List (Text × RegisteredKey)).
        ok (record g { keys = keys; revoked = revoke_all entries g.revoked }) in
      let rehearse = register_own c g.keys [] >>= λ own. register_all c entries own >>= finish in
      let (u, checked, rest) =
        >>=-eq-ok (throw_if (not (all_of_role g.role entries)) invalid_argument) (λ u. rehearse)
          q in
      let (own, mine, rest') =
        >>=-eq-ok (register_own c g.keys []) (λ own. register_all c entries own >>= finish) rest in
      let (keys, all, last) = >>=-eq-ok (register_all c entries own) finish rest' in
      let same = ok_inj last in
      (
        own,
        mine,
        all ∙ ap (λ (r : Registry). ok r.keys) same,
        sym (ap (λ (r : Registry). r.revoked) same),
      )

  widened :
      (e : RegisteredKey) (id : Text) (e' : RegisteredKey) {keys : List (Text × RegisteredKey)}
      → IsAlike e e'
      → Binds e' id keys
      → Binds e id keys
  widened e id e' (a, k) (binds x found (b, l)) = binds x found (a ∙ b, k ∙ l)

  revoked_keys :
      (e : RegisteredKey) (id : Text) (g g' : Registry) (id' : Text) (known : Bool)
      → (if known then ok (record g { revoked = add id' g.revoked }) else err invalid_argument)
        ≡ ok g'
      → Binds e id g.keys
      → Binds e id g'.keys
  revoked_keys e id g g' id' true q b = rw (ap (λ (r : Registry). r.keys) (ok_inj q)) at b
  revoked_keys e id g g' id' false q b = absurd cc

  revoked_still :
      (id : Text) (g g' : Registry) (id' : Text) (known : Bool)
      → (if known then ok (record g { revoked = add id' g.revoked }) else err invalid_argument)
        ≡ ok g'
      → has id g.revoked ≡ true
      → has id g'.revoked ≡ true
  revoked_still id g g' id' true q h =
      ap (λ (r : Registry). has id r.revoked) (sym (ok_inj q)) ∙ has-add_mono id id' g.revoked h
  revoked_still id g g' id' false q h = absurd cc

  Step-Binds :
      (e : RegisteredKey) (id : Text) (g g' : Registry)
      → Step g g'
      → Binds e id g.keys
      → Binds e id g'.keys
  unfolding register revoke
  Step-Binds e id g g' (registers id' key algorithm q) b =
      let write = λ (keys : List (Text × RegisteredKey)). ok (record g { keys = keys }) in
      let (keys, made, last) = >>=-eq-ok (register_in c g.keys id' key algorithm) write q in
      register_in-Binds e id g.keys g'.keys id' key algorithm
        (made ∙ ap (λ (r : Registry). ok r.keys) (ok_inj last)) b
  Step-Binds e id g g' (loads entries q) (binds e' found (a, k)) =
      let (own, mine, all, marked) = load_entries-parts g g' entries q in
      widened e id e' (a, k)
        (register_all-Binds e' id entries own g'.keys all
          (register_own-own e' id g.keys [] own mine found))
  Step-Binds e id g g' (revokes id' q) b =
      revoked_keys e id g g' id' (is_some (lookup id' g.keys)) q b

  add_if_mono :
      (b : Bool) (id x : Text) (revoked : List Text)
      → has id revoked ≡ true
      → has id (if b then add x revoked else revoked) ≡ true
  add_if_mono true id x revoked h = has-add_mono id x revoked h
  add_if_mono false id x revoked h = h

  revoke_all_mono :
      (es : List Entry) (id : Text) (revoked : List Text)
      → has id revoked ≡ true
      → has id (revoke_all es revoked) ≡ true
  unfolding revoke_all
  revoke_all_mono [] id revoked h = h
  revoke_all_mono (e ∷ es) id revoked h =
      revoke_all_mono es id (if e.revoked then add e.key_id revoked else revoked)
        (add_if_mono e.revoked id e.key_id revoked h)

  Step-revoked :
      (id : Text) (g g' : Registry) → Step g g' → is_revoked g id ≡ true → is_revoked g' id ≡ true
  unfolding register revoke is_revoked
  Step-revoked id g g' (registers id' key algorithm q) h =
      let write = λ (keys : List (Text × RegisteredKey)). ok (record g { keys = keys }) in
      let (keys, made, last) = >>=-eq-ok (register_in c g.keys id' key algorithm) write q in
      ap (λ (r : Registry). has id r.revoked) (sym (ok_inj last)) ∙ h
  Step-revoked id g g' (loads entries q) h =
      let (own, mine, all, marked) = load_entries-parts g g' entries q in
      ap (has id) marked ∙ revoke_all_mono entries id g.revoked h
  Step-revoked id g g' (revokes id' q) h =
      revoked_still id g g' id' (is_some (lookup id' g.keys)) q h

  -- A key id names one key for life: whatever is registered, loaded and revoked, an id that a registry
  -- binds stays bound to a key of the same algorithm, of the same bytes or of the same curve point.
  pub registry-Binds :
      (id : Text) (e : RegisteredKey) (g g' : Registry)
      → Becomes g g'
      → lookup id g.keys ≡ some e
      → Binds e id g'.keys
  registry-Binds id e g g' unchanged found = binds e found (refl, refl)
  registry-Binds id e g g' (then_step {g1 = g1} before step) found =
      Step-Binds e id g1 g' step (registry-Binds id e g g1 before found)

  -- Revocation is forward-only: whatever is registered, loaded and revoked, a revoked id stays revoked.
  pub registry-revoked :
      (id : Text) (g g' : Registry)
      → Becomes g g'
      → is_revoked g id ≡ true
      → is_revoked g' id ≡ true
  registry-revoked id g g' unchanged h = h
  registry-revoked id g g' (then_step {g1 = g1} before step) h =
      Step-revoked id g1 g' step (registry-revoked id g g1 before h)
