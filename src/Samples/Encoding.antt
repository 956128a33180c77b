-- ===== src/Samples/Encoding.antt =====
-- An injective serialization of JSON values, with the text that follows as an argument.
use auditable_mcp_sdk_ts.Base.{ℕ, true, false, ◌≡◌, refl, [], ◌∷◌, ◌++◌, Text, length, arith}
use auditable_mcp_sdk_ts.Json.{
  pos, negsuc, Number, integer, fraction, infinite, nan, Value, null, bool, num, bigint, str, arr,
  obj, Items, nil, cons, Members, end, member,
}

unfoldable pub number_tag : Number → Text
number_tag (integer (pos n)) = 0 ∷ n ∷ []
number_tag (integer (negsuc n)) = 1 ∷ n ∷ []
number_tag (fraction n) = 2 ∷ n ∷ []
number_tag (infinite true) = 3 ∷ 1 ∷ []
number_tag (infinite false) = 3 ∷ 0 ∷ []
number_tag nan = 4 ∷ 0 ∷ []

number_tag-inj :
    (m n : Number) (r s : Text) → number_tag m ++ r ≡ number_tag n ++ s → (m ≡ n) × (r ≡ s)
unfolding number_tag
number_tag-inj m n r s e = ground arith

unfoldable pub encode_text : Text → Text → Text
encode_text s r = length s ∷ (s ++ r)

append_cancel : (s t r q : Text) → length s ≡ length t → s ++ r ≡ t ++ q → (s ≡ t) × (r ≡ q)
append_cancel [] [] r q n e = (refl, e)
append_cancel [] (x ∷ t) r q n e = absurd (omega arith)
append_cancel (x ∷ s) [] r q n e = absurd (omega arith)
append_cancel (x ∷ s) (y ∷ t) r q n e = ground (arith, append_cancel s t r q)

encode_text-inj : (s t r q : Text) → encode_text s r ≡ encode_text t q → (s ≡ t) × (r ≡ q)
unfolding encode_text
encode_text-inj s t r q e = ground (arith, append_cancel s t r q)

unfoldable mutual
  unfolding encode_text number_tag

  pub encode : Value → Text → Text
  encode null r = 0 ∷ r
  encode (bool true) r = 1 ∷ r
  encode (bool false) r = 2 ∷ r
  encode (num n) r = 3 ∷ (number_tag n ++ r)
  encode (bigint (pos n)) r = 4 ∷ n ∷ r
  encode (bigint (negsuc n)) r = 5 ∷ n ∷ r
  encode (str s) r = 6 ∷ encode_text s r
  encode (arr xs) r = 7 ∷ encode_items xs r
  encode (obj ms) r = 8 ∷ encode_members ms r

  pub encode_items : Items → Text → Text
  encode_items nil r = 0 ∷ r
  encode_items (cons v xs) r = 1 ∷ encode v (encode_items xs r)

  pub encode_members : Members → Text → Text
  encode_members end r = 0 ∷ r
  encode_members (member k v ms) r = 1 ∷ encode_text k (encode v (encode_members ms r))

heads : {m n : ℕ} {r s : Text} → m ∷ r ≡ n ∷ s → (m ≡ n) × (r ≡ s)
heads e = (cc, cc)

mutual
  unfolding encode

  inj : (v w : Value) (r s : Text) → encode v r ≡ encode w s → (v ≡ w) × (r ≡ s)
  inj null null r s e = ground arith
  inj (bool a) (bool b) r s e = ground arith
  inj (num m) (num n) r s e = ground (arith, number_tag-inj m n r s)
  inj (bigint m) (bigint n) r s e = ground arith
  inj (str t) (str u) r s e = ground (arith, encode_text-inj t u r s)
  inj (arr xs) (arr ys) r s e = ground (arith, inj_items xs ys r s)
  inj (obj ms) (obj ns) r s e = ground (arith, inj_members ms ns r s)
  inj v w r s e = ground arith

  inj_items :
      (xs ys : Items) (r s : Text) → encode_items xs r ≡ encode_items ys s → (xs ≡ ys) × (r ≡ s)
  inj_items nil nil r s e = ground arith
  inj_items (cons v xs) (cons w ys) r s e =
      ground (arith, inj v w (encode_items xs r) (encode_items ys s), inj_items xs ys r s)
  inj_items xs ys r s e = ground arith

  inj_members :
      (ms ns : Members) (r s : Text)
      → encode_members ms r ≡ encode_members ns s
      → (ms ≡ ns) × (r ≡ s)
  inj_members end end r s e = ground arith
  inj_members (member k v ms) (member j w ns) r s e = ground (
    arith,
    encode_text-inj k j (encode v (encode_members ms r)) (encode w (encode_members ns s)),
    inj v w (encode_members ms r) (encode_members ns s),
    inj_members ms ns r s,
  )
  inj_members ms ns r s e = ground arith

pub encode-inj : (v w : Value) → encode v [] ≡ encode w [] → v ≡ w
encode-inj v w e = (inj v w [] [] e).0
