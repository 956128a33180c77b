-- ===== src/Crypto/Base64/Laws.antt =====
-- base64url of src/crypto/base64.ts: decoding undoes encoding, and nothing else decodes.
use auditable_mcp_sdk_ts.Base.{
  ℕ, zero, suc, ◌+◌, ◌-◌, ◌*◌, ◌/◌, ◌%◌, ◌<◌, ◌≡◌, refl, sym, ap, ◌∙◌, arith, Bool, true, false,
  Option, none, some, List, [], ◌∷◌, ◌++◌, map, Text, same_text, same_text_iff, length, ◌==◌, not,
  ◌||◌, if◌then◌else◌,
}
use auditable_mcp_sdk_ts.Json.{str}
use auditable_mcp_sdk_ts.Crypto.Base64.{
  character, sextet, bytes_to_base64, sextets, from_sextets, without_padding, atob, all_of,
  url_character, to_url, from_url, bytes_to_base64url, padding, padded, base64url_to_bytes, prepend,
  decoded, read_sextet, same_encoding,
}

-- Every number of a list is below a bound.
pub data AllBelow (bound : ℕ) : List ℕ → Type 0 where
  none_below : AllBelow bound []
  also_below : {n : ℕ} {ns : List ℕ} → n < bound → AllBelow bound ns → AllBelow bound (n ∷ ns)

-- The groups of six bits that three bytes make.
abbrev six : List ℕ → List ℕ
six [] = []
six (a ∷ []) = (a / 4) ∷ ((a % 4) * 16) ∷ []
six (a ∷ b ∷ []) = (a / 4) ∷ ((a % 4) * 16 + b / 16) ∷ ((b % 16) * 4) ∷ []
six (a ∷ b ∷ c ∷ rest) =
    (a / 4) ∷ ((a % 4) * 16 + b / 16) ∷ ((b % 16) * 4 + c / 64) ∷ (c % 64) ∷ six rest

six-below : (bytes : List ℕ) → AllBelow 256 bytes → AllBelow 64 (six bytes)
six-below [] below = none_below
six-below (a ∷ []) (also_below x none_below) =
    also_below (omega arith) (also_below (omega arith) none_below)
six-below (a ∷ b ∷ []) (also_below x (also_below y none_below)) =
    also_below (omega arith) (also_below (omega arith) (also_below (omega arith) none_below))
six-below (a ∷ b ∷ c ∷ rest) (also_below x (also_below y (also_below z below))) =
    also_below (omega arith) (
      also_below (omega arith)
        (also_below (omega arith) (also_below (omega arith) (six-below rest below))))

from_sextets-six : (bytes : List ℕ) → AllBelow 256 bytes → from_sextets (six bytes) ≡ some bytes
unfolding from_sextets
from_sextets-six [] below = refl
from_sextets-six (a ∷ []) (also_below x none_below) =
    let e : (a / 4) * 4 + ((a % 4) * 16) / 16 ≡ a = omega arith in ap (λ u. some (u ∷ [])) e
from_sextets-six (a ∷ b ∷ []) (also_below x (also_below y none_below)) =
    let e : (a / 4) * 4 + ((a % 4) * 16 + b / 16) / 16 ≡ a = omega arith in
    let f : (((a % 4) * 16 + b / 16) % 16) * 16 + ((b % 16) * 4) / 4 ≡ b = omega arith in
    λ i. some (e i ∷ f i ∷ [])
from_sextets-six (a ∷ b ∷ c ∷ rest) (also_below x (also_below y (also_below z below))) =
    let e : (a / 4) * 4 + ((a % 4) * 16 + b / 16) / 16 ≡ a = omega arith in
    let f : (((a % 4) * 16 + b / 16) % 16) * 16 + ((b % 16) * 4 + c / 64) / 4 ≡ b = omega arith in
    let g : (((b % 16) * 4 + c / 64) % 4) * 64 + c % 64 ≡ c = omega arith in
    let r = from_sextets-six rest below in λ i. prepend (e i) (prepend (f i) (prepend (g i) (r i)))

sextet-character : (n : ℕ) → n < 64 → sextet (character n) ≡ some n
unfolding sextet character
sextet-character n below = ground arith

sextets-cons :
    (c : ℕ) (cs : Text) {n : ℕ} {ns : List ℕ}
    → sextet c ≡ some n
    → sextets cs ≡ some ns
    → sextets (c ∷ cs) ≡ some (n ∷ ns)
unfolding sextets
sextets-cons c cs e f = λ i. read_sextet (e i) (f i)

sextets-character : (ns : List ℕ) → AllBelow 64 ns → sextets (map character ns) ≡ some ns
unfolding sextets
sextets-character [] below = refl
sextets-character (n ∷ ns) (also_below x below) =
    sextets-cons (character n) (map character ns) (sextet-character n x)
      (sextets-character ns below)

abbrev url : ℕ → ℕ
url n = to_url (character n)

from_url-url : (n : ℕ) → n < 64 → from_url (url n) ≡ character n
unfolding from_url to_url character
from_url-url n below = ground arith

url-url_character : (n : ℕ) → n < 64 → url_character (url n) ≡ true
unfolding url_character to_url character
url-url_character n below = ground arith

character-ne : (n : ℕ) → n < 64 → (character n == b'=') ≡ false
unfolding character
character-ne n below = ground arith

url-ne : (n : ℕ) → n < 64 → (url n == b'=') ≡ false
unfolding to_url character
url-ne n below = ground arith

map-append : (f : ℕ → ℕ) (xs ys : Text) → map f (xs ++ ys) ≡ map f xs ++ map f ys
map-append f [] ys = refl
map-append f (x ∷ xs) ys = ap (λ r. f x ∷ r) (map-append f xs ys)

-- What a group leaves to be padded.
abbrev missing : List ℕ → ℕ
missing [] = 0
missing (a ∷ []) = 2
missing (a ∷ b ∷ []) = 1
missing (a ∷ b ∷ c ∷ rest) = missing rest

bytes_to_base64-six :
    (bytes : List ℕ) → bytes_to_base64 bytes ≡ map character (six bytes) ++ padding (missing bytes)
unfolding bytes_to_base64
bytes_to_base64-six [] = refl
bytes_to_base64-six (a ∷ []) = refl
bytes_to_base64-six (a ∷ b ∷ []) = refl
bytes_to_base64-six (a ∷ b ∷ c ∷ rest) =
    ap
      (λ r.
        character (a / 4)
        ∷ character ((a % 4) * 16 + b / 16)
        ∷ character ((b % 16) * 4 + c / 64)
        ∷ character (c % 64)
        ∷ r)
      (bytes_to_base64-six rest)

without_padding-padding : (k : ℕ) → without_padding (padding k) ≡ []
unfolding without_padding
without_padding-padding zero = refl
without_padding-padding (suc k) = rw (without_padding-padding k) refl

without_padding-cons :
    (c : ℕ) (cs : Text) → (c == b'=') ≡ false → without_padding (c ∷ cs) ≡ c ∷ without_padding cs
unfolding without_padding
without_padding-cons c cs ne = rw ne refl

module _ (f : ℕ → ℕ) (ne : (n : ℕ) → n < 64 → (f n == b'=') ≡ false) where
  without_padding-map :
      (ns : List ℕ) (k : ℕ) → AllBelow 64 ns → without_padding (map f ns ++ padding k) ≡ map f ns
  without_padding-map [] k below = without_padding-padding k
  without_padding-map (n ∷ ns) k (also_below x below) =
      without_padding-cons (f n) (map f ns ++ padding k) (ne n x)
      ∙ ap (λ r. f n ∷ r) (without_padding-map ns k below)

map-to_url : (ns : List ℕ) → map to_url (map character ns) ≡ map url ns
map-to_url [] = refl
map-to_url (n ∷ ns) = ap (λ r. url n ∷ r) (map-to_url ns)

map-to_url-padding : (k : ℕ) → map to_url (padding k) ≡ padding k
unfolding to_url
map-to_url-padding zero = refl
map-to_url-padding (suc k) = ap (λ r. b'=' ∷ r) (map-to_url-padding k)

map-from_url : (ns : List ℕ) → AllBelow 64 ns → map from_url (map url ns) ≡ map character ns
map-from_url [] below = refl
map-from_url (n ∷ ns) (also_below x below) = λ i. from_url-url n x i ∷ map-from_url ns below i

-- The encoding is one character of the alphabet for each group of six bits.
bytes_to_base64url-six :
    (bytes : List ℕ) → AllBelow 256 bytes → bytes_to_base64url bytes ≡ map url (six bytes)
unfolding bytes_to_base64url
bytes_to_base64url-six bytes below =
    let k = missing bytes in
    ap (λ t. without_padding (map to_url t)) (bytes_to_base64-six bytes)
    ∙ ap without_padding (
        map-append to_url (map character (six bytes)) (padding k)
        ∙ (λ i. map-to_url (six bytes) i ++ map-to_url-padding k i))
    ∙ without_padding-map url url-ne (six bytes) k (six-below bytes below)

all_of-url : (ns : List ℕ) → AllBelow 64 ns → all_of url_character (map url ns) ≡ true
unfolding all_of
all_of-url [] below = refl
all_of-url (n ∷ ns) (also_below x below) = rw (url-url_character n x) (all_of-url ns below)

length-url-six : (bytes : List ℕ) → (length (map url (six bytes)) % 4 == 1) ≡ false
length-url-six [] = refl
length-url-six (a ∷ []) = refl
length-url-six (a ∷ b ∷ []) = refl
length-url-six (a ∷ b ∷ c ∷ rest) = ground (arith, length-url-six rest)

atob-url : (bytes : List ℕ) → AllBelow 256 bytes → atob (padded (map url (six bytes))) ≡ some bytes
unfolding atob padded
atob-url bytes below =
    let ns = six bytes in
    let small = six-below bytes below in
    let k = (4 - length (map url ns) % 4) % 4 in
    ap (λ t. decoded (sextets (without_padding (t ++ padding k)))) (map-from_url ns small)
    ∙ ap (λ t. decoded (sextets t)) (without_padding-map character character-ne ns k small)
    ∙ ap decoded (sextets-character ns small)
    ∙ from_sextets-six bytes below

decoded-url :
    (text : Text) {bytes : List ℕ}
    → all_of url_character text ≡ true
    → (length text % 4 == 1) ≡ false
    → atob (padded text) ≡ some bytes
    → same_text (bytes_to_base64url bytes) text ≡ true
    → base64url_to_bytes (str text) ≡ some bytes
unfolding base64url_to_bytes
decoded-url text legal whole raw same = rw (legal, whole, raw, same) refl

-- Decoding an encoding gives the bytes back, for every sequence of bytes.
pub base64url_to_bytes-bytes_to_base64url :
    (bytes : List ℕ)
    → AllBelow 256 bytes
    → base64url_to_bytes (str (bytes_to_base64url bytes)) ≡ some bytes
base64url_to_bytes-bytes_to_base64url bytes below =
    let e = bytes_to_base64url-six bytes below in
    let small = six-below bytes below in
    rw e (
      decoded-url (map url (six bytes)) (all_of-url (six bytes) small) (length-url-six bytes)
        (atob-url bytes below)
        ((same_text_iff (bytes_to_base64url bytes) (map url (six bytes))).1 e))

guarded :
    (refused : Bool) (text : Text) (raw : Option (List ℕ)) {bytes : List ℕ}
    → (if refused then none else same_encoding text raw) ≡ some bytes
    → text ≡ bytes_to_base64url bytes
guarded true text raw q = absurd cc
guarded false text none q = absurd cc
guarded false text (some raw) {bytes} q =
    ground (arith, same_text_iff (bytes_to_base64url raw) text)

-- A text that decodes is the encoding of what it decodes to, so that no two texts are one sequence of
-- bytes.
pub base64url_to_bytes-strict :
    (text : Text) {bytes : List ℕ}
    → base64url_to_bytes (str text) ≡ some bytes
    → text ≡ bytes_to_base64url bytes
unfolding base64url_to_bytes
base64url_to_bytes-strict text {bytes} q =
    guarded (not (all_of url_character text) || (length text % 4 == 1)) text (atob (padded text)) q

pub all_of-bytes_to_base64url :
    (bytes : List ℕ) → AllBelow 256 bytes → all_of url_character (bytes_to_base64url bytes) ≡ true
all_of-bytes_to_base64url bytes below =
    rw (bytes_to_base64url-six bytes below) (all_of-url (six bytes) (six-below bytes below))

length-map-url : (bytes : List ℕ) → length (map url (six bytes)) ≡ (4 * length bytes + 2) / 3
length-map-url [] = omega arith
length-map-url (a ∷ []) = omega arith
length-map-url (a ∷ b ∷ []) = omega arith
length-map-url (a ∷ b ∷ c ∷ rest) = omega (arith, length-map-url rest)

-- The encoding of `n` bytes has as many characters as `n` bytes have groups of six bits, the last one
-- filled up.
pub length-bytes_to_base64url :
    (bytes : List ℕ)
    → AllBelow 256 bytes
    → length (bytes_to_base64url bytes) ≡ (4 * length bytes + 2) / 3
length-bytes_to_base64url bytes below =
    rw (bytes_to_base64url-six bytes below) (length-map-url bytes)

pub bytes_to_base64url_inj :
    (xs ys : List ℕ)
    → AllBelow 256 xs
    → AllBelow 256 ys
    → bytes_to_base64url xs ≡ bytes_to_base64url ys
    → xs ≡ ys
bytes_to_base64url_inj xs ys bx by e =
    let x = base64url_to_bytes-bytes_to_base64url xs bx in
    let y = base64url_to_bytes-bytes_to_base64url ys by in
    let z : some xs ≡ some ys = sym x ∙ ap (λ t. base64url_to_bytes (str t)) e ∙ y in
    ground (arith, z)
