-- ===== src/Base/Regex.antt =====
-- JavaScript's regular expressions, as far as the program's patterns use them: character classes,
-- sequence, choice and repetition, matched against the whole string (`^…$`) by derivatives.
pub mod Laws
use Prim.Native.Nat.{ℕ, zero, suc}
use mathlib.Core.Bool.{Bool, true, false, ◌&&◌, ◌||◌}
use mathlib.Core.List.{[], ◌∷◌}
use Prim.Native.String.{String}
use auditable_mcp_sdk_ts.Base.Tests.{leb, ◌==◌, if◌then◌else◌}
use auditable_mcp_sdk_ts.Base.Strings.{Text, lit}

pub data Regex : Type 0 where
  never : Regex
  empty : Regex
  class : (ℕ → Bool) → Regex
  seq : Regex → Regex → Regex
  choice : Regex → Regex → Regex
  star : Regex → Regex

unfoldable pub nullable : Regex → Bool
nullable never = false
nullable empty = true
nullable (class f) = false
nullable (seq r s) = nullable r && nullable s
nullable (choice r s) = nullable r || nullable s
nullable (star r) = true

-- What may follow once the unit `c` has been read.
unfoldable pub derive : ℕ → Regex → Regex
unfolding nullable
derive c never = never
derive c empty = never
derive c (class f) = if f c then empty else never
derive c (seq r s) =
    let left = seq (derive c r) s in
    let both = choice left (derive c s) in if nullable r then both else left
derive c (choice r s) = choice (derive c r) (derive c s)
derive c (star r) = seq (derive c r) (star r)

unfoldable pub matches : Regex → Text → Bool
unfolding derive
matches r [] = nullable r
matches r (c ∷ cs) = matches (derive c r) cs

-- `[a-b]`
abbrev pub range : ℕ → ℕ → Regex
range a b = class (λ c. leb a c && leb c b)

abbrev pub one_of : Text → ℕ → Bool
one_of [] c = false
one_of (u ∷ us) c = u == c || one_of us c

-- `[abc]`
abbrev pub chars : String → Regex
chars s = class (one_of (lit s))

abbrev word_from : Text → Regex
word_from [] = empty
word_from (u ∷ us) = seq (class (λ c. u == c)) (word_from us)

-- A literal.
abbrev pub word : String → Regex
word s = word_from (lit s)

-- `r{n}`
abbrev pub times : ℕ → Regex → Regex
times zero r = empty
times (suc n) r = seq r (times n r)

-- `r+`, `r?`
abbrev pub plus : Regex → Regex
plus r = seq r (star r)

abbrev pub maybe : Regex → Regex
maybe r = choice r empty

infixr 40 ◌then◌
infixr 30 ◌or◌
abbrev pub ◌then◌ : Regex → Regex → Regex
r then s = seq r s

abbrev pub ◌or◌ : Regex → Regex → Regex
r or s = choice r s
