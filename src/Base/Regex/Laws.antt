-- ===== src/Base/Regex/Laws.antt =====
-- What a regular expression built from others matches, in terms of what those match.
use mathlib.Core.Path.{◌≡◌, refl, ◌∙◌}
use mathlib.Core.Bool.{Bool, true, false, ◌&&◌, ◌||◌}
use mathlib.Core.List.{[], ◌∷◌}
use native.Mathlib.Omega.{arith}
use auditable_mcp_sdk_ts.Base.Strings.{Text}
use auditable_mcp_sdk_ts.Base.Tests.{if◌then◌else◌}
use auditable_mcp_sdk_ts.Base.Regex.{Regex, never, empty, seq, choice, nullable, derive, matches}

pub matches-choice :
    (r s : Regex) (t : Text) → matches (choice r s) t ≡ (matches r t || matches s t)
unfolding matches nullable derive
matches-choice r s [] = refl
matches-choice r s (c ∷ cs) = matches-choice (derive c r) (derive c s) cs

pub matches-never : (t : Text) → matches never t ≡ false
unfolding matches nullable derive
matches-never [] = refl
matches-never (c ∷ cs) = matches-never cs

matches-if :
    (b : Bool) (r s : Regex) (t : Text)
    → matches (if b then choice r s else r) t ≡ (matches r t || (b && matches s t))
matches-if true r s t = matches-choice r s t
matches-if false r s t = ground arith

pub matches-seq_never : (s : Regex) (t : Text) → matches (seq never s) t ≡ false
unfolding matches nullable derive
matches-seq_never s [] = refl
matches-seq_never s (c ∷ cs) = matches-seq_never s cs

pub matches-seq_empty : (s : Regex) (t : Text) → matches (seq empty s) t ≡ matches s t
unfolding matches nullable derive
matches-seq_empty s [] = refl
matches-seq_empty s (c ∷ cs) =
    matches-choice (seq never s) (derive c s) cs ∙ rw (matches-seq_never s cs) refl

pub matches-seq_choice :
    (a b s : Regex) (t : Text)
    → matches (seq (choice a b) s) t ≡ (matches (seq a s) t || matches (seq b s) t)
unfolding matches nullable derive
matches-seq_choice a b s [] = ground arith
matches-seq_choice a b s (c ∷ cs) = ground (
  arith,
  matches-seq_choice (derive c a) (derive c b) s cs,
  matches-if (nullable a || nullable b) (seq (choice (derive c a) (derive c b)) s) (derive c s) cs,
  matches-if (nullable a) (seq (derive c a) s) (derive c s) cs,
  matches-if (nullable b) (seq (derive c b) s) (derive c s) cs,
)
