-- ===== src/Base/Text.antt =====
-- Go strings: their equality, and the package `strings` as far as the program calls it.
use Prim.Native.String.{String, ◌++◌ as ◌<>◌}
use mathlib.Core.Logic.{◌≢◌}
use text.Mathlib.TextLemmas.{append-eq-nil_iff}
use mathlib.Core.Logic.{ite, dite}
use mathlib.Core.Bool.{Bool, true, false, Bool-discrete}
use mathlib.Core.List.{List, [], ◌∷◌}
use text.Mathlib.Text
use text.Mathlib.TextEquality.{eq_iff}

-- A test splits into the equation and its negation.
unfoldable pub string_dec : Discrete String
string_dec s t =
    dite (Bool-discrete (Text.◌==◌ s t) true) (λ same. yes ((eq_iff s t).0 same))
      (λ differ. no (λ p. differ ((eq_iff s t).1 p)))

infix 50 ◌==◌
abbrev pub ◌==◌ : String → String → Bool
s == t = ite (string_dec s t) true false

-- strings.Join
unfoldable pub join : String → List String → String
join sep [] = ""
join sep (s ∷ []) = s
join sep (s ∷ t ∷ rest) = s <> sep <> join sep (t ∷ rest)

-- The pieces of a formatted text, one after another.
unfoldable pub concat : List String → String
concat [] = ""
concat (s ∷ rest) = s <> concat rest

-- A text that begins with something is not empty.
pub concat-ne-empty : (s : String) (rest : List String) → s ≢ "" → concat (s ∷ rest) ≢ ""
unfolding concat
concat-ne-empty s rest h e = h (append-eq-nil_iff.0 e).0
