-- ===== src/Base/Sort.antt =====
-- sort.Strings: the sorted rearrangement, which insertion sort computes.
use Prim.Native.Nat.{ℕ, ◌+◌, Ordering}
use Prim.Native.String.{String, compare}
use mathlib.Core.Path.{◌≡◌, refl}
use mathlib.Core.Bool.{Bool, true, false}
use mathlib.Core.List.{List, [], ◌∷◌}
use native.Mathlib.Omega.{arith}
use k2a_token_sync.Base.Logic.{if◌then◌else◌}
use k2a_token_sync.Base.Text.{◌==◌}

-- s <= t on strings, by bytes
abbrev pub leb_string : String → String → Bool
leb_string s t = elim (compare s t) [ Ordering.gt ↦ false | _ ↦ true ]

unfoldable pub insert_sorted : String → List String → List String
insert_sorted s [] = s ∷ []
insert_sorted s (t ∷ ts) = if leb_string s t then s ∷ t ∷ ts else t ∷ insert_sorted s ts

unfoldable pub sort_strings : List String → List String
unfolding insert_sorted
sort_strings [] = []
sort_strings (s ∷ ss) = insert_sorted s (sort_strings ss)

-- How often a string occurs.
abbrev pub occurrences : String → List String → ℕ
occurrences s [] = 0
occurrences s (t ∷ ts) = (if s == t then 1 else 0) + occurrences s ts

occurrences-insert_sorted :
    (k s : String) (ss : List String)
    → occurrences k (insert_sorted s ss) ≡ (if k == s then 1 else 0) + occurrences k ss
unfolding insert_sorted
occurrences-insert_sorted k s [] = refl
occurrences-insert_sorted k s (t ∷ ts) = ground (arith, occurrences-insert_sorted k s ts)

-- Sorting neither loses nor repeats a string.
pub occurrences-sort :
    (k : String) (ss : List String) → occurrences k (sort_strings ss) ≡ occurrences k ss
unfolding sort_strings
occurrences-sort k [] = refl
occurrences-sort k (s ∷ ss) =
    omega (arith, occurrences-insert_sorted k s (sort_strings ss), occurrences-sort k ss)
