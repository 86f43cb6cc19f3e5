-- ===== src/Base/Int.antt =====
-- Signed integers over the native numbers, for Go's time.Duration and int64.
use k2a_token_sync.Base.Logic.{ltb, leb, if◌then◌else◌}
use Prim.Native.Nat.{ℕ, suc, ◌+◌, ◌-◌, ◌*◌, ◌/◌, ◌%◌, ◌≤◌, ◌<◌}
use mathlib.Core.Path.{◌≡◌}
use mathlib.Core.Logic.{◌⊎◌}
use mathlib.Core.Bool.{Bool, false}
use native.Mathlib.Omega.{arith}

-- `negsuc n` stands for -(n + 1).
pub data ℤ : Type 0 where
  pos : ℕ → ℤ
  negsuc : ℕ → ℤ

abbrev pub pos_part : ℤ → ℕ
pos_part (pos n) = n
pos_part (negsuc _) = 0

abbrev pub neg_part : ℤ → ℕ
neg_part (pos _) = 0
neg_part (negsuc n) = suc n

-- The integer m - n.
abbrev pub diff : ℕ → ℕ → ℤ
diff m n = if leb n m then pos (m - n) else negsuc (n - m - 1)

infixl 65 ◌+ℤ◌ ◌-ℤ◌
infix 50 ◌≤ℤ◌ ◌<ℤ◌
unfoldable pub ◌+ℤ◌ : ℤ → ℤ → ℤ
x +ℤ y = diff (pos_part x + pos_part y) (neg_part x + neg_part y)

unfoldable pub ◌-ℤ◌ : ℤ → ℤ → ℤ
x -ℤ y = diff (pos_part x + neg_part y) (neg_part x + pos_part y)

abbrev pub ◌≤ℤ◌ : ℤ → ℤ → Type 0
x ≤ℤ y = pos_part x + neg_part y ≤ pos_part y + neg_part x

abbrev pub ◌<ℤ◌ : ℤ → ℤ → Type 0
x <ℤ y = pos_part x + neg_part y < pos_part y + neg_part x

abbrev pub ltb_ℤ : ℤ → ℤ → Bool
ltb_ℤ x y = ltb (pos_part x + neg_part y) (pos_part y + neg_part x)

abbrev pub leb_ℤ : ℤ → ℤ → Bool
leb_ℤ x y = leb (pos_part x + neg_part y) (pos_part y + neg_part x)

abbrev pub eqb_ℤ : ℤ → ℤ → Bool
eqb_ℤ x y = if leb_ℤ x y then leb_ℤ y x else false

-- Go's builtins min and max.
abbrev pub min_ℤ : ℤ → ℤ → ℤ
min_ℤ x y = if ltb_ℤ y x then y else x

abbrev pub max_ℤ : ℤ → ℤ → ℤ
max_ℤ x y = if ltb_ℤ x y then y else x

-- Go's `/` on integers rounds towards zero.
abbrev pub quot_ℤ : ℤ → ℕ → ℤ
quot_ℤ (pos n) d = pos (n / d)
quot_ℤ (negsuc n) d = diff 0 (suc n / d)

abbrev pub mul_ℤ : ℤ → ℕ → ℤ
mul_ℤ (pos n) k = pos (n * k)
mul_ℤ (negsuc n) k = diff 0 (suc n * k)

pub +ℤ-parts :
    (x y : ℤ)
    → pos_part (x +ℤ y) + neg_part x + neg_part y ≡ neg_part (x +ℤ y) + pos_part x + pos_part y
unfolding ◌+ℤ◌
+ℤ-parts x y = ground arith

pub -ℤ-parts :
    (x y : ℤ)
    → pos_part (x -ℤ y) + neg_part x + pos_part y ≡ neg_part (x -ℤ y) + pos_part x + neg_part y
unfolding ◌-ℤ◌
-ℤ-parts x y = ground arith

pub ruleset int_laws = (arith, +ℤ-parts, -ℤ-parts)

pub eq_of_parts : (x y : ℤ) → pos_part x + neg_part y ≡ pos_part y + neg_part x → x ≡ y
eq_of_parts x y h = ground arith

-- One of the two parts is zero.
pub parts_exclusive : (x : ℤ) → (pos_part x ≡ 0) ⊎ (neg_part x ≡ 0)
parts_exclusive x = ground arith

-- Halving, towards zero, halves each part.
pub quot-parts :
    (x : ℤ) (d : ℕ)
    → (pos_part (quot_ℤ x d) ≡ pos_part x / d) × (neg_part (quot_ℤ x d) ≡ neg_part x / d)
quot-parts (pos n) d = ground arith
quot-parts (negsuc n) d = ground arith

-- The value that an int32 keeps of an integer.
unfoldable pub int32 : ℤ → ℤ
int32 x =
    diff ((pos_part x + 2147483648 + (4294967296 - neg_part x % 4294967296)) % 4294967296)
      2147483648
