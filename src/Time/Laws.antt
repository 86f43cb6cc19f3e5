-- ===== src/Time/Laws.antt =====
-- Laws of instants and durations, through the two parts of an integer.
use k2a_token_sync.Base.{◌+◌, ◌≡◌, arith}
use k2a_token_sync.Base.Int.{
  ℤ, pos, pos_part, neg_part, ◌≤ℤ◌, ◌<ℤ◌, ◌-ℤ◌, ◌+ℤ◌, +ℤ-parts, -ℤ-parts, int_laws, quot_ℤ,
  quot-parts, parts_exclusive,
}
use k2a_token_sync.Time.{Time, Duration, int64, sub, add, min_duration, max_duration}

-- An int64 keeps a value in its range.
pub int64-eq : (x : ℤ) → min_duration ≤ℤ x → x ≤ℤ max_duration → int64 x ≡ x
unfolding int64
int64-eq x lo hi = ground arith

-- A difference always fits a Duration.
pub sub-ge-min : (t u : Time) → min_duration ≤ℤ sub t u
unfolding sub
sub-ge-min t u = ground arith

pub sub-le-max : (t u : Time) → sub t u ≤ℤ max_duration
unfolding sub
sub-le-max t u = ground arith

-- Within the range of a Duration the difference is exact.
pub sub-eq : (t u : Time) → min_duration ≤ℤ (t -ℤ u) → (t -ℤ u) ≤ℤ max_duration → sub t u ≡ t -ℤ u
unfolding sub
sub-eq t u lo hi = ground arith

pub add-parts :
    (t : Time) (d : Duration)
    → pos_part (add t d) + neg_part t + neg_part d ≡ neg_part (add t d) + pos_part t + pos_part d
unfolding add
add-parts t d = +ℤ-parts t d

minus_self : (t : Time) → t -ℤ t ≡ pos 0
unfolding ◌-ℤ◌
minus_self t = ground arith

pub sub_self : (t : Time) → sub t t ≡ pos 0
unfolding sub
sub_self t = rw (minus_self t)

pub sub-ge-two : (t u : Time) → (u +ℤ pos 2) ≤ℤ t → pos 2 ≤ℤ sub t u
unfolding sub
sub-ge-two t u h = ground (arith, -ℤ-parts t u, +ℤ-parts u (pos 2), parts_exclusive (t -ℤ u))

-- Before the middle of a span at least half of it is left.
pub half_left :
    (i e n : Time) → i ≤ℤ e → n <ℤ add i (quot_ℤ (e -ℤ i) 2) → e -ℤ i ≤ℤ (e -ℤ n) +ℤ (e -ℤ n)
half_left i e n order h =
    omega (
      int_laws,
      h,
      add-parts i (quot_ℤ (e -ℤ i) 2),
      quot-parts (e -ℤ i) 2,
      parts_exclusive (e -ℤ i),
    )
