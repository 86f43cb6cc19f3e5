-- ===== src/Time.antt =====
-- Go's package `time` as far as the program uses it. An instant is the number of nanoseconds
-- since the zero Time (1 January of year 1, UTC), a duration a signed number of nanoseconds.
-- Duration is an int64: `sub` saturates as Time.Sub does, and arithmetic on durations wraps.
-- Instants themselves, whose range is hundreds of billions of years, are unbounded.
pub mod Laws
use k2a_token_sync.Base.{ℕ, ◌+◌, ◌-◌, ◌*◌, ◌%◌, ◌^◌, Bool, not, if◌then◌else◌, Option, none, some}
use k2a_token_sync.Base.Int.{
  ℤ, pos, negsuc, pos_part, neg_part, diff, ◌+ℤ◌, ◌-ℤ◌, ltb_ℤ, leb_ℤ, eqb_ℤ,
}

abbrev pub Time : Type 0
Time = ℤ

abbrev pub Duration : Type 0
Duration = ℤ

abbrev pub max_duration : Duration
max_duration = pos 9223372036854775807

abbrev pub min_duration : Duration
min_duration = negsuc 9223372036854775807

-- The value that an int64 keeps of an integer.
unfoldable pub int64 : ℤ → ℤ
int64 x =
    diff
      ((pos_part x
          + 9223372036854775808
          + (18446744073709551616 - neg_part x % 18446744073709551616))
        % 18446744073709551616)
      9223372036854775808

abbrev pub zero_time : Time
zero_time = pos 0

-- t.IsZero()
abbrev pub is_zero : Time → Bool
is_zero t = eqb_ℤ t zero_time

-- The instant behind a *metav1.Time, the zero Time where the pointer is nil.
abbrev pub time_or_zero : Option Time → Time
time_or_zero none = zero_time
time_or_zero (some t) = t

-- t.Sub(u)
unfoldable pub sub : Time → Time → Duration
sub t u =
    let d = t -ℤ u in
    if ltb_ℤ d min_duration then min_duration else if ltb_ℤ max_duration d then max_duration else d

-- t.Add(d)
unfoldable pub add : Time → Duration → Time
add t d = t +ℤ d

abbrev pub before : Time → Time → Bool
before t u = ltb_ℤ t u

abbrev pub after : Time → Time → Bool
after t u = ltb_ℤ u t

abbrev pub second : Duration
second = pos 1000000000

abbrev pub minute : Duration
minute = pos 60000000000

abbrev pub hour : Duration
hour = pos 3600000000000
