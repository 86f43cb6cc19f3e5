-- ===== src/Scheduler/Interval.antt =====
-- When a cluster whose pass succeeded is due again: nextInterval and dueAfterPass.
use k2a_token_sync.Base.{false, ◌≡◌, if◌then◌else◌, arith}
use k2a_token_sync.Base.Int.{quot_ℤ, min_ℤ, max_ℤ, ◌≤ℤ◌, mul_ℤ}
use k2a_token_sync.Time.{Time, Duration, is_zero, time_or_zero, sub, add}
use k2a_token_sync.Api.{ClusterConnectionStatus}
use k2a_token_sync.Scheduler.{max_pass_interval, min_pass_interval}

-- nextInterval. A nil pointer and a zero Time are treated alike by the code.
unfoldable pub next_interval : ClusterConnectionStatus → Time → Duration
next_interval status now =
    let expires = time_or_zero status.token_expires_at in
    if is_zero expires
    then max_pass_interval
    else max_ℤ (min_ℤ max_pass_interval (quot_ℤ (sub expires now) 2)) min_pass_interval

-- dueAfterPass
unfoldable pub due_after_pass : Time → ClusterConnectionStatus → Time
unfolding next_interval
due_after_pass started_at status = add started_at (next_interval status started_at)

clamp_bounds :
    (d : Duration)
    → (min_pass_interval ≤ℤ max_ℤ (min_ℤ max_pass_interval d) min_pass_interval)
      × (max_ℤ (min_ℤ max_pass_interval d) min_pass_interval ≤ℤ max_pass_interval)
clamp_bounds d = ground arith

-- A healthy cluster's next interval is between one and five minutes, whatever its token's
-- lifetime.
pub next_interval_bounds :
    (status : ClusterConnectionStatus) (now : Time)
    → (min_pass_interval ≤ℤ next_interval status now)
      × (next_interval status now ≤ℤ max_pass_interval)
unfolding next_interval
next_interval_bounds status now =
    ground (arith, clamp_bounds (quot_ℤ (sub (time_or_zero status.token_expires_at) now) 2))

clamp_margin :
    (d : Duration)
    → mul_ℤ min_pass_interval 2 ≤ℤ d
    → mul_ℤ (max_ℤ (min_ℤ max_pass_interval (quot_ℤ d 2)) min_pass_interval) 2 ≤ℤ d
clamp_margin d h = ground arith

-- With a known expiry and at least two minutes of the token left, the next interval is at most half
-- of what is left.
pub next_interval_margin :
    (status : ClusterConnectionStatus) (now : Time)
    → is_zero (time_or_zero status.token_expires_at) ≡ false
    → mul_ℤ min_pass_interval 2 ≤ℤ sub (time_or_zero status.token_expires_at) now
    → mul_ℤ (next_interval status now) 2 ≤ℤ sub (time_or_zero status.token_expires_at) now
unfolding next_interval
next_interval_margin status now known left =
    rw known (clamp_margin (sub (time_or_zero status.token_expires_at) now) left)
