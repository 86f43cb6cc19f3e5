-- ===== src/Scheduler/Pass/Margin.antt =====
-- How soon a cluster whose pass succeeded is looked at again.
use k2a_token_sync.Base.{◌≡◌, true, false, arith}
use k2a_token_sync.Base.Int.{ℤ, pos, ◌≤ℤ◌, ◌-ℤ◌, ◌+ℤ◌, ◌<ℤ◌, mul_ℤ, int_laws}
use k2a_token_sync.Time.{Time, is_zero, time_or_zero, sub, add, after}
use k2a_token_sync.Time.Laws.{add-parts}
use k2a_token_sync.Api.{ClusterConnectionStatus}
use k2a_token_sync.Scheduler.{ClusterState, due_slack}
use k2a_token_sync.Scheduler.Interval.{next_interval, next_interval_margin, due_after_pass}
use k2a_token_sync.Scheduler.Poll.{is_due, blocked_reason}
use k2a_token_sync.Scheduler.Pass.{record_pass, release_cluster}

doubled-sum : (d left : ℤ) → mul_ℤ d 2 ≤ℤ left → d +ℤ d ≤ℤ left
unfolding ◌+ℤ◌
doubled-sum d left h = ground arith

after-lt : (t u : Time) → after t u ≡ true → u <ℤ t
after-lt t u h = ground arith

module _ (started_at ended : Time) (status : ClusterConnectionStatus) (generation : ℤ)
    (st : ClusterState) where
  -- The state once a pass that succeeded has ended.
  abbrev pub succeeded : ClusterState
  succeeded = release_cluster (record_pass started_at ended status false generation st)

  not_due-late :
      (skipped : Time)
      → st.rerun_after_pass ≡ false
      → blocked_reason st ≡ ""
      → is_due (add skipped due_slack) succeeded ≡ false
      → after (add started_at (next_interval status started_at)) (add skipped due_slack) ≡ true
  unfolding is_due blocked_reason record_pass release_cluster due_after_pass
  not_due-late skipped fresh free h = ground arith

  -- A pass succeeds with a known expiry, at least two minutes of the token left at its start,
  -- nothing blocking the cluster and no rerun asked for. Where a poll then finds the cluster not
  -- due, the next poll, if it comes within 30 seconds, comes no later than when half of what was
  -- left, and 15 seconds, have gone since the start of the pass.
  pub next_look_margin :
      (skipped next : Time)
      → st.rerun_after_pass ≡ false
      → blocked_reason st ≡ ""
      → is_zero (time_or_zero status.token_expires_at) ≡ false
      → pos 120000000000 ≤ℤ sub (time_or_zero status.token_expires_at) started_at
      → is_due (add skipped due_slack) succeeded ≡ false
      → next ≤ℤ add skipped (pos 30000000000)
      → (next -ℤ started_at) +ℤ (next -ℤ started_at)
        ≤ℤ sub (time_or_zero status.token_expires_at) started_at +ℤ pos 30000000000
  next_look_margin skipped next fresh free known left not_due soon =
      let half = next_interval_margin status started_at known left in
      let late = not_due-late skipped fresh free not_due in
      let interval = next_interval status started_at in
      let twice : interval +ℤ interval ≤ℤ sub (time_or_zero status.token_expires_at) started_at =
        doubled-sum interval _ half in
      omega (
        int_laws,
        twice,
        soon,
        after-lt (add started_at interval) (add skipped due_slack) late,
        add-parts skipped due_slack,
        add-parts skipped (pos 30000000000),
        add-parts started_at interval,
      )
