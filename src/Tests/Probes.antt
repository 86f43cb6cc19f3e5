-- ===== src/Tests/Probes.antt =====
-- The theorems about the probes, on one cluster that is registered and on a pass that never ends.
use k2a_token_sync.Health.History.{
  Report, started, ended, poll_completed, state_after, last_progress, in_flight_since,
  is_live-history,
}
use k2a_token_sync.Base.{String, List, some, ◌≡◌, ◌↔◌, true, false, [], ◌∷◌, arith}
use k2a_token_sync.Base.Int.{pos, ◌-ℤ◌, ◌≤ℤ◌}
use k2a_token_sync.Base.Dict.{Dict}
use k2a_token_sync.Time.{Time, sub}
use k2a_token_sync.Scheduler.{ClusterState}
use k2a_token_sync.Scheduler.Report.{publish}
use k2a_token_sync.Scheduler.Report.Laws.{AllSynced, publish-ready}
use k2a_token_sync.Health.{
  HealthState, new_health_state, is_live, is_ready, record_poll, pass_started,
}
use k2a_token_sync.Health.Laws.{here, polled, wedged-not_live}
use k2a_token_sync.Tests.Conditions.{conditions}
use k2a_token_sync.Tests.Data.{east, state_of, noon, ten_minutes_later}

abbrev one_pass_since_noon : HealthState
one_pass_since_noon = pass_started "east" noon (new_health_state noon)

-- A poll completed at noon, when a pass for east began; one for west has ended.
abbrev reported : List Report
reported = started "east" noon ∷ ended "west" ∷ poll_completed noon ∷ started "west" noon ∷ []

is_live-history_example : (is_live ten_minutes_later (state_after noon reported) ≡ true) ↔ (
    (sub ten_minutes_later (last_progress noon reported) ≤ℤ pos 300000000000)
    × ((k : String) (t : Time)
        → in_flight_since k reported ≡ some t
        → sub ten_minutes_later t ≤ℤ pos 360000000000))
is_live-history_example = is_live-history noon ten_minutes_later reported

-- The polls go on, and the pass does not end.
wedged-not_live_example :
    is_live ten_minutes_later (record_poll ten_minutes_later one_pass_since_noon) ≡ false
unfolding sub ◌-ℤ◌
wedged-not_live_example =
    wedged-not_live "east" noon ten_minutes_later (new_health_state noon)
      (record_poll ten_minutes_later one_pass_since_noon) (polled here ten_minutes_later)
      (omega arith)

abbrev just_east : Dict ClusterState
just_east = ("east", state_of east) ∷ []

publish-ready_example :
    (is_ready (publish conditions noon just_east (new_health_state noon)) ≡ true)
    ↔ AllSynced conditions just_east
publish-ready_example = publish-ready conditions noon just_east (new_health_state noon)
