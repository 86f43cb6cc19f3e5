-- ===== src/Tests/Schedule.antt =====
-- The theorems about the schedule, on two connections that are polled, started and reconciled.
use text.Mathlib.TextEquality.{eq_iff}
use k2a_token_sync.Base.{
  ◌≤◌, ◌≡◌, refl, inr, true, false, some, List, [], ◌∷◌, arith, string_dec, contains, is_some,
}
use k2a_token_sync.Base.Int.{◌+ℤ◌, ◌-ℤ◌, pos, ◌≤ℤ◌}
use k2a_token_sync.Base.Dict.{lookup, insert, NodupKeys}
use k2a_token_sync.Time.{Time, time_or_zero, add, sub}
use k2a_token_sync.Api.{ClusterConnectionStatus, empty_status}
use k2a_token_sync.Scheduler.{ClusterState, new_state}
use k2a_token_sync.Scheduler.Pass.Margin.{next_look_margin}
use k2a_token_sync.Scheduler.Poll.{is_due, update_schedule, claim_due}
use k2a_token_sync.Scheduler.Poll.Laws.{
  DistinctNames, find_entry, after_observation, after_departure, lookup-update_schedule,
}
use k2a_token_sync.Scheduler.Pass.{release_cluster, record_pass}
use k2a_token_sync.Scheduler.Pass.Laws.{
  Failure, after_failure, after_failures, doubled, failures-double,
}
use k2a_token_sync.Scheduler.System.{
  writing, System, Input, dispatch, queued, Step, Reach, here, next, poll, start_due, pass, initial,
  advance, replace,
}
use k2a_token_sync.Scheduler.System.Invariant.{in_flight}
use k2a_token_sync.Scheduler.System.Safety.{one_pass, pass-state, running-pass, retry_bounds}
use k2a_token_sync.Tests.Conditions.{conditions}
use k2a_token_sync.Tests.Data.{
  ten_minutes_later, east, west, state_of, noon, minute_later, hour_later,
}

abbrev polled : System
polled = record initial { states = (update_schedule noon (east ∷ west ∷ []) []).0 }

abbrev started : System
started = dispatch noon polled

east-west-DistinctNames : DistinctNames (east ∷ west ∷ [])
east-west-DistinctNames = (ground (arith, eq_iff "east" "west"), (refl, tt))

started-Reach : Reach conditions initial started
started-Reach =
    next (next here (poll noon (east ∷ west ∷ []) east-west-DistinctNames refl))
      (start_due noon refl)

-- The pass for east gets a slot.
abbrev slot_input : Input
slot_input = record { now = noon; cancelled = false; returned = empty_status; failed = false }

abbrev claimed_east : ClusterState
claimed_east = record (state_of east) { running = true }

abbrev in_slot : System
in_slot = record {
  states = insert "east" (advance conditions slot_input queued claimed_east).0 started.states;
  passes =
      replace "east" (advance conditions slot_input queued claimed_east).1
        (record { name = "west"; phase = queued } ∷ []);
}

in_slot-Step : Step conditions started in_slot
unfolding dispatch update_schedule claim_due string_dec lookup insert contains new_state add ◌+ℤ◌
in_slot-Step =
    pass slot_input [] (record { name = "west"; phase = queued } ∷ []) "east" queued claimed_east
      refl refl (inr (omega arith)) refl

in_slot-Reach : Reach conditions initial in_slot
in_slot-Reach = next started-Reach in_slot-Step

one_pass_example : in_flight "east" in_slot.passes ≤ 1
one_pass_example = one_pass conditions in_slot-Reach "east"

pass-state_example :
    (st : ClusterState) × (lookup "west" in_slot.states ≡ some st) × (st.running ≡ true)
unfolding dispatch update_schedule claim_due string_dec lookup insert contains new_state add ◌+ℤ◌
    advance
pass-state_example = pass-state conditions in_slot-Reach "west" (omega arith)

running-pass_example : in_flight "west" in_slot.passes ≡ 1
unfolding dispatch update_schedule claim_due string_dec lookup insert contains new_state add ◌+ℤ◌
    advance
running-pass_example =
    running-pass conditions in_slot-Reach "west" (record (state_of west) { running = true }) refl
      refl

-- West fails a minute after noon.
abbrev failing_west : Input
failing_west = record {
  now = minute_later;
  cancelled = false;
  returned = empty_status;
  failed = true;
}

retry_bounds_example :
    let again =
      (advance conditions failing_west
        (writing noon (pos 1) empty_status empty_status true)
        (record (state_of west) { running = true })).0 in
    (add minute_later (pos 60000000000) ≤ℤ again.due_at)
    × (again.due_at ≤ℤ add minute_later (pos 1800000000000))
unfolding dispatch update_schedule claim_due string_dec lookup insert contains new_state add ◌+ℤ◌
    advance
retry_bounds_example =
    retry_bounds conditions in_slot-Reach "west" (record (state_of west) { running = true }) refl
      refl failing_west noon (pos 1) empty_status empty_status

east_filed-NodupKeys : NodupKeys (("east", claimed_east) ∷ [])
unfolding lookup
east_filed-NodupKeys = (refl, tt)

-- East has left the inventory while its pass runs, and west is new.
lookup-update_schedule_example :
    lookup "east" (update_schedule noon (west ∷ []) (("east", claimed_east) ∷ [])).0
    ≡ after_departure (is_some (find_entry "east" (west ∷ []))) (
        after_observation noon
          (find_entry "east" (west ∷ []))
          (lookup "east" (("east", claimed_east) ∷ [])))
lookup-update_schedule_example =
    lookup-update_schedule noon "east" (west ∷ []) (("east", claimed_east) ∷ []) (refl, tt)
      east_filed-NodupKeys

abbrev half_minute_later : Time
half_minute_later = pos 63900000030000000000

-- A token that expires an hour from now.
abbrev hour_left : ClusterConnectionStatus
hour_left = record empty_status { token_expires_at = some hour_later }

-- The pass for east ended at noon; the next one is due five minutes later.
next_look_margin_example :
    (minute_later -ℤ noon) +ℤ (minute_later -ℤ noon)
    ≤ℤ sub (time_or_zero hour_left.token_expires_at) noon +ℤ pos 30000000000
unfolding sub ◌-ℤ◌ add ◌+ℤ◌ is_due record_pass string_dec release_cluster
next_look_margin_example =
    next_look_margin noon noon hour_left (pos 1) claimed_east half_minute_later minute_later refl
      refl refl (omega arith) refl (omega arith)

abbrev two_failures : List Failure
two_failures =
    record {
      started_at = noon;
      now = noon;
      status = empty_status;
      generation = pos 1;
      rerun = false;
    }
    ∷ record {
      started_at = minute_later;
      now = minute_later;
      status = empty_status;
      generation = pos 1;
      rerun = true;
    }
    ∷ []

abbrev third_failure : Failure
third_failure = record {
  started_at = ten_minutes_later;
  now = ten_minutes_later;
  status = empty_status;
  generation = pos 1;
  rerun = false;
}

failures-double_example :
    (after_failure third_failure (
      after_failures two_failures
        (record_pass noon noon empty_status false (pos 1) claimed_east))).due_at
    ≡ add ten_minutes_later (doubled 2)
failures-double_example =
    failures-double noon noon empty_status (pos 1) claimed_east two_failures third_failure
