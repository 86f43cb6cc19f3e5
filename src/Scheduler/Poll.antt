-- ===== src/Scheduler/Poll.antt =====
-- What a poll does to the schedule: updateSchedule, blockedReason, claimDue and blockedClusters.
pub mod Laws
use k2a_token_sync.Base.{
  String, Bool, true, false, not, ◌&&◌, ◌||◌, Option, none, some, List, [], ◌∷◌, ◌++◌, map,
  if◌then◌else◌, ◌==◌, contains, sort_strings,
}
use k2a_token_sync.Base.Int.{ℤ}
use k2a_token_sync.Base.Dict.{Dict, lookup, insert}
use k2a_token_sync.Time.{Time, add, after}
use k2a_token_sync.Inventory.{Entry, edited}
use k2a_token_sync.Scheduler.{ClusterState, new_state, due_slack}

-- The state behind a name, or a new one.
abbrev pub known_or_new : Time → Option ClusterState → ClusterState
known_or_new now none = new_state now
known_or_new now (some st) = st

-- The verdict that was on the state is off the entry.
abbrev pub withdrawn : ClusterState → Entry → Bool
withdrawn st e = not (st.invalid_reason == "") && e.invalid_reason == ""

-- The body of the first loop of updateSchedule, on the state of the entry's name.
unfoldable pub observe : Time → Entry → ClusterState → ClusterState
unfolding edited
observe now e st =
    let due = if edited e then now else st.due_at in
    record st {
      due_at = if withdrawn st e then now else due;
      rerun_after_pass = if withdrawn st e then st.running else st.rerun_after_pass;
      cluster = e.cluster;
      generation = e.generation;
      status = e.status;
      invalid_reason = e.invalid_reason;
      invalid_cause = e.invalid_cause;
      departed = false;
    }

-- The first loop: the states, and the names whose verdict was withdrawn.
unfoldable pub observe_all :
    Time → List Entry → Dict ClusterState → List String → Dict ClusterState × List String
unfolding observe
observe_all now [] states resumed = (states, resumed)
observe_all now (e ∷ es) states resumed =
    let st = known_or_new now (lookup e.cluster.name states) in
    observe_all now es (insert e.cluster.name (observe now e st) states)
      (if withdrawn st e then resumed ++ (e.cluster.name ∷ []) else resumed)

-- The second loop: a state that the poll did not see is dropped, or marked while a pass holds it.
unfoldable pub depart : List String → Dict ClusterState → Dict ClusterState
depart seen [] = []
depart seen ((name, st) ∷ d) =
    let rest = depart seen d in
    if contains seen name
    then (name, st) ∷ rest
    else if st.running
    then (name, record st { departed = true }) ∷ rest
    else rest

abbrev pub names_of : List Entry → List String
names_of es = map (λ e. e.cluster.name) es

-- updateSchedule
unfoldable pub update_schedule :
    Time → List Entry → Dict ClusterState → Dict ClusterState × List String
unfolding observe_all depart
update_schedule now es states =
    let (observed, resumed) = observe_all now es states [] in
    (depart (names_of es) observed, resumed)

-- blockedReason
unfoldable pub blocked_reason : ClusterState → String
blocked_reason st =
    if not (st.invalid_reason == "")
    then st.invalid_reason
    else if st.departed
    then "it is no longer in the inventory"
    else ""

-- The test of claimDue's loop: the state is not skipped.
unfoldable pub is_due : Time → ClusterState → Bool
unfolding blocked_reason
is_due cutoff st = not (st.running || not (blocked_reason st == "") || after st.due_at cutoff)

-- The loop of claimDue: the states with the due ones claimed, and their names.
unfoldable pub claim_from : Time → Dict ClusterState → Dict ClusterState × List String
unfolding is_due
claim_from cutoff [] = ([], [])
claim_from cutoff ((name, st) ∷ d) =
    let (rest, due) = claim_from cutoff d in
    if is_due cutoff st
    then ((name, record st { running = true }) ∷ rest, name ∷ due)
    else ((name, st) ∷ rest, due)

-- claimDue. A state's pointer is the name it is filed under, which is its cluster's name.
unfoldable pub claim_due : Time → Dict ClusterState → Dict ClusterState × List String
unfolding claim_from sort_strings
claim_due now states =
    let (claimed, due) = claim_from (add now due_slack) states in (claimed, sort_strings due)

-- The loop of blockedClusters, before its sort.
unfoldable pub blocked_from : Dict ClusterState → List String
blocked_from [] = []
blocked_from ((name, st) ∷ d) =
    let rest = blocked_from d in if not (st.invalid_reason == "") then name ∷ rest else rest

-- blockedClusters
unfoldable pub blocked_clusters : Dict ClusterState → List String
unfolding blocked_from sort_strings
blocked_clusters states = sort_strings (blocked_from states)
