-- ===== src/Scheduler/Report/Laws.antt =====
-- When the process calls itself ready, and when the next pass is due.
use k2a_token_sync.Base.{
  and-true, String, ◌≡◌, ◌≢◌, ◌↔◌, ◌∙◌, sym, refl, Bool, true, false, ◌&&◌, Option, none, some,
  List, [], ◌∷◌, all, arith,
}
use k2a_token_sync.Base.Int.{eq_of_parts, pos, ◌≤ℤ◌, max_ℤ}
use k2a_token_sync.Base.Dict.{Dict, lookup}
use k2a_token_sync.Time.{Time, Duration, sub}
use k2a_token_sync.Api.Conditions.{Condition, condition_true, ConditionApi}
use k2a_token_sync.Api.Reason.{condition_ready}
use k2a_token_sync.Scheduler.{ClusterState, max_pass_interval}
use k2a_token_sync.Scheduler.Report.{
  next_due_from, next_due_in, synced_and_error, insert_report, cluster_report, report_locked,
  publish,
}
use k2a_token_sync.Health.{ClusterReport, HealthState, record_clusters, is_ready}

all-insert_report :
    (f : ClusterReport → Bool) (c : ClusterReport) (cs : List ClusterReport)
    → all f (insert_report c cs) ≡ (f c && all f cs)
unfolding insert_report all
all-insert_report f c [] = refl
all-insert_report f c (d ∷ ds) = ground (arith, all-insert_report f c ds)

true_condition :
    (st : ClusterState) (o : Option Condition)
    → (synced_and_error st o).0 ≡ true
    → (c : Condition) × (o ≡ some c) × (c.status ≡ condition_true)
true_condition st none h = absurd (ground arith)
true_condition st (some c) h = (c, refl, ground arith)

module _ (api : ConditionApi) where
  -- The cluster is not held back, this process has passed the generation that the API has now, and
  -- the Ready condition is True.
  pub record IsSynced (st : ClusterState) : Type 0 where
    pub accepted : st.invalid_reason ≡ ""
    pub passed : st.passed_generation ≢ pos 0
    pub current : st.passed_generation ≡ st.generation
    pub ready :
        (c : Condition) × (api.find st.status.conditions condition_ready ≡ some c)
        × (c.status ≡ condition_true)

  abbrev pub AllSynced : Dict ClusterState → Type 0
  AllSynced [] = Unit
  AllSynced ((_, st) ∷ d) = IsSynced st × AllSynced d

  synced-IsSynced : (st : ClusterState) → ((cluster_report api st).synced ≡ true) ↔ IsSynced st
  unfolding cluster_report
  synced-IsSynced st =
      let e = eq_of_parts st.passed_generation st.generation in
      (
        (λ h. record {
          accepted = ground arith;
          passed = ground arith;
          current = ground (arith, e);
          ready = true_condition st (api.find st.status.conditions condition_ready) (ground arith);
        }),
        λ s.
            (let (c, found, isTrue) = s.ready in
              ground (
                arith,
                found,
                isTrue,
                s.passed,
                s.current,
                eq_of_parts st.passed_generation (pos 0),
              )),
      )

  all_synced :
      (d : Dict ClusterState) → (all (λ c. c.synced) (report_locked api d) ≡ true) ↔ AllSynced d
  unfolding report_locked all
  all_synced [] = (λ _. tt, λ _. refl)
  all_synced ((k, st) ∷ d) =
      let (to, from) = all_synced d in
      let (one, eno) = synced-IsSynced st in
      let split = all-insert_report (λ c. c.synced) (cluster_report api st) (report_locked api d) in
      let (parts, both) =
        and-true (cluster_report api st).synced (all (λ c. c.synced) (report_locked api d)) in
      (
        (λ h. (one (parts (sym split ∙ h)).0, to (parts (sym split ∙ h)).1)),
        λ (a, b). split ∙ both (eno a, from b),
      )

  -- After publish the process is ready exactly where every cluster the scheduler knows is
  -- accepted, passed in its current generation by this process, and Ready=True.
  pub publish-ready :
      (now : Time) (states : Dict ClusterState) (health : HealthState)
      → (is_ready (publish api now states health) ≡ true) ↔ AllSynced states
  unfolding publish is_ready record_clusters
  publish-ready now states health = all_synced states

next_due_from-le :
    (now : Time) (next : Duration) (d : Dict ClusterState) → next_due_from now next d ≤ℤ next
unfolding next_due_from
next_due_from-le now next [] = omega arith
next_due_from-le now next ((k, st) ∷ d) =
    ground (arith, next_due_from-le now next d, next_due_from-le now (sub st.due_at now) d)

next_due_from-due :
    (now : Time) (next : Duration) (d : Dict ClusterState) (k : String) (st : ClusterState)
    → lookup k d ≡ some st
    → st.invalid_reason ≡ ""
    → st.running ≡ false
    → next_due_from now next d ≤ℤ sub st.due_at now
unfolding next_due_from lookup
next_due_from-due now next [] k st found fine idle = absurd (ground arith)
next_due_from-due now next ((j, t) ∷ d) k st found fine idle = ground (
  arith,
  next_due_from-le now next d,
  next_due_from-le now (sub t.due_at now) d,
  next_due_from-due now next d k st,
  next_due_from-due now (sub t.due_at now) d k st,
)

-- The reported wait until the next pass is never negative and never above five minutes.
pub next_due_in-range :
    (now : Time) (states : Dict ClusterState)
    → (pos 0 ≤ℤ next_due_in now states) × (next_due_in now states ≤ℤ max_pass_interval)
unfolding next_due_in
next_due_in-range now states =
    let top = next_due_from-le now max_pass_interval states in (ground arith, ground arith)

-- The reported wait is no longer than what is left, or nothing if that is past, until any cluster
-- that is neither held back nor running is due.
pub next_due_in-due :
    (now : Time) (states : Dict ClusterState) (k : String) (st : ClusterState)
    → lookup k states ≡ some st
    → st.invalid_reason ≡ ""
    → st.running ≡ false
    → next_due_in now states ≤ℤ max_ℤ (sub st.due_at now) (pos 0)
unfolding next_due_in
next_due_in-due now states k st found fine idle =
    ground (arith, next_due_from-due now max_pass_interval states k st found fine idle)
