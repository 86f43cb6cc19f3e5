-- ===== src/Scheduler/System/Safety.antt =====
-- What no interleaving of polls and passes can break.
use k2a_token_sync.Base.{
  ◌≤◌, ◌<◌, String, ◌≡◌, refl, true, false, Option, none, some, arith, ◌∙◌, ap,
}
use k2a_token_sync.Base.Dict.{lookup}
use k2a_token_sync.Api.Conditions.{ConditionApi}
use k2a_token_sync.Scheduler.{ClusterState}
use k2a_token_sync.Scheduler.Pass.{record_pass}
use k2a_token_sync.Base.Int.{ℤ, pos, ◌≤ℤ◌, int_laws}
use k2a_token_sync.Time.{Time, add}
use k2a_token_sync.Api.{ClusterConnectionStatus}
use k2a_token_sync.Scheduler.System.{
  max_concurrent_passes, System, Input, writing, advance, slots_used, Reach, here, next, initial,
}
use k2a_token_sync.Scheduler.System.Invariant.{in_flight, marks, Inv}
use k2a_token_sync.Scheduler.System.Preserved.{Step-Inv}

initial-Inv : Inv initial
unfolding lookup
initial-Inv = record { keys = tt; single = λ k. refl; slots = omega arith; paced = λ k st h. cc }

Reach-Inv_from : (api : ConditionApi) {s t : System} → Inv s → Reach api s t → Inv t
Reach-Inv_from api v here = v
Reach-Inv_from api v (next r st) = Step-Inv api st (Reach-Inv_from api v r)

pub Reach-Inv : (api : ConditionApi) {t : System} → Reach api initial t → Inv t
Reach-Inv api r = Reach-Inv_from api initial-Inv r

marked_state :
    (o : Option ClusterState)
    → 0 < marks o
    → (st : ClusterState) × (o ≡ some st) × (st.running ≡ true)
marked_state none h = absurd (omega arith)
marked_state (some st) h = (st, refl, ground arith)

marks-le-one : (o : Option ClusterState) → marks o ≤ 1
marks-le-one none = omega arith
marks-le-one (some st) = ground arith

module _ (api : ConditionApi) {t : System} (r : Reach api initial t) (k : String) where
  -- In every state that polls, dispatches, rejected-status reports and steps of passes can reach
  -- from a fresh scheduler, in any interleaving, at most one pass is in flight for a cluster.
  pub one_pass : in_flight k t.passes ≤ 1
  one_pass = omega (arith, (Reach-Inv api r).single k, marks-le-one (lookup k t.states))

  -- In every reachable system a cluster with a pass in flight still has its state filed under its
  -- name, marked as running.
  pub pass-state :
      0 < in_flight k t.passes
      → (st : ClusterState) × (lookup k t.states ≡ some st) × (st.running ≡ true)
  pass-state h = marked_state (lookup k t.states) (omega (arith, (Reach-Inv api r).single k))

  -- In every reachable system a state that is marked as running has exactly one pass in flight.
  pub running-pass :
      (st : ClusterState)
      → lookup k t.states ≡ some st
      → st.running ≡ true
      → in_flight k t.passes ≡ 1
  running-pass st found busy = (Reach-Inv api r).single k ∙ (ap marks found ∙ ground arith)

  -- In every reachable system, a pass that ends with an error, with no rerun asked for meanwhile,
  -- makes its cluster due again between one minute and half an hour after its end.
  pub retry_bounds :
      (st : ClusterState)
      → lookup k t.states ≡ some st
      → st.rerun_after_pass ≡ false
      → (i : Input) (started_at : Time) (generation : ℤ)
        (reconciled written : ClusterConnectionStatus)
      → let again = (advance api i (writing started_at generation reconciled written true) st).0 in
        (add i.now (pos 60000000000) ≤ℤ again.due_at)
        × (again.due_at ≤ℤ add i.now (pos 1800000000000))
  unfolding advance record_pass add
  retry_bounds st found fresh i started_at generation reconciled written =
      let (least, most) = (Reach-Inv api r).paced k st found in
      rw fresh (omega int_laws, omega int_laws)

-- In every reachable system at most four passes hold a slot.
pub slots_bounded :
    (api : ConditionApi) {t : System}
    → Reach api initial t
    → slots_used t.passes ≤ max_concurrent_passes
slots_bounded api r = (Reach-Inv api r).slots
