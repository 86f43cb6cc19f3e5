-- ===== src/Health/History.antt =====
-- What the liveness probe says of everything that was reported since the start of the process.
use k2a_token_sync.Base.{
  String, ◌≡◌, ◌↔◌, refl, sym, ◌∙◌, ◌==◌, true, Option, none, some, List, [], ◌∷◌, arith,
  if◌then◌else◌,
}
use k2a_token_sync.Base.Int.{pos, ◌≤ℤ◌}
use k2a_token_sync.Base.Dict.{
  Dict, lookup, lookup-insert, lookup-erase, NodupKeys, insert-NodupKeys, erase-NodupKeys,
}
use k2a_token_sync.Time.{Time, Duration, sub}
use k2a_token_sync.Inventory.Schema.{SchemaCheck}
use k2a_token_sync.Health.{
  HealthState, ClusterReport, new_health_state, is_live, record_poll, pass_started, pass_finished,
  record_clusters, record_schema,
}
use k2a_token_sync.Health.Laws.{WithinLimit, is_live_iff}

-- What the scheduler reports to the health state.
pub data Report : Type 0 where
  poll_completed : Time → Report
  started : (cluster : String) → Time → Report
  ended : (cluster : String) → Report
  recorded : Time → List ClusterReport → Duration → Report
  schema_checked : SchemaCheck → Report

-- The health state after the reports, the latest first.
unfoldable pub state_after : Time → List Report → HealthState
state_after start [] = new_health_state start
state_after start (poll_completed now ∷ rs) = record_poll now (state_after start rs)
state_after start (started k now ∷ rs) = pass_started k now (state_after start rs)
state_after start (ended k ∷ rs) = pass_finished k (state_after start rs)
state_after start (recorded now cs due ∷ rs) = record_clusters now cs due (state_after start rs)
state_after start (schema_checked c ∷ rs) = record_schema c (state_after start rs)

-- When the last poll completed, or the process started where none has.
abbrev pub last_progress : Time → List Report → Time
last_progress start [] = start
last_progress start (poll_completed now ∷ rs) = now
last_progress start (_ ∷ rs) = last_progress start rs

-- Since when a pass for the cluster has been in flight.
abbrev pub in_flight_since : String → List Report → Option Time
in_flight_since k [] = none
in_flight_since k (started j now ∷ rs) = if k == j then some now else in_flight_since k rs
in_flight_since k (ended j ∷ rs) = if k == j then none else in_flight_since k rs
in_flight_since k (_ ∷ rs) = in_flight_since k rs

module _ (start : Time) where
  polled_at-last : (rs : List Report) → (state_after start rs).polled_at ≡ last_progress start rs
  unfolding state_after new_health_state record_poll pass_started pass_finished record_clusters
      record_schema
  polled_at-last [] = refl
  polled_at-last (poll_completed now ∷ rs) = refl
  polled_at-last (started k now ∷ rs) = polled_at-last rs
  polled_at-last (ended k ∷ rs) = polled_at-last rs
  polled_at-last (recorded now cs due ∷ rs) = polled_at-last rs
  polled_at-last (schema_checked c ∷ rs) = polled_at-last rs

  lookup-passes :
      (k : String) (rs : List Report)
      → lookup k (state_after start rs).passes ≡ in_flight_since k rs
  unfolding state_after new_health_state record_poll pass_started pass_finished record_clusters
      record_schema lookup
  lookup-passes k [] = refl
  lookup-passes k (poll_completed now ∷ rs) = lookup-passes k rs
  lookup-passes k (started j now ∷ rs) = rw lookup-insert (ground (arith, lookup-passes k rs))
  lookup-passes k (ended j ∷ rs) = rw lookup-erase (ground (arith, lookup-passes k rs))
  lookup-passes k (recorded now cs due ∷ rs) = lookup-passes k rs
  lookup-passes k (schema_checked c ∷ rs) = lookup-passes k rs

  passes-NodupKeys : (rs : List Report) → NodupKeys (state_after start rs).passes
  unfolding state_after new_health_state record_poll pass_started pass_finished record_clusters
      record_schema
  passes-NodupKeys [] = tt
  passes-NodupKeys (poll_completed now ∷ rs) = passes-NodupKeys rs
  passes-NodupKeys (started k now ∷ rs) = insert-NodupKeys k now _ (passes-NodupKeys rs)
  passes-NodupKeys (ended k ∷ rs) = erase-NodupKeys k _ (passes-NodupKeys rs)
  passes-NodupKeys (recorded now cs due ∷ rs) = passes-NodupKeys rs
  passes-NodupKeys (schema_checked c ∷ rs) = passes-NodupKeys rs

-- Every pass that is filed started at most six minutes ago.
abbrev AllRecent : Time → (String → Option Time) → Type 0
AllRecent now since = (k : String) (t : Time) → since k ≡ some t → sub now t ≤ℤ pos 360000000000

within-recent : (now : Time) (d : Dict Time) → WithinLimit now d → AllRecent now (λ k. lookup k d)
unfolding lookup
within-recent now [] w k t found = absurd (ground arith)
within-recent now (x ∷ d) (fits, w) k t found = ground (arith, within-recent now d w k t)

recent-within :
    (now : Time) (d : Dict Time) → NodupKeys d → AllRecent now (λ k. lookup k d) → WithinLimit now d
unfolding lookup
recent-within now [] u r = tt
recent-within now ((j, v) ∷ d) (fresh, u) r =
    (r j v (ground arith), recent-within now d u (λ k t found. r k t (ground arith)))

-- Whatever was reported since the start, the liveness probe answers yes exactly where the last
-- poll, or the start where no poll has completed, is at most five minutes ago, and every pass that
-- has started and not ended started at most six minutes ago.
pub is_live-history :
    (start now : Time) (rs : List Report)
    → (is_live now (state_after start rs) ≡ true) ↔ (
        (sub now (last_progress start rs) ≤ℤ pos 300000000000)
        × ((k : String) (t : Time) → in_flight_since k rs ≡ some t → sub now t ≤ℤ pos 360000000000))
is_live-history start now rs =
    let s = state_after start rs in
    let (to, from) = is_live_iff now s in
    (
      λ live.
          let (poll, passes) = to live in
          (
            rw (← polled_at-last start rs) poll,
            λ k t since. within-recent now s.passes passes k t (lookup-passes start k rs ∙ since),
          ),
      λ (poll, passes). from (
        rw (polled_at-last start rs) poll,
        recent-within now s.passes (passes-NodupKeys start rs)
            (λ k t found. passes k t (sym (lookup-passes start k rs) ∙ found)),
      ),
    )
