-- ===== src/Health/Laws.antt =====
-- What the probes can be relied on for.
use k2a_token_sync.Base.{String, ◌≡◌, ◌↔◌, refl, ◌∙◌, ◌==◌, true, false, some, [], ◌∷◌, all, arith}
use k2a_token_sync.Base.Int.{◌≤ℤ◌, ◌<ℤ◌, leb_ℤ}
use k2a_token_sync.Base.Dict.{Dict, lookup, lookup-insert, lookup-erase}
use k2a_token_sync.Time.{Time, sub}
use k2a_token_sync.Health.{
  HealthState, max_progress_age, pass_limit, is_live, record_poll, pass_started, pass_finished,
}

-- No pass in flight has overrun its limit.
abbrev pub WithinLimit : Time → Dict Time → Type 0
WithinLimit now [] = Unit
WithinLimit now ((_, started_at) ∷ d) = (sub now started_at ≤ℤ pass_limit) × WithinLimit now d

all-within :
    (now : Time) (d : Dict Time)
    → (all (λ (_, started_at). leb_ℤ (sub now started_at) pass_limit) d ≡ true) ↔ WithinLimit now d
unfolding all
all-within now [] = (λ _. tt, λ _. refl)
all-within now (x ∷ d) =
    let (to, from) = all-within now d in (λ h. ground (arith, to), λ h. ground (arith, from))

-- The liveness probe answers yes exactly while a poll has completed in the last five minutes and
-- no pass in flight has run for more than six.
pub is_live_iff :
    (now : Time) (s : HealthState)
    → (is_live now s ≡ true)
      ↔ ((sub now s.polled_at ≤ℤ max_progress_age) × WithinLimit now s.passes)
unfolding is_live
is_live_iff now s =
    let (to, from) = all-within now s.passes in (λ h. ground (arith, to), λ h. ground (arith, from))

overrun :
    (now : Time) (k : String) (started_at : Time) (d : Dict Time)
    → lookup k d ≡ some started_at
    → pass_limit <ℤ sub now started_at
    → all (λ (_, t). leb_ℤ (sub now t) pass_limit) d ≡ false
unfolding all lookup
overrun now k t [] found late = absurd (ground arith)
overrun now k t (x ∷ d) found late = ground (arith, overrun now k t d)

-- What happens to the health state while a pass for `k` is in flight: polls complete, and other
-- passes start and end.
pub data Meanwhile (k : String) : HealthState → HealthState → Type 0 where
  here : {s : HealthState} → Meanwhile k s s
  polled : {s t : HealthState} → Meanwhile k s t → (now : Time) → Meanwhile k s (record_poll now t)
  started :
      {s t : HealthState}
      → Meanwhile k s t
      → (j : String) (now : Time) → (k == j) ≡ false
      → Meanwhile k s (pass_started j now t)
  ended :
      {s t : HealthState}
      → Meanwhile k s t
      → (j : String) → (k == j) ≡ false
      → Meanwhile k s (pass_finished j t)

still_in_flight :
    (k : String) {s t : HealthState} → Meanwhile k s t → lookup k t.passes ≡ lookup k s.passes
unfolding pass_started pass_finished record_poll
still_in_flight k here = refl
still_in_flight k (polled m now) = still_in_flight k m
still_in_flight k (started {t = t} m j now other) =
    rw lookup-insert (ground (arith, still_in_flight k m))
still_in_flight k (ended {t = t} m j other) = rw lookup-erase (ground (arith, still_in_flight k m))

-- A pass that has overrun its limit fails liveness, however many polls complete and whatever other
-- passes start or end meanwhile.
pub wedged-not_live :
    (k : String) (started_at now : Time) (s t : HealthState)
    → Meanwhile k (pass_started k started_at s) t
    → pass_limit <ℤ sub now started_at
    → is_live now t ≡ false
unfolding is_live pass_started
wedged-not_live k started_at now s t m late = ground (
  arith,
  overrun now k started_at t.passes (still_in_flight k m ∙ rw lookup-insert (ground arith)) late,
)
