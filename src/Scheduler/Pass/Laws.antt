-- ===== src/Scheduler/Pass/Laws.antt =====
-- How long a failing cluster waits, and what a verdict formed during a pass does.
use native.Mathlib.Nat.{pow-suc}
use k2a_token_sync.Base.{
  ◌≢◌, ◌⊎◌, ◌↔◌, inl, inr, Bool-cases, subst, ◌==◌, if◌then◌else◌, ℕ, suc, ◌+◌, ◌*◌, ◌^◌, ◌≡◌,
  Option, none, some, refl, ap, ◌∙◌, Bool, true, false, arith, List, [], ◌∷◌, length,
}
use k2a_token_sync.Base.Int.{ℤ, pos, ◌≤ℤ◌, mul_ℤ, min_ℤ}
use k2a_token_sync.Time.{Time, Duration, int64, add}
use k2a_token_sync.Time.Laws.{int64-eq}
use k2a_token_sync.Api.{ClusterConnectionStatus}
use k2a_token_sync.Api.Conditions.{ConditionApi, IsLawful, Says}
use k2a_token_sync.Api.Equality.{deep_equal}
use k2a_token_sync.Scheduler.{ClusterState, retry_interval, max_retry_interval}
use k2a_token_sync.Scheduler.Verdict.{
  overlay, rejected_status, names_another_connection, verdict_cause,
}
use k2a_token_sync.Scheduler.Verdict.Laws.{ready_of, ConflictShown, rejected_status-conditions}
use k2a_token_sync.Scheduler.Pass.{record_pass, settle_verdict}

-- The backoff stays between a minute and half an hour.
abbrev pub IsPaced : ClusterState → Type 0
IsPaced st = (retry_interval ≤ℤ st.backoff) × (st.backoff ≤ℤ max_retry_interval)

pub record_pass-IsPaced :
    (started_at now : Time) (status : ClusterConnectionStatus) (failed : Bool) (generation : ℤ)
    (st : ClusterState)
    → IsPaced st
    → IsPaced (record_pass started_at now status failed generation st)
unfolding record_pass
record_pass-IsPaced started_at now status true generation st h =
    ground (arith, int64-eq (mul_ℤ st.backoff 2))
record_pass-IsPaced started_at now status false generation st h = omega arith

-- One failed pass, and whether a poll asked for another one while it ran.
pub record Failure : Type 0 where
  pub started_at : Time
  pub now : Time
  pub status : ClusterConnectionStatus
  pub generation : ℤ
  pub rerun : Bool

abbrev pub after_failure : Failure → ClusterState → ClusterState
after_failure f st =
    record_pass f.started_at f.now f.status true f.generation
      (record st { rerun_after_pass = f.rerun })

abbrev pub after_failures : List Failure → ClusterState → ClusterState
after_failures [] st = st
after_failures (f ∷ fs) st = after_failures fs (after_failure f st)

-- A minute, doubled n times, up to half an hour.
pub doubled : ℕ → Duration
doubled n = min_ℤ (pos (60000000000 * 2 ^ n)) max_retry_interval

doubled-suc : (n : ℕ) → min_ℤ (int64 (mul_ℤ (doubled n) 2)) max_retry_interval ≡ doubled (suc n)
unfolding doubled
doubled-suc n =
    rw (int64-eq (mul_ℤ (doubled n) 2) (ground arith) (ground arith), pow-suc) (ground arith)

after_failures-backoff :
    (n : ℕ) (fs : List Failure) (st : ClusterState)
    → st.backoff ≡ doubled n
    → (after_failures fs st).backoff ≡ doubled (n + length fs)
unfolding record_pass
after_failures-backoff n [] st h = h ∙ ap doubled (omega arith)
after_failures-backoff n (f ∷ fs) st h =
    after_failures-backoff (suc n) fs (after_failure f st) (rw h (doubled-suc n))
    ∙ ap doubled (omega arith)

backoff-double :
    (started_at now : Time) (status : ClusterConnectionStatus) (generation : ℤ) (st : ClusterState)
    (fs : List Failure)
    → (after_failures fs (record_pass started_at now status false generation st)).backoff
      ≡ doubled (length fs)
unfolding record_pass doubled
backoff-double started_at now status generation st fs =
    after_failures-backoff 0 fs (record_pass started_at now status false generation st) refl
    ∙ ap doubled (omega arith)

-- After a success and n failures in a row, one more failed pass makes the cluster due again a
-- minute doubled n times after its end, at most half an hour; or at once, where a poll asked for
-- another pass while it ran.
pub failures-double :
    (started_at now : Time) (status : ClusterConnectionStatus) (generation : ℤ) (st : ClusterState)
    (fs : List Failure) (f : Failure)
    → (after_failure f
        (after_failures fs (record_pass started_at now status false generation st))).due_at
      ≡ (if f.rerun then f.now else add f.now (doubled (length fs)))
unfolding record_pass
failures-double started_at now status generation st fs f =
    ap (λ b. if f.rerun then f.now else add f.now b)
      (backoff-double started_at now status generation st fs)

-- The last status that a pass writes: the one that settleVerdict writes again, if it does.
abbrev pub last_written :
    ClusterConnectionStatus
    → ClusterState × Option ClusterConnectionStatus
    → ClusterConnectionStatus
last_written written (st, none) = written
last_written written (st, some again) = again

module _ (api : ConditionApi) (law : IsLawful api) where
  -- The pass's own result where no verdict stands, and the verdict shown over it where one does.
  abbrev pub ShowsVerdict :
      ClusterState → ClusterConnectionStatus → ClusterConnectionStatus → Type 0
  ShowsVerdict st reconciled last =
      ((st.invalid_reason ≡ "") × (last ≡ reconciled))
      ⊎ ((st.invalid_reason ≢ "")
          × (last.observed_generation ≡ st.generation)
          × Says api last.conditions (ready_of st)
          × ConflictShown api st last.conditions (names_another_connection (verdict_cause st)))

  overlay-ShowsVerdict :
      (now : Time) (reconciled : ClusterConnectionStatus) (st : ClusterState)
      → ShowsVerdict st reconciled (overlay api now reconciled st)
  unfolding rejected_status
  overlay-ShowsVerdict now reconciled st = elim (Bool-cases (st.invalid_reason == "")) [
    | inl accepted ↦ rw accepted (inl (ground arith, refl))
    | inr rejected ↦
        let (ready, conflict) = rejected_status-conditions api law st now reconciled in
        rw rejected (inr (ground arith, refl, ready, conflict))
  ]

  -- With lawful condition functions, and whatever verdict a pass saw when it wrote, the last
  -- status that it hands to writeStatus is its own result where no verdict stands at its end;
  -- where one does it shows Ready False under the verdict's reason and text, Conflict where the
  -- verdict names another connection and nowhere else, and the state's generation. It is handed
  -- over again exactly where it is not what was handed over before.
  pub settle_verdict-final :
      (now : Time) (reconciled written : ClusterConnectionStatus) (st : ClusterState)
      → let settled = settle_verdict api now reconciled written st in
        ShowsVerdict st reconciled (last_written written settled)
        × ((settled.1 ≡ none) ↔ (last_written written settled ≡ written))
  unfolding settle_verdict
  settle_verdict-final now reconciled written st =
      let shown = overlay-ShowsVerdict now reconciled st in
      elim (Bool-cases (deep_equal (overlay api now reconciled st) written)) [
        | inl same ↦
            let e : overlay api now reconciled st ≡ written = ground arith in
            rw same (subst (ShowsVerdict st reconciled) e shown, (λ h. refl, λ h. refl))
        | inr differ ↦
            rw differ (shown, (λ bad. absurd (ground arith), λ bad. absurd (ground arith)))
      ]
