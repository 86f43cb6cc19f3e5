-- ===== src/Scheduler/Verdict/Laws.antt =====
-- Laying a verdict over a status twice changes nothing, so that a steady verdict costs no write.
use k2a_token_sync.Base.{
  ◌≡◌, ◌≢◌, refl, ◌∙◌, true, false, none, List, arith, Bool, true, false, Bool-cases, inl, inr,
}
use k2a_token_sync.Time.{Time}
use k2a_token_sync.Api.{ClusterConnectionStatus}
use k2a_token_sync.Api.Conditions.{
  Condition, condition_true, condition_false, ConditionApi, IsLawful, Says, condition,
}
use k2a_token_sync.Api.Reason.{condition_ready, condition_conflict}
use k2a_token_sync.Scheduler.{ClusterState}
use k2a_token_sync.Scheduler.Verdict.{
  verdict_cause, names_another_connection, rejected_status, overlay, verdict_for,
}
use text.Mathlib.TextEquality.{eq_iff}

ready-ne-conflict : condition_ready ≢ condition_conflict
ready-ne-conflict = ground (arith, eq_iff condition_ready condition_conflict)

-- The conditions that a verdict writes.
abbrev pub ready_of : ClusterState → Condition
ready_of st =
    condition condition_ready condition_false (verdict_cause st) st.invalid_reason st.generation

abbrev pub conflict_of : ClusterState → Condition
conflict_of st =
    condition condition_conflict condition_true (verdict_cause st) st.invalid_reason st.generation

-- What the list says of a conflict, by whether the verdict names another connection.
abbrev pub ConflictShown : ConditionApi → ClusterState → List Condition → Bool → Type 0
ConflictShown api st cs true = Says api cs (conflict_of st)
ConflictShown api st cs false = api.find cs condition_conflict ≡ none

module _ (api : ConditionApi) (law : IsLawful api) where
  -- Setting a condition again after any steps that kept it changes nothing.
  set_again :
      (now : Time) (cs ds : List Condition) (c : Condition)
      → api.find ds c.kind ≡ api.find (api.set now cs c) c.kind
      → (later : Time) → api.set later ds c ≡ ds
  set_again now cs ds c same later =
      let (d, found, agrees) = law.find-set_self now cs c in
      law.set_same later ds c d (same ∙ found) agrees

  module _ (st : ClusterState) (now later : Time) (cs : List Condition) where
    abbrev with_conflict : List Condition
    with_conflict = api.set now (api.set now cs (ready_of st)) (conflict_of st)

    abbrev without_conflict : List Condition
    without_conflict = api.remove (api.set now cs (ready_of st)) condition_conflict

    with_conflict-again :
        api.set later (api.set later with_conflict (ready_of st)) (conflict_of st) ≡ with_conflict
    with_conflict-again =
        rw
          (set_again now cs with_conflict (ready_of st)
            (law.find-set_other now _ (conflict_of st) condition_ready ready-ne-conflict) later)
          (set_again now (api.set now cs (ready_of st)) with_conflict (conflict_of st) refl later)

    without_conflict-again :
        api.remove (api.set later without_conflict (ready_of st)) condition_conflict
        ≡ without_conflict
    without_conflict-again =
        rw
          (set_again now cs without_conflict (ready_of st)
            (law.find-remove _ condition_conflict condition_ready
              ∙ ground (arith, ready-ne-conflict))
            later)
          (law.remove_absent _ _
            (law.find-remove _ condition_conflict condition_conflict ∙ ground arith))

  -- With lawful condition functions, laying a verdict over a status that already carries it
  -- changes nothing, whenever it is done.
  pub rejected_status-idempotent :
      (st : ClusterState) (now later : Time) (status : ClusterConnectionStatus)
      → rejected_status api later (rejected_status api now status st) st
        ≡ rejected_status api now status st
  unfolding rejected_status
  rejected_status-idempotent st now later status = ground (
    arith,
    with_conflict-again st now later status.conditions,
    without_conflict-again st now later status.conditions,
  )

  -- With lawful condition functions, once a verdict is on a state, asking again with that state
  -- finds nothing to write.
  pub verdict_for-settled :
      (st : ClusterState) (now later : Time)
      → (verdict_for api later (verdict_for api now st).state).needed ≡ false
  unfolding verdict_for
  verdict_for-settled st now later = ground (
    arith,
    rejected_status-idempotent st now later st.status,
    rejected_status-idempotent st now now st.status,
  )

  -- A verdict can be laid over a status that already carries it.
  pub overlay-idempotent :
      (st : ClusterState) (now later : Time) (status : ClusterConnectionStatus)
      → overlay api later (overlay api now status st) st ≡ overlay api now status st
  overlay-idempotent st now later status =
      ground (arith, rejected_status-idempotent st now later status)

  -- With lawful condition functions, a rejected status has Ready False under the verdict's reason
  -- and text, and Conflict True where the verdict names another connection and absent elsewhere.
  pub rejected_status-conditions :
      (st : ClusterState) (now : Time) (status : ClusterConnectionStatus)
      → let cs = (rejected_status api now status st).conditions in
        Says api cs (ready_of st)
        × ConflictShown api st cs (names_another_connection (verdict_cause st))
  unfolding rejected_status
  rejected_status-conditions st now status =
      let cs = status.conditions in
      let (r, r_found, r_agrees) = law.find-set_self now cs (ready_of st) in
      let (c, c_found, c_agrees) =
        law.find-set_self now (api.set now cs (ready_of st)) (conflict_of st) in
      elim (Bool-cases (names_another_connection (verdict_cause st))) [
        | inl another ↦ rw another (
          (
            r,
            law.find-set_other now _ (conflict_of st) condition_ready ready-ne-conflict ∙ r_found,
            r_agrees,
          ),
          (c, c_found, c_agrees),
        )
        | inr own ↦ rw own (
          (
            r,
            law.find-remove _ condition_conflict condition_ready
                ∙ ground (arith, ready-ne-conflict),
            r_agrees,
          ),
          law.find-remove _ condition_conflict condition_conflict ∙ ground arith,
        )
      ]
