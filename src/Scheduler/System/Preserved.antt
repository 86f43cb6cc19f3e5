-- ===== src/Scheduler/System/Preserved.antt =====
-- Every step of the system keeps the invariant.
use k2a_token_sync.Base.{
  ◌≤◌, String, ◌≡◌, refl, ◌∙◌, Option, none, some, List, ◌∷◌, ◌++◌, if◌then◌else◌, ◌==◌, arith,
  is_some, sym, ap, subst,
}
use k2a_token_sync.Base.Dict.{Dict, lookup, insert, lookup-insert, insert-NodupKeys}
use k2a_token_sync.Time.{Time, add}
use k2a_token_sync.Api.Conditions.{ConditionApi}
use k2a_token_sync.Inventory.{Entry}
use k2a_token_sync.Scheduler.{ClusterState, due_slack, new_state}
use k2a_token_sync.Scheduler.Poll.{update_schedule, observe, claim_due}
use k2a_token_sync.Scheduler.Poll.Laws.{
  DistinctNames, find_entry, after_observation, after_departure, lookup-update_schedule,
  update_schedule-NodupKeys, claimed, claim_due-NodupKeys, lookup-claim_due, occurrences-claim_due,
}
use k2a_token_sync.Scheduler.Pass.Laws.{IsPaced}
use k2a_token_sync.Scheduler.Verdict.{verdict_for}
use k2a_token_sync.Scheduler.System.{
  max_concurrent_passes, Phase, Pass, System, Input, slots_used, MayAdvance, advance, replace,
  dispatch, Step, poll, start_due, report, pass,
}
use k2a_token_sync.Scheduler.System.Invariant.{
  in_flight, marks, Inv, in_flight-append, slots_used-append, queue, in_flight-queue,
  slots_used-queue, marks-poll, marks-claimed, marks-advance, in_flight-replace_other,
  slots-advance, advance-IsPaced,
}

poll-IsPaced :
    (now : Time) (o : Option Entry) (old : Option ClusterState) (st : ClusterState)
    → ((st' : ClusterState) → old ≡ some st' → IsPaced st')
    → after_departure (is_some o) (after_observation now o old) ≡ some st
    → IsPaced st
unfolding observe new_state
poll-IsPaced now none none st h e = cc
poll-IsPaced now none (some old) st h e = ground (arith, h old refl)
poll-IsPaced now (some entry) none st h e = ground arith
poll-IsPaced now (some entry) (some old) st h e = ground (arith, h old refl)

claimed-IsPaced :
    (cutoff : Time) (old : Option ClusterState) (st : ClusterState)
    → ((st' : ClusterState) → old ≡ some st' → IsPaced st')
    → claimed cutoff old ≡ some st
    → IsPaced st
claimed-IsPaced cutoff none st h e = cc
claimed-IsPaced cutoff (some old) st h e = ground (arith, h old refl)

insert-IsPaced :
    (name : String) (new : ClusterState) (d : Dict ClusterState)
    → IsPaced new
    → ((k : String) (st : ClusterState) → lookup k d ≡ some st → IsPaced st)
    → (k : String) (st : ClusterState) → lookup k (insert name new d) ≡ some st
    → IsPaced st
insert-IsPaced name new d p h k st e = ground (arith, lookup-insert k name new d, h k st)

module _ {s : System} (v : Inv s) where
  poll-Inv :
      (now : Time) (es : List Entry)
      → DistinctNames es
      → Inv (record s { states = (update_schedule now es s.states).0 })
  poll-Inv now es names = record {
    keys = update_schedule-NodupKeys now es s.states v.keys;
    single = λ k.
        v.single k
        ∙ sym (
            ap marks (lookup-update_schedule now k es s.states names v.keys)
            ∙ marks-poll now (find_entry k es) (lookup k s.states));
    slots = v.slots;
    paced = λ k st found.
        poll-IsPaced now (find_entry k es) (lookup k s.states) st (v.paced k)
          (sym (lookup-update_schedule now k es s.states names v.keys) ∙ found);
  }

module _ (api : ConditionApi) {s : System} (v : Inv s) where
  dispatch-Inv : (now : Time) → Inv (dispatch now s)
  unfolding dispatch
  dispatch-Inv now = record {
    keys = claim_due-NodupKeys now s.states v.keys;
    single = λ k. omega (
      arith,
      in_flight-append k s.passes (queue (claim_due now s.states).1),
      in_flight-queue k (claim_due now s.states).1,
      occurrences-claim_due now k s.states v.keys,
      v.single k,
      marks-claimed (add now due_slack) (lookup k s.states),
      ap marks (lookup-claim_due now k s.states),
    );
    slots = omega (
      arith,
      slots_used-append s.passes (queue (claim_due now s.states).1),
      slots_used-queue (claim_due now s.states).1,
      v.slots,
    );
    paced = λ k st found.
        claimed-IsPaced (add now due_slack) (lookup k s.states) st (v.paced k)
          (sym (lookup-claim_due now k s.states) ∙ found);
  }

  verdict_for-keeps :
      (now : Time) (st : ClusterState)
      → ((verdict_for api now st).state.running ≡ st.running)
        × ((verdict_for api now st).state.backoff ≡ st.backoff)
  unfolding verdict_for
  verdict_for-keeps now st = ground arith

  verdict_for-IsPaced :
      (now : Time) (st : ClusterState) → IsPaced st → IsPaced (verdict_for api now st).state
  verdict_for-IsPaced now st h = rw (verdict_for-keeps now st).1 h

  verdict_for-marks :
      (k : String) (now : Time) (name : String) (st : ClusterState)
      → lookup name s.states ≡ some st
      → marks (if k == name then some (verdict_for api now st).state else lookup k s.states)
        ≡ marks (lookup k s.states)
  verdict_for-marks k now name st found = ground (arith, (verdict_for-keeps now st).0)

  report-Inv :
      (now : Time) (name : String) (st : ClusterState)
      → lookup name s.states ≡ some st
      → Inv (record s { states = insert name (verdict_for api now st).state s.states })
  report-Inv now name st found = record {
    keys = insert-NodupKeys name _ s.states v.keys;
    single = λ k.
        v.single k
        ∙ sym (ap marks (lookup-insert k name _ s.states) ∙ verdict_for-marks k now name st found);
    slots = v.slots;
    paced =
        insert-IsPaced name _ s.states (verdict_for-IsPaced now st (v.paced name st found)) v.paced;
  }

  pass-single :
      (i : Input) (xs ys : List Pass) (name : String) (phase : Phase) (st : ClusterState)
      → s.passes ≡ xs ++ (record { name = name; phase = phase } ∷ ys)
      → lookup name s.states ≡ some st
      → (k : String)
      → in_flight k (xs ++ replace name (advance api i phase st).1 ys)
        ≡ marks (lookup k (insert name (advance api i phase st).0 s.states))
  pass-single i xs ys name phase st split found k = rw lookup-insert (
      ground (
        arith,
        v.single k,
        ap (in_flight k) split,
        ap marks found,
        in_flight-append k xs (record { name = name; phase = phase } ∷ ys),
        in_flight-append k xs (replace name (advance api i phase st).1 ys),
        marks-advance api i name phase st ys,
        in_flight-replace_other api i k name (advance api i phase st).1 ys,
      ))

  pass-slots :
      (i : Input) (xs ys : List Pass) (name : String) (phase : Phase) (st : ClusterState)
      → s.passes ≡ xs ++ (record { name = name; phase = phase } ∷ ys)
      → MayAdvance i phase (slots_used s.passes)
      → slots_used (xs ++ replace name (advance api i phase st).1 ys) ≤ max_concurrent_passes
  pass-slots i xs ys name phase st split may = omega (
    arith,
    v.slots,
    ap slots_used split,
    slots_used-append xs (record { name = name; phase = phase } ∷ ys),
    slots_used-append xs (replace name (advance api i phase st).1 ys),
    slots-advance api i name phase st ys (slots_used s.passes) may,
  )

  pass-Inv :
      (i : Input) (xs ys : List Pass) (name : String) (phase : Phase) (st : ClusterState)
      → s.passes ≡ xs ++ (record { name = name; phase = phase } ∷ ys)
      → lookup name s.states ≡ some st
      → MayAdvance i phase (slots_used s.passes)
      → Inv (record {
        states = insert name (advance api i phase st).0 s.states;
        passes = xs ++ replace name (advance api i phase st).1 ys;
      })
  pass-Inv i xs ys name phase st split found may = record {
    keys = insert-NodupKeys name _ s.states v.keys;
    single = pass-single i xs ys name phase st split found;
    slots = pass-slots i xs ys name phase st split may;
    paced =
        insert-IsPaced name _ s.states (advance-IsPaced api i phase st (v.paced name st found))
          v.paced;
  }

-- Every step keeps the invariant.
pub Step-Inv : (api : ConditionApi) {s t : System} → Step api s t → Inv s → Inv t
Step-Inv api (poll now es names e) v = subst Inv (sym e) (poll-Inv v now es names)
Step-Inv api (start_due now e) v = subst Inv (sym e) (dispatch-Inv api v now)
Step-Inv api (report now name st found e) v = subst Inv (sym e) (report-Inv api v now name st found)
Step-Inv api (pass i xs ys name phase st split found may e) v =
    subst Inv (sym e) (pass-Inv api v i xs ys name phase st split found may)
