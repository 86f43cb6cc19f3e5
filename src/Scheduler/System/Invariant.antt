-- ===== src/Scheduler/System/Invariant.antt =====
-- What holds of every system that the scheduler can reach.
use k2a_token_sync.Base.{
  ℕ, ◌+◌, ◌≤◌, String, ◌≡◌, refl, true, false, Option, none, some, List, [], ◌∷◌, ◌++◌, map,
  if◌then◌else◌, ◌==◌, occurrences, arith, is_some,
}
use k2a_token_sync.Base.Dict.{lookup, NodupKeys}
use k2a_token_sync.Time.{Time}
use k2a_token_sync.Api.Conditions.{ConditionApi}
use k2a_token_sync.Inventory.{Entry}
use k2a_token_sync.Scheduler.{ClusterState, new_state}
use k2a_token_sync.Scheduler.Poll.{observe, is_due}
use k2a_token_sync.Scheduler.Poll.Laws.{after_observation, after_departure, claimed, counts_due}
use k2a_token_sync.Scheduler.Pass.Laws.{IsPaced, record_pass-IsPaced}
use k2a_token_sync.Scheduler.System.{
  max_concurrent_passes, Phase, queued, reconciling, writing, settling, finished, Pass, System,
  Input, holds_slot, slots_used, MayAdvance, advance, replace,
}

-- How many passes are in flight for a name.
abbrev pub in_flight : String → List Pass → ℕ
in_flight k [] = 0
in_flight k (p ∷ ps) = (if k == p.name then 1 else 0) + in_flight k ps

-- One for a state that is marked as running, zero for any other and for none.
abbrev pub marks : Option ClusterState → ℕ
marks none = 0
marks (some st) = if st.running then 1 else 0

pub record Inv (s : System) : Type 0 where
  pub keys : NodupKeys s.states
  -- The passes in flight are exactly those that the states account for.
  pub single : (k : String) → in_flight k s.passes ≡ marks (lookup k s.states)
  pub slots : slots_used s.passes ≤ max_concurrent_passes
  pub paced : (k : String) (st : ClusterState) → lookup k s.states ≡ some st → IsPaced st

pub in_flight-append :
    (k : String) (xs ys : List Pass) → in_flight k (xs ++ ys) ≡ in_flight k xs + in_flight k ys
in_flight-append k [] ys = omega arith
in_flight-append k (x ∷ xs) ys = omega (arith, in_flight-append k xs ys)

pub slots_used-append : (xs ys : List Pass) → slots_used (xs ++ ys) ≡ slots_used xs + slots_used ys
slots_used-append [] ys = omega arith
slots_used-append (x ∷ xs) ys = omega (arith, slots_used-append xs ys)

abbrev pub queue : List String → List Pass
queue = map (λ name. record { name = name; phase = queued })

pub in_flight-queue :
    (k : String) (names : List String) → in_flight k (queue names) ≡ occurrences k names
in_flight-queue k [] = refl
in_flight-queue k (n ∷ names) = omega (arith, in_flight-queue k names)

pub slots_used-queue : (names : List String) → slots_used (queue names) ≡ 0
slots_used-queue [] = refl
slots_used-queue (n ∷ names) = omega (arith, slots_used-queue names)

-- A poll neither starts nor ends a pass.
pub marks-poll :
    (now : Time) (o : Option Entry) (old : Option ClusterState)
    → marks (after_departure (is_some o) (after_observation now o old)) ≡ marks old
unfolding observe new_state
marks-poll now none none = refl
marks-poll now none (some st) = ground arith
marks-poll now (some e) none = ground arith
marks-poll now (some e) (some st) = ground arith

pub marks-claimed :
    (cutoff : Time) (o : Option ClusterState)
    → marks (claimed cutoff o) ≡ marks o + counts_due cutoff o
unfolding is_due
marks-claimed cutoff o = ground arith

module _ (api : ConditionApi) (i : Input) where
  -- A step of a pass keeps its cluster marked as running until the goroutine ends.
  pub marks-advance :
      (name : String) (phase : Phase) (st : ClusterState) (rest : List Pass)
      → marks (some st) ≡ 1
      → in_flight name (replace name (advance api i phase st).1 rest)
        ≡ marks (some (advance api i phase st).0) + in_flight name rest
  unfolding advance
  marks-advance name queued st rest h = ground arith
  marks-advance name (reconciling t snap) st rest h = ground arith
  marks-advance name (writing t g r w true) st rest h = ground arith
  marks-advance name (writing t g r w false) st rest h = ground arith
  marks-advance name (settling r w) st rest h = ground arith
  marks-advance name finished st rest h = ground arith

  pub in_flight-replace_other :
      (k name : String) (o : Option Phase) (rest : List Pass)
      → (k == name) ≡ false
      → in_flight k (replace name o rest) ≡ in_flight k rest
  in_flight-replace_other k name none rest h = refl
  in_flight-replace_other k name (some phase) rest h = ground arith

  pub slots-advance :
      (name : String) (phase : Phase) (st : ClusterState) (rest : List Pass) (used : ℕ)
      → MayAdvance i phase used
      → holds_slot phase ≤ used
      → used ≤ max_concurrent_passes
      → slots_used (replace name (advance api i phase st).1 rest) + used
        ≤ max_concurrent_passes + holds_slot phase + slots_used rest
  unfolding advance
  slots-advance name queued st rest used may own full = ground arith
  slots-advance name (reconciling t snap) st rest used may own full = omega arith
  slots-advance name (writing t g r w f) st rest used may own full = omega arith
  slots-advance name (settling r w) st rest used may own full = omega arith
  slots-advance name finished st rest used may own full = omega arith

  pub advance-IsPaced :
      (phase : Phase) (st : ClusterState) → IsPaced st → IsPaced (advance api i phase st).0
  unfolding advance
  advance-IsPaced queued st h = ground arith
  advance-IsPaced (reconciling t snap) st h = h
  advance-IsPaced (writing t g r w failed) st h = record_pass-IsPaced t i.now w failed g st h
  advance-IsPaced (settling r w) st h = ground arith
  advance-IsPaced finished st h = h
