-- ===== src/Scheduler/System.antt =====
-- The poll loop and the passes in flight as one system: each step is one hold of the scheduler's
-- lock, and steps of the poll and of the passes come in any order.
pub mod Invariant
pub mod Preserved
pub mod Safety
use k2a_token_sync.Base.{
  ℕ, ◌+◌, ◌<◌, String, ◌≡◌, ◌⊎◌, Bool, true, false, Option, none, some, List, [], ◌∷◌, ◌++◌, map,
  if◌then◌else◌, ◌==◌,
}
use k2a_token_sync.Base.Int.{ℤ}
use k2a_token_sync.Base.Dict.{Dict, lookup, insert}
use k2a_token_sync.Time.{Time}
use k2a_token_sync.Api.{ClusterConnectionStatus}
use k2a_token_sync.Api.Conditions.{ConditionApi}
use k2a_token_sync.Inventory.{Entry}
use k2a_token_sync.Scheduler.{ClusterState}
use k2a_token_sync.Scheduler.Poll.{update_schedule, claim_due}
use k2a_token_sync.Scheduler.Poll.Laws.{DistinctNames}
use k2a_token_sync.Scheduler.Verdict.{Answer, verdict_for}
use k2a_token_sync.Scheduler.Pass.{
  Snapshot, begin_pass, status_to_write, record_pass, settle_verdict, release_cluster,
}

abbrev pub max_concurrent_passes : ℕ
max_concurrent_passes = 4

-- Where the goroutine of a pass stands between two holds of the lock.
pub data Phase : Type 0 where
  -- waiting for a slot
  queued : Phase
  -- in the reconciler, since the given instant
  reconciling : Time → Snapshot → Phase
  -- writing the status: the start, the generation, the pass's own result, what is written, and
  -- whether the reconciler failed
  writing : Time → ℤ → ClusterConnectionStatus → ClusterConnectionStatus → Bool → Phase
  -- about to compare the verdict with what was written
  settling : ClusterConnectionStatus → ClusterConnectionStatus → Phase
  -- all but the release is done
  finished : Phase

pub record Pass : Type 0 where
  pub name : String
  pub phase : Phase

pub record System : Type 0 where
  pub states : Dict ClusterState
  pub passes : List Pass

-- What the environment decides at a step: the clock, whether the wait for a slot ends because the
-- process is shutting down, and the
-- reconciler's answer.
pub record Input : Type 0 where
  pub now : Time
  pub cancelled : Bool
  pub returned : ClusterConnectionStatus
  pub failed : Bool

-- The passes that hold a slot.
abbrev pub holds_slot : Phase → ℕ
holds_slot queued = 0
holds_slot finished = 0
holds_slot _ = 1

abbrev pub slots_used : List Pass → ℕ
slots_used [] = 0
slots_used (p ∷ ps) = holds_slot p.phase + slots_used ps

-- A queued pass goes on when it gets a slot or the process is shutting down; nothing else waits.
abbrev pub MayAdvance : Input → Phase → ℕ → Type 0
MayAdvance i queued used = (i.cancelled ≡ true) ⊎ (used < max_concurrent_passes)
MayAdvance i _ used = Unit

-- The pass in its next phase, if it has one, before the others.
abbrev pub replace : String → Option Phase → List Pass → List Pass
replace name none rest = rest
replace name (some phase) rest = record { name = name; phase = phase } ∷ rest

-- dispatch, up to the start of the goroutines
unfoldable pub dispatch : Time → System → System
unfolding claim_due
dispatch now s =
    let (states, due) = claim_due now s.states in
    record {
      states = states;
      passes = s.passes ++ map (λ name. record { name = name; phase = queued }) due;
    }

module _ (api : ConditionApi) where
  abbrev begun : Time → ClusterState × Option Snapshot → ClusterState × Option Phase
  begun now (st, none) = (st, some finished)
  begun now (st, some snap) = (st, some (reconciling now snap))

  -- One hold of the lock by a pass: the new state of its cluster, and its next phase, none once
  -- the goroutine has ended.
  unfoldable pub advance : Input → Phase → ClusterState → ClusterState × Option Phase
  unfolding begin_pass status_to_write record_pass settle_verdict release_cluster
  advance i queued st = if i.cancelled then (st, some finished) else begun i.now (begin_pass api st)
  advance i (reconciling started_at snap) st = (
    st,
    some (
        writing started_at snap.generation i.returned (status_to_write api i.now i.returned st)
          i.failed),
  )
  advance i (writing started_at generation reconciled written failed) st = (
    record_pass started_at i.now written failed generation st,
    some (settling reconciled written),
  )
  advance i (settling reconciled written) st =
      ((settle_verdict api i.now reconciled written st).0, some finished)
  advance i finished st = (release_cluster st, none)

  pub data Step (s t : System) : Type 0 where
    poll :
        (now : Time) (es : List Entry)
        → DistinctNames es
        → t ≡ record s { states = (update_schedule now es s.states).0 }
        → Step s t
    start_due : (now : Time) → t ≡ dispatch now s → Step s t
    report :
        (now : Time) (name : String) (st : ClusterState)
        → lookup name s.states ≡ some st
        → t ≡ record s { states = insert name (verdict_for api now st).state s.states }
        → Step s t
    pass :
        (i : Input) (xs ys : List Pass) (name : String) (phase : Phase) (st : ClusterState)
        → s.passes ≡ xs ++ (record { name = name; phase = phase } ∷ ys)
        → lookup name s.states ≡ some st
        → MayAdvance i phase (slots_used s.passes)
        → t ≡ record {
          states = insert name (advance i phase st).0 s.states;
          passes = xs ++ replace name (advance i phase st).1 ys;
        }
        → Step s t

  pub data Reach (s : System) : System → Type 0 where
    here : Reach s s
    next : {t u : System} → Reach s t → Step t u → Reach s u

-- The scheduler as newScheduler builds it.
abbrev pub initial : System
initial = record { states = []; passes = [] }
