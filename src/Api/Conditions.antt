-- ===== src/Api/Conditions.antt =====
-- metav1.Condition, and the three functions of k8s.io/apimachinery's `meta` package that the
-- program calls on a list of conditions. That package is not part of the repository, so the
-- functions are an interface with the behaviour that its documentation states.
use k2a_token_sync.Base.{String, ◌≡◌, ◌≢◌, Option, none, some, List, if◌then◌else◌, ◌==◌}
use k2a_token_sync.Base.Int.{ℤ}
use k2a_token_sync.Time.{Time}

pub data ConditionStatus : Type 0 where
  condition_true condition_false condition_unknown : ConditionStatus

pub record Condition : Type 0 where
  pub kind : String
  pub status : ConditionStatus
  pub observed_generation : ℤ
  pub last_transition_time : Time
  pub reason : String
  pub message : String

-- The two conditions say the same, the time of the last transition aside.
pub record Agrees (c d : Condition) : Type 0 where
  pub kind_eq : c.kind ≡ d.kind
  pub status_eq : c.status ≡ d.status
  pub observed_generation_eq : c.observed_generation ≡ d.observed_generation
  pub reason_eq : c.reason ≡ d.reason
  pub message_eq : c.message ≡ d.message

pub record ConditionApi : Type 0 where
  pub find : List Condition → String → Option Condition
  -- The first argument is the clock that the function reads for the transition time.
  pub set : Time → List Condition → Condition → List Condition
  pub remove : List Condition → String → List Condition

pub record IsLawful (api : ConditionApi) : Type 0 where
  -- The condition of the type is there afterwards, with every field updated.
  pub find-set_self :
      (now : Time) (cs : List Condition) (c : Condition)
      → (d : Condition) × (api.find (api.set now cs c) c.kind ≡ some d) × Agrees d c
  -- Conditions of other types are left alone.
  pub find-set_other :
      (now : Time) (cs : List Condition) (c : Condition) (k : String)
      → k ≢ c.kind
      → api.find (api.set now cs c) k ≡ api.find cs k
  -- Setting what is already there changes nothing, the transition time included.
  pub set_same :
      (now : Time) (cs : List Condition) (c d : Condition)
      → api.find cs c.kind ≡ some d
      → Agrees d c
      → api.set now cs c ≡ cs
  pub find-remove :
      (cs : List Condition) (k j : String)
      → api.find (api.remove cs k) j ≡ (if j == k then none else api.find cs j)
  pub remove_absent :
      (cs : List Condition) (k : String) → api.find cs k ≡ none → api.remove cs k ≡ cs

-- The list holds what the condition says.
abbrev pub Says : ConditionApi → List Condition → Condition → Type 0
Says api cs c = (d : Condition) × (api.find cs c.kind ≡ some d) × Agrees d c

-- The condition value that the program builds; the transition time is left to `set`.
abbrev pub condition : String → ConditionStatus → String → String → ℤ → Condition
condition kind status reason message generation = record {
  kind = kind;
  status = status;
  observed_generation = generation;
  last_transition_time = k2a_token_sync.Time.zero_time;
  reason = reason;
  message = message;
}
