-- ===== src/Tests/Conditions.antt =====
-- An implementation of the interface of conditions, which shows that its laws can be met.
use k2a_token_sync.Base.{
  String, ◌≡◌, ◌≢◌, string_dec, refl, Bool, true, false, Option, none, some, List, [], ◌∷◌,
  if◌then◌else◌, ◌==◌, arith,
}
use k2a_token_sync.Time.{Time, is_zero}
use k2a_token_sync.Api.Conditions.{
  ConditionStatus, condition_true, condition_false, condition_unknown, Condition, Agrees,
  ConditionApi, IsLawful,
}

abbrev same_status : ConditionStatus → ConditionStatus → Bool
same_status condition_true condition_true = true
same_status condition_false condition_false = true
same_status condition_unknown condition_unknown = true
same_status _ _ = false

find : List Condition → String → Option Condition
find [] k = none
find (c ∷ cs) k = if k == c.kind then some c else find cs k

abbrev stamped : Time → Condition → Condition
stamped now c = record c {
  last_transition_time = if is_zero c.last_transition_time then now else c.last_transition_time;
}

abbrev updated : Time → Condition → Condition → Condition
updated now old c =
    if same_status old.status c.status
    then record c { last_transition_time = old.last_transition_time }
    else stamped now c

set : Time → List Condition → Condition → List Condition
set now [] c = stamped now c ∷ []
set now (d ∷ ds) c = if c.kind == d.kind then updated now d c ∷ ds else d ∷ set now ds c

remove : List Condition → String → List Condition
remove [] k = []
remove (c ∷ cs) k = let rest = remove cs k in if k == c.kind then rest else c ∷ rest

unfoldable pub conditions : ConditionApi
unfolding find set remove
conditions = record { find = find; set = set; remove = remove }

updated-Agrees : (now : Time) (old c : Condition) → Agrees (updated now old c) c
updated-Agrees now old c = ground arith

find-set_self :
    (now : Time) (cs : List Condition) (c : Condition)
    → (d : Condition) × (find (set now cs c) c.kind ≡ some d) × Agrees d c
unfolding find set
find-set_self now [] c = (stamped now c, ground arith, ground arith)
find-set_self now (d ∷ ds) c = elim (string_dec c.kind d.kind) [
  | yes p ↦ (updated now d c, ground arith, updated-Agrees now d c)
  | no n ↦ let (e, found, agrees) = find-set_self now ds c in (e, ground arith, agrees)
]

find-set_other :
    (now : Time) (cs : List Condition) (c : Condition) (k : String)
    → k ≢ c.kind
    → find (set now cs c) k ≡ find cs k
unfolding find set
find-set_other now [] c k h = ground arith
find-set_other now (d ∷ ds) c k h = ground (arith, find-set_other now ds c k h)

set_same :
    (now : Time) (cs : List Condition) (c d : Condition)
    → find cs c.kind ≡ some d
    → Agrees d c
    → set now cs c ≡ cs
unfolding find set
set_same now [] c d h a = cc
set_same now (e ∷ es) c d h a = ground (arith, set_same now es c d)

find-remove :
    (cs : List Condition) (k j : String)
    → find (remove cs k) j ≡ (if j == k then none else find cs j)
unfolding find remove
find-remove [] k j = ground arith
find-remove (c ∷ cs) k j = ground (arith, find-remove cs k j)

remove_absent : (cs : List Condition) (k : String) → find cs k ≡ none → remove cs k ≡ cs
unfolding find remove
remove_absent [] k h = refl
remove_absent (c ∷ cs) k h = ground (arith, remove_absent cs k)

pub conditions-IsLawful : IsLawful conditions
unfolding conditions
conditions-IsLawful = record {
  find-set_self = find-set_self;
  find-set_other = find-set_other;
  set_same = set_same;
  find-remove = find-remove;
  remove_absent = remove_absent;
}
