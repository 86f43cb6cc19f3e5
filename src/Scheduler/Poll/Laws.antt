-- ===== src/Scheduler/Poll/Laws.antt =====
-- What a poll leaves in the schedule, name by name, and what it claims.
use k2a_token_sync.Base.{
  String, ◌≡◌, ◌≢◌, refl, ◌∙◌, Bool, true, false, not, ◌&&◌, ◌||◌, Option, none, some, List, [],
  ◌∷◌, ◌++◌, ◌+◌, if◌then◌else◌, ◌==◌, contains, sort_strings, occurrences, occurrences-sort, arith,
  is_some,
}
use k2a_token_sync.Base.Dict.{Dict, lookup, insert, lookup-insert, NodupKeys, insert-NodupKeys}
use k2a_token_sync.Time.{Time, add}
use k2a_token_sync.Inventory.{Entry}
use k2a_token_sync.Scheduler.{ClusterState, due_slack}
use k2a_token_sync.Scheduler.Poll.{
  known_or_new, withdrawn, observe, observe_all, depart, names_of, update_schedule, is_due,
  claim_from, claim_due,
}

-- The entry of a name.
abbrev pub find_entry : String → List Entry → Option Entry
find_entry k [] = none
find_entry k (e ∷ es) = if k == e.cluster.name then some e else find_entry k es

-- Objects of one namespace have distinct names.
abbrev pub DistinctNames : List Entry → Type 0
DistinctNames [] = Unit
DistinctNames (e ∷ es) = (find_entry e.cluster.name es ≡ none) × DistinctNames es

abbrev pub after_observation : Time → Option Entry → Option ClusterState → Option ClusterState
after_observation now none old = old
after_observation now (some e) old = some (observe now e (known_or_new now old))

abbrev pub after_departure : Bool → Option ClusterState → Option ClusterState
after_departure seen none = none
after_departure seen (some st) =
    if seen then some st else if st.running then some (record st { departed = true }) else none

abbrev pub was_withdrawn : Time → Option Entry → Option ClusterState → Bool
was_withdrawn now none old = false
was_withdrawn now (some e) old = withdrawn (known_or_new now old) e

lookup-observe_all :
    (now : Time) (k : String) (es : List Entry) (d : Dict ClusterState) (resumed : List String)
    → DistinctNames es
    → lookup k (observe_all now es d resumed).0
      ≡ after_observation now (find_entry k es) (lookup k d)
unfolding observe_all
lookup-observe_all now k [] d resumed _ = refl
lookup-observe_all now k (e ∷ es) d resumed (fresh, u) =
    let st = known_or_new now (lookup e.cluster.name d) in
    lookup-observe_all now k es (insert e.cluster.name (observe now e st) d)
      (if withdrawn st e then resumed ++ (e.cluster.name ∷ []) else resumed) u
    ∙ rw lookup-insert (ground arith)

contains-append :
    (xs ys : List String) (k : String) → contains (xs ++ ys) k ≡ (contains xs k || contains ys k)
unfolding contains
contains-append [] ys k = refl
contains-append (x ∷ xs) ys k = ground (arith, contains-append xs ys k)

contains-observe_all :
    (now : Time) (k : String) (es : List Entry) (d : Dict ClusterState) (resumed : List String)
    → DistinctNames es
    → contains (observe_all now es d resumed).1 k
      ≡ (contains resumed k || was_withdrawn now (find_entry k es) (lookup k d))
unfolding observe_all contains
contains-observe_all now k [] d resumed _ = ground arith
contains-observe_all now k (e ∷ es) d resumed (fresh, u) =
    let st = known_or_new now (lookup e.cluster.name d) in
    contains-observe_all now k es (insert e.cluster.name (observe now e st) d)
      (if withdrawn st e then resumed ++ (e.cluster.name ∷ []) else resumed) u
    ∙ rw lookup-insert (ground (arith, contains-append resumed (e.cluster.name ∷ []) k))

observe_all-NodupKeys :
    (now : Time) (es : List Entry) (d : Dict ClusterState) (resumed : List String)
    → NodupKeys d
    → NodupKeys (observe_all now es d resumed).0
unfolding observe_all
observe_all-NodupKeys now [] d resumed u = u
observe_all-NodupKeys now (e ∷ es) d resumed u =
    observe_all-NodupKeys now es _ _ (insert-NodupKeys e.cluster.name _ d u)

lookup-depart :
    (seen : List String) (k : String) (d : Dict ClusterState)
    → NodupKeys d
    → lookup k (depart seen d) ≡ after_departure (contains seen k) (lookup k d)
unfolding depart lookup
lookup-depart seen k [] _ = refl
lookup-depart seen k ((j, st) ∷ d) (fresh, u) = ground (arith, lookup-depart seen k d u)

depart-NodupKeys :
    (seen : List String) (d : Dict ClusterState) → NodupKeys d → NodupKeys (depart seen d)
unfolding depart
depart-NodupKeys seen [] _ = tt
depart-NodupKeys seen ((j, st) ∷ d) (fresh, u) =
    ground (arith, depart-NodupKeys seen d u, lookup-depart seen j d u)

contains-names_of :
    (k : String) (es : List Entry) → contains (names_of es) k ≡ is_some (find_entry k es)
unfolding contains
contains-names_of k [] = refl
contains-names_of k (e ∷ es) = ground (arith, contains-names_of k es)

pub update_schedule-NodupKeys :
    (now : Time) (es : List Entry) (d : Dict ClusterState)
    → NodupKeys d
    → NodupKeys (update_schedule now es d).0
unfolding update_schedule
update_schedule-NodupKeys now es d u =
    depart-NodupKeys (names_of es) _ (observe_all-NodupKeys now es d [] u)

-- For entries of distinct names, and states of which no name is filed twice, what a poll leaves
-- under each name: the observed entry where there is one; a state that was not seen is kept,
-- marked departed, while a pass holds it, and is gone otherwise.
pub lookup-update_schedule :
    (now : Time) (k : String) (es : List Entry) (d : Dict ClusterState)
    → DistinctNames es
    → NodupKeys d
    → lookup k (update_schedule now es d).0
      ≡ after_departure
          (is_some (find_entry k es))
          (after_observation now (find_entry k es) (lookup k d))
unfolding update_schedule
lookup-update_schedule now k es d names u = ground (
  arith,
  lookup-depart (names_of es) k (observe_all now es d []).0 (observe_all-NodupKeys now es d [] u),
  lookup-observe_all now k es d [] names,
  contains-names_of k es,
)

-- For entries of distinct names, the names that a poll reports as resumed are exactly those whose
-- verdict is off the object.
pub contains-update_schedule :
    (now : Time) (k : String) (es : List Entry) (d : Dict ClusterState)
    → DistinctNames es
    → contains (update_schedule now es d).1 k ≡ was_withdrawn now (find_entry k es) (lookup k d)
unfolding update_schedule contains
contains-update_schedule now k es d names = contains-observe_all now k es d [] names

abbrev pub claimed : Time → Option ClusterState → Option ClusterState
claimed cutoff none = none
claimed cutoff (some st) = some (if is_due cutoff st then record st { running = true } else st)

abbrev pub counts_due : Time → Option ClusterState → k2a_token_sync.Base.ℕ
counts_due cutoff none = 0
counts_due cutoff (some st) = if is_due cutoff st then 1 else 0

lookup-claim_from :
    (cutoff : Time) (k : String) (d : Dict ClusterState)
    → lookup k (claim_from cutoff d).0 ≡ claimed cutoff (lookup k d)
unfolding claim_from lookup
lookup-claim_from cutoff k [] = refl
lookup-claim_from cutoff k ((j, st) ∷ d) = ground (arith, lookup-claim_from cutoff k d)

occurrences-claim_from :
    (cutoff : Time) (k : String) (d : Dict ClusterState)
    → NodupKeys d
    → occurrences k (claim_from cutoff d).1 ≡ counts_due cutoff (lookup k d)
unfolding claim_from lookup
occurrences-claim_from cutoff k [] _ = refl
occurrences-claim_from cutoff k ((j, st) ∷ d) (fresh, u) =
    ground (arith, occurrences-claim_from cutoff k d u)

claim_from-NodupKeys :
    (cutoff : Time) (d : Dict ClusterState) → NodupKeys d → NodupKeys (claim_from cutoff d).0
unfolding claim_from
claim_from-NodupKeys cutoff [] _ = tt
claim_from-NodupKeys cutoff ((j, st) ∷ d) (fresh, u) =
    ground (arith, claim_from-NodupKeys cutoff d u, lookup-claim_from cutoff j d)

pub claim_due-NodupKeys :
    (now : Time) (d : Dict ClusterState) → NodupKeys d → NodupKeys (claim_due now d).0
unfolding claim_due
claim_due-NodupKeys now d u = claim_from-NodupKeys (add now due_slack) d u

-- Claiming marks exactly the due states as running, and changes nothing else.
pub lookup-claim_due :
    (now : Time) (k : String) (d : Dict ClusterState)
    → lookup k (claim_due now d).0 ≡ claimed (add now due_slack) (lookup k d)
unfolding claim_due
lookup-claim_due now k d = lookup-claim_from (add now due_slack) k d

-- Where no name is filed twice, each due cluster is claimed once and no other is claimed.
pub occurrences-claim_due :
    (now : Time) (k : String) (d : Dict ClusterState)
    → NodupKeys d
    → occurrences k (claim_due now d).1 ≡ counts_due (add now due_slack) (lookup k d)
unfolding claim_due
occurrences-claim_due now k d u = ground (
  arith,
  occurrences-sort k (claim_from (add now due_slack) d).1,
  occurrences-claim_from (add now due_slack) k d u,
)
