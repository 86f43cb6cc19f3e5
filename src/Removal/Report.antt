-- ===== src/Removal/Report.antt =====
-- What a teardown leaves behind: remainingFromOutcome, unreachableDownstream, refusedSecretHandFix.
use k2a_token_sync.Base.{
  String, ◌<>◌, concat, Bool, true, not, ◌&&◌, Option, none, some, List, [], ◌∷◌, ◌++◌,
  if◌then◌else◌, is_nil,
}
use k2a_token_sync.Errors.{Error}
use k2a_token_sync.Config.{Cluster}
use k2a_token_sync.Removal.{History, RemovalOutcome, not_owned, Removal}
use k2a_token_sync.Removal.Guards.{RemovalClusterInput}

-- removeParams, less what is only printed
pub record RemoveParams : Type 0 where
  pub cluster_name : String
  pub namespace : String
  pub argocd_namespace : String
  pub fallback : RemovalClusterInput
  pub skip_downstream : Bool
  pub dry_run : Bool

pub record RemainingItem : Type 0 where
  pub what : String
  pub why : String
  pub kubectl : String

-- namedOutcome
pub record NamedOutcome : Type 0 where
  pub name : String
  pub outcome : RemovalOutcome
  pub error : Option Error
  pub kubectl : String

-- The calls so far, and what is left behind so far.
pub record Progress : Type 0 where
  pub history : History
  pub remaining : List RemainingItem

abbrev of_outcome : String → RemovalOutcome → String → List RemainingItem
of_outcome name not_owned kubectl =
    record { what = name; why = "not managed by k2a-token-sync"; kubectl = kubectl } ∷ []
of_outcome name _ kubectl = []

-- remainingFromOutcome
unfoldable pub remaining_from_outcome :
    String → RemovalOutcome → Option Error → String → List RemainingItem
remaining_from_outcome name outcome none kubectl = of_outcome name outcome kubectl
remaining_from_outcome name outcome (some e) kubectl =
    record { what = name; why = e.text; kubectl = kubectl } ∷ []

-- remainingFromNamed, on every outcome
unfoldable pub remaining_from_named : List NamedOutcome → List RemainingItem
unfolding remaining_from_outcome
remaining_from_named [] = []
remaining_from_named (it ∷ its) =
    remaining_from_outcome it.name it.outcome it.error it.kubectl ++ remaining_from_named its

-- The error of the first outcome, if every outcome is an error.
abbrev pub all_failed : List NamedOutcome → Bool
all_failed [] = true
all_failed (it ∷ its) = not (is_nil it.error) && all_failed its

abbrev first_text : List NamedOutcome → String
first_text [] = ""
first_text (it ∷ its) = elim it.error [ none ↦ "" | some e ↦ e.text ]

-- unreachableDownstream, on the outcomes of the five objects; an empty answer is nil
unfoldable pub unreachable_downstream : List NamedOutcome → Cluster → List RemainingItem
unfolding concat
unreachable_downstream [] cluster = []
unreachable_downstream (it ∷ its) cluster =
    if not (all_failed (it ∷ its))
    then []
    else record {
      what = "downstream identities and RBAC for " <> cluster.name;
      why = concat (
          "every downstream object failed, so the cluster at "
          ∷ cluster.endpoint
          ∷ " is most likely unreachable (first error: "
          ∷ first_text (it ∷ its)
          ∷ ")"
          ∷ []);
      kubectl =
          "if the cluster is gone for good, re-run with --skip-downstream to finish the local side; its identities die with it. If it is only temporarily unreachable, re-run once it answers";
    }
      ∷ []

-- refusedSecretHandFix
unfoldable pub refused_secret_hand_fix : String → String → Bool → Bool → String
unfolding concat
refused_secret_hand_fix namespace name different unverifiable =
    let inspect =
      concat (
        " inspect first with: kubectl -n " ∷ namespace ∷ " get secret " ∷ name ∷ " -o yaml" ∷ []) in
    if different
    then "belongs to a different cluster; leave it alone unless that is a mistake —" <> inspect
    else if unverifiable
    then "its cluster ownership could not be verified; leave it alone unless that is a mistake —"
      <> inspect
    else concat ("kubectl -n " ∷ namespace ∷ " delete secret " ∷ name ∷ [])

abbrev pub delete_secret_by_hand : String → String → String
delete_secret_by_hand namespace name =
    concat ("kubectl -n " ∷ namespace ∷ " delete secret " ∷ name ∷ [])

-- One removal with its report.
abbrev pub reported : String → String → Progress → Removal → Progress
reported name kubectl s r = record {
  history = r.history;
  remaining = s.remaining ++ remaining_from_outcome name r.outcome r.error kubectl;
}

abbrev pub refused : String → String → String → Progress → Progress
refused name reason kubectl s = record s {
  remaining = s.remaining ++ (record { what = name; why = reason; kubectl = kubectl } ∷ []);
}

abbrev pub first_nonempty : List RemainingItem → List RemainingItem → List RemainingItem
first_nonempty [] ys = ys
first_nonempty (x ∷ xs) ys = x ∷ xs

abbrev pub started : History → Progress
started h = record { history = h; remaining = [] }
