-- ===== src/Tests/Teardown.antt =====
-- The theorems about the removal, on servers that hold labelled objects and grant every delete.
use k2a_token_sync.Base.{◌≡◌, refl, Bool, true, false, none, [], ◌∷◌, string_dec}
use k2a_token_sync.Errors.{Result, ok, err}
use k2a_token_sync.Removal.{Found, Server, managed_label, managed_value}
use k2a_token_sync.Removal.Report.{RemoveParams, Progress, started}
use k2a_token_sync.Removal.Teardown.{execute_removal}
use k2a_token_sync.Removal.Safety.{deletes, Guarded, execute_removal-dry, execute_removal-Guarded}
use k2a_token_sync.Tests.Data.{plain, east, west}

abbrev labelled : Found
labelled = record { labels = (managed_label, managed_value) ∷ []; annotations = []; managers = [] }

abbrev willing : Server
willing = record { get_answer = λ h o. ok labelled; delete_answer = λ h o. none }

abbrev params : Bool → RemoveParams
params dry_run = record {
  cluster_name = "east";
  namespace = "k2a";
  argocd_namespace = "argocd";
  fallback = record {
    name = "east";
    service_account_name = "";
    service_account_namespace = "";
    self_service_account_name = "";
    secret_name = "";
  };
  skip_downstream = false;
  dry_run = dry_run;
}

abbrev progress_of : Result Progress → Progress
progress_of (ok s) = s
progress_of (err e) = started []

abbrev torn_down : Bool → Progress
torn_down dry_run =
    progress_of
      (execute_removal plain willing (params dry_run) (ok east) (ok (east ∷ west ∷ [])) [])

execute_removal-dry_example : deletes (torn_down true).history ≡ []
unfolding execute_removal string_dec
execute_removal-dry_example =
    execute_removal-dry plain willing (params true) (ok east) (ok (east ∷ west ∷ []))
      (torn_down true) refl refl

execute_removal-Guarded_example : Guarded willing (torn_down false).history
unfolding execute_removal string_dec
execute_removal-Guarded_example =
    execute_removal-Guarded plain willing (params false) (ok east) (ok (east ∷ west ∷ []))
      (torn_down false) refl
