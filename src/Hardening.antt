-- ===== src/Hardening.antt =====
-- internal/hardening: the allowlist of Secret names, the Role that grants patch on exactly those,
-- a name that must stay excluded, and the check of what the API server then allows.
pub mod Plan
pub mod Rules
pub mod Excluded
pub mod Authorization
pub mod Inspect
pub mod Apply
use k2a_token_sync.Base.{String}

pub record Names : Type 0 where
  pub namespace : String
  pub argocd_namespace : String
  pub service_account : String
  pub baseline_role : String
  pub baseline_role_binding : String
  pub restricted_role : String
  pub restricted_binding : String

abbrev pub managed_by_label : String
managed_by_label = "app.kubernetes.io/managed-by"

abbrev pub managed_by_value : String
managed_by_value = "k2a-token-sync"

abbrev pub app_name_label : String
app_name_label = "app.kubernetes.io/name"

abbrev pub component_label : String
component_label = "app.kubernetes.io/component"

abbrev pub component_value : String
component_value = "restricted-secret-rbac"

abbrev pub sync_wave : String
sync_wave = "argocd.argoproj.io/sync-wave"

abbrev pub field_manager : String
field_manager = "k2a-token-sync-restrict-rbac"
