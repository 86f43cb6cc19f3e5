-- ===== src/Tests/Registration.antt =====
-- The theorems about credentials, on one that ArgoCD holds and on the tool's own.
use text.Mathlib.TextEquality.{eq_iff}
use k2a_token_sync.Base.{◌≡◌, refl, none, some, [], arith, string_dec, if◌then◌else◌}
use k2a_token_sync.Base.Int.{pos, ◌+ℤ◌, ◌-ℤ◌, ◌≤ℤ◌, ◌<ℤ◌}
use k2a_token_sync.Time.{Time, sub, before, add}
use k2a_token_sync.Config.{Cluster}
use k2a_token_sync.Argocd.{ClusterSecret, Fingerprint, Digest}
use k2a_token_sync.Argocd.Refresh.{needs_refresh, reissue_at, expiring}
use k2a_token_sync.Argocd.Refresh.Laws.{
  needs_refresh-stays, recorded_after, needs_refresh-none_margin, needs_refresh-published,
}
use k2a_token_sync.Reconcile.SelfCredential.{self_renew_interval, self_credential_due}
use k2a_token_sync.Reconcile.SelfCredential.Laws.{not_due-margin}
use k2a_token_sync.Tests.Data.{cluster_of, noon, minute_later, hour_later}

abbrev tagged : Digest
tagged s = s

abbrev wanted : ClusterSecret
wanted = record {
  name = "cluster-east";
  namespace = "argocd";
  display_name = "east";
  server = "https://east:6443";
  bearer_token = "token";
  ca_data = "ca";
  project = "";
  namespaces = [];
  cluster_resources = none;
  token_expires_at = hour_later;
  serving_cert_expires_at = hour_later;
  token_issued_at = noon;
  cluster_name = "east";
  extra_labels = [];
  extra_annotations = [];
}

-- What was published at noon, for an hour.
abbrev applied : Fingerprint
applied = record {
  server = "https://east:6443";
  display_name = "east";
  project = "";
  ca_hash = "ca";
  token_expires_at = hour_later;
  token_issued_at = noon;
  credential_hash = "token";
}

abbrev half_hour_later : Time
half_hour_later = pos 63900001800000000000

-- Past half of its lifetime, the token stays due.
needs_refresh-stays_example :
    needs_refresh tagged applied "token" wanted (pos 3600000000000) hour_later ≡ some expiring
unfolding needs_refresh string_dec ◌-ℤ◌ ◌+ℤ◌ add sub
needs_refresh-stays_example =
    needs_refresh-stays tagged applied "token" wanted (pos 3600000000000) half_hour_later hour_later
      expiring (omega arith) refl

needs_refresh-none_margin_example :
    hour_later -ℤ noon ≤ℤ (hour_later -ℤ minute_later) +ℤ (hour_later -ℤ minute_later)
unfolding needs_refresh string_dec ◌-ℤ◌ ◌+ℤ◌ add sub
needs_refresh-none_margin_example =
    needs_refresh-none_margin tagged applied "token" wanted (pos 3600000000000) minute_later refl
      (omega arith) (omega arith) refl

needs_refresh-published_example :
    needs_refresh tagged
      (recorded_after tagged wanted (pos 0) noon "token")
      "token"
      wanted
      (pos 0)
      noon
    ≡ (if before noon (reissue_at (recorded_after tagged wanted (pos 0) noon "token") (pos 0))
        then none
        else some expiring)
needs_refresh-published_example =
    needs_refresh-published tagged wanted (pos 0) noon "token" (ground (arith, eq_iff "token" ""))
      refl

abbrev east_cluster : Cluster
east_cluster = cluster_of "east" "east:6443" "cluster-east"

not_due-margin_example :
    (sub minute_later noon <ℤ self_renew_interval)
    × (hour_later -ℤ noon ≤ℤ (hour_later -ℤ minute_later) +ℤ (hour_later -ℤ minute_later))
unfolding self_credential_due ◌-ℤ◌ ◌+ℤ◌ sub add
not_due-margin_example =
    not_due-margin east_cluster noon hour_later minute_later refl (omega arith) (omega arith) refl
