-- ===== src/Argocd/Publish/Laws.antt =====
-- What the registration's labels and annotations say, whatever the custom ones are.
use text.Mathlib.TextEquality.{eq_iff}
use k2a_token_sync.Base.{
  String, ◌≡◌, ◌∙◌, refl, ◌||◌, Bool-cases, inl, inr, Option, none, some, [], ◌∷◌, if◌then◌else◌,
  ◌==◌, arith,
}
use k2a_token_sync.Base.Dict.{Dict, lookup, insert, lookup-insert}
use k2a_token_sync.Time.{Time, is_zero}
use k2a_token_sync.Format.{Printer}
use k2a_token_sync.Argocd.{ClusterSecret}
use k2a_token_sync.Argocd.Publish.{
  registration_config, custom_annotations, stamped, managed_by_label, managed_by_value,
  secret_type_label, secret_type_cluster, token_expiry_annotation, serving_cert_expiry_annotation,
  cluster_name_annotation,
}

lookup-custom_annotations :
    (k : String) (d : Dict String)
    → lookup k (custom_annotations d) ≡ (
        if k == token_expiry_annotation || k == serving_cert_expiry_annotation
        then none
        else lookup k d)
unfolding custom_annotations lookup
lookup-custom_annotations k [] = ground arith
lookup-custom_annotations k (_ ∷ d) = ground (arith, lookup-custom_annotations k d)

lookup-stamped :
    (p : Printer) (k key : String) (t : Time) (d : Dict String)
    → lookup k (stamped p key t d)
      ≡ (if is_zero t then lookup k d else if k == key then some (p.rfc3339 t) else lookup k d)
lookup-stamped p k key t d = elim (Bool-cases (is_zero t)) [
  | inl zero ↦ rw zero refl
  | inr set ↦ rw set (lookup-insert k key (p.rfc3339 t) d)
]

-- What an expiry is published as: nothing, where it is unknown.
abbrev pub published_expiry : Printer → Time → Option String
published_expiry p t = if is_zero t then none else some (p.rfc3339 t)

-- The labels that Argo CD and this tool rely on have their values whatever custom labels are
-- configured, and every other custom label is kept.
pub registration_config-labels :
    (p : Printer) (c : ClusterSecret) (k : String)
    → lookup k (registration_config p c).labels ≡ (
        if k == managed_by_label
        then some managed_by_value
        else if k == secret_type_label
        then some secret_type_cluster
        else lookup k c.extra_labels)
unfolding registration_config
registration_config-labels p c k =
    lookup-insert k managed_by_label managed_by_value _
    ∙ rw (lookup-insert k secret_type_label secret_type_cluster c.extra_labels) refl

-- Whatever custom annotations are configured, an expiry is annotated with its own value where it
-- is known and not at all where it is not, the name of the cluster is annotated, and every other
-- custom annotation is kept.
pub registration_config-annotations :
    (p : Printer) (c : ClusterSecret) (k : String)
    → lookup k (registration_config p c).annotations ≡ (
        if k == serving_cert_expiry_annotation
        then published_expiry p c.serving_cert_expires_at
        else if k == token_expiry_annotation
        then published_expiry p c.token_expires_at
        else if k == cluster_name_annotation
        then some c.cluster_name
        else lookup k c.extra_annotations)
unfolding registration_config
registration_config-annotations p c k =
    let custom = custom_annotations c.extra_annotations in
    let always = insert cluster_name_annotation c.cluster_name custom in
    let dated = stamped p token_expiry_annotation c.token_expires_at always in
    ground (
      arith,
      lookup-stamped p k serving_cert_expiry_annotation c.serving_cert_expires_at dated,
      lookup-stamped p k token_expiry_annotation c.token_expires_at always,
      lookup-insert k cluster_name_annotation c.cluster_name custom,
      lookup-custom_annotations k c.extra_annotations,
      eq_iff serving_cert_expiry_annotation token_expiry_annotation,
      eq_iff serving_cert_expiry_annotation cluster_name_annotation,
      eq_iff token_expiry_annotation cluster_name_annotation,
    )
