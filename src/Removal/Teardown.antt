-- ===== src/Removal/Teardown.antt =====
-- executeRemoval: the five steps, in order, with the calls they make and what is left behind. What
-- is only printed on the way is left out; what remains is what the exit code is decided on.
use k2a_token_sync.Base.{
  String, ◌<>◌, concat, Bool, false, not, ◌&&◌, none, some, List, [], ◌∷◌, ◌++◌, if◌then◌else◌,
  ◌==◌, is_nil,
}
use k2a_token_sync.Errors.{Result, ok, err, wrap}
use k2a_token_sync.Config.{Cluster, credentials_secret_name}
use k2a_token_sync.Format.{Printer}
use k2a_token_sync.Inventory.{Entry}
use k2a_token_sync.Removal.{
  cluster_connection, secret, cluster_role_binding, service_account, cluster_role, Address, get,
  History, Server, Removal, remove_managed, remove_cluster_connection,
}
use k2a_token_sync.Removal.Guards.{
  Resolved, resolve_removal_cluster, endpoint_collision, inspect_argocd_secret_for_removal,
  argocd_refusal_reason, inspect_credential_secret_for_removal, credential_refusal_reason,
  is_unreadable,
}
use k2a_token_sync.Removal.Report.{
  RemoveParams, NamedOutcome, Progress, remaining_from_outcome, remaining_from_named,
  unreachable_downstream, refused_secret_hand_fix, delete_secret_by_hand, reported, refused,
  first_nonempty, started,
}

module _ (p : Printer) (server : Server) (params : RemoveParams) where
  abbrev pub secret_at : String → String → Address
  secret_at namespace name = record { kind = secret; namespace = namespace; name = name }

  -- Step 1
  unfoldable pub remove_connection_step : Cluster → Progress → Progress
  unfolding remove_cluster_connection remaining_from_outcome concat
  remove_connection_step cluster s =
      reported (params.namespace <> "/" <> cluster.name)
        (concat
          ("kubectl -n " ∷ params.namespace ∷ " delete clusterconnection " ∷ cluster.name ∷ []))
        s
        (remove_cluster_connection server params.dry_run
          (record { kind = cluster_connection; namespace = params.namespace; name = cluster.name })
          s.history)

  -- Steps 2 and 3: a Secret that a guard may refuse to touch
  unfoldable pub remove_secret_step : String → String → String → Bool → Bool → Progress → Progress
  unfolding remove_managed remaining_from_outcome refused_secret_hand_fix concat
  remove_secret_step namespace name reason different unverifiable s =
      if not (reason == "")
      then refused (namespace <> "/" <> name) reason
          (refused_secret_hand_fix namespace name different unverifiable) s
      else reported (namespace <> "/" <> name) (delete_secret_by_hand namespace name) s
          (remove_managed server params.dry_run (secret_at namespace name) s.history)

  abbrev named : String → String → Removal → NamedOutcome
  named name kubectl r = record {
    name = name;
    outcome = r.outcome;
    error = r.error;
    kubectl = kubectl;
  }

  -- Step 4, where the endpoint is not shared: the five removals, bindings before their subjects
  unfoldable pub remove_downstream : Cluster → Progress → Progress
  unfolding remove_managed remaining_from_named unreachable_downstream concat
  remove_downstream cluster s =
      let sa = cluster.service_account.name in
      let own = cluster.self_service_account_name in
      let ns = cluster.service_account.namespace in
      let remove = remove_managed server params.dry_run in
      let binding = sa <> "-role-binding" in
      let a =
        remove (record { kind = cluster_role_binding; namespace = ""; name = binding }) s.history in
      let b = remove (record { kind = service_account; namespace = ns; name = sa }) a.history in
      let c =
        remove (record { kind = cluster_role_binding; namespace = ""; name = own }) b.history in
      let d = remove (record { kind = cluster_role; namespace = ""; name = own }) c.history in
      let e = remove (record { kind = service_account; namespace = ns; name = own }) d.history in
      let all =
        named binding ("kubectl delete clusterrolebinding " <> binding) a
        ∷ named own ("kubectl delete clusterrolebinding " <> own) c
        ∷ named (ns <> "/" <> sa)
            (concat ("kubectl -n " ∷ ns ∷ " delete serviceaccount " ∷ sa ∷ [])) b
        ∷ named (ns <> "/" <> own)
            (concat ("kubectl -n " ∷ ns ∷ " delete serviceaccount " ∷ own ∷ [])) e
        ∷ named own ("kubectl delete clusterrole " <> own) d
        ∷ [] in
      let unreachable = unreachable_downstream all cluster in
      let left = first_nonempty unreachable (remaining_from_named all) in
      record { history = e.history; remaining = s.remaining ++ left }

  -- Step 4
  unfoldable pub downstream_step : Cluster → String → Progress → Progress
  unfolding remove_downstream concat
  downstream_step cluster collides_with s =
      let torn = remove_downstream cluster s in
      if params.skip_downstream
      then s
      else if not (collides_with == "")
      then refused ("downstream identities and RBAC for " <> cluster.name)
          (concat (
            "endpoint is shared with ClusterConnection "
            ∷ p.quote collides_with
            ∷ "; the two identities are cluster-scoped and shared between every connection to this cluster"
            ∷ []))
          "resolve the collision between the two ClusterConnections first, then re-run remove once only one of them still claims this endpoint"
          s
      else torn

  abbrev rechecked : String → String → Progress → Removal → Progress
  rechecked name kubectl s r = record {
    history = r.history;
    remaining = s.remaining ++ elim r.error [
      | none ↦ []
      | some e ↦ record { what = name; why = e.text; kubectl = kubectl } ∷ []
    ];
  }

  -- Step 5
  unfoldable pub recheck_step : Cluster → String → Progress → Progress
  unfolding remove_managed concat
  recheck_step cluster reason s =
      let again =
        rechecked (params.argocd_namespace <> "/" <> cluster.secret_name)
          (delete_secret_by_hand params.argocd_namespace cluster.secret_name) s
          (remove_managed server false (secret_at params.argocd_namespace cluster.secret_name)
            s.history) in
      if not params.dry_run && reason == "" then again else s

  -- The steps, once the cluster and the collision are known. The two inspections are reads.
  unfoldable pub teardown : Cluster → String → History → Progress
  unfolding remove_connection_step remove_secret_step downstream_step recheck_step
      inspect_argocd_secret_for_removal inspect_credential_secret_for_removal argocd_refusal_reason
      credential_refusal_reason
  teardown cluster collides_with h =
      let registration = secret_at params.argocd_namespace cluster.secret_name in
      let credential = secret_at params.namespace (credentials_secret_name cluster) in
      let secret_guard =
        inspect_argocd_secret_for_removal cluster.name (server.get_answer h registration) in
      let h1 = get registration ∷ h in
      let cred_guard =
        inspect_credential_secret_for_removal cluster.name (server.get_answer h1 credential) in
      let start = started (get credential ∷ h1) in
      let reason = argocd_refusal_reason p secret_guard in
      let s1 = remove_connection_step cluster start in
      let s2 =
        remove_secret_step params.argocd_namespace cluster.secret_name reason
          (not (secret_guard.belongs_to == "")) (is_unreadable secret_guard.target) s1 in
      let s3 =
        remove_secret_step params.namespace (credentials_secret_name cluster)
          (credential_refusal_reason p cred_guard) (not (cred_guard.belongs_to == ""))
          (not (is_nil cred_guard.verify_error)) s2 in
      recheck_step cluster reason (downstream_step cluster collides_with s3)

  abbrev pub shared_with : Resolved → List Entry → String
  shared_with r es = endpoint_collision es r.cluster.name r.cluster.endpoint

  abbrev pub with_inventory : Resolved → History → Result (List Entry) → Result Progress
  with_inventory r h (err e) = err (wrap "listing ClusterConnections: " e "")
  with_inventory r h (ok es) = ok (teardown r.cluster (shared_with r es) h)

  abbrev pub once_resolved : Result (List Entry) → History → Result Resolved → Result Progress
  once_resolved inventory h (err e) = err (wrap "reading the ClusterConnection: " e "")
  once_resolved inventory h (ok r) =
      if not r.used_fallback && not params.skip_downstream
      then with_inventory r h inventory
      else ok (teardown r.cluster "" h)

  -- executeRemoval: `connection` and `inventory` are what Client.Get and Client.List return.
  unfoldable pub execute_removal : Result Entry → Result (List Entry) → History → Result Progress
  unfolding teardown endpoint_collision resolve_removal_cluster
  execute_removal connection inventory h =
      once_resolved inventory h (resolve_removal_cluster p connection params.fallback)
