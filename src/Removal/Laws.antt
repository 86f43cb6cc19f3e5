-- ===== src/Removal/Laws.antt =====
-- What a teardown can delete, for any answers of the servers.
use k2a_token_sync.Base.{
  String, ◌≡◌, inl, inr, refl, subst, Bool, true, false, not, Bool-cases, List, ◌∷◌, ◌==◌, ◌&&◌,
  arith,
}
use k2a_token_sync.Errors.{Result, ok, err}
use k2a_token_sync.Config.{Cluster}
use k2a_token_sync.Format.{Printer}
use k2a_token_sync.Inventory.{Entry}
use k2a_token_sync.Removal.{
  cluster_connection, Address, get, History, Server, remove_managed, remove_cluster_connection,
}
use k2a_token_sync.Removal.Guards.{Resolved}
use k2a_token_sync.Removal.Report.{RemoveParams, Progress}
use k2a_token_sync.Removal.Teardown.{
  remove_secret_step, remove_downstream, downstream_step, recheck_step, teardown, with_inventory,
  once_resolved,
}

ok-inj : {s t : Progress} → ok s ≡ ok t → s ≡ t
ok-inj e = ground arith

module _ (p : Printer) (server : Server) (params : RemoveParams) (I : History → Type 0)
    (reads : (o : Address) (h : History) → I h → I (get o ∷ h))
    (managed : (o : Address) (h : History)
      → I h
      → I (remove_managed server params.dry_run o h).history)
    (connection : (o : Address) (h : History)
      → o.kind ≡ cluster_connection
      → I h
      → I (remove_cluster_connection server params.dry_run o h).history)
    (again : not params.dry_run ≡ true
      → (o : Address) (h : History) → I h
      → I (remove_managed server false o h).history) where
  secret_step-keeps :
      (ns name reason : String) (a b : Bool) (s : Progress)
      → I s.history
      → I (remove_secret_step p server params ns name reason a b s).history
  unfolding remove_secret_step
  secret_step-keeps ns name reason a b s i = elim (Bool-cases (reason == "")) [
    | inl clear ↦ rw clear (managed _ _ i)
    | inr refusal ↦ rw refusal i
  ]

  downstream-keeps :
      (cluster : Cluster) (s : Progress)
      → I s.history
      → I (remove_downstream p server params cluster s).history
  unfolding remove_downstream
  downstream-keeps cluster s i =
      managed _ _ (managed _ _ (managed _ _ (managed _ _ (managed _ _ i))))

  downstream_step-keeps :
      (cluster : Cluster) (collides : String) (s : Progress)
      → I s.history
      → I (downstream_step p server params cluster collides s).history
  unfolding downstream_step
  downstream_step-keeps cluster collides s i = elim (Bool-cases params.skip_downstream) [
    | inl skip ↦ rw skip i
    | inr go ↦ elim (Bool-cases (collides == "")) [
      | inl clear ↦ rw (go, clear) (downstream-keeps cluster s i)
      | inr shared ↦ rw (go, shared) i
    ]
  ]

  recheck_step-keeps :
      (cluster : Cluster) (reason : String) (s : Progress)
      → I s.history
      → I (recheck_step p server params cluster reason s).history
  unfolding recheck_step
  recheck_step-keeps cluster reason s i = elim (Bool-cases (not params.dry_run && reason == "")) [
    | inl due ↦ rw due (again (ground arith) _ _ i)
    | inr done ↦ rw done i
  ]

  teardown-keeps :
      (cluster : Cluster) (collides : String) (h : History)
      → I h
      → I (teardown p server params cluster collides h).history
  unfolding teardown
  teardown-keeps cluster collides h i = recheck_step-keeps cluster _ _ (
      downstream_step-keeps cluster collides _ (
        secret_step-keeps _ _ _ _ _ _
          (secret_step-keeps _ _ _ _ _ _ (connection _ _ refl (reads _ _ (reads _ _ i))))))

  with_inventory-keeps :
      (r : Resolved) (h : History) (inventory : Result (List Entry)) (s : Progress)
      → I h
      → with_inventory p server params r h inventory ≡ ok s
      → I s.history
  with_inventory-keeps r h (err e) s i eq = absurd (ground arith)
  with_inventory-keeps r h (ok es) s i eq =
      subst (λ t. I t.history) (ok-inj eq) (teardown-keeps r.cluster _ h i)

  pub once_resolved-keeps :
      (inventory : Result (List Entry)) (h : History) (resolved : Result Resolved) (s : Progress)
      → I h
      → once_resolved p server params inventory h resolved ≡ ok s
      → I s.history
  once_resolved-keeps inventory h (err e) s i eq = absurd (ground arith)
  once_resolved-keeps inventory h (ok r) s i eq =
      elim (Bool-cases (not r.used_fallback && not params.skip_downstream)) [
        | inl compared ↦ with_inventory-keeps r h inventory s i (rw compared at eq)
        | inr unseen ↦
            subst (λ t. I t.history) (ok-inj (rw unseen at eq)) (teardown-keeps r.cluster _ h i)
      ]
