-- ===== src/Reconcile/Pass/Safety.antt =====
-- What a pass publishes and stores, and what has gone before.
use k2a_token_sync.Base.{
  String, ◌≡◌, ◌∙◌, inl, inr, refl, sym, subst, ap, Bool, true, false, Option, none, some, ◌∷◌,
}
use k2a_token_sync.Time.{Time}
use k2a_token_sync.Errors.{ok}
use k2a_token_sync.Action.{
  Stays, Returns, returned, relabelled-ok, stays_rules, >>=-ensures, >>=-Returns, on_error-Returns,
  from_result-Returns, pure-Returns, on_error, pure,
}
use k2a_token_sync.Argocd.{ClusterSecret, Fingerprint}
use k2a_token_sync.Argocd.Publish.{Registration, apply_credential}
use k2a_token_sync.Argocd.Refresh.{RefreshReason, is_blank}
use k2a_token_sync.Config.{Cluster, server_url}
use k2a_token_sync.Kube.{local, by_token, Client, History, request, review_access}
use k2a_token_sync.Kube.Trace.{send-Returns}
use k2a_token_sync.Downstream.{Repairs}
use k2a_token_sync.Downstream.Token.{Token, mint_token, can_act_as_cluster_admin}
use k2a_token_sync.Downstream.Trace.{mint_token-Stays, can_act_as_cluster_admin-Stays}
use k2a_token_sync.Reconcile.{Reconciler, PassState, calling}
use k2a_token_sync.Reconcile.Access.{ClusterAccess, verify_for_argocd}
use k2a_token_sync.Reconcile.Renewal.Safety.{client_from_token-ok}
use k2a_token_sync.Reconcile.Status.{fingerprint_from}
use k2a_token_sync.Reconcile.Pass.{reissue, act_on, observe, converge}
use k2a_token_sync.Reconcile.Publication.{
  register, settle_publication, publish, report_reissue, with_token, desired_secret,
}
use k2a_token_sync.Reconcile.Pass.License.{PassLicense-IsFree}
use k2a_token_sync.Reconcile.Pass.Trace.{
  Fine, FineState, Proven, apply_credential-Fine, apply_credential-applied, register-Fine,
  on_status-Stays, emit-Stays,
}

module _ (rc : Reconciler) (cluster : Cluster) (f : Fingerprint) where
  -- A credential that was asked with and answered is proven.
  asked-Proven :
      (c : ClusterSecret) (client : Client) (allowed : Bool) (h after : History)
      → client ≡ by_token c.server c.bearer_token c.ca_data
      → rc.kube.answer h client (review_access "*" "*" "*") ≡ ok allowed
      → after ≡ (request client (review_access "*" "*" "*") ∷ h)
      → Proven rc cluster f c after
  asked-Proven c client allowed h after e =
      subst
        (λ x.
          rc.kube.answer h x (review_access "*" "*" "*") ≡ ok allowed
          → after ≡ (request x (review_access "*" "*" "*") ∷ h)
          → Proven rc cluster f c after)
        (sym e) (λ said shape. (h, allowed, shape, said))

  verify-Proven :
      (c : ClusterSecret) (h after : History)
      → c.server ≡ server_url cluster
      → Returns (verify_for_argocd rc cluster c.bearer_token c.ca_data) h tt after
      → Proven rc cluster f c after
  unfolding verify_for_argocd can_act_as_cluster_admin
  verify-Proven c h after here e =
      let (client, mid, built, rest) = >>=-Returns _ _ h tt after e in
      let (made, _) = from_result-Returns (on_error-Returns _ _ h client mid built) in
      let (allowed, last, asked, done) = >>=-Returns _ _ mid tt after rest in
      let (said, shape) =
        send-Returns rc.kube client (review_access "*" "*" "*") mid allowed last
          (on_error-Returns _ _ mid allowed last (on_error-Returns _ _ mid allowed last asked)) in
      let is_client =
        client_from_token-ok rc.kube (server_url cluster) c.bearer_token c.ca_data client made in
      asked-Proven c client allowed mid after
        (is_client ∙ ap (λ x. by_token x c.bearer_token c.ca_data) (sym here)) said
        (sym (pure-Returns done).1 ∙ shape)

  verify-Stays :
      (token ca : String) → Stays (Fine rc cluster f) (verify_for_argocd rc cluster token ca)
  unfolding verify_for_argocd
  verify-Stays token ca = search (
    stays_rules,
    can_act_as_cluster_admin-Stays (PassLicense-IsFree rc cluster f) rc.printer rc.kube,
  )

  module _ (now : Time) where
    report_reissue-Stays :
        (reason : RefreshReason) (token : Token)
        → Stays (FineState rc cluster f now) (report_reissue rc cluster now reason token)
    report_reissue-Stays reason token =
        search (stays_rules, on_status-Stays rc cluster f now, emit-Stays rc cluster f now)

    settle-Stays :
        (reason : RefreshReason) (token : Token) (c : ClusterSecret) (written : String)
        (observed : Registration)
        → Stays
            (FineState rc cluster f now)
            (settle_publication rc cluster now reason token c written observed)
    unfolding settle_publication
    settle-Stays reason token c written observed =
        search (stays_rules, on_status-Stays rc cluster f now, report_reissue-Stays)

    publish-Fine :
        (reason : RefreshReason) (token : Token) (c : ClusterSecret) (s : PassState)
        → c.server ≡ server_url cluster
        → Proven rc cluster f c s.history
        → FineState rc cluster f now s
        → FineState rc cluster f now (publish rc cluster now reason token c s).1
    unfolding publish calling on_error
    publish-Fine reason token c s here proven l =
        let apply = apply_credential rc.printer rc.digest rc.codec rc.kube local c in
        let after = apply_credential-Fine rc cluster f c s.history here proven l in
        let sent = record s { history = (apply s.history).1 } in
        >>=-ensures _ _ s (λ r s'. FineState rc cluster f now s')
          (λ written e.
            let applied =
              apply_credential-applied rc cluster f c s.history written (apply s.history).1 (
                returned apply s.history written (relabelled-ok _ (apply s.history).0 written e)) in
            let registered = register-Fine rc cluster f now c sent (inr applied) after in
            >>=-ensures (register rc cluster now c)
              (settle_publication rc cluster now reason token c written) sent
              (λ r s'. FineState rc cluster f now s')
              (λ observed _. (settle-Stays reason token c written observed).stays _ registered)
              (λ bad _. registered))
          (λ bad _. after)

    reissue-Fine :
        (held : ClusterAccess) (reason : RefreshReason) (c : ClusterSecret) (s : PassState)
        → c.server ≡ server_url cluster
        → FineState rc cluster f now s
        → FineState rc cluster f now (reissue rc cluster now held c.ca_data reason c s).1
    unfolding reissue calling with_token
    reissue-Fine held reason c s here l =
        let mint =
          mint_token rc.printer rc.kube held.client cluster.service_account.namespace
            cluster.service_account.name cluster.token_ttl in
        let minted =
          (mint_token-Stays (PassLicense-IsFree rc cluster f) rc.printer rc.kube held.client
              cluster.service_account.namespace cluster.service_account.name
              cluster.token_ttl).stays
            s.history l in
        let got = record s { history = (mint s.history).1 } in
        >>=-ensures (calling mint) _ s (λ r s'. FineState rc cluster f now s')
          (λ token _.
            let verify = verify_for_argocd rc cluster token.value c.ca_data in
            let kept = (verify-Stays token.value c.ca_data).stays got.history minted in
            >>=-ensures (calling verify)
              (λ _. publish rc cluster now reason token (with_token rc cluster now token c)) got
              (λ r s'. FineState rc cluster f now s')
              (λ _ e.
                publish-Fine reason token (with_token rc cluster now token c)
                  (record got { history = (verify got.history).1 }) here
                  (verify-Proven (with_token rc cluster now token c) got.history
                    (verify got.history).1 here (returned verify got.history tt e))
                  kept)
              (λ bad _. kept))
          (λ bad _. minted)

    act_on-Fine :
        (held : ClusterAccess) (c : ClusterSecret) (reason : Option RefreshReason) (s : PassState)
        → c.server ≡ server_url cluster
        → FineState rc cluster f now s
        → FineState rc cluster f now (act_on rc cluster now held c.ca_data c reason s).1
    act_on-Fine held c none s here l = (on_status-Stays rc cluster f now _).stays s l
    act_on-Fine held c (some reason) s here l = reissue-Fine held reason c s here l

    -- The registration is applied on its own only where something was published before.
    observe-Fine :
        (first : Bool) (c : ClusterSecret) (s : PassState)
        → is_blank f ≡ first
        → FineState rc cluster f now s
        → FineState rc cluster f now (observe rc cluster now first c s).1
    unfolding observe pure
    observe-Fine true c s e l = l
    observe-Fine false c s e l =
        let registered = register-Fine rc cluster f now c s (inl e) l in
        >>=-ensures (register rc cluster now c) _ s (λ r s'. FineState rc cluster f now s')
          (λ observed _. registered) (λ bad _. registered)

    pub converge-Fine :
        (held : ClusterAccess) (ca : String) (repairs : Repairs) (s : PassState)
        → fingerprint_from s.status ≡ f
        → FineState rc cluster f now s
        → FineState rc cluster f now (converge rc cluster now held ca repairs s).1
    unfolding converge desired_secret
    converge-Fine held ca repairs s e l =
        let desired = desired_secret rc cluster now ca s.status in
        let first = is_blank (fingerprint_from s.status) in
        let observed = observe-Fine first desired s (ap is_blank (sym e)) l in
        >>=-ensures (observe rc cluster now first desired) _ s
          (λ r s'. FineState rc cluster f now s')
          (λ published _. act_on-Fine held desired _ _ refl observed) (λ bad _. observed)
