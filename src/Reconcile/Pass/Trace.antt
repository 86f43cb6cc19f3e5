-- ===== src/Reconcile/Pass/Trace.antt =====
-- Every call of a pass has its license.
use k2a_token_sync.Base.{
  String, ◌≡◌, ◌⊎◌, ◌∙◌, inl, inr, refl, sym, Bool, false, Option, none, some, List, ◌∷◌, arith,
}
use k2a_token_sync.Time.{Time}
use k2a_token_sync.Errors.{ok}
use k2a_token_sync.Action.{
  Stays, Returns, stays_rules, >>=-ensures, >>=-Returns, on_error-Returns, pure-Returns, on_error,
  from_result, pure, update, ◌>>◌,
}
use k2a_token_sync.Api.{ClusterConnectionStatus}
use k2a_token_sync.Argocd.{ClusterSecret, Fingerprint}
use k2a_token_sync.Argocd.Refresh.{is_blank}
use k2a_token_sync.Argocd.Publish.{
  credential_config, credential_secret, cluster_config, apply_credential, apply_registration,
  field_manager_credential, Codec,
}
use k2a_token_sync.Config.{Cluster, server_url}
use k2a_token_sync.Kube.{local, by_token, History, request, apply_secret, review_access, send}
use k2a_token_sync.Kube.Trace.{Licensed, send-Returns}
use k2a_token_sync.Reconcile.{Reconciler, PassState, Event, calling, on_status, emit}
use k2a_token_sync.Reconcile.Publication.{announce, report_ownership, register}
use k2a_token_sync.Reconcile.Pass.License.{JustProven, JustApplied, PassLicense}

pub credential_config-ok :
    (codec : Codec) (c : ClusterSecret) (payload : String)
    → credential_config codec c ≡ ok payload
    → codec.encode (cluster_config c) ≡ ok payload
unfolding credential_config
credential_config-ok codec c payload e = ground arith

module _ (rc : Reconciler) (cluster : Cluster) (f : Fingerprint) where
  abbrev pub Fine : History → Type 0
  Fine = Licensed (PassLicense rc cluster f)

  -- What verifyForArgoCD leaves: the last call proved the token and the CA of the registration.
  abbrev pub Proven : ClusterSecret → History → Type 0
  Proven c h =
      (before : History) × (allowed : Bool) × (h ≡ (
        request (by_token c.server c.bearer_token c.ca_data) (review_access "*" "*" "*") ∷ before))
      × (rc.kube.answer before (by_token c.server c.bearer_token c.ca_data)
            (review_access "*" "*" "*")
          ≡ ok allowed)

  -- The credential goes out with the proof just before it.
  pub apply_credential-Fine :
      (c : ClusterSecret) (h : History)
      → c.server ≡ server_url cluster
      → Proven c h
      → Fine h
      → Fine (apply_credential rc.printer rc.digest rc.codec rc.kube local c h).1
  unfolding apply_credential from_result on_error send pure
  apply_credential-Fine c h here (before, allowed, shape, said) l =
      >>=-ensures _ _ h (λ r after. Fine after)
        (λ payload e.
          let encoded = credential_config-ok rc.codec c payload e in
          let license : JustProven rc cluster h (credential_secret c payload) =
            (c, payload, before, allowed, refl, encoded, here, shape, said) in
          >>=-ensures _ _ h (λ r after. Fine after) (λ reply _. (inl (refl, license), l))
            (λ bad _. (inl (refl, license), l)))
        (λ bad e. l)

  pub apply_credential-applied :
      (c : ClusterSecret) (h : History) (written : String) (after : History)
      → Returns (apply_credential rc.printer rc.digest rc.codec rc.kube local c) h written after
      → JustApplied rc cluster after
  unfolding apply_credential
  apply_credential-applied c h written after e =
      let (payload, mid, encoded, rest) = >>=-Returns _ _ h written after e in
      let (reply, last, sent, done) = >>=-Returns _ _ mid written after rest in
      let call = apply_secret field_manager_credential (credential_secret c payload) in
      let (said, shape) =
        send-Returns rc.kube local call mid reply last (on_error-Returns _ _ mid reply last sent) in
      (credential_secret c payload, reply, mid, sym (pure-Returns done).1 ∙ shape, said)

  -- When the registration may go out.
  abbrev pub Announces : History → Type 0
  Announces h = (is_blank f ≡ false) ⊎ JustApplied rc cluster h

  apply_registration-Fine :
      (c : ClusterSecret) (h : History)
      → Announces h
      → Fine h
      → Fine (apply_registration rc.printer rc.digest rc.codec rc.kube local c h).1
  unfolding apply_registration on_error send pure
  apply_registration-Fine c h may l =
      >>=-ensures _ _ h (λ r after. Fine after) (λ reply _. (inr (refl, may), l))
        (λ bad _. (inr (refl, may), l))

  module _ (now : Time) where
    abbrev pub FineState : PassState → Type 0
    FineState s = Fine s.history

    announce-Stays : (message : Option String) → Stays FineState (announce rc cluster now message)
    unfolding emit update
    announce-Stays none = record { stays = λ s l. l }
    announce-Stays (some m) = record { stays = λ s l. l }

    report_ownership-Stays :
        (foreign : List String) → Stays FineState (report_ownership rc cluster now foreign)
    unfolding report_ownership
    report_ownership-Stays foreign = record {
      stays = λ s l. (announce-Stays _).stays (record s { status = _ }) l;
    }

    pub on_status-Stays :
        (g : ClusterConnectionStatus → ClusterConnectionStatus) → Stays FineState (on_status g)
    unfolding on_status update
    on_status-Stays g = record { stays = λ s l. l }

    pub emit-Stays : (e : Event) → Stays FineState (emit e)
    unfolding emit update
    emit-Stays e = record { stays = λ s l. l }

    pub register-Fine :
        (c : ClusterSecret) (s : PassState)
        → Announces s.history
        → FineState s
        → FineState (register rc cluster now c s).1
    unfolding register calling on_error
    register-Fine c s may l =
        let after = apply_registration-Fine c s.history may l in
        >>=-ensures _ _ s (λ r s'. FineState s')
          (λ observed _.
            let rest : Stays FineState
                (report_ownership rc cluster now observed.foreign_managers >> pure observed) =
              search (stays_rules, report_ownership-Stays) in
            rest.stays _ after)
          (λ bad _. after)
