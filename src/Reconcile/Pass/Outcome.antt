-- ===== src/Reconcile/Pass/Outcome.antt =====
-- What a publication that succeeded has established, and what is left by one that was overwritten.
use k2a_token_sync.Base.{
  String, ◌<>◌, ◌≡◌, ◌≢◌, ◌∙◌, refl, sym, ap, true, false, Bool-cases, inl, inr, Option, none, some,
  List, ◌∷◌, ◌==◌, arith,
}
use k2a_token_sync.Time.{Duration, Time}
use k2a_token_sync.Errors.{Error, ok, err, is_sentinel, err_credential_replaced}
use k2a_token_sync.Action.{
  Action, Returns, >>=-Returns, on_error-Returns, from_result-Returns, pure-Returns, update, fail,
  ◌>>=◌, then_run,
}
use k2a_token_sync.Api.Reason.{reason_credential_replaced}
use k2a_token_sync.Argocd.{ClusterSecret}
use k2a_token_sync.Argocd.Refresh.{RefreshReason, reason_text}
use k2a_token_sync.Argocd.Refresh.{needs_refresh, is_blank, credential_replaced}
use k2a_token_sync.Argocd.Publish.{
  Registration, apply_credential, apply_registration, cluster_config, registration_config,
  hash_credential, field_manager_registration,
}
use k2a_token_sync.Config.{Cluster}
use k2a_token_sync.Kube.{local, History, request, apply_secret}
use k2a_token_sync.Kube.Objects.{Secret}
use k2a_token_sync.Kube.Trace.{send-Returns}
use k2a_token_sync.Downstream.Token.{Token}
use k2a_token_sync.Reconcile.{Reconciler, PassState, calling, on_status, emit}
use k2a_token_sync.Reconcile.Status.{fingerprint_from, reason_for}
use k2a_token_sync.Reconcile.Publication.{
  register, report_ownership, announce, settle_publication, publish, published_fingerprint,
}
use k2a_token_sync.Reconcile.Pass.Trace.{credential_config-ok}

module _ (rc : Reconciler) (cluster : Cluster) (now : Time) where
  abbrev Registered : ClusterSecret → History → Secret → Type 0
  Registered c h reply =
      rc.kube.answer h local
        (apply_secret field_manager_registration (registration_config rc.printer c))
      ≡ ok reply

  announce-history :
      (message : Option String) (s : PassState)
      → (announce rc cluster now message s).1.history ≡ s.history
  unfolding emit update
  announce-history none s = refl
  announce-history (some m) s = refl

  report_ownership-history :
      (foreign : List String) (s after : PassState)
      → Returns (report_ownership rc cluster now foreign) s tt after
      → after.history ≡ s.history
  unfolding report_ownership
  report_ownership-history foreign s after e = sym (ap (λ x. x.1.history) e) ∙ announce-history _ _

  calling-Returns :
      {A : Type 0} (m : Action History A) (s : PassState) (a : A) (after : PassState)
      → Returns (calling m) s a after
      → Returns m s.history a after.history
  unfolding calling
  calling-Returns m s a after e = ap (λ x. (x.0, x.1.history)) e

  register-Returns :
      (c : ClusterSecret) (s : PassState) (observed : Registration) (after : PassState)
      → Returns (register rc cluster now c) s observed after
      → (reply : Secret) × Registered c s.history reply
        × (after.history ≡ (
            request local
              (apply_secret field_manager_registration (registration_config rc.printer c))
            ∷ s.history))
        × (observed.credential_hash ≡ hash_credential rc.digest rc.codec reply)
  unfolding register apply_registration
  register-Returns c s observed after e =
      let (seen, mid, applied, rest) = >>=-Returns _ _ s observed after e in
      let (_, last, told, done) = >>=-Returns _ _ mid observed after rest in
      let made = calling-Returns _ s seen mid (on_error-Returns _ _ s seen mid applied) in
      let (reply, there, sent, packed) = >>=-Returns _ _ s.history seen mid.history made in
      let (said, shape) =
        send-Returns rc.kube local
          (apply_secret field_manager_registration (registration_config rc.printer c)) s.history
          reply there (on_error-Returns _ _ s.history reply there sent) in
      let (seen_is, _) = pure-Returns done in
      let (packed_is, there_is) = pure-Returns packed in
      (
        reply,
        said,
        sym (ap (λ x. x.history) (pure-Returns done).1)
            ∙ report_ownership-history seen.foreign_managers mid last told
            ∙ sym there_is
            ∙ shape,
        ap (λ x. x.credential_hash) (sym seen_is) ∙ sym (ap (λ x. x.credential_hash) packed_is),
      )

  apply_credential-written :
      (c : ClusterSecret) (h : History) (written : String) (after : History)
      → Returns (apply_credential rc.printer rc.digest rc.codec rc.kube local c) h written after
      → (payload : String) × (rc.codec.encode (cluster_config c) ≡ ok payload)
        × (written ≡ rc.digest payload)
  unfolding apply_credential
  apply_credential-written c h written after e =
      let (payload, mid, encoded, rest) = >>=-Returns _ _ h written after e in
      let (_, last, _, done) = >>=-Returns _ _ mid written after rest in
      (
        payload,
        credential_config-ok rc.codec c payload (from_result-Returns encoded).0,
        sym (pure-Returns done).0,
      )

  -- What a publication leaves in the status, and what it was told by its last call.
  abbrev pub Published : RefreshReason → ClusterSecret → PassState → Type 0
  Published reason c after =
      (payload : String) × (reply : Secret) × (before : History) × (rc.codec.encode
          (cluster_config c)
        ≡ ok payload)
      × (after.history ≡ (
          request local (apply_secret field_manager_registration (registration_config rc.printer c))
          ∷ before))
      × Registered c before reply
      × (hash_credential rc.digest rc.codec reply ≡ rc.digest payload)
      × (fingerprint_from after.status ≡ published_fingerprint rc cluster now c (rc.digest payload))
      × (after.status.last_action ≡ ("reissued the credential: " <> reason_text reason))

  settle-outcome :
      (reason : RefreshReason) (token : Token) (c : ClusterSecret) (written : String)
      (observed : Registration) (s : PassState)
      → let x = settle_publication rc cluster now reason token c written observed s in
        (x.0 ≡ ok tt → observed.credential_hash ≡ written)
        × (x.1.history ≡ s.history)
        × (fingerprint_from x.1.status ≡ published_fingerprint rc cluster now c written)
        × (x.0 ≡ ok tt
            → x.1.status.last_action ≡ ("reissued the credential: " <> reason_text reason))
  unfolding settle_publication ◌>>=◌ then_run on_status emit update fail fingerprint_from
  settle-outcome reason token c written observed s =
      elim (Bool-cases (observed.credential_hash == written)) [
        | inl same ↦ rw same (λ _. ground arith, refl, refl, λ _. refl)
        | inr differ ↦
            rw differ (λ bad. absurd (ground arith), refl, refl, λ bad. absurd (ground arith))
      ]

  -- A publication whose credential was overwritten, with one that is not empty, fails as
  -- CredentialReplaced, and what it leaves in the status makes a later pass that still finds the
  -- other credential mint again for that reason, whatever the configuration and the clock say
  -- then.
  pub settle-overwritten :
      (reason : RefreshReason) (token : Token) (c : ClusterSecret) (written : String)
      (observed : Registration) (s : PassState)
      → observed.credential_hash ≢ written
      → observed.credential_hash ≢ ""
      → written ≢ ""
      → (desired : ClusterSecret) (ttl : Duration) (later : Time)
      → let x = settle_publication rc cluster now reason token c written observed s in
        (e : Error) × (x.0 ≡ err e)
        × (is_sentinel e err_credential_replaced ≡ true)
        × (reason_for e ≡ reason_credential_replaced)
        × (needs_refresh rc.digest
              (fingerprint_from x.1.status)
              observed.credential_hash
              desired
              ttl
              later
            ≡ some credential_replaced)
  unfolding settle_publication ◌>>=◌ then_run on_status emit update fail fingerprint_from reason_for
      needs_refresh is_blank published_fingerprint
  settle-overwritten reason token c written observed s differ there sent desired ttl later =
      let unequal : observed.credential_hash == written ≡ false = ground arith in
      rw unequal (_, refl, refl, refl, ground arith)

  -- A publication that succeeds was told by its last call, the apply of the registration, that the
  -- server holds the credential it sent, and the status records the digest of that credential with
  -- what was published.
  pub publish-Published :
      (reason : RefreshReason) (token : Token) (c : ClusterSecret) (s after : PassState)
      → Returns (publish rc cluster now reason token c) s tt after
      → Published reason c after
  unfolding publish
  publish-Published reason token c s after e =
      let (written, mid, sent, rest) = >>=-Returns _ _ s tt after e in
      let (observed, last, registered, settled) = >>=-Returns _ _ mid tt after rest in
      let made = calling-Returns _ s written mid (on_error-Returns _ _ s written mid sent) in
      let (payload, encoded, digested) =
        apply_credential-written c s.history written mid.history made in
      let (reply, said, shape, observed_is) = register-Returns c mid observed last registered in
      let (same, kept, recorded, action) = settle-outcome reason token c written observed last in
      let outcome = ap (λ x. x.0) settled in
      let left = ap (λ x. x.1) settled in
      (
        payload,
        reply,
        mid.history,
        encoded,
        ap (λ x. x.history) (sym left) ∙ kept ∙ shape,
        said,
        sym observed_is ∙ same outcome ∙ digested,
        ap (λ x. fingerprint_from x.status) (sym left)
            ∙ recorded
            ∙ ap (published_fingerprint rc cluster now c) digested,
        ap (λ x. x.status.last_action) (sym left) ∙ action outcome,
      )
