-- ===== src/Reconcile/Renewal/Safety.antt =====
-- The tool's own credential is replaced only by one that has just been used.
use k2a_token_sync.Base.{String, ◌≡◌, ◌∙◌, refl, sym, subst, ◌∷◌, arith}
use k2a_token_sync.Base.Dict.{Dict}
use k2a_token_sync.Errors.{Result, ok, err}
use k2a_token_sync.Action.{
  Stays, Returns, stays_rules, pure, pure-Stays, on_error-Stays, pure-Returns, >>=-Returns,
  on_error-Returns, from_result-Returns, >>=-ensures, attempt,
}
use k2a_token_sync.Config.{Cluster, server_url, credentials_secret_name}
use k2a_token_sync.Format.{Printer}
use k2a_token_sync.Kube.{
  Client, by_token, local, Call, History, Kube, request, get_config_map, create_secret,
  update_secret,
}
use k2a_token_sync.Kube.Objects.{Secret}
use k2a_token_sync.Kube.Trace.{Licensed, IsFree, send-Returns, IsRetry}
use k2a_token_sync.Kube.Secrets.{stored_data, credentials_secret, write_credentials}
use k2a_token_sync.Kube.Secrets.Laws.{Carries, stored_data-NodupKeys, upsert_secret-Stays}
use k2a_token_sync.Downstream.{root_ca_config_map}
use k2a_token_sync.Downstream.Token.{Token, cluster_ca}
use k2a_token_sync.Downstream.Trace.{mint_token-Stays, cluster_ca-Stays}
use k2a_token_sync.Reconcile.{Reconciler}
use k2a_token_sync.Reconcile.Access.{ClusterAccess, client_from_token}
use k2a_token_sync.Reconcile.Renewal.{
  replacement, credential_labels, prove_replacement, store_replacement, after_store, after_proof,
  after_mint, replace_self_credential,
}

-- Somewhere in the trace the server answered a read of the CA bundle with this token, over a
-- connection verified against this CA.
pub data Used (kube : Kube) (server token ca : String) : History → Type 0 where
  here :
      (namespace : String) (entries : Dict String) (h : History)
      → kube.answer h (by_token server token ca) (get_config_map namespace root_ca_config_map)
        ≡ ok entries
      → Used kube server token ca
          (request (by_token server token ca) (get_config_map namespace root_ca_config_map) ∷ h)
  there : (c : Call) (h : History) → Used kube server token ca h → Used kube server token ca (c ∷ h)

pub client_from_token-ok :
    (kube : Kube) (server token ca : String) (client : Client)
    → client_from_token kube server token ca ≡ ok client
    → client ≡ by_token server token ca
unfolding client_from_token
client_from_token-ok kube server token ca client e = ground arith

pub cluster_ca-Returns :
    (p : Printer) (kube : Kube) (client : Client) (namespace : String) (h : History) (ca : String)
    (after : History)
    → Returns (cluster_ca p kube client namespace) h ca after
    → (entries : Dict String) × (kube.answer h client (get_config_map namespace root_ca_config_map)
        ≡ ok entries)
      × (after ≡ (request client (get_config_map namespace root_ca_config_map) ∷ h))
unfolding cluster_ca
cluster_ca-Returns p kube client namespace h ca after e =
    let (entries, mid, read, rest) = >>=-Returns _ _ h ca after e in
    let (said, shape) =
      send-Returns kube client (get_config_map namespace root_ca_config_map) h entries mid
        (on_error-Returns _ _ h entries mid read) in
    (entries, said, sym (from_result-Returns rest).1 ∙ shape)

-- A read with the token is a use of it.
read-Used :
    (kube : Kube) (server token ca namespace : String) (client : Client) (entries : Dict String)
    (h after : History)
    → client ≡ by_token server token ca
    → kube.answer h client (get_config_map namespace root_ca_config_map) ≡ ok entries
    → after ≡ (request client (get_config_map namespace root_ca_config_map) ∷ h)
    → Used kube server token ca after
read-Used kube server token ca namespace client entries h after e =
    subst
      (λ c.
        kube.answer h c (get_config_map namespace root_ca_config_map) ≡ ok entries
        → after ≡ (request c (get_config_map namespace root_ca_config_map) ∷ h)
        → Used kube server token ca after)
      (sym e)
      (λ said shape. subst (Used kube server token ca) (sym shape) (here namespace entries h said))

module _ (rc : Reconciler) (cluster : Cluster) (held : ClusterAccess) where
  abbrev UsedFor : Token → History → Type 0
  UsedFor token = Used rc.kube (server_url cluster) token.value held.ca

  prove_replacement-used :
      (token : Token) (h after : History)
      → Returns (prove_replacement rc cluster held token) h tt after
      → UsedFor token after
  unfolding prove_replacement
  prove_replacement-used token h after e =
      let namespace = cluster.service_account.namespace in
      let (client, mid, built, rest) = >>=-Returns _ _ h tt after e in
      let (made, _) = from_result-Returns (on_error-Returns _ _ h client mid built) in
      let (ca, last, read, done) = >>=-Returns _ _ mid tt after rest in
      let (entries, said, shape) =
        cluster_ca-Returns rc.printer rc.kube client namespace mid ca last
          (on_error-Returns _ _ mid ca last read) in
      read-Used rc.kube (server_url cluster) token.value held.ca namespace client entries mid after
        (client_from_token-ok rc.kube (server_url cluster) token.value held.ca client made) said
        (sym (pure-Returns done).1 ∙ shape)

  abbrev pub stored_for : Token → Dict String
  stored_for token = stored_data rc.printer (replacement rc cluster held token)

  -- A license to write any Secret that holds a replacement which has been used.
  abbrev pub MayStore : (History → Call → Type 0) → Type 0
  MayStore L =
      (token : Token) (h : History) (s : Secret)
      → UsedFor token h
      → Carries (stored_for token) s
      → L h (request local (create_secret s)) × L h (request local (update_secret s))

  module _ {L : History → Call → Type 0} (free : IsFree L) (may : MayStore L)
      (retries : IsRetry rc.kube) where
    store_replacement-Stays :
        (token : Token)
        → Stays (λ h. Licensed L h × UsedFor token h) (store_replacement rc cluster held token)
    unfolding store_replacement write_credentials
    store_replacement-Stays token = on_error-Stays _ _ (
        upsert_secret-Stays free rc.kube retries local
          (credentials_secret rc.printer rc.namespace (credentials_secret_name cluster)
            (replacement rc cluster held token) (credential_labels rc cluster held))
          (UsedFor token) (λ c h u. there c h u) (λ h u. (may token h _ u (λ key value e. e)).0)
          (λ h s u carries. (may token h s u carries).1)
          (stored_data-NodupKeys rc.printer (replacement rc cluster held token)))

    after_store-Stays :
        {I : History → Type 0} (token : Token) (stored : Result (Unit {0}))
        → Stays I (after_store rc cluster held token stored)
    after_store-Stays token (ok _) = pure-Stays _
    after_store-Stays token (err e) = pure-Stays _

    prove_replacement-Stays :
        (token : Token) → Stays (Licensed L) (prove_replacement rc cluster held token)
    unfolding prove_replacement
    prove_replacement-Stays token = search (stays_rules, cluster_ca-Stays free rc.printer rc.kube)

    after_proof-Licensed :
        (token : Token) (proven : Result (Unit {0})) (h : History)
        → Licensed L h
        → (proven ≡ ok tt → UsedFor token h)
        → Licensed L (after_proof rc cluster held token proven h).1
    unfolding pure
    after_proof-Licensed token (err e) h l used = l
    after_proof-Licensed token (ok _) h l used =
        let both : Stays (λ h'. Licensed L h' × UsedFor token h')
            (after_proof rc cluster held token (ok tt)) =
          search (stays_rules, store_replacement-Stays, after_store-Stays) in
        (both.stays h (l, used refl)).0

    after_mint-Stays :
        (minted : Result Token) → Stays (Licensed L) (after_mint rc cluster held minted)
    unfolding attempt
    after_mint-Stays (err e) = pure-Stays _
    after_mint-Stays (ok token) = record {
      stays = λ h l.
          >>=-ensures (attempt (prove_replacement rc cluster held token))
            (after_proof rc cluster held token) h (λ r after. Licensed L after)
            (λ proven e.
              after_proof-Licensed token proven (prove_replacement rc cluster held token h).1
                ((prove_replacement-Stays token).stays h l)
                (λ good.
                  prove_replacement-used token h (prove_replacement rc cluster held token h).1
                    (ground arith)))
            (λ e f. (prove_replacement-Stays token).stays h l);
    }

    -- What renewal does to a trace: it stays licensed.
    pub replace_self_credential-Stays : Stays (Licensed L) (replace_self_credential rc cluster held)
    unfolding replace_self_credential
    replace_self_credential-Stays =
        search (stays_rules, mint_token-Stays free rc.printer rc.kube, after_mint-Stays)
