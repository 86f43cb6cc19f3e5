-- ===== src/Downstream/Token.antt =====
-- MintToken, CanActAsClusterAdmin and ClusterCA.
use k2a_token_sync.Base.{String, ◌<>◌, concat, Bool, [], ◌∷◌, if◌then◌else◌, ◌==◌}
use k2a_token_sync.Base.Int.{pos, leb_ℤ}
use k2a_token_sync.Base.Dict.{Dict, lookup, text_or_empty}
use k2a_token_sync.Time.{Time, Duration}
use k2a_token_sync.Errors.{Result, ok, err, new_error, wrap}
use k2a_token_sync.Action.{Action, fail, from_result, on_error, ◌>>=◌}
use k2a_token_sync.Format.{Printer}
use k2a_token_sync.Kube.{Client, Kube, History, send, create_token, review_access, get_config_map}
use k2a_token_sync.Kube.Objects.{TokenStatus}
use k2a_token_sync.Downstream.{root_ca_config_map, root_ca_key}

-- downstream.Token
pub record Token : Type 0 where
  pub value : String
  pub expires_at : Time

-- The reply to a token request, checked.
unfoldable pub token_of : String → String → TokenStatus → Result Token
unfolding concat
token_of namespace name status =
    if status.token == ""
    then err (
        new_error (
          concat ("token request for " ∷ namespace ∷ "/" ∷ name ∷ " returned an empty token" ∷ [])))
    else ok (record { value = status.token; expires_at = status.expiration_timestamp })

-- The bundle in a kube-root-ca.crt ConfigMap, checked.
unfoldable pub bundle_of : Printer → String → Dict String → Result String
unfolding concat lookup
bundle_of p namespace entries =
    let ca = text_or_empty (lookup root_ca_key entries) in
    if ca == ""
    then err (
        new_error (
          concat (
            "configmap "
            ∷ namespace
            ∷ "/"
            ∷ root_ca_config_map
            ∷ " has no "
            ∷ p.quote root_ca_key
            ∷ " entry"
            ∷ [])))
    else ok ca

module _ (p : Printer) (kube : Kube) where
  -- MintToken
  unfoldable pub mint_token : Client → String → String → Duration → Action History Token
  unfolding token_of concat
  mint_token client namespace name ttl =
      let account = concat (namespace ∷ "/" ∷ name ∷ []) in
      if leb_ℤ ttl (pos 0)
      then fail (
          new_error (
            concat (
              "refusing to mint a token for "
              ∷ account
              ∷ " with a lifetime of "
              ∷ p.duration ttl
              ∷ ": the requested lifetime was never set"
              ∷ [])))
      else do
        status ←
            on_error (λ e. wrap ("minting token for serviceaccount " <> account <> ": ") e "")
              (send kube client (create_token namespace name (p.whole_seconds ttl)))
        from_result (token_of namespace name status)

  -- CanActAsClusterAdmin
  unfoldable pub can_act_as_cluster_admin : Client → Action History Bool
  can_act_as_cluster_admin client =
      on_error (λ e. wrap "asking the API server what this credential may do: " e "")
        (send kube client (review_access "*" "*" "*"))

  -- ClusterCA
  unfoldable pub cluster_ca : Client → String → Action History String
  unfolding bundle_of concat
  cluster_ca client namespace = do
    entries ←
        on_error
          (λ e. wrap (concat ("reading " ∷ namespace ∷ "/" ∷ root_ca_config_map ∷ ": " ∷ [])) e "")
          (send kube client (get_config_map namespace root_ca_config_map))
    from_result (bundle_of p namespace entries)
