-- ===== src/Downstream/Probe.antt =====
-- ServingCert, DaysRemaining and ProbeServingCert.
use k2a_token_sync.Base.{
  String, ◌<>◌, concat, join, Bool, true, not, ◌&&◌, Option, none, some, List, [], ◌∷◌, ◌++◌,
  if◌then◌else◌, ◌==◌, is_nil,
}
use k2a_token_sync.Base.Int.{ℤ}
use k2a_token_sync.Time.{Time, sub}
use k2a_token_sync.Errors.{Error, Result, ok, err, new_error, wrap}
use k2a_token_sync.Action.{Action, fail, from_result, on_error, ◌>>=◌}
use k2a_token_sync.Format.{Printer, Parser}
use k2a_token_sync.Kube.{Kube, History, Certificate, Handshake, dial}

-- ServingCert
pub record ServingCert : Type 0 where
  pub not_after : Time
  pub subject : String
  pub serial : String
  pub trusted_by_ca : Bool
  pub hostname_error : Option Error

-- DaysRemaining
unfoldable pub days_remaining : Printer → ServingCert → Time → ℤ
days_remaining p cert now = p.whole_days (sub cert.not_after now)

-- sans
unfoldable pub sans : Certificate → List String
sans cert = cert.dns_names ++ cert.ip_addresses

module _ (p : Printer) (kube : Kube) where
  abbrev named : String → String → Certificate → Option Error → Option Error
  named endpoint host leaf none = none
  named endpoint host leaf (some e) = some (
      wrap
        (concat (
          "the API server certificate at "
          ∷ endpoint
          ∷ " carries no SAN for "
          ∷ p.quote host
          ∷ " (SANs: ["
          ∷ join " " (sans leaf)
          ∷ "]); add this name to the API server's serving certificate, otherwise ArgoCD cannot verify this endpoint: "
          ∷ []))
        e "")

  -- ProbeServingCert, on what the handshake ended with
  unfoldable pub serving_cert : String → String → String → Handshake → Result ServingCert
  unfolding sans concat join
  serving_cert endpoint host ca h = elim h.chain [
    | [] ↦ err (new_error (endpoint <> " presented no certificates"))
    | leaf ∷ rest ↦ ok (record {
      not_after = leaf.not_after;
      subject = leaf.subject;
      serial = leaf.serial;
      trusted_by_ca = if h.refused then is_nil (kube.verify_chain ca (leaf ∷ rest)) else true;
      hostname_error =
          if h.refused then named endpoint host leaf (leaf.verify_hostname host) else none;
    })
  ]

  -- The TLS dial, recorded.
  unfoldable pub handshake_with : String → String → String → Action History Handshake
  handshake_with endpoint host ca h = (kube.handshake h endpoint host ca, dial endpoint host ca ∷ h)

  -- ProbeServingCert
  unfoldable pub probe_serving_cert : Parser → String → String → Action History ServingCert
  unfolding serving_cert concat
  probe_serving_cert r endpoint ca = do
    parts ←
        on_error (λ e. wrap (concat ("parsing endpoint " ∷ p.quote endpoint ∷ ": " ∷ [])) e "")
          (from_result (r.split_host_port endpoint))
    if not (ca == "") && not (kube.has_certificates ca)
        then fail (new_error "cluster CA bundle contains no usable certificates")
        else do
          h ←
              on_error
                (λ e. wrap (concat ("TLS handshake with " ∷ endpoint ∷ " failed: " ∷ [])) e "")
                (handshake_with endpoint parts.0 ca)
          from_result (serving_cert endpoint parts.0 ca h)
