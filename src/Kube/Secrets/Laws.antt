-- ===== src/Kube/Secrets/Laws.antt =====
-- What the Secret functions do to a trace, and to the data that is there.
use text.Mathlib.TextEquality.{eq_iff}
use k2a_token_sync.Base.{String, ◌≡◌, ◌≢◌, ◌∙◌, refl, false, some, [], ◌∷◌, ◌==◌, arith}
use k2a_token_sync.Base.Dict.{Dict, lookup, insert, lookup-insert, NodupKeys}
use k2a_token_sync.Time.{is_zero}
use k2a_token_sync.Errors.{Result, ok, err, first_some}
use k2a_token_sync.Action.{Stays, stays_rules, on_error-Stays}
use k2a_token_sync.Format.{Printer, Parser}
use k2a_token_sync.Kube.{
  Client, Call, History, Kube, send, request, get_secret, create_secret, update_secret,
}
use k2a_token_sync.Kube.Objects.{Secret}
use k2a_token_sync.Kube.Trace.{Licensed, IsFree, send-Stays, IsRetry, retry-Stays}
use k2a_token_sync.Kube.Secrets.{
  Credentials, stored_data, credentials_secret, credentials_in, expiry_of, credentials_token_key,
  credentials_ca_key, credentials_expires_at_key, merge_map, updated, find_secret, read_credentials,
  after_get, upsert_once, upsert_secret,
}

-- What is merged in is there afterwards, and what is not is left alone.
pub lookup-merge_map :
    (key : String) (into from : Dict String)
    → NodupKeys from
    → lookup key (merge_map into from) ≡ first_some (lookup key from) (lookup key into)
unfolding merge_map lookup
lookup-merge_map key into [] u = refl
lookup-merge_map key into ((k, v) ∷ from) (fresh, u) =
    lookup-merge_map key (insert k v into) from u ∙ rw lookup-insert (ground arith)

-- Every entry is in the Secret.
abbrev pub Carries : Dict String → Secret → Type 0
Carries entries s =
    (key value : String) → lookup key entries ≡ some value → lookup key s.contents ≡ some value

updated-Carries :
    (existing desired : Secret)
    → NodupKeys desired.contents
    → Carries desired.contents (updated existing desired)
unfolding updated
updated-Carries existing desired u key value e =
    lookup-merge_map key existing.contents desired.contents u ∙ rw e refl

module _ {L : History → Call → Type 0} (free : IsFree L) (kube : Kube) where
  find_secret-Stays :
      (client : Client) (namespace name : String)
      → Stays (Licensed L) (find_secret kube client namespace name)
  unfolding find_secret
  find_secret-Stays client namespace name =
      on_error-Stays _ _ (send-Stays free kube client (get_secret namespace name) refl)

  pub read_credentials-Stays :
      (p : Printer) (r : Parser) (client : Client) (namespace name : String)
      → Stays (Licensed L) (read_credentials kube p r client namespace name)
  unfolding read_credentials
  read_credentials-Stays p r client namespace name = search (stays_rules, find_secret-Stays)

  -- An upsert under a fact about the trace that more calls do not take away, where that fact licenses
  -- the writing of any Secret which carries the desired data.
  module _ (retries : IsRetry kube) (client : Client) (desired : Secret) (U : History → Type 0)
      (grows : (c : Call) (h : History) → U h → U (c ∷ h))
      (creates : (h : History) → U h → L h (request client (create_secret desired)))
      (updates : (h : History) (s : Secret)
        → U h
        → Carries desired.contents s
        → L h (request client (update_secret s)))
      (u : NodupKeys desired.contents) where
    abbrev Both : History → Type 0
    Both h = Licensed L h × U h

    get-Stays : Stays Both (send kube client (get_secret desired.namespace desired.name))
    unfolding send
    get-Stays = record { stays = λ h b. ((free h _ refl, b.0), grows _ h b.1) }

    create-Stays : Stays Both (send kube client (create_secret desired))
    unfolding send
    create-Stays = record { stays = λ h b. ((creates h b.1, b.0), grows _ h b.1) }

    update-Stays :
        (existing : Secret)
        → Stays Both (send kube client (update_secret (updated existing desired)))
    unfolding send
    update-Stays existing = record {
      stays = λ h b. (
        (updates h (updated existing desired) b.1 (updated-Carries existing desired u), b.0),
        grows _ h b.1,
      );
    }

    after_get-Stays : (found : Result Secret) → Stays Both (after_get kube client desired found)
    after_get-Stays (ok existing) = search (stays_rules, update-Stays)
    after_get-Stays (err e) = search (stays_rules, create-Stays)

    pub upsert_secret-Stays : Stays Both (upsert_secret kube client desired)
    unfolding upsert_secret upsert_once
    upsert_secret-Stays =
        retry-Stays kube retries (search (stays_rules, get-Stays, after_get-Stays))

pub stored_data-NodupKeys : (p : Printer) (creds : Credentials) → NodupKeys (stored_data p creds)
unfolding stored_data
stored_data-NodupKeys p creds =
    ground
      (arith, eq_iff "token" "ca.crt", eq_iff "token" "expires-at", eq_iff "ca.crt" "expires-at")

module _ (p : Printer) (creds : Credentials) where
  pub stored-token : lookup credentials_token_key (stored_data p creds) ≡ some creds.token
  unfolding stored_data
  stored-token = ground (arith, eq_iff "token" "token")

  pub stored-ca : lookup credentials_ca_key (stored_data p creds) ≡ some creds.ca
  unfolding stored_data
  stored-ca = ground (arith, eq_iff "ca.crt" "token", eq_iff "ca.crt" "ca.crt")

  stored-expiry :
      is_zero creds.expires_at ≡ false
      → lookup credentials_expires_at_key (stored_data p creds) ≡ some (p.rfc3339 creds.expires_at)
  unfolding stored_data
  stored-expiry known = rw known (
      ground (
        arith,
        eq_iff "expires-at" "token",
        eq_iff "expires-at" "ca.crt",
        eq_iff "expires-at" "expires-at",
      ))

-- Reading undoes writing: whatever the Secret held before, credentials that are merged into it are
-- read back as they were, where neither text is blank or has space around it, and the expiry is
-- known and is printed as a text that parses as itself.
pub credentials_in-updated :
    (p : Printer) (r : Parser) (existing : Secret) (namespace name : String) (creds : Credentials)
    (labels : Dict String)
    → r.trim_space creds.token ≡ creds.token
    → creds.token ≢ ""
    → r.trim_space creds.ca ≡ creds.ca
    → creds.ca ≢ ""
    → is_zero creds.expires_at ≡ false
    → r.trim_space (p.rfc3339 creds.expires_at) ≡ p.rfc3339 creds.expires_at
    → p.rfc3339 creds.expires_at ≢ ""
    → r.parse_rfc3339 (p.rfc3339 creds.expires_at) ≡ some creds.expires_at
    → credentials_in p r namespace name
        (updated existing (credentials_secret p namespace name creds labels))
      ≡ ok creds
unfolding credentials_in updated expiry_of
credentials_in-updated p r existing namespace name creds labels token-trim token-set ca-trim ca-set
      known text-trim text-set parses =
    let desired = credentials_secret p namespace name creds labels in
    let carries = updated-Carries existing desired (stored_data-NodupKeys p creds) in
    let token_set : creds.token == "" ≡ false = ground arith in
    let ca_set : creds.ca == "" ≡ false = ground arith in
    let text_set : p.rfc3339 creds.expires_at == "" ≡ false = ground arith in
    rw
      (
        carries credentials_token_key creds.token (stored-token p creds),
        carries credentials_ca_key creds.ca (stored-ca p creds),
        carries credentials_expires_at_key (p.rfc3339 creds.expires_at)
            (stored-expiry p creds known),
        token-trim,
        ca-trim,
        text-trim,
        token_set,
        ca_set,
        text_set,
        parses,
      )
      refl
