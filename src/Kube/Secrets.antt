-- ===== src/Kube/Secrets.antt =====
-- internal/k8s: reading Secrets, and creating or updating the one that holds the tool's own
-- credential.
pub mod Laws
use k2a_token_sync.Base.{
  String, ◌<>◌, concat, Bool, true, false, Option, none, some, List, [], ◌∷◌, if◌then◌else◌, ◌==◌,
}
use k2a_token_sync.Base.Dict.{Dict, lookup, insert, text_or_empty}
use k2a_token_sync.Time.{Time, zero_time, is_zero}
use k2a_token_sync.Errors.{
  Error, Result, ok, err, new_error, sentinel_error, wrap, is_not_found, is_already_exists,
  err_not_found,
}
use k2a_token_sync.Action.{
  Action, pure, fail, attempt, from_result, on_error, ◌>>=◌, ◌>>◌, then_run,
}
use k2a_token_sync.Format.{Printer, Parser}
use k2a_token_sync.Kube.{
  Client, Kube, History, send, get_secret, create_secret, update_secret, request,
}
use k2a_token_sync.Kube.Objects.{Secret}

-- k8s.Credentials
pub record Credentials : Type 0 where
  pub token : String
  pub ca : String
  pub expires_at : Time

abbrev pub credentials_token_key : String
credentials_token_key = "token"

abbrev pub credentials_ca_key : String
credentials_ca_key = "ca.crt"

abbrev pub credentials_expires_at_key : String
credentials_expires_at_key = "expires-at"

-- k8s.ErrNotFound
abbrev pub not_found_error : Error
not_found_error = sentinel_error err_not_found "not found"

-- errConcurrentCreate
abbrev concurrent_create : Error
concurrent_create = new_error "secret appeared concurrently"

-- mergeMap
unfoldable pub merge_map : Dict String → Dict String → Dict String
merge_map into [] = into
merge_map into ((k, v) ∷ from) = merge_map (insert k v into) from

abbrev at : String → String → String
at namespace name = concat (namespace ∷ "/" ∷ name ∷ [])

-- `m[key]` of a map of byte slices: nil where the key is missing
abbrev pub value_at : String → Dict String → String
value_at key contents = text_or_empty (lookup key contents)

abbrev blank : Printer → String → String → String → Error
blank p namespace name key =
    wrap
      (concat
        ("credentials secret " ∷ at namespace name ∷ " key " ∷ p.quote key ∷ " is blank: " ∷ []))
      not_found_error ""

-- An absent or unparsable expiry is left zero.
unfoldable pub expiry_of : Parser → Dict String → Time
unfolding lookup
expiry_of r contents =
    let raw = r.trim_space (value_at credentials_expires_at_key contents) in
    if raw == "" then zero_time else elim (r.parse_rfc3339 raw) [ none ↦ zero_time | some t ↦ t ]

-- ReadCredentials, on the Secret that was read
unfoldable pub credentials_in : Printer → Parser → String → String → Secret → Result Credentials
unfolding expiry_of
credentials_in p r namespace name secret =
    let token = r.trim_space (value_at credentials_token_key secret.contents) in
    let ca = r.trim_space (value_at credentials_ca_key secret.contents) in
    if token == ""
    then err (blank p namespace name credentials_token_key)
    else if ca == ""
    then err (blank p namespace name credentials_ca_key)
    else ok (record { token = token; ca = ca; expires_at = expiry_of r secret.contents })

-- The Secret that an update sends: what is there, with the desired labels, annotations and data
-- laid over it.
unfoldable pub updated : Secret → Secret → Secret
unfolding merge_map
updated existing desired = record existing {
  contents = merge_map existing.contents desired.contents;
  labels = merge_map existing.labels desired.labels;
  annotations = merge_map existing.annotations desired.annotations;
}

-- The data that WriteCredentials stores.
unfoldable pub stored_data : Printer → Credentials → Dict String
unfolding lookup
stored_data p creds =
    (credentials_token_key, creds.token)
    ∷ (credentials_ca_key, creds.ca)
    ∷ (if is_zero creds.expires_at
        then []
        else (credentials_expires_at_key, p.rfc3339 creds.expires_at) ∷ [])

abbrev pub credentials_secret : Printer → String → String → Credentials → Dict String → Secret
credentials_secret p namespace name creds labels = record {
  name = name;
  namespace = namespace;
  kind = "Opaque";
  labels = labels;
  annotations = [];
  contents = stored_data p creds;
  managers = [];
}

module _ (kube : Kube) where
  -- The mapping of an error of the read, shared by GetSecret and ReadSecretKey.
  abbrev pub unread : String → String → Error → Error
  unread namespace name e =
      if is_not_found e
      then wrap ("secret " <> at namespace name <> ": ") not_found_error ""
      else wrap ("getting secret " <> at namespace name <> ": ") e ""

  -- GetSecret
  unfoldable pub find_secret : Client → String → String → Action History Secret
  unfolding concat
  find_secret client namespace name =
      on_error (unread namespace name) (send kube client (get_secret namespace name))

  -- ReadCredentials
  unfoldable pub read_credentials :
      Printer → Parser → Client → String → String → Action History Credentials
  unfolding find_secret credentials_in
  read_credentials p r client namespace name = do
    secret ← find_secret client namespace name
    from_result (credentials_in p r namespace name secret)

  abbrev create_failed : Secret → Error → Error
  create_failed desired e =
      if is_already_exists e
      then kube.new_conflict desired.name concurrent_create
      else wrap ("creating secret " <> at desired.namespace desired.name <> ": ") e ""

  -- One attempt of UpsertSecret, after its read.
  abbrev pub after_get : Client → Secret → Result Secret → Action History (Unit {0})
  after_get client desired (err e) =
      if is_not_found e
      then on_error (create_failed desired) (send kube client (create_secret desired))
      else fail (wrap ("getting secret " <> at desired.namespace desired.name <> ": ") e "")
  after_get client desired (ok existing) =
      on_error (λ e. wrap ("updating secret " <> at desired.namespace desired.name <> ": ") e "")
        (send kube client (update_secret (updated existing desired)))

  unfoldable pub upsert_once : Client → Secret → Action History (Unit {0})
  unfolding updated concat
  upsert_once client desired = do
    found ← attempt (send kube client (get_secret desired.namespace desired.name))
    after_get client desired found

  -- UpsertSecret
  unfoldable pub upsert_secret : Client → Secret → Action History (Unit {0})
  unfolding upsert_once
  upsert_secret client desired = kube.retry_on_conflict (upsert_once client desired)

  -- WriteCredentials
  unfoldable pub write_credentials :
      Printer → Client → String → String → Credentials → Dict String → Action History (Unit {0})
  unfolding upsert_secret stored_data
  write_credentials p client namespace name creds labels =
      upsert_secret client (credentials_secret p namespace name creds labels)
