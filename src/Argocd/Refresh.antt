-- ===== src/Argocd/Refresh.antt =====
-- NeedsRefresh and ReissueAt.
pub mod Laws
use k2a_token_sync.Base.{
  String, Bool, true, false, not, ◌&&◌, Option, none, some, if◌then◌else◌, ◌==◌,
}
use k2a_token_sync.Base.Int.{ℤ, pos, ◌-ℤ◌, quot_ℤ}
use k2a_token_sync.Time.{Time, Duration, is_zero, sub, add, before, int64}
use k2a_token_sync.Argocd.{ClusterSecret, Fingerprint, Digest, hash_ca}

-- The constants of type RefreshReason; the empty reason is none.
pub data RefreshReason : Type 0 where
  unrecorded no_token credential_replaced identity_recreated expiring : RefreshReason
  server_drift name_drift project_drift ca_drift unknown_expiry : RefreshReason

-- string(reason)
unfoldable pub reason_text : RefreshReason → String
reason_text unrecorded = "no registration recorded in status"
reason_text no_token = "cluster secret has no bearer token"
reason_text credential_replaced = "cluster secret holds a credential this tool did not write"
reason_text identity_recreated =
    "downstream identity was recreated, so its tokens no longer authenticate"
reason_text expiring = "token is past half its lifetime"
reason_text server_drift = "recorded server URL does not match configuration"
reason_text name_drift = "recorded cluster name does not match configuration"
reason_text project_drift = "recorded project does not match configuration"
reason_text ca_drift = "recorded CA bundle does not match the cluster CA"
reason_text unknown_expiry = "token expiry is not recorded"

-- applied == (Fingerprint{})
unfoldable pub is_blank : Fingerprint → Bool
is_blank f =
    f.server == ""
    && f.display_name == ""
    && f.project == ""
    && f.ca_hash == ""
    && is_zero f.token_expires_at
    && is_zero f.token_issued_at
    && f.credential_hash == ""

-- ReissueAt
unfoldable pub reissue_at : Fingerprint → Duration → Time
reissue_at applied requested =
    if is_zero applied.token_issued_at
    then add applied.token_expires_at (quot_ℤ (int64 (pos 0 -ℤ requested)) 2)
    else add applied.token_issued_at
        (quot_ℤ (sub applied.token_expires_at applied.token_issued_at) 2)

-- NeedsRefresh
unfoldable pub needs_refresh :
    Digest → Fingerprint → String → ClusterSecret → Duration → Time → Option RefreshReason
unfolding is_blank reissue_at hash_ca
needs_refresh digest applied published desired ttl now =
    if is_blank applied
    then some unrecorded
    else if published == ""
    then some no_token
    else if not (applied.credential_hash == "") && not (published == applied.credential_hash)
    then some credential_replaced
    else if not (applied.server == desired.server)
    then some server_drift
    else if not (applied.display_name == desired.display_name)
    then some name_drift
    else if not (applied.project == desired.project)
    then some project_drift
    else if not (desired.ca_data == "") && not (applied.ca_hash == hash_ca digest desired.ca_data)
    then some ca_drift
    else if is_zero applied.token_expires_at
    then some unknown_expiry
    else if not (before now (reissue_at applied ttl))
    then some expiring
    else none
