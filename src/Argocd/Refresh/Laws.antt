-- ===== src/Argocd/Refresh/Laws.antt =====
-- When a credential is left alone, and what publishing one achieves.
use k2a_token_sync.Base.{
  Bool-cases, inl, inr, String, ◌≡◌, ◌≢◌, ◌↔◌, ◌⊎◌, true, false, none, some, arith, if◌then◌else◌,
}
use k2a_token_sync.Base.Int.{◌≤ℤ◌, ◌<ℤ◌, ◌-ℤ◌, ◌+ℤ◌, quot_ℤ, int_laws}
use k2a_token_sync.Time.{Time, Duration, is_zero, add, before, max_duration}
use k2a_token_sync.Time.Laws.{sub-eq, half_left}
use k2a_token_sync.Argocd.{ClusterSecret, Fingerprint, Digest, hash_ca, fingerprint}
use k2a_token_sync.Argocd.Refresh.{RefreshReason, is_blank, reissue_at, needs_refresh, expiring}

-- The published registration is what is wanted, and its credential is young enough.
pub record IsCurrent (digest : Digest) (applied : Fingerprint) (published : String)
    (desired : ClusterSecret) (ttl : Duration) (now : Time) : Type 0 where
  pub recorded : is_blank applied ≡ false
  pub has_token : published ≢ ""
  pub own_token : (applied.credential_hash ≡ "") ⊎ (published ≡ applied.credential_hash)
  pub server_eq : applied.server ≡ desired.server
  pub name_eq : applied.display_name ≡ desired.display_name
  pub project_eq : applied.project ≡ desired.project
  pub ca_eq : (desired.ca_data ≡ "") ⊎ (applied.ca_hash ≡ hash_ca digest desired.ca_data)
  pub expiry_known : is_zero applied.token_expires_at ≡ false
  pub young : before now (reissue_at applied ttl) ≡ true

module _ (digest : Digest) (applied : Fingerprint) (published : String) (desired : ClusterSecret)
    (ttl : Duration) (now : Time) where
  -- No credential is minted exactly where the registration counts as current: a publication is
  -- recorded, a token is there and is not known to be another's, server, name and project are those
  -- wanted, so is the CA where one is wanted, the expiry is known, and it is before the reissue.
  pub needs_refresh-none_iff :
      (needs_refresh digest applied published desired ttl now ≡ none)
      ↔ IsCurrent digest applied published desired ttl now
  unfolding needs_refresh
  needs_refresh-none_iff = (λ h. ground arith, λ c. ground arith)

-- A reason to mint stays: with the same record, published credential and configuration, what is
-- found at one instant is found at every later one.
pub needs_refresh-stays :
    (digest : Digest) (applied : Fingerprint) (published : String) (desired : ClusterSecret)
    (ttl : Duration) (now later : Time) (reason : RefreshReason)
    → now ≤ℤ later
    → needs_refresh digest applied published desired ttl now ≡ some reason
    → needs_refresh digest applied published desired ttl later ≡ some reason
unfolding needs_refresh
needs_refresh-stays digest applied published desired ttl now later reason order =
    let at = reissue_at applied ttl in
    elim (Bool-cases (before now at)) [
      | inl young ↦ elim (Bool-cases (before later at)) [
        | inl still ↦ rw (young, still) (λ h. h)
        | inr past ↦ rw (young, past) (λ h. ground arith)
      ]
      | inr old ↦ let past : before later at ≡ false = ground arith in rw (old, past) (λ h. h)
    ]

reissue_at-young :
    (applied : Fingerprint) (ttl : Duration) (now : Time)
    → is_zero applied.token_issued_at ≡ false
    → applied.token_issued_at ≤ℤ applied.token_expires_at
    → applied.token_expires_at -ℤ applied.token_issued_at ≤ℤ max_duration
    → before now (reissue_at applied ttl) ≡ true
    → now
      <ℤ add applied.token_issued_at
          (quot_ℤ (applied.token_expires_at -ℤ applied.token_issued_at) 2)
unfolding reissue_at
reissue_at-young applied ttl now known order fits h =
    rw (← sub-eq applied.token_expires_at applied.token_issued_at (omega int_laws) fits)
      (ground arith)

-- While nothing is minted, at least half of the lifetime that the credential was granted is left,
-- where the recorded times are known, in order and within reach of a Duration.
pub needs_refresh-none_margin :
    (digest : Digest) (applied : Fingerprint) (published : String) (desired : ClusterSecret)
    (ttl : Duration) (now : Time)
    → is_zero applied.token_issued_at ≡ false
    → applied.token_issued_at ≤ℤ applied.token_expires_at
    → applied.token_expires_at -ℤ applied.token_issued_at ≤ℤ max_duration
    → needs_refresh digest applied published desired ttl now ≡ none
    → applied.token_expires_at -ℤ applied.token_issued_at
      ≤ℤ (applied.token_expires_at -ℤ now) +ℤ (applied.token_expires_at -ℤ now)
needs_refresh-none_margin digest applied published desired ttl now known order fits h =
    half_left applied.token_issued_at applied.token_expires_at now order (
      reissue_at-young applied ttl now known order fits
        ((needs_refresh-none_iff digest applied published desired ttl now).0 h).young)

module _ (digest : Digest) (desired : ClusterSecret) (ttl : Duration) (now : Time)
    (written : String) where
  -- What a pass records after publishing: the fingerprint of what was wanted, and the digest of
  -- the credential that was sent.
  abbrev pub recorded_after : Fingerprint
  recorded_after = record (fingerprint digest desired) { credential_hash = written }

  -- After a pass has published a token that is not empty and whose expiry is known, with the
  -- server holding what was sent and the same configuration, nothing is minted until the instant
  -- of reissue, and from then on the reason is expiry.
  pub needs_refresh-published :
      written ≢ ""
      → is_zero desired.token_expires_at ≡ false
      → needs_refresh digest recorded_after written desired ttl now
        ≡ (if before now (reissue_at recorded_after ttl) then none else some expiring)
  unfolding needs_refresh fingerprint
  needs_refresh-published w known = ground arith
