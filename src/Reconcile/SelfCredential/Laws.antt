-- ===== src/Reconcile/SelfCredential/Laws.antt =====
-- How much of its own credential's life the tool can count on.
use k2a_token_sync.Base.{◌≡◌, true, false, arith}
use k2a_token_sync.Base.Int.{pos, ◌≤ℤ◌, ◌<ℤ◌, ◌-ℤ◌, ◌+ℤ◌, quot_ℤ, int_laws, -ℤ-parts, quot-parts}
use k2a_token_sync.Time.{Time, is_zero, sub, add, max_duration}
use k2a_token_sync.Time.Laws.{add-parts, sub-eq, sub_self, sub-ge-two, half_left}
use k2a_token_sync.Config.{Cluster}
use k2a_token_sync.Reconcile.SelfCredential.{
  self_renew_interval, self_credential_due, self_credential_critical,
}

sub-mono : (t u v : Time) → u ≤ℤ v → sub t v ≤ℤ sub t u
unfolding sub
sub-mono t u v h = ground (arith, -ℤ-parts t u, -ℤ-parts t v)

-- A credential that is judged critical at one instant is judged critical at every later one.
pub critical_mono :
    (cluster : Cluster) (issued_at expires_at now later : Time)
    → now ≤ℤ later
    → self_credential_critical cluster issued_at expires_at now ≡ true
    → self_credential_critical cluster issued_at expires_at later ≡ true
unfolding self_credential_critical
critical_mono cluster issued_at expires_at now later h c =
    ground (arith, sub-mono expires_at now later h)

not_due-young :
    (cluster : Cluster) (issued_at expires_at now : Time)
    → is_zero issued_at ≡ false
    → self_credential_due cluster issued_at expires_at now ≡ false
    → (sub now issued_at <ℤ self_renew_interval)
      × (now <ℤ add issued_at (quot_ℤ (sub expires_at issued_at) 2))
unfolding self_credential_due
not_due-young cluster issued_at expires_at now known h = ground arith

-- The tool's own credential, while it is left alone, is less than a day old and has at least half
-- of its granted lifetime left, where both times are recorded, in order and within reach of a
-- Duration.
pub not_due-margin :
    (cluster : Cluster) (issued_at expires_at now : Time)
    → is_zero issued_at ≡ false
    → issued_at ≤ℤ expires_at
    → expires_at -ℤ issued_at ≤ℤ max_duration
    → self_credential_due cluster issued_at expires_at now ≡ false
    → (sub now issued_at <ℤ self_renew_interval)
      × (expires_at -ℤ issued_at ≤ℤ (expires_at -ℤ now) +ℤ (expires_at -ℤ now))
not_due-margin cluster issued_at expires_at now known order fits h =
    let (age, young) = not_due-young cluster issued_at expires_at now known h in
    let exact = sub-eq expires_at issued_at (omega int_laws) fits in
    (age, half_left issued_at expires_at now order (rw (← exact) young))

-- A credential that has just been renewed, for at least two nanoseconds and at an instant and
-- until an expiry that are not zero, is not due at once.
pub renewed-not_due :
    (cluster : Cluster) (now expires_at : Time)
    → is_zero now ≡ false
    → is_zero expires_at ≡ false
    → (now +ℤ pos 2) ≤ℤ expires_at
    → self_credential_due cluster now expires_at now ≡ false
unfolding self_credential_due
renewed-not_due cluster now expires_at known known' far = ground (
  arith,
  sub_self now,
  sub-ge-two expires_at now far,
  add-parts now (quot_ℤ (sub expires_at now) 2),
  (quot-parts (sub expires_at now) 2).0,
  (quot-parts (sub expires_at now) 2).1,
)
