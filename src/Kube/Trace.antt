-- ===== src/Kube/Trace.antt =====
-- Reasoning about traces: which calls were licensed by what had gone before, and what RetryOnConflict
-- promises.
use k2a_token_sync.Base.{◌≡◌, ap, sym, Bool, true, false, [], ◌∷◌}
use k2a_token_sync.Errors.{Error, Result, ok, err, is_conflict}
use k2a_token_sync.Action.{Action, Stays, Returns}
use k2a_token_sync.Kube.{
  Call, Client, Request, Reply, History, Kube, send, request, apply_secret, create_secret,
  update_secret,
}

-- Every call of the trace had its license from the calls before it.
abbrev pub Licensed : (History → Call → Type 0) → History → Type 0
Licensed L [] = Unit
Licensed L (c ∷ h) = L h c × Licensed L h

pub Licensed-map :
    (L M : History → Call → Type 0)
    → ((h : History) (c : Call) → L h c → M h c)
    → (h : History) → Licensed L h
    → Licensed M h
Licensed-map L M f [] l = tt
Licensed-map L M f (c ∷ h) (l, ls) = (f h c l, Licensed-map L M f h ls)

-- Calls that write no Secret.
abbrev pub is_routine : Call → Bool
is_routine (request _ (create_secret _)) = false
is_routine (request _ (update_secret _)) = false
is_routine (request _ (apply_secret _ _)) = false
is_routine _ = true

-- A license that routine calls need not earn.
abbrev pub IsFree : (History → Call → Type 0) → Type 0
IsFree L = (h : History) (c : Call) → is_routine c ≡ true → L h c

pub send-Stays :
    {L : History → Call → Type 0}
    → IsFree L
    → (kube : Kube) (client : Client) (r : Request) → is_routine (request client r) ≡ true
    → Stays (Licensed L) (send kube client r)
unfolding send
send-Stays free kube client r e = record { stays = λ h l. (free h (request client r) e, l) }

-- The runs of a body that is repeated while it ends with a conflict.
pub data Attempts (m : Action History (Unit {0}))
    : History → Result (Unit {0}) × History → Type 0 where
  last : (h : History) → Attempts m h (m h)
  again :
      (h : History) (e : Error) (x : Result (Unit {0}) × History)
      → (m h).0 ≡ err e
      → is_conflict e ≡ true
      → Attempts m (m h).1 x
      → Attempts m h x

-- RetryOnConflict runs its body, once or more, again only after a conflict, and does nothing else.
abbrev pub IsRetry : Kube → Type 0
IsRetry kube =
    (m : Action History (Unit {0})) (h : History) → Attempts m h (kube.retry_on_conflict m h)

Attempts-keeps :
    (I : History → Type 0) (m : Action History (Unit {0}))
    → Stays I m
    → (h : History) (x : Result (Unit {0}) × History) → Attempts m h x
    → I h
    → I x.1
Attempts-keeps I m k h x (last _) i = k.stays h i
Attempts-keeps I m k h x (again _ e _ _ _ rest) i =
    Attempts-keeps I m k (m h).1 x rest (k.stays h i)

pub retry-Stays :
    (kube : Kube)
    → IsRetry kube
    → {I : History → Type 0} {m : Action History (Unit {0})} → Stays I m
    → Stays I (kube.retry_on_conflict m)
retry-Stays kube retries {I} {m} k = record {
  stays = λ h i. Attempts-keeps I m k h (kube.retry_on_conflict m h) (retries m h) i;
}

-- A request that succeeded was answered, and is the last call.
pub send-Returns :
    (kube : Kube) (client : Client) (r : Request) (h : History) (a : Reply r) (after : History)
    → Returns (send kube client r) h a after
    → (kube.answer h client r ≡ ok a) × (after ≡ (request client r ∷ h))
unfolding send
send-Returns kube client r h a after e = (ap (λ x. x.0) e, sym (ap (λ x. x.1) e))
