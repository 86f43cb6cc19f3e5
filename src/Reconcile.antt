-- ===== src/Reconcile.antt =====
-- internal/reconcile: one pass over a cluster. The Reconciler's collaborators are its fields; the
-- state of a pass is the status it works on, the calls made so far and the Events recorded.
pub mod SelfCredential
pub mod Status
pub mod Access
pub mod Renewal
pub mod Endpoint
pub mod Publication
pub mod Pass
use k2a_token_sync.Base.{String, List, ◌∷◌}
use k2a_token_sync.Base.Int.{ℤ}
use k2a_token_sync.Time.{Time}
use k2a_token_sync.Errors.{Result}
use k2a_token_sync.Action.{Action, update}
use k2a_token_sync.Format.{Printer, Parser}
use k2a_token_sync.Api.{ClusterConnectionStatus}
use k2a_token_sync.Api.Conditions.{ConditionApi, ConditionStatus}
use k2a_token_sync.Argocd.{Digest}
use k2a_token_sync.Argocd.Publish.{Codec}
use k2a_token_sync.Kube.{Kube, History}

-- An Event handed to the EventRecorder.
pub data Event : Type 0 where
  normal warning : (reason message : String) → Event

-- Reconciler, with the packages it calls. `namespace` and `argocd_namespace` are those of its cfg.
pub record Reconciler : Type 0 where
  pub namespace : String
  pub argocd_namespace : String
  pub kube : Kube
  pub conditions : ConditionApi
  pub printer : Printer
  pub parser : Parser
  pub digest : Digest
  pub codec : Codec

-- Histories and Events have the latest first.
pub record PassState : Type 0 where
  pub status : ClusterConnectionStatus
  pub history : History
  pub events : List Event

abbrev resumed : {A : Type 0} → PassState → Result A × History → Result A × PassState
resumed s (r, h) = (r, record s { history = h })

-- Calls, which leave the status alone.
unfoldable pub calling : {A : Type 0} → Action History A → Action PassState A
calling m s = ((m s.history).0, record s { history = (m s.history).1 })

unfoldable pub on_status :
    (ClusterConnectionStatus → ClusterConnectionStatus) → Action PassState (Unit {0})
unfolding update
on_status f = update (λ s. record s { status = f s.status })

unfoldable pub emit : Event → Action PassState (Unit {0})
unfolding update
emit e = update (λ s. record s { events = e ∷ s.events })
