-- ===== src/Lib.antt =====
-- k2a-token-sync: a verification library of the Go program.
--
-- The program keeps the credentials of downstream Kubernetes clusters that Argo CD deploys to. A
-- scheduler polls the ClusterConnection objects, holds back those that contest an endpoint or a
-- Secret, and runs one reconciliation pass at a time for each of the others; a pass decides whether
-- the published registration is still good, mints and publishes a credential where it is not, and
-- records in the object's status what it did. Probes are answered from what polls and passes report.
-- One command narrows the Role that the program publishes with to the names in the inventory, and
-- another removes a cluster again.
--
-- Which file models which part:
--   Base         what the files share: conditionals, lists, maps, sorting, signed integers.
--   Time         package time: instants as nanoseconds since the zero Time, durations as int64.
--   Errors       error values: their text, and what errors.Is, errors.As and apierrors find in them.
--   Format       what fmt, strconv and the time layouts print and parse, as parameters.
--   Action       code that may fail and that changes a state, in do blocks, with the lemmas on what
--                every such program keeps (Stays), ensures (Ensures) and returns (Returns).
--   Api          api/v1alpha1/clusterconnection_types.go; Api/Conditions is the interface of the
--                functions on conditions of k8s.io/apimachinery, with their documented laws.
--   Config       internal/config/config.go: the resolved cluster. Spec: FromSpec, ParseDuration, and
--                BootstrapCluster of internal/config/bootstrap.go.
--   Inventory    internal/inventory/inventory.go: the entries and the checks across them.
--                Inventory/Schema: internal/inventory/schema.go, the comparison of field names.
--   Scheduler    cmd/scheduler.go. Verdict: rejectedStatus and verdictFor. Poll: updateSchedule and
--                claimDue. Pass: the holds of the lock in reconcileOne, and settleVerdict. Interval:
--                nextInterval. System: polls and passes in flight as one step relation, where a step
--                is one hold of the lock. Report: what publish tells the probes.
--                Stamp: setSchemaCondition.
--   Health       cmd/health.go: what liveness, readiness and /status are answered from. History: the
--                reports since the start, and the state after them.
--   Kube         the API servers as a pass sees them: the requests that it sends, and answers that may
--                depend on every call made before. Objects: the objects of the requests. Secrets:
--                internal/k8s/k8s.go, GetSecret, UpsertSecret and the two sides of the stored
--                credentials. Trace: what a program that sends requests may be licensed to send.
--   Downstream   internal/downstream/downstream.go. Ensure: the identities and their bindings. Token:
--                MintToken, the access review and the cluster's CA. Probe: ProbeServingCert.
--                Ensure/Sound: what an identity that was ensured is known to grant.
--   Argocd       internal/argocd/argocd.go: the fingerprint, NeedsRefresh and ReissueAt. Publish: what
--                is applied to the Secret, ApplyCredential and ApplyRegistration.
--   Reconcile    internal/reconcile/reconcile.go. SelfCredential: when the own credential is renewed.
--                Status: Reconciler.Cluster around a pass, the fingerprint in status, reasonFor.
--                Access: access, verifyForArgoCD and the provisioning of a cluster. Renewal: the
--                renewal of the own credential and its report. Endpoint: probe. Publication: what is
--                written to the Secret of Argo CD. Pass: reconcile, the whole pass, from Access,
--                Renewal, Endpoint and Publication.
--   Hardening    internal/hardening/hardening.go. Plan: BuildPlan. Rules: the Role, the binding and
--                the labels. Inspect and Apply: the live objects read and recognised, and the
--                restriction installed, narrowed and read back, over the servers of Kube. Excluded:
--                excludedName. Authorization: VerifyAuthorization.
--   Restriction  cmd/restrict_rbac.go: executeRestriction, from the plan to the verification.
--   Removal      internal/downstream/remove.go and the two removals of cmd/remove.go: one object read,
--                checked and deleted, with the trace of the calls. Guards: what cmd/remove.go finds out
--                before it deletes. Fallback: the names on the command line against those of a spec.
--                Report: what is left behind. Teardown: executeRemoval.
--   Tests        an implementation of the interface of conditions, API servers that keep what they are
--                sent, and the theorems at concrete inputs.
--
-- How code became definitions. A struct is a record with the fields of the source, and a method
-- that changes it is a function from the old record to the new one. A Go map is an association
-- list; where its order could matter the program sorts, and so does the model. A map of pointers is
-- a map of states, changed under the name that the pointer was filed under. An error is a value.
-- The clock is an argument; where a function reads it twice in a row, or a pass reads it more than
-- once, the model reads it once. A status write that fails changes nothing that the program keeps,
-- so the writes of the scheduler are outputs of the model.
--
-- API servers. The servers keep no store in the model. A client sends a request, the answer is a
-- function of the client, the request and every call made before it, by whatever client, and a call
-- is appended to that history. So a theorem that holds for every such function covers every
-- interference by others between two calls. Byte slices are texts, and the bytes that a Secret
-- holds are what was sent. The retry of client-go on a conflict is a parameter, assumed only to
-- return what one of its attempts returned, from the history that the earlier attempts left
-- (IsRetry). Building a client, the TLS handshake with an endpoint and the base64 and JSON codecs
-- are parameters of the same kind. The removal and the access checks of Hardening have servers of
-- their own, of the same form.
--
-- Bounds and fuel. Durations saturate on subtraction and wrap on other arithmetic, as int64 does;
-- instants are unbounded integers. The loop of excludedName runs on fuel, one more than the number
-- of names, since that many distinct candidates cannot all be taken. Every other loop is
-- structural.
--
-- Not modelled: client-go, TLS and HTTP themselves; logging and metrics, which decide nothing; the
-- writing of the Events, which a pass lists in its state; flag parsing, prompts and printing of the
-- three commands, and what bootstrap does beyond the provisioning that Reconcile/Access has. The
-- digest SHA-256, the validation of DNS names, the API server's authorizer and its answers are
-- parameters; the hypotheses on them are named where they are used.
pub mod Base
pub mod Time
pub mod Api
pub mod Errors
pub mod Action
pub mod Kube
pub mod Downstream
pub mod Config
pub mod Format
pub mod Inventory
pub mod Scheduler
pub mod Argocd
pub mod Health
pub mod Removal
mod Tests
pub mod Reconcile
pub mod Hardening
pub mod Restriction
