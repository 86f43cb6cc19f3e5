-- ===== src/Tests/Data.antt =====
-- The inputs that the tests share.
use Prim.Native.String.{count}
use text.Mathlib.TextLemmas.{length-append}
use k2a_token_sync.Base.{ℕ, zero, suc, ◌+◌, String, ◌<>◌, ◌≡◌, refl, ap, sym, ◌∙◌, false, arith}
use k2a_token_sync.Base.Int.{pos, quot_ℤ}
use k2a_token_sync.Time.{Time}
use k2a_token_sync.Api.{empty_status}
use k2a_token_sync.Config.{Cluster, zero_cluster}
use k2a_token_sync.Format.{Printer}
use k2a_token_sync.Inventory.{Entry}
use k2a_token_sync.Scheduler.{ClusterState, retry_interval}
use k2a_token_sync.Hardening.{Names}
use k2a_token_sync.Hardening.Excluded.{candidate}

abbrev pub plain : Printer
plain = record {
  quote = λ s. "'" <> s <> "'";
  decimal = λ _. "0";
  rfc3339 = λ _. "2026-01-01T00:00:00Z";
  duration = λ _. "1m0s";
  round_minute = λ d. d;
  whole_seconds = λ d. quot_ℤ d 1000000000;
  whole_days = λ d. quot_ℤ d 86400000000000;
}

-- An instant of 2026, and some later ones.
abbrev pub noon : Time
noon = pos 63900000000000000000

abbrev pub hour_later : Time
hour_later = pos 63900003600000000000

abbrev pub minute_later : Time
minute_later = pos 63900000060000000000

abbrev pub ten_minutes_later : Time
ten_minutes_later = pos 63900000600000000000

abbrev pub cluster_of : String → String → String → Cluster
cluster_of name endpoint secret_name = record zero_cluster {
  name = name;
  endpoint = endpoint;
  secret_name = secret_name;
}

abbrev pub entry_of : String → String → String → Entry
entry_of name endpoint secret_name = record {
  cluster = cluster_of name endpoint secret_name;
  generation = pos 1;
  observed_generation = pos 1;
  status = empty_status;
  invalid_reason = "";
  invalid_cause = "";
}

-- Two connections, and a third that names the endpoint of the first.
abbrev pub east : Entry
east = entry_of "east" "east:6443" "cluster-east"

abbrev pub west : Entry
west = entry_of "west" "west:6443" "cluster-west"

abbrev pub rival : Entry
rival = entry_of "rival" "east:6443" "cluster-rival"

-- A state that is due at noon.
abbrev pub state_of : Entry → ClusterState
state_of e = record {
  cluster = e.cluster;
  generation = e.generation;
  status = e.status;
  due_at = noon;
  backoff = retry_interval;
  running = false;
  departed = false;
  passed_generation = pos 0;
  invalid_reason = e.invalid_reason;
  invalid_cause = e.invalid_cause;
  rerun_after_pass = false;
}

-- A state that a verdict holds back.
abbrev pub held_back : ClusterState
held_back = record (state_of east) {
  invalid_reason = "the endpoint is contested";
  invalid_cause = "EndpointConflict";
}

abbrev pub helm_names : Names
helm_names = record {
  namespace = "k2a";
  argocd_namespace = "argocd";
  service_account = "k2a-token-sync";
  baseline_role = "k2a-token-sync";
  baseline_role_binding = "k2a-token-sync";
  restricted_role = "k2a-token-sync-restricted";
  restricted_binding = "k2a-token-sync-restricted";
}

-- Numbers printed as tallies.
pub tally : ℕ → String
tally zero = ""
tally (suc n) = "I" <> tally n

abbrev pub tallied : String → ℕ → String
tallied base n = base <> tally n

count-tally : (n : ℕ) → count (tally n) ≡ n
unfolding tally
count-tally zero = refl
count-tally (suc n) = omega (arith, length-append "I" (tally n), count-tally n)

base : String
base = candidate tallied 0

candidate-count : (i : ℕ) → count (candidate tallied i) ≡ count base + i
unfolding base
candidate-count zero = omega arith
candidate-count (suc i) = omega (arith, length-append base (tally (suc i)), count-tally (suc i))

pub tallied-distinct : (i j : ℕ) → candidate tallied i ≡ candidate tallied j → i ≡ j
tallied-distinct i j h =
    let same = sym (candidate-count i) ∙ ap count h ∙ candidate-count j in omega arith
