-- ===== src/Api/Equality.antt =====
-- reflect.DeepEqual on statuses.
use native.Mathlib.Decide.{ℕ_discrete}
use k2a_token_sync.Base.{Bool, true, false, string_dec}
use k2a_token_sync.Api.{ClusterConnectionStatus}
use mathlib.Core.Logic.{ite}

unfoldable pub status_dec : Discrete ClusterConnectionStatus
status_dec = hlevel (string_dec, ℕ_discrete)

abbrev pub deep_equal : ClusterConnectionStatus → ClusterConnectionStatus → Bool
deep_equal s t = ite (status_dec s t) true false
