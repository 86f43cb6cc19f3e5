-- ===== src/Inventory.antt =====
-- internal/inventory: the entries that a poll lists, and the two cross-object checks that hold
-- back every claimant of something only one connection may own.
pub mod Conflict
pub mod Schema
use k2a_token_sync.Base.{
  String, ◌<>◌, Bool, ◌&&◌, ◌||◌, not, List, [], ◌∷◌, ◌++◌, Option, none, some,
}
use k2a_token_sync.Base.{map, if◌then◌else◌, ◌==◌, length, ltb, join, concat, sort_strings}
use k2a_token_sync.Base.Int.{ℤ, eqb_ℤ}
use k2a_token_sync.Api.{ClusterConnectionStatus}
use k2a_token_sync.Api.Reason.{reason_endpoint_conflict, reason_secret_name_conflict}
use k2a_token_sync.Config.{Cluster}
use k2a_token_sync.Format.{Printer}

pub record Entry : Type 0 where
  pub cluster : Cluster
  pub generation : ℤ
  pub observed_generation : ℤ
  pub status : ClusterConnectionStatus
  pub invalid_reason : String
  pub invalid_cause : String

-- Entry.Edited
unfoldable pub edited : Entry → Bool
edited e = not (eqb_ℤ e.generation e.observed_generation)

-- The first loop of blockContested, as the list `claimants[value]`: the names of the entries
-- that are not held back yet and claim the value, in the order of the list. Nothing is recorded
-- under the empty value.
unfoldable pub claimants : (Entry → String) → List Entry → String → List String
claimants claim [] value = []
claimants claim (e ∷ es) value =
    let rest = claimants claim es value in
    if e.invalid_reason == "" && not (claim e == "") && claim e == value
    then e.cluster.name ∷ rest
    else rest

-- The contenders other than the entry itself, sorted.
unfoldable pub others : String → List String → List String
others name [] = []
others name (n ∷ ns) = let rest = others name ns in if n == name then rest else n ∷ rest

-- One round of the second loop: the verdict on one entry.
unfoldable pub verdict :
    (Entry → String) → (String → List String → String) → String → List String → Entry → Entry
unfolding others
verdict claim describe cause contenders e =
    if not (e.invalid_reason == "") then e else if ltb (length contenders) 2 then e else record e {
      invalid_reason = describe (claim e) (sort_strings (others e.cluster.name contenders));
      invalid_cause = cause;
    }

-- blockContested. The loop writes the entries it has passed, but reads the claims of all of them
-- from the map that was built before.
unfoldable pub block_contested :
    String → (Entry → String) → (String → List String → String) → List Entry → List Entry
unfolding claimants verdict
block_contested cause claim describe es =
    map (λ e. verdict claim describe cause (claimants claim es (claim e)) e) es

-- quoted
unfoldable pub quoted : Printer → List String → List String
quoted p names = map p.quote names

abbrev pub endpoint_of : Entry → String
endpoint_of e = e.cluster.endpoint

abbrev pub secret_name_of : Entry → String
secret_name_of e = e.cluster.secret_name

unfoldable pub describe_endpoint : Printer → String → List String → String
unfolding quoted
describe_endpoint p endpoint names = concat (
    "endpoint "
    ∷ p.quote endpoint
    ∷ " is the same downstream cluster as "
    ∷ join ", " (quoted p names)
    ∷ "; one cluster takes one ClusterConnection, and none of them will be reconciled until one remains"
    ∷ [])

unfoldable pub describe_secret : Printer → String → List String → String
unfolding quoted
describe_secret p secret_name names = concat (
    "secretName "
    ∷ p.quote secret_name
    ∷ " is also claimed by "
    ∷ join ", " (quoted p names)
    ∷ "; none of them will be reconciled until one claim remains"
    ∷ [])

-- blockContestedEndpoints
unfoldable pub block_contested_endpoints : Printer → List Entry → List Entry
unfolding block_contested describe_endpoint
block_contested_endpoints p =
    block_contested reason_endpoint_conflict endpoint_of (describe_endpoint p)

-- blockContestedSecrets
unfoldable pub block_contested_secrets : Printer → List Entry → List Entry
unfolding block_contested describe_secret
block_contested_secrets p =
    block_contested reason_secret_name_conflict secret_name_of (describe_secret p)

-- What List returns for the decoded objects: endpoints first, then Secrets.
unfoldable pub resolve_conflicts : Printer → List Entry → List Entry
unfolding block_contested_endpoints block_contested_secrets
resolve_conflicts p es = block_contested_secrets p (block_contested_endpoints p es)
