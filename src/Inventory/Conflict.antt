-- ===== src/Inventory/Conflict.antt =====
-- What blockContested guarantees, for any claim an entry can make and for the two that List checks.
use text.Mathlib.TextEquality.{eq_iff}
use k2a_token_sync.Base.{
  ℕ, ◌+◌, ◌≤◌, String, ◌≡◌, ◌≢◌, refl, List, [], ◌∷◌, map, arith, length, ltb, if◌then◌else◌, ◌==◌,
  ◌&&◌, sort_strings, false, concat-ne-empty,
}
use k2a_token_sync.Api.Reason.{reason_endpoint_conflict, reason_secret_name_conflict}
use k2a_token_sync.Format.{Printer}
use k2a_token_sync.Inventory.{
  Entry, claimants, others, verdict, block_contested, endpoint_of, secret_name_of,
  describe_endpoint, describe_secret, block_contested_endpoints, block_contested_secrets,
  resolve_conflicts,
}

-- How many entries that are not held back claim the value.
abbrev pub holders : (Entry → String) → List Entry → String → ℕ
holders claim [] value = 0
holders claim (e ∷ es) value =
    (if e.invalid_reason == "" && claim e == value then 1 else 0) + holders claim es value

-- A verdict leaves what the entry claims as it is.
abbrev pub IsStable : (Entry → String) → Type 0
IsStable claim =
    (e : Entry) (reason cause : String)
    → claim (record e { invalid_reason = reason; invalid_cause = cause }) ≡ claim e

-- A verdict always has a text.
abbrev pub HasText : (String → List String → String) → Type 0
HasText describe = (value : String) (names : List String) → describe value names ≢ ""

module _ (claim : Entry → String) where
  length-claimants :
      (es : List Entry) (value : String)
      → value ≢ ""
      → length (claimants claim es value) ≡ holders claim es value
  unfolding claimants
  length-claimants [] value v = refl
  length-claimants (e ∷ es) value v = ground (arith, length-claimants es value v)

module _ (claim : Entry → String) (describe : String → List String → String) (cause : String)
    (stable : IsStable claim) (text : HasText describe) where
  abbrev round : List Entry → List Entry → List Entry
  round all es = map (λ e. verdict claim describe cause (claimants claim all (claim e)) e) es

  -- A held-back entry has a text, and every verdict keeps the claim.
  claim-verdict :
      (e : Entry) (names : List String) → claim (verdict claim describe cause names e) ≡ claim e
  unfolding verdict
  claim-verdict e names =
      ground
        (arith, stable e (describe (claim e) (sort_strings (others e.cluster.name names))) cause)

  verdict-blocks :
      (e : Entry) (names : List String)
      → (verdict claim describe cause names e).invalid_reason == ""
        ≡ (if e.invalid_reason == "" then ltb (length names) 2 else false)
  unfolding verdict
  verdict-blocks e names =
      ground (arith, text (claim e) (sort_strings (others e.cluster.name names)))

  -- A verdict can only take an entry away from the holders of a value.
  verdict-keeps :
      (claim' : Entry → String)
      → IsStable claim'
      → (e : Entry) (names : List String) (value : String)
      → (if (verdict claim describe cause names e).invalid_reason == ""
            && claim' (verdict claim describe cause names e) == value
          then 1
          else 0)
        ≤ (if e.invalid_reason == "" && claim' e == value then 1 else 0)
  unfolding verdict
  verdict-keeps claim' stable' e names value = ground (
    arith,
    stable' e (describe (claim e) (sort_strings (others e.cluster.name names))) cause,
    text (claim e) (sort_strings (others e.cluster.name names)),
  )

  holders-round :
      (all es : List Entry) (value : String)
      → value ≢ ""
      → holders claim (round all es) value
        ≡ (if ltb (holders claim all value) 2 then holders claim es value else 0)
  holders-round all [] value v = ground arith
  holders-round all (e ∷ es) value v =
      rw
        (
          verdict-blocks e (claimants claim all (claim e)),
          claim-verdict e (claimants claim all (claim e)),
        )
        (ground (arith, holders-round all es value v, length-claimants claim all value v))

  -- After a round of blockContested a contested value has no holder left, and one that at most one
  -- entry claimed keeps its holder; for any claim that a verdict leaves alone and any description
  -- that is never empty.
  pub holders-block_contested :
      (es : List Entry) (value : String)
      → value ≢ ""
      → holders claim (block_contested cause claim describe es) value
        ≡ (if ltb (holders claim es value) 2 then holders claim es value else 0)
  unfolding block_contested
  holders-block_contested es value v = holders-round es es value v

  -- Holding entries back never adds a holder, of this claim or of another that is stable.
  holders-le_round :
      (claim' : Entry → String)
      → IsStable claim'
      → (all es : List Entry) (value : String)
      → holders claim' (round all es) value ≤ holders claim' es value
  holders-le_round claim' stable' all [] value = omega arith
  holders-le_round claim' stable' all (e ∷ es) value = ground (
    arith,
    holders-le_round claim' stable' all es value,
    verdict-keeps claim' stable' e (claimants claim all (claim e)) value,
  )

  holders-le_block :
      (claim' : Entry → String)
      → IsStable claim'
      → (es : List Entry) (value : String)
      → holders claim' (block_contested cause claim describe es) value ≤ holders claim' es value
  unfolding block_contested
  holders-le_block claim' stable' es value = holders-le_round claim' stable' es es value

describe_endpoint-HasText : (p : Printer) → HasText (describe_endpoint p)
unfolding describe_endpoint
describe_endpoint-HasText p value names =
    concat-ne-empty "endpoint " _ (λ e. ground (arith, eq_iff "endpoint " ""))

describe_secret-HasText : (p : Printer) → HasText (describe_secret p)
unfolding describe_secret
describe_secret-HasText p value names =
    concat-ne-empty "secretName " _ (λ e. ground (arith, eq_iff "secretName " ""))

module _ (p : Printer) (es : List Entry) where
  abbrev after_endpoints : List Entry
  after_endpoints = block_contested_endpoints p es

  -- Among the listed entries that are not held back, no two name one endpoint and no two claim one
  -- Secret, for any non-empty value.
  pub resolve_conflicts-exclusive :
      (value : String)
      → value ≢ ""
      → (holders endpoint_of (resolve_conflicts p es) value ≤ 1)
        × (holders secret_name_of (resolve_conflicts p es) value ≤ 1)
  unfolding resolve_conflicts block_contested_secrets block_contested_endpoints
  resolve_conflicts-exclusive value v = (
    ground (
      arith,
      holders-le_block secret_name_of (describe_secret p) reason_secret_name_conflict
          (λ e r c. refl) (describe_secret-HasText p) endpoint_of (λ e r c. refl) after_endpoints
          value,
      holders-block_contested endpoint_of (describe_endpoint p) reason_endpoint_conflict
          (λ e r c. refl) (describe_endpoint-HasText p) es value v,
    ),
    ground (
      arith,
      holders-block_contested secret_name_of (describe_secret p) reason_secret_name_conflict
          (λ e r c. refl) (describe_secret-HasText p) after_endpoints value v,
    ),
  )
