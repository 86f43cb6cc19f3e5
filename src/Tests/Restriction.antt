-- ===== src/Tests/Restriction.antt =====
-- The theorems about restricted RBAC, on two connections.
use text.Mathlib.TextEquality.{eq_iff}
use k2a_token_sync.Base.{
  ◌+◌, ◌≤◌, String, ◌≡◌, refl, ◌&&◌, ◌||◌, Bool, true, false, some, List, [], ◌∷◌, ◌++◌, map, arith,
  string_dec, length, contains, any, All, occurrences, ◌==◌,
}
use k2a_token_sync.Base.Dict.{lookup, insert}
use k2a_token_sync.Errors.{ok}
use k2a_token_sync.Inventory.{Entry}
use k2a_token_sync.Hardening.Plan.{Plan, build_plan}
use k2a_token_sync.Hardening.Plan.Laws.{claims, build_plan_exact, build_plan_admits}
use k2a_token_sync.Kube.Objects.{PolicyRule}
use k2a_token_sync.Hardening.Rules.{restricted_role, baseline_rules, grants, restricted_role-allows}
use k2a_token_sync.Hardening.Excluded.{excluded_name, excluded_name-fresh}
use k2a_token_sync.Hardening.Authorization.{Reviewer, asking, patch_check, verify_authorization}
use k2a_token_sync.Hardening.Authorization.Laws.{Confirmed, Checked, verify_authorization_sound}
use k2a_token_sync.Tests.Data.{plain, east, west, helm_names, tallied, tallied-distinct}

abbrev problems : String → List String
problems name = []

abbrev pair : List Entry
pair = east ∷ west ∷ []

abbrev pair_names : List String
pair_names = "cluster-east" ∷ "cluster-west" ∷ []

abbrev pair_plan : Plan
pair_plan = record {
  connections =
      record { name = "east"; secret_name = "cluster-east" }
      ∷ record { name = "west"; secret_name = "cluster-west" }
      ∷ [];
  secret_names = pair_names;
}

build_plan_exact_example :
    (occurrences "cluster-west" pair_names ≡ claims "cluster-west" pair)
    × (claims "cluster-west" pair ≤ 1)
unfolding build_plan string_dec lookup insert
build_plan_exact_example = build_plan_exact plain problems pair pair_plan refl "cluster-west"

pair-distinct : (k : String) → claims k pair ≤ 1
pair-distinct k = ground (arith, eq_iff "cluster-east" "cluster-west")

build_plan_admits_example : (plan : Plan) × (build_plan plain problems pair ≡ ok plan)
build_plan_admits_example =
    build_plan_admits plain problems pair (refl, refl, (refl, refl, tt)) pair-distinct

abbrev allows : List PolicyRule → String → String → Bool
allows rules verb name = any (grants verb name) rules

restricted_role-allows_example :
    allows
      (baseline_rules false ++ (restricted_role helm_names pair_names).rules)
      "patch"
      "cluster-west"
    ≡ ("patch" == "create" || ("patch" == "patch" && contains pair_names "cluster-west"))
restricted_role-allows_example =
    restricted_role-allows allows (λ rules verb name. refl) helm_names pair_names "patch"
      "cluster-west"

-- The first candidate is taken.
excluded_name-fresh_example :
    (k : String) × (excluded_name tallied ("cluster-k2a-token-sync-rbac-excluded" ∷ []) ≡ some k)
    × (contains ("cluster-k2a-token-sync-rbac-excluded" ∷ []) k ≡ false)
excluded_name-fresh_example =
    excluded_name-fresh tallied tallied-distinct ("cluster-k2a-token-sync-rbac-excluded" ∷ [])

-- A server that allows exactly the two names, and create.
abbrev allowed_by : String → String → Bool
allowed_by verb name = verb == "create" || contains pair_names name

abbrev server : Reviewer
server n check =
    ok (record { evaluation_error = ""; allowed = allowed_by check.verb check.name; reason = "" })

verify_authorization_sound_example :
    (4 ≡ length pair_names + 2)
    × All (Confirmed (asking helm_names server)) (map patch_check pair_names)
    × ((k : String) × (contains pair_names k ≡ false)
        × Checked (asking helm_names server) "patch" k false)
    × Checked (asking helm_names server) "create" "" true
unfolding verify_authorization string_dec
verify_authorization_sound_example =
    verify_authorization_sound plain tallied helm_names server tallied-distinct pair_names
      (record { skipped = ""; checks = 4 }) refl refl
