-- ===== src/Hardening/Plan/Laws.antt =====
-- What a plan names: exactly the Secrets that the inventory claims, each one once.
use k2a_token_sync.Base.{
  ℕ, ◌+◌, ◌≤◌, String, ◌≡◌, refl, ◌∙◌, true, none, List, [], ◌∷◌, if◌then◌else◌, ◌==◌, ap, is_empty,
  occurrences, occurrences-sort, sort_strings, arith,
}
use k2a_token_sync.Base.Dict.{Dict, lookup, insert}
use k2a_token_sync.Errors.{Result, ok, err}
use k2a_token_sync.Format.{Printer}
use k2a_token_sync.Inventory.{Entry}
use k2a_token_sync.Hardening.Plan.{
  Connection, Plan, sort_connections, invalid_lines, collect, keys_of, finish, build_plan,
}

-- How many entries resolve to the Secret.
abbrev pub claims : String → List Entry → ℕ
claims k [] = 0
claims k (e ∷ es) = (if k == e.cluster.secret_name then 1 else 0) + claims k es

occurrences-insert :
    (k j v : String) (d : Dict String)
    → lookup j d ≡ none
    → occurrences k (keys_of (insert j v d)) ≡ (if k == j then 1 else 0) + occurrences k (keys_of d)
unfolding insert lookup
occurrences-insert k j v [] h = refl
occurrences-insert k j v (x ∷ d) h = ground (arith, occurrences-insert k j v d)

absent : (k : String) (d : Dict String) → lookup k d ≡ none → occurrences k (keys_of d) ≡ 0
unfolding lookup
absent k [] h = refl
absent k (x ∷ d) h = ground (arith, absent k d)

fresh : (k : String) (d : Dict String) → occurrences k (keys_of d) ≤ 0 → lookup k d ≡ none
unfolding lookup
fresh k [] h = refl
fresh k (x ∷ d) h = ground (arith, fresh k d)

-- What an inventory must be for a plan to exist: nothing held back and every name valid.
abbrev pub Admissible : (String → List String) → List Entry → Type 0
Admissible dns1123_problems [] = Unit
Admissible dns1123_problems (e ∷ es) =
    (e.invalid_reason ≡ "")
    × (is_empty (dns1123_problems e.cluster.secret_name) ≡ true)
    × Admissible dns1123_problems es

module _ (p : Printer) (dns1123_problems : String → List String) where
  collect_exact :
      (k : String) (es : List Entry) (claimed final : Dict String) (cs ds : List Connection)
      → collect p dns1123_problems es claimed cs ≡ ok (final, ds)
      → occurrences k (keys_of final) ≡ claims k es + occurrences k (keys_of claimed)
  unfolding collect
  collect_exact k [] claimed final cs ds h = ground arith
  collect_exact k (e ∷ es) claimed final cs ds h =
      let name = e.cluster.secret_name in
      ground (
        arith,
        collect_exact k es (insert name e.cluster.name claimed) final
            (record { name = e.cluster.name; secret_name = name } ∷ cs) ds,
        occurrences-insert k name e.cluster.name claimed,
      )

  collect_distinct :
      (k : String) (es : List Entry) (claimed final : Dict String) (cs ds : List Connection)
      → collect p dns1123_problems es claimed cs ≡ ok (final, ds)
      → occurrences k (keys_of claimed) ≤ 1
      → occurrences k (keys_of final) ≤ 1
  unfolding collect
  collect_distinct k [] claimed final cs ds h le = ground arith
  collect_distinct k (e ∷ es) claimed final cs ds h le =
      let name = e.cluster.secret_name in
      ground (
        arith,
        collect_distinct k es (insert name e.cluster.name claimed) final
            (record { name = e.cluster.name; secret_name = name } ∷ cs) ds,
        occurrences-insert k name e.cluster.name claimed,
        absent k claimed,
      )

  finished :
      (r : Result (Dict String × List Connection)) (plan : Plan)
      → finish r ≡ ok plan
      → (final : Dict String) × (ds : List Connection) × (r ≡ ok (final, ds))
        × (plan.secret_names ≡ sort_strings (keys_of final))
  finished (err e) plan h = absurd (ground arith)
  finished (ok (final, ds)) plan h = (final, ds, refl, ground arith)

  admitted :
      (es : List Entry) (plan : Plan)
      → build_plan p dns1123_problems es ≡ ok plan
      → (is_empty (invalid_lines es) ≡ true)
        × (finish (collect p dns1123_problems es [] []) ≡ ok plan)
  unfolding build_plan
  admitted es plan h = ground arith

  -- Where a plan is built, its allowlist names each Secret as often as the inventory claims it,
  -- and no Secret is claimed twice.
  pub build_plan_exact :
      (es : List Entry) (plan : Plan)
      → build_plan p dns1123_problems es ≡ ok plan
      → (k : String) → (occurrences k plan.secret_names ≡ claims k es) × (claims k es ≤ 1)
  build_plan_exact es plan h k =
      let (final, ds, collected, named) = finished _ plan (admitted es plan h).1 in
      let exact = collect_exact k es [] final [] ds collected in
      let distinct = collect_distinct k es [] final [] ds collected (ground arith) in
      (
        ap (occurrences k) named ∙ occurrences-sort k (keys_of final) ∙ exact ∙ omega arith,
        omega arith,
      )

  nothing_held : (es : List Entry) → Admissible dns1123_problems es → invalid_lines es ≡ []
  unfolding invalid_lines
  nothing_held [] h = refl
  nothing_held (e ∷ es) (a, _, h) = ground (arith, nothing_held es h)

  collect-ok :
      (es : List Entry) (claimed : Dict String) (cs : List Connection)
      → Admissible dns1123_problems es
      → ((k : String) → claims k es + occurrences k (keys_of claimed) ≤ 1)
      → (r : Dict String × List Connection) × (collect p dns1123_problems es claimed cs ≡ ok r)
  unfolding collect
  collect-ok [] claimed cs a u = ((claimed, cs), refl)
  collect-ok (e ∷ es) claimed cs (_, valid, a) u =
      let name = e.cluster.secret_name in
      let free = fresh name claimed (ground (arith, u name)) in
      let (r, h) =
        collect-ok es (insert name e.cluster.name claimed)
          (record { name = e.cluster.name; secret_name = name } ∷ cs) a
          (λ k. ground (arith, u k, occurrences-insert k name e.cluster.name claimed free)) in
      (r, ground arith)

  -- An inventory with nothing held back, valid Secret names and no Secret claimed twice is never
  -- refused.
  pub build_plan_admits :
      (es : List Entry)
      → Admissible dns1123_problems es
      → ((k : String) → claims k es ≤ 1)
      → (plan : Plan) × (build_plan p dns1123_problems es ≡ ok plan)
  unfolding build_plan
  build_plan_admits es a u =
      let (r, collected) = collect-ok es [] [] a (λ k. ground (arith, u k)) in
      let held = nothing_held es a in
      (
        record { connections = sort_connections r.1; secret_names = sort_strings (keys_of r.0) },
        ground arith,
      )
