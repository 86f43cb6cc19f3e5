-- ===== src/Hardening/Excluded.antt =====
-- excludedName: a name that the allowlist does not hold. The loop is on fuel, one more than the
-- number of names: that many candidates cannot all be taken.
use k2a_token_sync.Base.{
  ℕ, zero, suc, ◌+◌, ◌≤◌, ◌<◌, String, ◌≡◌, ◌⊎◌, inl, inr, refl, sym, ap, ◌∙◌, Bool, true, false,
  not, Option, none, some, List, [], ◌∷◌, if◌then◌else◌, ◌==◌, length, contains, arith,
}

abbrev excluded_base : String
excluded_base = "cluster-k2a-token-sync-rbac-excluded"

-- The parameter is fmt.Sprintf("%s-%d", base, i).
module _ (numbered : String → ℕ → String) where
  abbrev pub candidate : ℕ → String
  candidate zero = excluded_base
  candidate (suc i) = numbered excluded_base (suc i)

  -- The loop of excludedName: the claims are the keys of a map, here the names themselves.
  unfoldable pub excluded_from : ℕ → ℕ → List String → Option String
  unfolding contains
  excluded_from zero i names = none
  excluded_from (suc fuel) i names =
      let rest = excluded_from fuel (suc i) names in
      if not (contains names (candidate i)) then some (candidate i) else rest

  -- excludedName
  unfoldable pub excluded_name : List String → Option String
  unfolding excluded_from
  excluded_name names = excluded_from (suc (length names)) 0 names

-- The names other than one of them.
drop_name : String → List String → List String
drop_name k [] = []
drop_name k (n ∷ ns) = let rest = drop_name k ns in if k == n then rest else n ∷ rest

length-drop_name-le : (k : String) (ns : List String) → length (drop_name k ns) ≤ length ns
unfolding drop_name
length-drop_name-le k [] = omega arith
length-drop_name-le k (n ∷ ns) = ground (arith, length-drop_name-le k ns)

length-drop_name-lt :
    (k : String) (ns : List String) → contains ns k ≡ true → length (drop_name k ns) < length ns
unfolding drop_name contains
length-drop_name-lt k [] h = absurd (ground arith)
length-drop_name-lt k (n ∷ ns) h =
    ground (arith, length-drop_name-lt k ns, length-drop_name-le k ns)

contains-drop_name :
    (k j : String) (ns : List String)
    → (j == k) ≡ false
    → contains (drop_name k ns) j ≡ contains ns j
unfolding drop_name contains
contains-drop_name k j [] h = refl
contains-drop_name k j (n ∷ ns) h = ground (arith, contains-drop_name k j ns h)

module _ (numbered : String → ℕ → String)
    (distinct : (i j : ℕ) → candidate numbered i ≡ candidate numbered j → i ≡ j) where
  -- Distinct candidates that are all taken are no more than the names.
  pigeonhole :
      (fuel i : ℕ) (names : List String)
      → ((j : ℕ) → i ≤ j → j < i + fuel → contains names (candidate numbered j) ≡ true)
      → fuel ≤ length names
  pigeonhole zero i names taken = omega arith
  pigeonhole (suc fuel) i names taken =
      let k = candidate numbered i in
      let shorter = length-drop_name-lt k names (taken i (omega arith) (omega arith)) in
      let rest = pigeonhole fuel (suc i) (drop_name k names) (λ j low high.
        ground (arith, taken j, distinct j i, contains-drop_name k (candidate numbered j) names)) in
      omega arith

step_none :
    (c : Bool) (k : String) (rest : Option String)
    → (if not c then some k else rest) ≡ none
    → (c ≡ true) × (rest ≡ none)
step_none c k rest h = ground arith

at_or_after : (i j : ℕ) → i ≤ j → (i ≡ j) ⊎ (suc i ≤ j)
at_or_after i j h = omega arith

found : (o : Option String) → (o ≡ none) ⊎ ((k : String) × (o ≡ some k))
found none = inl refl
found (some k) = inr (k, refl)

module _ (numbered : String → ℕ → String) where
  excluded_from-none :
      (fuel i : ℕ) (names : List String)
      → excluded_from numbered fuel i names ≡ none
      → (j : ℕ) → i ≤ j
      → j < i + fuel
      → contains names (candidate numbered j) ≡ true
  unfolding excluded_from
  excluded_from-none zero i names h j low high = absurd (omega arith)
  excluded_from-none (suc fuel) i names h j low high =
      let (here, later) = step_none (contains names (candidate numbered i)) _ _ h in
      elim (at_or_after i j low) [
        | inl same ↦ ap (λ m. contains names (candidate numbered m)) (sym same) ∙ here
        | inr after ↦ excluded_from-none fuel (suc i) names later j after (omega arith)
      ]

  excluded_from-some :
      (fuel i : ℕ) (names : List String) (k : String)
      → excluded_from numbered fuel i names ≡ some k
      → contains names k ≡ false
  unfolding excluded_from
  excluded_from-some zero i names k h = absurd (ground arith)
  excluded_from-some (suc fuel) i names k h =
      ground (arith, excluded_from-some fuel (suc i) names k)

  -- The search for an excluded name always ends with a name that is not on the list, where
  -- distinct numbers print as distinct texts.
  pub excluded_name-fresh :
      ((i j : ℕ) → candidate numbered i ≡ candidate numbered j → i ≡ j)
      → (names : List String)
      → (k : String) × (excluded_name numbered names ≡ some k) × (contains names k ≡ false)
  unfolding excluded_name
  excluded_name-fresh distinct names = elim (found (excluded_name numbered names)) [
    | inl missing ↦ absurd (
        omega (
          arith,
          pigeonhole numbered distinct (suc (length names)) 0 names
              (excluded_from-none _ _ _ missing),
        ))
    | inr (k, there) ↦ (k, there, excluded_from-some (suc (length names)) 0 names k there)
  ]
