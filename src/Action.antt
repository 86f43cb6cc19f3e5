-- ===== src/Action.antt =====
-- A function that fails and changes a state: what it returns, and the state it leaves, which comes
-- back after an error too.
use k2a_token_sync.Base.{
  ◌≡◌, refl, ap, ◌∙◌, arith, Bool, true, false, Option, none, some, if◌then◌else◌,
}
use k2a_token_sync.Errors.{Error, Result, ok, err}

abbrev pub Action : Type 0 → Type 0 → Type 0
Action S A = S → Result A × S

abbrev pub outcome_of : Result (Unit {0}) → Option Error
outcome_of (ok _) = none
outcome_of (err e) = some e

abbrev pub relabelled : {A : Type 0} → (Error → Error) → Result A → Result A
relabelled f (ok a) = ok a
relabelled f (err e) = err (f e)

module _ {S A : Type 0} where
  unfoldable pub pure : A → Action S A
  pure a s = (ok a, s)

  unfoldable pub fail : Error → Action S A
  fail e s = (err e, s)

  unfoldable pub from_result : Result A → Action S A
  from_result r s = (r, s)

  -- The outcome of a step as a value, for a caller that looks at the error.
  unfoldable pub attempt : Action S A → Action S (Result A)
  attempt m s = (ok (m s).0, (m s).1)

  -- `if err != nil { return …, f(err) }`
  unfoldable pub on_error : (Error → Error) → Action S A → Action S A
  on_error f m s = (relabelled f (m s).0, (m s).1)

  -- What comes after a step: nothing, where it failed.
  unfoldable pub then_run : {B : Type 0} → (A → Action S B) → Result A × S → Result B × S
  then_run k (ok a, s) = k a s
  then_run k (err e, s) = (err e, s)

unfoldable pub update : {S : Type 0} → (S → S) → Action S (Unit {0})
update f s = (ok tt, f s)

infixl 5 ◌>>=◌ ◌>>◌
unfoldable pub ◌>>=◌ : {S A B : Type 0} → Action S A → (A → Action S B) → Action S B
unfolding then_run
◌>>=◌ m k s = then_run k (m s)

abbrev pub ◌>>◌ : {S B : Type 0} → Action S (Unit {0}) → Action S B → Action S B
m >> k = m >>= λ _. k

module _ {S : Type 0} where
  -- The action does not leave a set of states.
  pub record Stays {A : Type 0} (I : S → Type 0) (m : Action S A) : Type 0 where
    pub stays : (s : S) → I s → I (m s).1

  -- What holds of the outcome of an action and of the state it leaves.
  abbrev pub Ensures : {A : Type 0} → Action S A → S → (Result A → S → Type 0) → Type 0
  Ensures m s Q = Q (m s).0 (m s).1

  then_run-ensures :
      {A B : Type 0} (k : A → Action S B) (Q : Result B → S → Type 0) (x : Result A × S)
      → ((a : A) → x.0 ≡ ok a → Ensures (k a) x.1 Q)
      → ((e : Error) → x.0 ≡ err e → Q (err e) x.1)
      → Q (then_run k x).0 (then_run k x).1
  unfolding then_run
  then_run-ensures k Q (ok a, s) good bad = good a refl
  then_run-ensures k Q (err e, s) good bad = bad e refl

  -- The rule for a sequence: the rest starts where the first step succeeded.
  pub >>=-ensures :
      {A B : Type 0} (m : Action S A) (k : A → Action S B) (s : S) (Q : Result B → S → Type 0)
      → ((a : A) → (m s).0 ≡ ok a → Ensures (k a) (m s).1 Q)
      → ((e : Error) → (m s).0 ≡ err e → Q (err e) (m s).1)
      → Ensures (m >>= k) s Q
  unfolding ◌>>=◌
  >>=-ensures m k s Q good bad = then_run-ensures k Q (m s) good bad

  module _ {A : Type 0} {I : S → Type 0} where
    pub pure-Stays : (a : A) → Stays I (pure a)
    unfolding pure
    pure-Stays a = record { stays = λ s i. i }

    pub fail-Stays : (e : Error) → Stays {A = A} I (fail e)
    unfolding fail
    fail-Stays e = record { stays = λ s i. i }

    pub from_result-Stays : (r : Result A) → Stays I (from_result r)
    unfolding from_result
    from_result-Stays r = record { stays = λ s i. i }

    pub attempt-Stays : (m : Action S A) → Stays I m → Stays I (attempt m)
    unfolding attempt
    attempt-Stays m h = record { stays = λ s i. h.stays s i }

    pub on_error-Stays : (f : Error → Error) (m : Action S A) → Stays I m → Stays I (on_error f m)
    unfolding on_error
    on_error-Stays f m h = record { stays = λ s i. h.stays s i }

    pub if-Stays :
        (b : Bool) (m n : Action S A) → Stays I m → Stays I n → Stays I (if b then m else n)
    if-Stays true m n h j = h
    if-Stays false m n h j = j

    -- In a sequence the rest need only stay where the first step ended.
    pub >>=-Stays :
        {B : Type 0} (m : Action S A) (k : A → Action S B)
        → Stays I m
        → ((a : A) → Stays I (k a))
        → Stays I (m >>= k)
    >>=-Stays m k h rest = record {
      stays = λ s i.
          >>=-ensures m k s (λ r after. I after) (λ a e. (rest a).stays (m s).1 (h.stays s i))
            (λ f e. h.stays s i);
    }

pub relabelled-ok :
    {A : Type 0} (f : Error → Error) (r : Result A) (a : A) → relabelled f r ≡ ok a → r ≡ ok a
relabelled-ok f (ok b) a h = h
relabelled-ok f (err e) a h = absurd (ground arith)

-- The action succeeds with a value and leaves a state.
abbrev pub Returns : {S A : Type 0} → Action S A → S → A → S → Type 0
Returns m s a after = m s ≡ (ok a, after)

-- What a success says of the steps.
module _ {S : Type 0} where
  pub returned :
      {A : Type 0} (m : Action S A) (s : S) (a : A) → (m s).0 ≡ ok a → Returns m s a (m s).1
  returned m s a e = ground arith

  pub pure-Returns :
      {A : Type 0} {a b : A} {s after : S} → Returns (pure a) s b after → (a ≡ b) × (s ≡ after)
  unfolding pure
  pure-Returns h = (cc, cc)

  pub from_result-Returns :
      {A : Type 0} {r : Result A} {a : A} {s after : S}
      → Returns (from_result r) s a after
      → (r ≡ ok a) × (s ≡ after)
  unfolding from_result
  from_result-Returns h = (ap (λ x. x.0) h, ap (λ x. x.1) h)

  pub on_error-Returns :
      {A : Type 0} (f : Error → Error) (m : Action S A) (s : S) (a : A) (after : S)
      → Returns (on_error f m) s a after
      → Returns m s a after
  unfolding on_error
  on_error-Returns f m s a after h =
      returned m s a (relabelled-ok f (m s).0 a (ap (λ x. x.0) h)) ∙ ap (λ x. (ok a, x.1)) h

  pub attempt-Returns :
      {A : Type 0} (m : Action S A) (s : S) (r : Result A) (after : S)
      → Returns (attempt m) s r after
      → m s ≡ (r, after)
  unfolding attempt
  attempt-Returns m s r after h = ground arith

  then_run-ok :
      {A B : Type 0} (k : A → Action S B) (x : Result A × S) (b : B) (after : S)
      → then_run k x ≡ (ok b, after)
      → (a : A) × (mid : S) × (x ≡ (ok a, mid)) × Returns (k a) mid b after
  unfolding then_run
  then_run-ok k (ok a, s) b after h = (a, s, refl, h)
  then_run-ok k (err e, s) b after h = absurd (ground arith)

  pub >>=-Returns :
      {A B : Type 0} (m : Action S A) (k : A → Action S B) (s : S) (b : B) (after : S)
      → Returns (m >>= k) s b after
      → (a : A) × (mid : S) × Returns m s a mid × Returns (k a) mid b after
  unfolding ◌>>=◌
  >>=-Returns m k s b after h = then_run-ok k (m s) b after h

-- A sequence whose first step stays in one set of states leads into a larger one, where the rest
-- leads there.
pub >>=-into :
    {S A B : Type 0} {I J : S → Type 0} (m : Action S A) (k : A → Action S B)
    → ((s : S) → I s → J s)
    → Stays I m
    → ((a : A) (s : S) → I s → J (k a s).1)
    → (s : S) → I s
    → J ((m >>= k) s).1
>>=-into {J = J} m k widen first rest s i =
    >>=-ensures m k s (λ r after. J after) (λ a e. rest a (m s).1 (first.stays s i))
      (λ f e. widen (m s).1 (first.stays s i))

-- A do block stays in a set of states where each of its steps does.
pub ruleset stays_rules =
    (pure-Stays, fail-Stays, from_result-Stays, attempt-Stays, on_error-Stays, if-Stays, >>=-Stays)
