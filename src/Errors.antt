-- ===== src/Errors.antt =====
-- Go's error values. An error is its text together with what errors.Is, errors.As and the tests of
-- k8s.io/apimachinery's `apierrors` find along its chain; wrapping with %w keeps all of that.
use k2a_token_sync.Base.{
  String, ◌<>◌, ◌≡◌, refl, arith, if◌then◌else◌, Bool, true, false, ◌||◌, Option, none, some, List,
  [], ◌∷◌, ◌++◌,
}

-- The errors the program compares with errors.Is.
pub data Sentinel : Type 0 where
  err_no_credential err_credential_expired err_certificate_invalid : Sentinel
  err_credential_rejected err_credential_replaced err_role_ref_immutable err_not_found : Sentinel

-- The reason of an API server's Status answer, as far as the program tells them apart.
pub data ApiReason : Type 0 where
  not_found already_exists forbidden conflict other_reason : ApiReason

pub record Error : Type 0 where
  pub text : String
  pub sentinels : List Sentinel
  pub api_reason : Option ApiReason
  -- errors.As finds a *url.Error
  pub transport : Bool

pub data Result {ℓ} (A : Type ℓ) : Type ℓ where
  ok : A → Result A
  err : Error → Result A

-- Go's `if err != nil { return …, err }`
abbrev pub and_then {ℓ κ} : {A : Type ℓ} {B : Type κ} → Result A → (A → Result B) → Result B
and_then (ok a) k = k a
and_then (err e) k = err e

-- What a chain that succeeded went through.
pub and_then-ok {ℓ κ} :
    {A : Type ℓ} {B : Type κ} (r : Result A) (k : A → Result B) {b : B}
    → and_then r k ≡ ok b
    → (a : A) × (r ≡ ok a) × (k a ≡ ok b)
and_then-ok (ok a) k h = (a, refl, h)
and_then-ok (err e) k h = absurd (ground arith)

-- A guard that did not stop the function.
pub guard-ok {ℓ} :
    {A : Type ℓ} (b : Bool) (e : Error) (rest : Result A) {a : A}
    → (if b then err e else rest) ≡ ok a
    → (b ≡ false) × (rest ≡ ok a)
guard-ok true e rest h = absurd (ground arith)
guard-ok false e rest h = (refl, h)

-- errors.New, and fmt.Errorf with no %w
abbrev pub new_error : String → Error
new_error text = record { text = text; sentinels = []; api_reason = none; transport = false }

-- A package variable declared by errors.New.
abbrev pub sentinel_error : Sentinel → String → Error
sentinel_error s text = record {
  text = text;
  sentinels = s ∷ [];
  api_reason = none;
  transport = false;
}

-- fmt.Errorf with the error at a %w, between two texts
abbrev pub wrap : String → Error → String → Error
wrap prefix e suffix = record e { text = prefix <> e.text <> suffix }

abbrev pub first_some {ℓ} : {A : Type ℓ} → Option A → Option A → Option A
first_some none o = o
first_some (some a) _ = some a

-- fmt.Errorf with two errors at %w
abbrev pub wrap_two : Error → String → Error → Error
wrap_two e middle f = record {
  text = e.text <> middle <> f.text;
  sentinels = e.sentinels ++ f.sentinels;
  api_reason = first_some e.api_reason f.api_reason;
  transport = e.transport || f.transport;
}

abbrev pub same_sentinel : Sentinel → Sentinel → Bool
same_sentinel err_no_credential err_no_credential = true
same_sentinel err_credential_expired err_credential_expired = true
same_sentinel err_certificate_invalid err_certificate_invalid = true
same_sentinel err_credential_rejected err_credential_rejected = true
same_sentinel err_credential_replaced err_credential_replaced = true
same_sentinel err_role_ref_immutable err_role_ref_immutable = true
same_sentinel err_not_found err_not_found = true
same_sentinel _ _ = false

abbrev pub mentions : List Sentinel → Sentinel → Bool
mentions [] s = false
mentions (t ∷ ts) s = same_sentinel t s || mentions ts s

-- errors.Is(e, s)
abbrev pub is_sentinel : Error → Sentinel → Bool
is_sentinel e s = mentions e.sentinels s

abbrev pub has_reason : Option ApiReason → ApiReason → Bool
has_reason (some not_found) not_found = true
has_reason (some already_exists) already_exists = true
has_reason (some forbidden) forbidden = true
has_reason (some conflict) conflict = true
has_reason _ _ = false

-- apierrors.IsNotFound, IsAlreadyExists, IsForbidden and IsConflict
abbrev pub is_not_found : Error → Bool
is_not_found e = has_reason e.api_reason not_found

abbrev pub is_already_exists : Error → Bool
is_already_exists e = has_reason e.api_reason already_exists

abbrev pub is_forbidden : Error → Bool
is_forbidden e = has_reason e.api_reason forbidden

abbrev pub is_conflict : Error → Bool
is_conflict e = has_reason e.api_reason conflict
