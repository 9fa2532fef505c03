-- ===== src/Core/Result.antt =====
-- A call that returns or raises.
use foliqant.Prelude.{◌≡◌, refl, sym, Bool, true, false}
use foliqant.Core.Errors.{ErrorCode, ServiceError, service_error}

pub data Result {ℓ} (X : Type ℓ) : Type ℓ where
  ok : X → Result X
  err : ServiceError → Result X

infixl 5 ◌>>◌ ◌>>=◌
-- what follows a call that returned
abbrev pub ◌>>=◌ {ℓ κ} : {X : Type ℓ} {Y : Type κ} → Result X → (X → Result Y) → Result Y
ok value >>= next = next value
err raised >>= next = err raised

abbrev pub ◌>>◌ {κ} : {Y : Type κ} → Result (Unit {0}) → Result Y → Result Y
call >> next = call >>= λ _. next

-- `raise ServiceError(code)`
abbrev pub raise {ℓ} : {A : Type ℓ} → ErrorCode → Result A
raise c = err (service_error c)

-- `if test: raise ServiceError(code)`
abbrev pub raise_if : Bool → ErrorCode → Result (Unit {0})
raise_if true c = raise c
raise_if false c = ok tt

abbrev pub is_ok {ℓ} : {A : Type ℓ} → Result A → Bool
is_ok (ok _) = true
is_ok (err _) = false

abbrev pub Ok {ℓ κ} : {A : Type ℓ} → (A → Type κ) → Result A → Type κ
Ok Q (ok a) = Q a
Ok Q (err e) = Unit

-- Whatever the call returns has `Q`.
pub record OkHas {ℓ κ} {A : Type ℓ} (Q : A → Type κ) (r : Result A) : Type κ where
  pub at : Ok Q r

pub OkHas-bind {ℓ κ μ} :
    {A : Type ℓ} {B : Type κ} {Q : B → Type μ} (r : Result A) (f : A → Result B)
    → ((a : A) → r ≡ ok a → OkHas Q (f a))
    → OkHas Q (r >>= f)
OkHas-bind (ok a) f h = h a refl
OkHas-bind (err e) f h = record { at = tt }

pub OkHas-raise_if {ℓ κ} :
    {B : Type ℓ} {Q : B → Type κ} (b : Bool) (c : ErrorCode) (k : Result B)
    → (b ≡ false → OkHas Q k)
    → OkHas Q (raise_if b c >> k)
OkHas-raise_if true c k h = record { at = tt }
OkHas-raise_if false c k h = h refl

moved {ℓ κ} : {A : Type ℓ} {Q : A → Type κ} (r r' : Result A) → OkHas Q r → r ≡ r' → Ok Q r'
moved r r' h e = rw (sym e) h.at

pub OkHas-ok {ℓ κ} :
    {A : Type ℓ} {Q : A → Type κ} (r : Result A) (a : A) → OkHas Q r → r ≡ ok a → Q a
OkHas-ok r a h e = moved r (ok a) h e

pub OkHas-map {ℓ κ μ} :
    {A : Type ℓ} {P : A → Type κ} {Q : A → Type μ} (r : Result A)
    → ((a : A) → P a → Q a)
    → OkHas P r
    → OkHas Q r
OkHas-map (ok a) f h = record { at = f a h.at }
OkHas-map (err e) f h = record { at = tt }
