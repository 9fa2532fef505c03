-- ===== src/Core/Exec.antt =====
-- Coroutines of the engine that change a state and may raise. What was written before a raise
-- stays written, so the state comes back beside the exception too.
pub mod Gives
pub mod Keeps
pub mod Yields
use foliqant.Prelude.{Option, none, some, Bool, true, false}
use foliqant.Core.Errors.{ErrorCode, Exn, service, service_error}
use foliqant.Core.Result.{Result, ok, err}

pub data Raised {ℓ} (A : Type ℓ) : Type ℓ where
  returned : A → Raised A
  raised : Exn → Raised A

abbrev pub Exec : Type 0 → Type 0 → Type 0
Exec S A = S → Raised A × S

abbrev pub continue : {S A B : Type 0} → (A → Exec S B) → Raised A → S → Raised B × S
continue f (returned a) s = f a s
continue f (raised e) s = (raised e, s)

module _ {S A : Type 0} where
  unfoldable pub pure : A → Exec S A
  pure a s = (returned a, s)

  unfoldable pub throw : Exn → Exec S A
  throw e s = (raised e, s)

  unfoldable pub gets : (S → A) → Exec S A
  gets f s = (returned (f s), s)

module _ {S A B : Type 0} where
  infixl 5 ◌>>=◌ ◌>>◌
  unfoldable pub ◌>>=◌ : Exec S A → (A → Exec S B) → Exec S B
  ◌>>=◌ m f s = let (r, s') = m s in continue f r s'

  abbrev pub ◌>>◌ : Exec S A → Exec S B → Exec S B
  m >> n = m >>= λ _. n

unfoldable pub modify : {S : Type 0} → (S → S) → Exec S (Unit {0})
modify f s = (returned tt, f s)

-- `raise ServiceError(code)`
abbrev pub raise_code : {S A : Type 0} → ErrorCode → Exec S A
raise_code c = throw (service (service_error c))

abbrev pub raise_when : {S : Type 0} → Bool → ErrorCode → Exec S (Unit {0})
raise_when true c = raise_code c
raise_when false c = pure tt

-- a call of pure code that may raise
abbrev pub lift : {S A : Type 0} → Result A → Exec S A
lift (ok a) = pure a
lift (err e) = throw (service e)

-- a call that raises or returns nothing
abbrev pub call : {S : Type 0} → Option Exn → Exec S (Unit {0})
call none = pure tt
call (some e) = throw e

-- `KeyError` turned into a service error
abbrev pub or_raise : {S A : Type 0} → Option A → ErrorCode → Exec S A
or_raise none c = raise_code c
or_raise (some a) c = pure a

-- the cases of a value that may be absent
abbrev pub option_case {ℓ} :
    {B : Type ℓ} {S A : Type 0} → Option B → Exec S A → (B → Exec S A) → Exec S A
option_case none m f = m
option_case (some b) m f = f b

-- `try: m except Exception as caught: handle`; a cancellation passes through
abbrev pub handle_raised : {S A : Type 0} → (Exn → Exec S A) → Raised A → Exec S A
handle_raised h (returned a) s = (returned a, s)
handle_raised h (raised Exn.cancelled) s = (raised Exn.cancelled, s)
handle_raised h (raised e) s = h e s

unfoldable pub catch : {S A : Type 0} → Exec S A → (Exn → Exec S A) → Exec S A
catch m h s = let (r, s') = m s in handle_raised h r s'

-- An action on a part of the state.
unfoldable pub zoom : {S T A : Type 0} → (S → T) → (T → S → S) → Exec T A → Exec S A
zoom get put m s = let (r, t) = m (get s) in (r, put t s)
