-- ===== src/Core/Exec/Yields.antt =====
-- What actions return and raise: one rule for each way in which the engine builds an action.
use foliqant.Prelude.{◌≡◌, refl, Bool, true, false, Option, none, some, if◌then◌else◌}
use foliqant.Core.Errors.{ErrorCode, Exn, service, service_error}
use foliqant.Core.Result.{Result, ok, err, OkHas}
use foliqant.Core.Exec.{
  Raised, returned, raised, Exec, continue, pure, throw, ◌>>=◌, lift, or_raise, handle_raised,
  catch, zoom, option_case,
}

abbrev pub Returned {ℓ κ} : {A : Type ℓ} → (A → Type κ) → Raised A → Type κ
Returned Q (returned a) = Q a
Returned Q (raised e) = Unit

-- Whatever `m` returns has `Q`.
pub record Yields {S A : Type 0} (Q : A → Type 0) (m : Exec S A) : Type 0 where
  pub at : (s : S) → Returned Q (m s).0

module _ {S A : Type 0} {Q : A → Type 0} where
  pub Yields-pure : (a : A) → Q a → Yields Q (pure {S = S} a)
  unfolding pure
  Yields-pure a q = record { at = λ s. q }

  pub Yields-throw : (e : Exn) → Yields Q (throw {S = S} {A = A} e)
  unfolding throw
  Yields-throw e = record { at = λ s. tt }

  pub Yields-lift : (r : Result A) → ((a : A) → r ≡ ok a → Q a) → Yields Q (lift {S = S} r)
  Yields-lift (ok a) h = Yields-pure a (h a refl)
  Yields-lift (err e) h = Yields-throw (service e)

  pub Yields-lift_ok : (r : Result A) → OkHas Q r → Yields Q (lift {S = S} r)
  Yields-lift_ok (ok a) h = Yields-pure a h.at
  Yields-lift_ok (err e) h = Yields-throw (service e)

  pub Yields-or_raise :
      (o : Option A) (c : ErrorCode)
      → ((a : A) → o ≡ some a → Q a)
      → Yields Q (or_raise {S = S} o c)
  Yields-or_raise none c h = Yields-throw (service (service_error c))
  Yields-or_raise (some a) c h = Yields-pure a (h a refl)

  pub Yields-if :
      (b : Bool) (m n : Exec S A)
      → (b ≡ true → Yields Q m)
      → (b ≡ false → Yields Q n)
      → Yields Q (if b then m else n)
  Yields-if true m n ym yn = ym refl
  Yields-if false m n ym yn = yn refl

  pub Yields-option {ℓ} :
      {B : Type ℓ} (o : Option B) (m : Exec S A) (f : B → Exec S A)
      → (o ≡ none → Yields Q m)
      → ((b : B) → o ≡ some b → Yields Q (f b))
      → Yields Q (option_case o m f)
  Yields-option none m f ym yf = ym refl
  Yields-option (some b) m f ym yf = yf b refl

  pub Yields-catch :
      (m : Exec S A) (h : Exn → Exec S A)
      → Yields Q m
      → ((e : Exn) → Yields Q (h e))
      → Yields Q (catch m h)
  unfolding catch
  Yields-catch m h ym yh = record { at = λ s. handled (m s).0 (m s).1 (ym.at s) }
    where
      handled : (r : Raised A) (s : S) → Returned Q r → Returned Q (handle_raised h r s).0
      handled (returned a) s q = q
      handled (raised (service e)) s q = (yh (service e)).at s
      handled (raised Exn.timeout) s q = (yh Exn.timeout).at s
      handled (raised Exn.other) s q = (yh Exn.other).at s
      handled (raised Exn.cancelled) s q = q

pub Yields-map :
    {S A : Type 0} {R Q : A → Type 0} (m : Exec S A)
    → ((a : A) → R a → Q a)
    → Yields R m
    → Yields Q m
Yields-map {S} {A} {R} {Q} m h ym = record { at = λ s. weaken (m s).0 (ym.at s) }
  where
    weaken : (r : Raised A) → Returned R r → Returned Q r
    weaken (returned a) q = h a q
    weaken (raised e) q = q

module _ {S A B : Type 0} {Q : B → Type 0} where
  pub Yields-bind :
      {R : A → Type 0} (m : Exec S A) (f : A → Exec S B)
      → Yields R m
      → ((a : A) → R a → Yields Q (f a))
      → Yields Q (m >>= f)
  unfolding ◌>>=◌
  Yields-bind {R} m f ym yf = record { at = λ s. onwards (m s).0 (m s).1 (ym.at s) }
    where
      onwards : (r : Raised A) (s : S) → Returned R r → Returned Q (continue f r s).0
      onwards (returned a) s q = (yf a q).at s
      onwards (raised e) s q = tt

  -- where nothing is known of what `m` returns
  pub Yields-then :
      (m : Exec S A) (f : A → Exec S B) → ((a : A) → Yields Q (f a)) → Yields Q (m >>= f)
  unfolding ◌>>=◌
  Yields-then m f yf = record { at = λ s. onwards (m s).0 (m s).1 }
    where
      onwards : (r : Raised A) (s : S) → Returned Q (continue f r s).0
      onwards (returned a) s = (yf a).at s
      onwards (raised e) s = tt

module _ {S T A : Type 0} {Q : A → Type 0} where
  pub Yields-zoom :
      (get : S → T) (put : T → S → S) (m : Exec T A) → Yields Q m → Yields Q (zoom get put m)
  unfolding zoom
  Yields-zoom get put m ym = record { at = λ s. ym.at (get s) }
