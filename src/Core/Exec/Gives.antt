-- ===== src/Core/Exec/Gives.antt =====
-- What actions return together with the state that they leave: one rule for each way in which the
-- engine builds an action.
use foliqant.Prelude.{◌≡◌, refl, Option, none, some}
use foliqant.Core.Errors.{Exn}
use foliqant.Core.Exec.{
  Raised, returned, raised, Exec, continue, pure, throw, ◌>>=◌, zoom, option_case,
}
use foliqant.Core.Exec.Keeps.{Keeps}
use foliqant.Core.Exec.Yields.{Returned, Yields}

-- Started where `P` holds, what `m` returns and the state it leaves satisfy `Q`.
pub record Gives {S A : Type 0} (P : S → Type 0) (Q : A → S → Type 0) (m : Exec S A) : Type 0 where
  pub at : (s : S) → P s → Returned (λ a. Q a (m s).1) (m s).0

module _ {S A : Type 0} {P : S → Type 0} {Q : A → S → Type 0} where
  pub Gives-pure : (a : A) → ((s : S) → P s → Q a s) → Gives P Q (pure a)
  unfolding pure
  Gives-pure a h = record { at = h }

  pub Gives-throw : (e : Exn) → Gives P Q (throw e)
  unfolding throw
  Gives-throw e = record { at = λ s p. tt }

  pub Gives-option :
      {B : Type 0} (o : Option B) (m : Exec S A) (f : B → Exec S A)
      → (o ≡ none → Gives P Q m)
      → ((b : B) → o ≡ some b → Gives P Q (f b))
      → Gives P Q (option_case o m f)
  Gives-option none m f gm gf = gm refl
  Gives-option (some b) m f gm gf = gf b refl

module _ {S A : Type 0} {P : S → Type 0} {Q R : A → S → Type 0} where
  pub Gives-map : (m : Exec S A) → ((a : A) (s : S) → R a s → Q a s) → Gives P R m → Gives P Q m
  Gives-map m h gm = record { at = λ s p. weaken (m s).0 (m s).1 (gm.at s p) }
    where
      weaken : (r : Raised A) (s : S) → Returned (λ a. R a s) r → Returned (λ a. Q a s) r
      weaken (returned a) s q = h a s q
      weaken (raised e) s q = tt

module _ {S A B : Type 0} {P : S → Type 0} {Q : B → S → Type 0} where
  pub Gives-bind :
      {R : A → S → Type 0} (m : Exec S A) (f : A → Exec S B)
      → Gives P R m
      → ((a : A) → Gives (R a) Q (f a))
      → Gives P Q (m >>= f)
  unfolding ◌>>=◌
  Gives-bind {R} m f gm gf = record { at = λ s p. onwards (m s).0 (m s).1 (gm.at s p) }
    where
      onwards :
          (r : Raised A) (s : S)
          → Returned (λ a. R a s) r
          → Returned (λ b. Q b (continue f r s).1) (continue f r s).0
      onwards (returned a) s q = (gf a).at s q
      onwards (raised e) s q = tt

  -- where `m` keeps the state's property and something is known of what it returns
  pub Gives-both :
      {R : A → Type 0} (m : Exec S A) (f : A → Exec S B)
      → Keeps P m
      → Yields R m
      → ((a : A) → R a → Gives P Q (f a))
      → Gives P Q (m >>= f)
  unfolding ◌>>=◌
  Gives-both {R} m f km ym gf = record { at = λ s p. onwards (m s).0 (m s).1 (km.at s p) (ym.at s) }
    where
      onwards :
          (r : Raised A) (s : S)
          → P s
          → Returned R r
          → Returned (λ b. Q b (continue f r s).1) (continue f r s).0
      onwards (returned a) s p h = (gf a h).at s p
      onwards (raised e) s p h = tt

  -- where `m` only keeps the state's property
  pub Gives-then :
      (m : Exec S A) (f : A → Exec S B)
      → Keeps P m
      → ((a : A) → Gives P Q (f a))
      → Gives P Q (m >>= f)
  Gives-then m f km gf = Gives-bind m f (record { at = λ s p. kept (m s).0 (m s).1 (km.at s p) }) gf
    where
      kept : (r : Raised A) (s : S) → P s → Returned (λ _. P s) r
      kept (returned a) s p = p
      kept (raised e) s p = tt

-- properties of the part only
pub Gives-zoom :
    {S T A : Type 0} {P : T → Type 0} {Q : A → T → Type 0} (get : S → T) (put : T → S → S)
    (m : Exec T A)
    → ((t : T) (s : S) → get (put t s) ≡ t)
    → Gives P Q m
    → Gives (λ s. P (get s)) (λ a s. Q a (get s)) (zoom get put m)
unfolding zoom
Gives-zoom get put m law gm = record {
  at = λ s p. let (r, t) = m (get s) in rw (law t s) (gm.at (get s) p);
}
