-- ===== src/Core/Exec/Keeps.antt =====
-- Invariants of actions: one rule for each way in which the engine builds an action.
use foliqant.Prelude.{◌≡◌, Bool, true, false, Option, none, some, if◌then◌else◌}
use foliqant.Core.Errors.{ErrorCode, Exn, service, service_error}
use foliqant.Core.Result.{Result, ok, err}
use foliqant.Core.Exec.{
  Raised, returned, raised, Exec, continue, pure, throw, gets, ◌>>=◌, modify, raise_when, lift,
  call, or_raise, handle_raised, catch, zoom, option_case,
}

-- Whether `m` returns or raises, `P` holds after it if it held before.
pub record Keeps {S A : Type 0} (P : S → Type 0) (m : Exec S A) : Type 0 where
  pub at : (state : S) → P state → P (m state).1

module _ {S A : Type 0} {P : S → Type 0} where
  pub Keeps-pure : (result : A) → Keeps P (pure result)
  unfolding pure
  Keeps-pure result = record { at = λ _ before. before }

  pub Keeps-throw : (e : Exn) → Keeps P (throw {A = A} e)
  unfolding throw
  Keeps-throw e = record { at = λ _ before. before }

  pub Keeps-gets : (read : S → A) → Keeps P (gets read)
  unfolding gets
  Keeps-gets read = record { at = λ _ before. before }

  pub Keeps-lift : (r : Result A) → Keeps P (lift r)
  Keeps-lift (ok a) = Keeps-pure a
  Keeps-lift (err e) = Keeps-throw (service e)

  pub Keeps-or_raise : (o : Option A) (c : ErrorCode) → Keeps P (or_raise o c)
  Keeps-or_raise none c = Keeps-throw (service (service_error c))
  Keeps-or_raise (some a) c = Keeps-pure a

  pub Keeps-if : (b : Bool) (m n : Exec S A) → Keeps P m → Keeps P n → Keeps P (if b then m else n)
  Keeps-if true m n km kn = km
  Keeps-if false m n km kn = kn

  pub Keeps-catch :
      (m : Exec S A) (h : Exn → Exec S A)
      → Keeps P m
      → ((e : Exn) → Keeps P (h e))
      → Keeps P (catch m h)
  unfolding catch
  Keeps-catch m h km kh = record { at = λ s p. let (r, s') = m s in handled r s' (km.at s p) }
    where
      handled : (r : Raised A) (s : S) → P s → P (handle_raised h r s).1
      handled (returned a) s p = p
      handled (raised (service e)) s p = (kh (service e)).at s p
      handled (raised Exn.timeout) s p = (kh Exn.timeout).at s p
      handled (raised Exn.other) s p = (kh Exn.other).at s p
      handled (raised Exn.cancelled) s p = p

module _ {S : Type 0} {P : S → Type 0} where
  pub Keeps-raise_when : (b : Bool) (c : ErrorCode) → Keeps P (raise_when b c)
  Keeps-raise_when true c = Keeps-throw (service (service_error c))
  Keeps-raise_when false c = Keeps-pure tt

  pub Keeps-call : (o : Option Exn) → Keeps P (call o)
  Keeps-call none = Keeps-pure tt
  Keeps-call (some e) = Keeps-throw e

  pub Keeps-modify : (f : S → S) → ((s : S) → P s → P (f s)) → Keeps P (modify f)
  unfolding modify
  Keeps-modify f h = record { at = h }

module _ {S A B : Type 0} {P : S → Type 0} where
  pub Keeps-bind :
      (first : Exec S A) (rest : A → Exec S B)
      → Keeps P first
      → ((result : A) → Keeps P (rest result))
      → Keeps P (first >>= rest)
  unfolding ◌>>=◌
  Keeps-bind first rest kf kr = record {
    at = λ state p. let (r, state') = first state in onwards r state' (kf.at state p);
  }
    where
      onwards : (r : Raised A) (state : S) → P state → P (continue rest r state).1
      onwards (returned result) state p = (kr result).at state p
      onwards (raised e) state p = p

-- `m` takes every state in which `P` holds to one in which `Q` holds.
pub record Takes {S A : Type 0} (P Q : S → Type 0) (m : Exec S A) : Type 0 where
  pub at : (s : S) → P s → Q (m s).1

abbrev pub Either {ℓ κ} : {A : Type ℓ} → Raised A → Type κ → Type κ → Type κ
Either (returned _) Q P = Q
Either (raised _) Q P = P

-- the same, but after an exception `P` still holds
pub record Leads {S A : Type 0} (P Q : S → Type 0) (m : Exec S A) : Type 0 where
  pub at : (s : S) → P s → Either (m s).0 (Q (m s).1) (P (m s).1)

module _ {S A : Type 0} {P Q : S → Type 0} where
  pub Keeps-Takes : (m : Exec S A) → Keeps P m → ((s : S) → Q s → P s) → Takes Q P m
  Keeps-Takes m km h = record { at = λ s q. km.at s (h s q) }

module _ {S A : Type 0} {P : S → Type 0} where
  pub Keeps-option {ℓ} :
      {B : Type ℓ} (o : Option B) (m : Exec S A) (f : B → Exec S A)
      → Keeps P m
      → ((b : B) → Keeps P (f b))
      → Keeps P (option_case o m f)
  Keeps-option none m f km kf = km
  Keeps-option (some b) m f km kf = kf b

module _ {S A B : Type 0} {P Q : S → Type 0} where
  pub Leads-bind :
      (m : Exec S A) (f : A → Exec S B)
      → Leads P Q m
      → ((a : A) → Takes Q P (f a))
      → Keeps P (m >>= f)
  unfolding ◌>>=◌
  Leads-bind m f lm tf = record { at = λ s p. let (r, s') = m s in onwards r s' (lm.at s p) }
    where
      onwards : (r : Raised A) (s : S) → Either r (Q s) (P s) → P (continue f r s).1
      onwards (returned a) s q = (tf a).at s q
      onwards (raised e) s p = p

  pub Takes-before :
      (m : Exec S A) (f : A → Exec S B)
      → Keeps Q m
      → ((s : S) → Q s → P s)
      → ((a : A) → Takes Q P (f a))
      → Takes Q P (m >>= f)
  unfolding ◌>>=◌
  Takes-before m f km h tf = record { at = λ s q. let (r, s') = m s in onwards r s' (km.at s q) }
    where
      onwards : (r : Raised A) (s : S) → Q s → P (continue f r s).1
      onwards (returned a) s q = (tf a).at s q
      onwards (raised e) s q = h s q

  pub Takes-after :
      (m : Exec S A) (f : A → Exec S B)
      → Takes Q P m
      → ((a : A) → Keeps P (f a))
      → Takes Q P (m >>= f)
  unfolding ◌>>=◌
  Takes-after m f tm kf = record { at = λ s q. let (r, s') = m s in onwards r s' (tm.at s q) }
    where
      onwards : (r : Raised A) (s : S) → P s → P (continue f r s).1
      onwards (returned a) s p = (kf a).at s p
      onwards (raised e) s p = p

-- `P` speaks of the part only.
pub Keeps-zoom :
    {S T A : Type 0} {P : T → Type 0} (get : S → T) (put : T → S → S) (m : Exec T A)
    → ((t : T) (s : S) → get (put t s) ≡ t)
    → Keeps P m
    → Keeps (λ s. P (get s)) (zoom get put m)
unfolding zoom
Keeps-zoom get put m law km = record {
  at = λ s p. let (r, t) = m (get s) in rw (law t s) (km.at (get s) p);
}

module _ {S T A : Type 0} {P Q : T → Type 0} where
  pub Takes-zoom :
      (get : S → T) (put : T → S → S) (m : Exec T A)
      → ((t : T) (s : S) → get (put t s) ≡ t)
      → Takes P Q m
      → Takes (λ s. P (get s)) (λ s. Q (get s)) (zoom get put m)
  unfolding zoom
  Takes-zoom get put m law tm = record {
    at = λ s p. let (r, t) = m (get s) in rw (law t s) (tm.at (get s) p);
  }

module _ {S T A : Type 0} {P Q : T → Type 0} where
  pub Leads-zoom :
      (get : S → T) (put : T → S → S) (m : Exec T A)
      → ((t : T) (s : S) → get (put t s) ≡ t)
      → Leads P Q m
      → Leads (λ s. P (get s)) (λ s. Q (get s)) (zoom get put m)
  unfolding zoom
  Leads-zoom get put m law lm = record {
    at = λ s p. let (r, t) = m (get s) in rw (law t s) (lm.at (get s) p);
  }

module _ {S A : Type 0} {P Q R : S → Type 0} where
  pub Takes-map : (m : Exec S A) → ((s : S) → Q s → R s) → Takes P Q m → Takes P R m
  Takes-map m h tm = record { at = λ s p. h _ (tm.at s p) }

module _ {S A : Type 0} {P Q : S → Type 0} where
  pub Takes-catch :
      (m : Exec S A) (handle : Exn → Exec S A)
      → Takes P Q m
      → ((e : Exn) → Keeps Q (handle e))
      → Takes P Q (catch m handle)
  unfolding catch
  Takes-catch m handle tm kh = record { at = λ s p. let (r, s') = m s in handled r s' (tm.at s p) }
    where
      handled : (r : Raised A) (s : S) → Q s → Q (handle_raised handle r s).1
      handled (returned a) s q = q
      handled (raised (service e)) s q = (kh (service e)).at s q
      handled (raised Exn.timeout) s q = (kh Exn.timeout).at s q
      handled (raised Exn.other) s q = (kh Exn.other).at s q
      handled (raised Exn.cancelled) s q = q

module _ {S A B : Type 0} {P Q R : S → Type 0} where
  pub Takes-seq :
      (m : Exec S A) (f : A → Exec S B)
      → Takes P Q m
      → ((s : S) → Q s → R s)
      → ((a : A) → Takes Q R (f a))
      → Takes P R (m >>= f)
  unfolding ◌>>=◌
  Takes-seq m f tm h tf = record { at = λ s p. let (r, s') = m s in onwards r s' (tm.at s p) }
    where
      onwards : (r : Raised A) (s : S) → Q s → R (continue f r s).1
      onwards (returned a) s q = (tf a).at s q
      onwards (raised e) s q = h s q

pub ruleset keeps_rules = (
  Keeps-pure, Keeps-throw, Keeps-gets, Keeps-lift, Keeps-or_raise, Keeps-if, Keeps-option,
  Keeps-raise_when, Keeps-call, Keeps-bind,
)
