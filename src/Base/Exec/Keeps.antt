-- ===== src/Base/Exec/Keeps.antt =====
-- Invariants of actions: an action keeps `P` if `P` holds where it returns and where it fails.
use mathlib.Core.Bool.{Bool, true, false}
use mathlib.Core.Option.{Option, none, some}
use yove.Base.Tests.{if◌then◌else◌}
use yove.Base.Exec.{
  Outcome, ok, err, panic, Exec, pure, raise, abort, gets, modify, unwrap, assert, ◌>>=◌,
}

abbrev pub Holds : {S E A : Type 0} → (S → Type 0) → Outcome S E A → Type 0
Holds P (ok a t) = P t
Holds P (err e t) = P t
Holds P panic = Unit

pub record Keeps {S E A : Type 0} (P : S → Type 0) (m : Exec S E A) : Type 0 where
  pub at : (s : S) → P s → Holds P (m s)

module _ {S E A : Type 0} {P : S → Type 0} where
  pub Keeps-pure : (a : A) → Keeps P (pure {E = E} a)
  unfolding ◌>>=◌
  Keeps-pure a = record { at = λ s h. h }

  pub Keeps-raise : (e : E) → Keeps P (raise {A = A} e)
  unfolding ◌>>=◌
  Keeps-raise e = record { at = λ s h. h }

  pub Keeps-gets : (f : S → A) → Keeps P (gets {E = E} f)
  unfolding ◌>>=◌
  Keeps-gets f = record { at = λ s h. h }

  pub Keeps-unwrap : (o : Option A) → Keeps P (unwrap {E = E} o)
  unfolding ◌>>=◌
  Keeps-unwrap none = record { at = λ s h. tt }
  Keeps-unwrap (some a) = record { at = λ s h. h }

  pub Keeps-abort : Keeps P (abort {S = S} {E = E} {A = A})
  unfolding ◌>>=◌
  Keeps-abort = record { at = λ s h. tt }

  pub Keeps-if :
      (b : Bool) (m n : Exec S E A) → Keeps P m → Keeps P n → Keeps P (if b then m else n)
  Keeps-if true m n km kn = km
  Keeps-if false m n km kn = kn

module _ {S E : Type 0} {P : S → Type 0} where
  pub Keeps-modify : (f : S → S) → ((s : S) → P s → P (f s)) → Keeps P (modify {E = E} f)
  unfolding ◌>>=◌
  Keeps-modify f h = record { at = h }

  pub Keeps-assert : (b : Bool) → Keeps P (assert {E = E} b)
  unfolding ◌>>=◌
  Keeps-assert true = record { at = λ s h. h }
  Keeps-assert false = record { at = λ s h. tt }

module _ {S E A B : Type 0} {P : S → Type 0} where
  bind-Holds :
      (o : Outcome S E A) (f : A → Exec S E B)
      → Holds P o
      → ((a : A) → Keeps P (f a))
      → Holds P (elim o [ ok a t ↦ f a t | err e t ↦ err e t | panic ↦ panic ])
  bind-Holds (ok a t) f h k = (k a).at t h
  bind-Holds (err e t) f h k = h
  bind-Holds panic f h k = tt

  pub Keeps-bind :
      (m : Exec S E A) (f : A → Exec S E B)
      → Keeps P m
      → ((a : A) → Keeps P (f a))
      → Keeps P (m >>= f)
  unfolding ◌>>=◌
  Keeps-bind m f km kf = record { at = λ s h. bind-Holds (m s) f (km.at s h) kf }

pub ruleset keeps_rules = (
  Keeps-pure, Keeps-raise, Keeps-abort, Keeps-gets, Keeps-unwrap, Keeps-if, Keeps-assert,
  Keeps-bind,
)
