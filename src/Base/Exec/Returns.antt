-- ===== src/Base/Exec/Returns.antt =====
-- Actions that return: neither an error nor a panic.
use mathlib.Core.Path.{◌≡◌, ap, refl}
use yove.Base.Exec.{Outcome, ok, err, panic, Exec, ◌>>=◌}

-- The action returns, and what it returns and the state it leaves satisfy `Q`.
abbrev pub Returns : {S E A : Type 0} → Outcome S E A → (A → S → Type 0) → Type 0
Returns (ok a t) Q = Q a t
Returns (err e t) Q = ⊥
Returns panic Q = ⊥

module _ {S E A B : Type 0} (Q : A → S → Type 0) (R : B → S → Type 0) where
  bind_returns :
      (o : Outcome S E A) (f : A → Exec S E B)
      → Returns o Q
      → ((a : A) (t : S) → Q a t → Returns (f a t) R)
      → Returns (elim o [ ok a t ↦ f a t | err e t ↦ err e t | panic ↦ panic ]) R
  bind_returns (ok a t) f h k = k a t h
  bind_returns (err e t) f h k = elim h [ ]
  bind_returns panic f h k = elim h [ ]

  pub Returns-bind :
      (m : Exec S E A) (f : A → Exec S E B) (s : S)
      → Returns (m s) Q
      → ((a : A) (t : S) → Q a t → Returns (f a t) R)
      → Returns ((m >>= f) s) R
  unfolding ◌>>=◌
  Returns-bind m f s h k = bind_returns (m s) f h k

module _ {S E A : Type 0} (Q R : A → S → Type 0) where
  pub Returns-map :
      (o : Outcome S E A) → Returns o Q → ((a : A) (t : S) → Q a t → R a t) → Returns o R
  Returns-map (ok a t) h k = k a t h
  Returns-map (err e t) h k = h
  Returns-map panic h k = h

-- An action that returns, before another.
pub then_ok :
    {S E A B : Type 0} (r : Exec S E A) (f : A → Exec S E B) (s t : S) (a : A)
    → r s ≡ ok a t
    → (r >>= f) s ≡ f a t
unfolding ◌>>=◌
then_ok {S = S} {E = E} {A = A} r f s t a e =
    ap (λ (o : Outcome S E A). elim o [ ok b u ↦ f b u | err c u ↦ err c u | panic ↦ panic ]) e

-- An action that returns, by what it returns.
pub returned :
    {S E A : Type 0} (Q : A → S → Type 0) (o : Outcome S E A)
    → Returns o Q
    → (a : A) × (t : S) × (o ≡ ok a t) × Q a t
returned Q (ok a t) h = (a, t, refl, h)
returned Q (err e t) h = elim h [ ]
returned Q panic h = elim h [ ]
