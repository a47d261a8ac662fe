-- ===== src/Base/Exec.antt =====
-- The monad of the emulator's methods: they change the state, return, fail with an error (the
-- state then keeps what was written before), or panic.
use mathlib.Core.Bool.{Bool, true, false}
pub mod Keeps
pub mod Returns
use mathlib.Core.Option.{Option, none, some}

pub data Outcome (S E A : Type 0) : Type 0 where
  ok : A → S → Outcome S E A
  err : E → S → Outcome S E A
  panic : Outcome S E A

abbrev pub Exec : Type 0 → Type 0 → Type 0 → Type 0
Exec S E A = S → Outcome S E A

module _ {S E A : Type 0} where
  unfoldable pub pure : A → Exec S E A
  pure a s = ok a s

  unfoldable pub raise : E → Exec S E A
  raise e s = err e s

  unfoldable pub abort : Exec S E A
  abort s = panic

module _ {S E : Type 0} where
  unfoldable pub gets : {A : Type 0} → (S → A) → Exec S E A
  gets f s = ok (f s) s

  unfoldable pub modify : (S → S) → Exec S E (Unit {0})
  modify f s = ok tt (f s)

  -- `unwrap`, and the arms of a match that panic: `none` is a panic.
  unfoldable pub unwrap : {A : Type 0} → Option A → Exec S E A
  unwrap none s = panic
  unwrap (some a) s = ok a s

  -- `assert!`
  unfoldable pub assert : Bool → Exec S E (Unit {0})
  assert true s = ok tt s
  assert false s = panic

module _ {S E A B : Type 0} where
  infixl 5 ◌>>=◌ ◌>>◌
  -- Opening this opens the actions above.
  unfoldable pub ◌>>=◌ : Exec S E A → (A → Exec S E B) → Exec S E B
  unfolding pure raise abort gets modify unwrap assert
  ◌>>=◌ m f s = elim (m s) [ ok a t ↦ f a t | err e t ↦ err e t | panic ↦ panic ]

  abbrev pub ◌>>◌ : Exec S E A → Exec S E B → Exec S E B
  m >> n = m >>= λ _. n
