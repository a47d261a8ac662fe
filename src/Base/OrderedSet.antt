-- ===== src/Base/OrderedSet.antt =====
-- Ordered sets of numbers (the library type `BTreeSet<usize>`): lists in strictly ascending order.
use Prim.Native.Nat.{ℕ}
use mathlib.Core.Path.{◌≡◌, refl}
use mathlib.Core.Bool.{Bool, true, false, not, ◌&&◌, ◌||◌}
use mathlib.Core.List.{List, [], ◌∷◌}
use mathlib.Core.Option.{Option, none, some}
use native.Mathlib.Omega.{arith}
use yove.Base.Tests.{ltb, ◌==◌, if◌then◌else◌}

abbrev pub contains : ℕ → List ℕ → Bool
contains a [] = false
contains a (x ∷ xs) = x == a || contains a xs

unfoldable pub insert : ℕ → List ℕ → List ℕ
insert a [] = a ∷ []
insert a (x ∷ xs) = if ltb a x then a ∷ x ∷ xs else if a == x then x ∷ xs else x ∷ insert a xs

unfoldable pub remove : ℕ → List ℕ → List ℕ
remove a [] = []
remove a (x ∷ xs) = if x == a then xs else x ∷ remove a xs

-- The least element, and the set without it.
abbrev pub pop_first : List ℕ → Option (ℕ × List ℕ)
pop_first [] = none
pop_first (x ∷ xs) = some (x, xs)

abbrev pub is_below : ℕ → List ℕ → Bool
is_below a [] = true
is_below a (x ∷ xs) = ltb a x && is_below a xs

abbrev pub is_ascending : List ℕ → Bool
is_ascending [] = true
is_ascending (x ∷ xs) = is_below x xs && is_ascending xs

pub contains-insert : (a b : ℕ) (xs : List ℕ) → contains b (insert a xs) ≡ (a == b || contains b xs)
unfolding insert
contains-insert a b [] = refl
contains-insert a b (x ∷ xs) = ground (arith, contains-insert a b xs)

is_below-contains :
    (a b : ℕ) (xs : List ℕ) → is_below a xs ≡ true → contains b xs ≡ true → ltb a b ≡ true
is_below-contains a b (x ∷ xs) h k = ground (arith, is_below-contains a b xs)
is_below-contains a b [] h k = cc

pub not_contains_first : (x : ℕ) (xs : List ℕ) → is_below x xs ≡ true → contains x xs ≡ false
not_contains_first x xs h = ground (arith, is_below-contains x x xs)

pub contains-remove :
    (a b : ℕ) (xs : List ℕ)
    → is_ascending xs ≡ true
    → contains b (remove a xs) ≡ (not (a == b) && contains b xs)
unfolding remove
contains-remove a b [] h = ground arith
contains-remove a b (x ∷ xs) h = ground (arith, contains-remove a b xs, not_contains_first x xs)

is_below-insert :
    (y a : ℕ) (xs : List ℕ)
    → ltb y a ≡ true
    → is_below y xs ≡ true
    → is_below y (insert a xs) ≡ true
unfolding insert
is_below-insert y a [] h k = ground arith
is_below-insert y a (x ∷ xs) h k = ground (arith, is_below-insert y a xs)

is_below_trans :
    (a x : ℕ) (xs : List ℕ) → ltb a x ≡ true → is_below x xs ≡ true → is_below a xs ≡ true
is_below_trans a x [] h k = refl
is_below_trans a x (y ∷ ys) h k = ground (arith, is_below_trans a x ys)

pub is_ascending-insert :
    (a : ℕ) (xs : List ℕ) → is_ascending xs ≡ true → is_ascending (insert a xs) ≡ true
unfolding insert
is_ascending-insert a [] h = refl
is_ascending-insert a (x ∷ xs) h =
    ground (arith, is_ascending-insert a xs, is_below-insert x a xs, is_below_trans a x xs)

is_below-remove : (y a : ℕ) (xs : List ℕ) → is_below y xs ≡ true → is_below y (remove a xs) ≡ true
unfolding remove
is_below-remove y a [] h = refl
is_below-remove y a (x ∷ xs) h = ground (arith, is_below-remove y a xs)

pub is_ascending-remove :
    (a : ℕ) (xs : List ℕ) → is_ascending xs ≡ true → is_ascending (remove a xs) ≡ true
unfolding remove
is_ascending-remove a [] h = refl
is_ascending-remove a (x ∷ xs) h = ground (arith, is_ascending-remove a xs, is_below-remove x a xs)
