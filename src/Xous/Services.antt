-- ===== src/Xous/Services.antt =====
-- src/xous/services.rs: what a service answers, and the services by their names. A receiver of a
-- later answer is a token.
pub mod Buffer
pub mod Log
pub mod Dns
pub mod Name
use yove.Base.{
  arith, refl, ◌≡◌, ℕ, Bool, true, false, ◌&&◌, Option, some, none, List, [], ◌∷◌, if◌then◌else◌,
  ◌==◌,
}
use yove.Base.Exec.{Exec}

pub data ScalarResult : Type 0 where
  scalar1 : ℕ → ScalarResult
  scalar2 : ℕ → ℕ → ScalarResult
  scalar5 : ℕ → ℕ → ℕ → ℕ → ℕ → ScalarResult
  wait_for_scalar : ℕ → ScalarResult

pub data LendResult : Type 0 where
  memory_returned : ℕ → ℕ → LendResult
  wait_for_memory : ℕ → LendResult

pub data ServiceName : Type 0 where
  ticktimer : ServiceName
  log : ServiceName
  name : ServiceName

abbrev pub same_words : List ℕ → List ℕ → Bool
same_words [] [] = true
same_words [] (y ∷ ys) = false
same_words (x ∷ xs) [] = false
same_words (x ∷ xs) (y ∷ ys) = x == y && same_words xs ys

pub same_words_refl : (xs : List ℕ) → same_words xs xs ≡ true
same_words_refl [] = refl
same_words_refl (x ∷ xs) = ground (arith, same_words_refl xs)

-- The match of `get_service`; `none` is its panic.
abbrev pub get_service : List ℕ → Option ServiceName
get_service id =
    if same_words id (0x6b636974 ∷ 0x656d6974 ∷ 0x65732d72 ∷ 0x72657672 ∷ [])
    then some ticktimer
    else if same_words id (0x73756f78 ∷ 0x676f6c2d ∷ 0x7265732d ∷ 0x20726576 ∷ [])
    then some log
    else if same_words id (0x73756f78 ∷ 0x6d616e2d ∷ 0x65732d65 ∷ 0x72657672 ∷ [])
    then some name
    else none

-- The trait `Service`, for services `S` that act on a state `K`; a process that ends gives its exit
-- code. The buffer of `lend_mut` comes back.
pub record Service (S K : Type 0) : Type 0 where
  pub create : ServiceName → Exec K ℕ S
  pub scalar : S → ℕ → List ℕ → Exec K ℕ (Unit {0})
  pub blocking_scalar : S → ℕ → List ℕ → Exec K ℕ ScalarResult
  pub lend : S → ℕ → List ℕ → List ℕ → Exec K ℕ LendResult
  pub lend_mut : S → ℕ → List ℕ → List ℕ → Exec K ℕ (LendResult × List ℕ)
  pub send : S → ℕ → List ℕ → List ℕ → Exec K ℕ (Unit {0})
