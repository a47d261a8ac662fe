-- ===== src/Xous/Program/Params/Written.antt =====
-- What the reader finds of numbers and texts that were written (src/xous.rs, create_params).
use yove.Base.{
  length, ℕ, zero, suc, ◌*◌, ◌/◌, ◌^◌, ◌<◌, ◌≡◌, refl, ap, sym, ◌∙◌, Bool, true, List, [], ◌∷◌,
  ◌++◌, arith,
}
use yove.Base.Exec.{Outcome, ok, pure, assert, ◌>>=◌, ◌>>◌}
use yove.Base.Exec.Returns.{then_ok}
use yove.Xous.Services.Buffer.{to_le_bytes}
use yove.Xous.Program.{text, pairs, texts}
use yove.Xous.Program.Params.Reader.{
  Reader, next, read_number, read_bytes, read_text, read_pairs, read_texts, whole, inside,
}

-- What is written is read, and the rest is left.
abbrev pub Reads : {A : Type 0} → Reader A → List ℕ → A → Type 0
Reads r bytes a = (rest : List ℕ) → r (bytes ++ rest) ≡ ok a rest

-- The numbers of so many bytes.
abbrev pub limit : ℕ → ℕ
limit zero = 1
limit (suc count) = 2 ^ 8 * limit count

pub read_number-Reads :
    (count x : ℕ) → x < limit count → Reads (read_number count) (to_le_bytes count x) x
unfolding read_number to_le_bytes next ◌>>=◌
read_number-Reads zero x h rest = ap (λ (y : ℕ). ok y rest) (omega arith)
read_number-Reads (suc count) x h rest =
    let e = read_number-Reads count (x / 2 ^ 8) (omega arith) rest in ground (arith, e)

pub read_bytes-Reads : (bytes : List ℕ) → Reads (read_bytes (length bytes)) bytes bytes
unfolding read_bytes next ◌>>=◌
read_bytes-Reads [] rest = refl
read_bytes-Reads (b ∷ bytes) rest = let e = read_bytes-Reads bytes rest in ground (arith, e)

append_assoc : (xs ys zs : List ℕ) → (xs ++ ys) ++ zs ≡ xs ++ (ys ++ zs)
append_assoc [] ys zs = refl
append_assoc (x ∷ xs) ys zs = ap (λ (r : List ℕ). x ∷ r) (append_assoc xs ys zs)

-- One reader after another.
pub Reads-bind :
    {A B : Type 0} (r : Reader A) (f : A → Reader B) (xs ys : List ℕ) (a : A) (b : B)
    → Reads r xs a
    → Reads (f a) ys b
    → Reads (r >>= f) (xs ++ ys) b
Reads-bind r f xs ys a b h k rest =
    ap (r >>= f) (append_assoc xs ys rest)
    ∙ then_ok r f (xs ++ (ys ++ rest)) (ys ++ rest) a (h (ys ++ rest))
    ∙ k rest

read_text-Reads : (bytes : List ℕ) → length bytes < limit 2 → Reads read_text (text bytes) bytes
unfolding read_text text
read_text-Reads bytes h =
    Reads-bind (read_number 2) read_bytes (to_le_bytes 2 (length bytes)) bytes (length bytes) bytes
      (read_number-Reads 2 (length bytes) h) (read_bytes-Reads bytes)

-- Texts whose lengths fit in the two bytes before them.
abbrev pub AreShort : List (List ℕ) → Type 0
AreShort [] = Unit
AreShort (entry ∷ rest) = (length entry < limit 2) × AreShort rest

abbrev pub AreShortPairs : List (List ℕ × List ℕ) → Type 0
AreShortPairs [] = Unit
AreShortPairs ((key, value) ∷ rest) =
    (length key < limit 2) × (length value < limit 2) × AreShortPairs rest

pub pure-Reads : {A : Type 0} (a : A) → Reads (pure a) [] a
unfolding pure
pure-Reads a rest = refl

-- A reader whose value is made into another.
Reads-map :
    {A B : Type 0} (r : Reader A) (f : A → B) (xs : List ℕ) (a : A)
    → Reads r xs a
    → Reads (r >>= λ x. pure (f x)) xs (f a)
unfolding pure
Reads-map r f xs a h rest = then_ok r (λ x. pure (f x)) (xs ++ rest) rest a (h rest)

pub read_texts-Reads :
    (entries : List (List ℕ))
    → AreShort entries
    → Reads (read_texts (length entries)) (texts entries) entries
unfolding read_texts texts
read_texts-Reads [] h = pure-Reads []
read_texts-Reads (entry ∷ rest) h =
    Reads-bind read_text _ (text entry) (texts rest) entry (entry ∷ rest)
      (read_text-Reads entry h.0)
      (Reads-map (read_texts (length rest)) (λ more. entry ∷ more) (texts rest) rest
        (read_texts-Reads rest h.1))

pub read_pairs-Reads :
    (env : List (List ℕ × List ℕ))
    → AreShortPairs env
    → Reads (read_pairs (length env)) (pairs env) env
unfolding read_pairs pairs
read_pairs-Reads [] h = pure-Reads []
read_pairs-Reads ((key, value) ∷ rest) h =
    Reads-bind read_text _ (text key) (text value ++ pairs rest) key ((key, value) ∷ rest)
      (read_text-Reads key h.0)
      (Reads-bind read_text _ (text value) (pairs rest) value ((key, value) ∷ rest)
        (read_text-Reads value h.1)
        (Reads-map (read_pairs (length rest)) (λ more. (key, value) ∷ more) (pairs rest) rest
          (read_pairs-Reads rest h.2)))

pub append_nil : (xs : List ℕ) → xs ++ [] ≡ xs
append_nil [] = refl
append_nil (x ∷ xs) = ap (λ (r : List ℕ). x ∷ r) (append_nil xs)

-- A check takes no bytes.
pub Reads-assert :
    {B : Type 0} (b : Bool) (r : Reader B) (xs : List ℕ) (a : B)
    → b ≡ true
    → Reads r xs a
    → Reads (assert b >> r) xs a
unfolding assert
Reads-assert b r xs a e h = Reads-bind (assert b) (λ _. r) [] xs tt a (λ rest. rw (e) refl) h

pub Reads-inside :
    {A B : Type 0} (r : Reader A) (bytes : List ℕ) (f : A → Reader B) (xs : List ℕ) (a : A) (b : B)
    → Reads r bytes a
    → Reads (f a) xs b
    → Reads (inside r bytes >>= f) xs b
unfolding inside
Reads-inside {A = A} r bytes f xs a b h k rest =
    then_ok (inside r bytes) f (xs ++ rest) (xs ++ rest) a (
      ap (λ (o : Outcome (List ℕ) ⊥ A). whole o (xs ++ rest))
        (ap r (sym (append_nil bytes)) ∙ h []))
    ∙ k rest
