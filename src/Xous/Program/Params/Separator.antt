-- ===== src/Xous/Program/Params/Separator.antt =====
-- The arguments of the host that a program is given (src/xous.rs, create_params).
use yove.Base.{
  ℕ, ◌≡◌, ◌≢◌, ◌⊎◌, inl, inr, refl, ap, ap₂, sym, ◌∙◌, true, false, List, [], ◌∷◌, ◌++◌,
  if◌then◌else◌, arith,
}
use yove.Xous.Pages.Sound.{true-false}
use yove.Xous.Pages.Ensure.Ready.{boolean}
use yove.Xous.Services.{same_words, same_words_refl}
use yove.Xous.Services.Buffer.{codes}
use yove.Xous.Program.{is_separator, has_separator, after_separator, arg_data}

-- No argument is the separator `--`.
abbrev pub NoSeparator : List (List ℕ) → Type 0
NoSeparator [] = Unit
NoSeparator (arg ∷ rest) = (arg ≢ codes "--") × NoSeparator rest

-- The arguments that are passed on: those after the first `--`, or all if there is none.
abbrev pub Passed : List (List ℕ) → List (List ℕ) → Type 0
Passed our_args passed =
    (NoSeparator our_args × (passed ≡ our_args))
    ⊎ ((before : List (List ℕ)) × NoSeparator before × (our_args ≡ before ++ (codes "--" ∷ passed)))

same_words-equal : (xs ys : List ℕ) → same_words xs ys ≡ true → xs ≡ ys
same_words-equal [] [] h = refl
same_words-equal [] (y ∷ ys) h = absurd (true-false (sym h))
same_words-equal (x ∷ xs) [] h = absurd (true-false (sym h))
same_words-equal (x ∷ xs) (y ∷ ys) h =
    let e : x ≡ y = ground arith in
    ap₂ (λ (n : ℕ) (ns : List ℕ). n ∷ ns) e (same_words-equal xs ys (ground arith))

other : (arg : List ℕ) → arg ≢ codes "--" → is_separator arg ≡ false
other arg n = elim (boolean (is_separator arg)) [
  | inl e ↦ absurd (n (same_words-equal arg (codes "--") e))
  | inr e ↦ e
]

NoSeparator-has_separator : (args : List (List ℕ)) → NoSeparator args → has_separator args ≡ false
NoSeparator-has_separator [] n = refl
NoSeparator-has_separator (arg ∷ rest) n =
    ground (arith, other arg n.0, NoSeparator-has_separator rest n.1)

separated :
    (before passed : List (List ℕ))
    → NoSeparator before
    → (has_separator (before ++ (codes "--" ∷ passed)) ≡ true)
      × (after_separator (before ++ (codes "--" ∷ passed)) ≡ passed)
separated [] passed n =
    let e = same_words_refl (codes "--") in (ground (arith, e), ground (arith, e))
separated (arg ∷ before) passed n =
    let e = other arg n.0 in
    let h = separated before passed n.1 in (ground (arith, e, h.0), ground (arith, e, h.1))

pub Passed-arg_data :
    (our_args passed : List (List ℕ)) → Passed our_args passed → arg_data our_args ≡ passed
unfolding arg_data
Passed-arg_data our_args passed (inl (n, e)) =
    let h = NoSeparator-has_separator our_args n in ground (arith, h, e)
Passed-arg_data our_args passed (inr (before, n, e)) =
    let h = separated before passed n in
    ap (λ (args : List (List ℕ)). if has_separator args then after_separator args else args) e
    ∙ ground (arith, h.0, h.1)
