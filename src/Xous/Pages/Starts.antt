-- ===== src/Xous/Pages/Starts.antt =====
-- The starts that `allocate_virt_region` (src/xous.rs) tries, and the pages behind a start, by their
-- numbers.
use yove.Base.{
  ℕ, zero, suc, ◌+◌, ◌-◌, ◌*◌, ◌/◌, ◌<◌, ◌≡◌, ◌⊎◌, inl, inr, refl, subst, ap, sym, ◌∙◌, Bool, true,
  false, ◌&&◌, some, none, List, ◌∷◌, [], wrapping_add, arith,
}
use yove.Xous.{Memory, allocation_start, allocation_end}
use yove.Xous.Pages.{virt_to_phys, pages_from, page_range}
use yove.Xous.Pages.Regions.{all_unmapped, find_region, append_pages}
use yove.Xous.Pages.Sound.{true-false}
use yove.Xous.Pages.Ensure.Ready.{boolean}
use yove.Xous.Pages.Translate.{is_mapped}

-- The address is a number of pages above `low`, and below `stop`.
abbrev pub IsStep : ℕ → ℕ → ℕ → Type 0
IsStep low stop a = (j : ℕ) × (a ≡ low + j * 4096) × (a < stop)

-- The starts: from the next one to the end of the area, and from its begin to the next one.
abbrev pub IsStart : Memory → ℕ → ℕ → Type 0
IsStart m size a =
    IsStep m.allocation_previous (allocation_end - size) a
    ⊎ IsStep allocation_start (m.allocation_previous - size) a

-- No page of a region has a translation; one has; all have.
abbrev pub IsFree : Memory → ℕ → ℕ → Type 0
IsFree m size a = (i : ℕ) → i * 4096 < size → virt_to_phys m (a + i * 4096) ≡ none

abbrev pub IsTaken : Memory → ℕ → ℕ → Type 0
IsTaken m size a = (i : ℕ) × (i * 4096 < size) × (is_mapped (virt_to_phys m (a + i * 4096)) ≡ true)

abbrev pub IsMapped : Memory → ℕ → ℕ → Type 0
IsMapped m size a = (i : ℕ) → i * 4096 < size → is_mapped (virt_to_phys m (a + i * 4096)) ≡ true

abbrev pub all_mapped : Memory → List ℕ → Bool
all_mapped m [] = true
all_mapped m (page ∷ rest) = is_mapped (virt_to_phys m page) && all_mapped m rest

next_page : (start i : ℕ) → start + 4096 + i * 4096 ≡ start + suc i * 4096
next_page start i = omega arith

first_page : (start : ℕ) → start ≡ start + zero * 4096
first_page start = omega arith

unmapped_at :
    (m : Memory) (n start i : ℕ)
    → all_unmapped m (pages_from start n) ≡ true
    → i < n
    → virt_to_phys m (start + i * 4096) ≡ none
unfolding pages_from
unmapped_at m zero start i h l = absurd (omega (arith, l))
unmapped_at m (suc n) start zero h l =
    ap (virt_to_phys m) (sym (first_page start)) ∙ ground (arith, h)
unmapped_at m (suc n) start (suc i) h l =
    ap (virt_to_phys m) (sym (next_page start i))
    ∙ unmapped_at m n (start + 4096) i (ground (arith, h)) (omega (arith, l))

mapped_at :
    (m : Memory) (n start i : ℕ)
    → all_mapped m (pages_from start n) ≡ true
    → i < n
    → is_mapped (virt_to_phys m (start + i * 4096)) ≡ true
unfolding pages_from
mapped_at m zero start i h l = absurd (omega (arith, l))
mapped_at m (suc n) start zero h l =
    ap (λ (a : ℕ). is_mapped (virt_to_phys m a)) (sym (first_page start)) ∙ ground (arith, h)
mapped_at m (suc n) start (suc i) h l =
    ap (λ (a : ℕ). is_mapped (virt_to_phys m a)) (sym (next_page start i))
    ∙ mapped_at m n (start + 4096) i (ground (arith, h)) (omega (arith, l))

some_mapped :
    (m : Memory) (n start : ℕ)
    → all_unmapped m (pages_from start n) ≡ false
    → (i : ℕ) × (i < n) × (is_mapped (virt_to_phys m (start + i * 4096)) ≡ true)
unfolding pages_from
some_mapped m zero start h = absurd (true-false h)
some_mapped m (suc n) start h = elim (boolean (is_mapped (virt_to_phys m start))) [
  | inl e ↦
      (zero, omega arith, ap (λ (a : ℕ). is_mapped (virt_to_phys m a)) (sym (first_page start)) ∙ e)
  | inr e ↦
      let r = some_mapped m n (start + 4096) (ground (arith, h, e)) in
      (
        suc r.0,
        omega (arith, r.1),
        ap (λ (a : ℕ). is_mapped (virt_to_phys m a)) (sym (next_page start r.0)) ∙ r.2,
      )
]

module _ (m : Memory) (size a : ℕ) where
  pub all_unmapped-IsFree : all_unmapped m (page_range a (a + size)) ≡ true → IsFree m size a
  all_unmapped-IsFree h i l = unmapped_at m ((a + size - a + 4095) / 4096) a i h (omega (arith, l))

  pub all_mapped-IsMapped : all_mapped m (page_range a (a + size)) ≡ true → IsMapped m size a
  all_mapped-IsMapped h i l = mapped_at m ((a + size - a + 4095) / 4096) a i h (omega (arith, l))

  pub all_unmapped-IsTaken : all_unmapped m (page_range a (a + size)) ≡ false → IsTaken m size a
  all_unmapped-IsTaken h =
      let r = some_mapped m ((a + size - a + 4095) / 4096) a h in (r.0, omega (arith, r.1), r.2)

-- Every address of a list.
abbrev pub Each : (ℕ → Type 0) → List ℕ → Type 0
Each P [] = Unit
Each P (x ∷ rest) = P x × Each P rest

module _ (P : ℕ → Type 0) where
  pages_from-Each :
      (n start : ℕ) → ((j : ℕ) → j < n → P (start + j * 4096)) → Each P (pages_from start n)
  unfolding pages_from
  pages_from-Each zero start h = tt
  pages_from-Each (suc n) start h = (
    subst P (sym (first_page start)) (h zero (omega arith)),
    pages_from-Each n (start + 4096)
        (λ j l. subst P (sym (next_page start j)) (h (suc j) (omega (arith, l)))),
  )

  page_at : (n start j : ℕ) → Each P (pages_from start n) → j < n → P (start + j * 4096)
  unfolding pages_from
  page_at zero start j h l = absurd (omega (arith, l))
  page_at (suc n) start zero h l = subst P (first_page start) h.0
  page_at (suc n) start (suc j) h l =
      subst P (next_page start j) (page_at n (start + 4096) j h.1 (omega (arith, l)))

  pub page_range-Each :
      (low stop : ℕ) → ((a : ℕ) → IsStep low stop a → P a) → Each P (page_range low stop)
  page_range-Each low stop h =
      pages_from-Each ((stop - low + 4095) / 4096) low
        (λ j l. h (low + j * 4096) (j, refl, omega (arith, l)))

  pub step_at : (low stop a : ℕ) → Each P (page_range low stop) → IsStep low stop a → P a
  step_at low stop a h (j, e, l) =
      subst P (sym e) (page_at ((stop - low + 4095) / 4096) low j h (omega (arith, e, l)))

  pub append_pages-Each : (xs ys : List ℕ) → Each P xs → Each P ys → Each P (append_pages xs ys)
  append_pages-Each [] ys h k = k
  append_pages-Each (x ∷ xs) ys h k = (h.0, append_pages-Each xs ys h.1 k)

  pub Each-append_pages : (xs ys : List ℕ) → Each P (append_pages xs ys) → Each P xs × Each P ys
  Each-append_pages [] ys h = (tt, h)
  Each-append_pages (x ∷ xs) ys h = let r = Each-append_pages xs ys h.1 in ((h.0, r.0), r.1)

-- Whether the code finds room behind a start.
abbrev pub has_room : Memory → ℕ → ℕ → Bool
has_room m size a = all_unmapped m (page_range a (wrapping_add a size))

pub find_region-none :
    (m : Memory) (size : ℕ) (starts : List ℕ)
    → find_region m size starts ≡ none
    → Each (λ a. has_room m size a ≡ false) starts
unfolding find_region
find_region-none m size [] e = tt
find_region-none m size (x ∷ rest) e = elim (boolean (has_room m size x)) [
  | inl f ↦ absurd (some_is_not_none (ground (arith, f, e)))
  | inr f ↦ (f, find_region-none m size rest (ground (arith, f, e)))
]
  where
    some_is_not_none : ¬ (some x ≡ none)
    some_is_not_none h = cc

pub find_region-some :
    (P : ℕ → Type 0) (m : Memory) (size a : ℕ) (starts : List ℕ)
    → Each P starts
    → find_region m size starts ≡ some a
    → P a × (has_room m size a ≡ true)
unfolding find_region
find_region-some P m size a [] h e = absurd (none_is_not_some e)
  where
    none_is_not_some : {q : ℕ} → ¬ (none ≡ some q)
    none_is_not_some f = cc
find_region-some P m size a (x ∷ rest) h e = elim (boolean (has_room m size x)) [
  | inl f ↦
      let g : x ≡ a = ground (arith, f, e) in
      subst (λ (c : ℕ). P c × (has_room m size c ≡ true)) g (h.0, f)
  | inr f ↦ find_region-some P m size a rest h.1 (ground (arith, f, e))
]
