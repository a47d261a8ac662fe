-- ===== src/Xous/Pages/Allocate.antt =====
-- `allocate_virt_region` (src/xous.rs) with enough free pages.
use yove.Base.{
  length, ℕ, zero, suc, ◌+◌, ◌-◌, ◌*◌, ◌/◌, ◌<◌, ◌≤◌, ◌≡◌, ◌≢◌, ◌⊎◌, inl, inr, refl, subst, ap, sym,
  ◌∙◌, Bool, true, false, Option, some, none, List, ◌∷◌, wrapping_add, wrapping_sub, arith,
}
use yove.Base.Exec.{Outcome, ok, pure, ◌>>=◌}
use yove.Base.Exec.Returns.{Returns, Returns-map}
use yove.Xous.{Memory, allocation_start, allocation_end}
use yove.Xous.Pages.{virt_to_phys, ensure_page, pages_from, page_range}
use yove.Xous.Pages.Regions.{
  all_unmapped, find_region, ensure_all, append_pages, allocate_virt_region,
}
use yove.Xous.Pages.Sound.{is_live, IsSound}
use yove.Xous.Pages.Core.{core-IsSound, core-virt_to_phys}
use yove.Xous.Pages.Later.{Later, Later-refl, Later-trans}
use yove.Xous.Pages.Starts.{
  all_mapped, IsStart, IsFree, IsTaken, IsMapped, all_unmapped-IsFree, all_mapped-IsMapped,
  all_unmapped-IsTaken, Each, page_range-Each, step_at, append_pages-Each, Each-append_pages,
  has_room, find_region-none, find_region-some,
}
use yove.Xous.Pages.Ensure.Page.{Ensured, ensure_page-Ensured, returned}
use yove.Xous.Pages.Translate.{position, live_some, is_mapped, Later-virt_to_phys}

-- The pages were had, and what was there is there.
abbrev pub Had : Memory → List ℕ → Option ℕ → Memory → Type 0
Had m pages r t = (r ≡ none) × IsSound t × Later m t × (all_mapped t pages ≡ true)

-- A page with two free ones.
abbrev One : Memory → ℕ → Option Bool → Memory → Type 0
One m page r t =
    ((a : Bool) × (r ≡ some a))
    × IsSound t
    × Later m t
    × (is_live t (position page) ≡ true)
    × (length m.free_pages ≤ 2 + length t.free_pages)

ensured-One :
    (m : Memory) (page : ℕ) (r : Option Bool) (t : Memory)
    → 2 ≤ length m.free_pages
    → Ensured m page r t
    → One m page r t
ensured-One m page none t h e = absurd (omega (arith, e.3))
ensured-One m page (some a) t h e = ((a, refl), e.0, e.1, e.2, e.3)

pub still_mapped :
    (t u : Memory) (page : ℕ)
    → IsSound t
    → IsSound u
    → Later t u
    → is_live t (position page) ≡ true
    → is_mapped (virt_to_phys u page) ≡ true
still_mapped t u page s s' l h =
    ap is_mapped (Later-virt_to_phys t u page _ s s' l (live_some t s page h))

ensure_step :
    (page : ℕ) (rest : List ℕ) (m t : Memory) (a : Bool)
    → ensure_page page m ≡ ok (some a) t
    → ensure_all (page ∷ rest) m ≡ ensure_all rest t
unfolding ensure_all ◌>>=◌
ensure_step page rest m t a e = ground (arith, e)

pub ensure_all-Had :
    (n start : ℕ) (m : Memory)
    → IsSound m
    → start ≢ 0
    → start + n * 4096 ≤ 0xfffff000
    → 2 * n ≤ length m.free_pages
    → Returns (ensure_all (pages_from start n) m) (Had m (pages_from start n))
unfolding ensure_all pages_from pure
ensure_all-Had zero start m s h k f = (refl, s, Later-refl m, refl)
ensure_all-Had (suc n) start m s h k f =
    let r = returned (One m start) (ensure_page start m) (
      Returns-map (Ensured m start) (One m start) (ensure_page start m)
        (ensure_page-Ensured start m s h (omega arith))
        (λ r t. ensured-One m start r t (omega arith))) in
    let t = r.1 in
    let a = r.3.0.0 in
    let e : ensure_page start m ≡ ok (some a) t = r.2 ∙ ap (λ (x : Option Bool). ok x t) r.3.0.1 in
    let pages = pages_from (start + 4096) n in
    subst (λ (o : Outcome Memory ⊥ (Option ℕ)). Returns o (Had m (start ∷ pages)))
      (sym (ensure_step start pages m t a e))
      (Returns-map (Had t pages) (Had m (start ∷ pages)) (ensure_all pages t)
        (ensure_all-Had n (start + 4096) t r.3.1 (omega arith) (omega arith) (omega (arith, r.3.4)))
        (λ o u i. (
          i.0,
          i.1,
          Later-trans m t u r.3.2 i.2,
          (let w = still_mapped t u start r.3.1 i.1 i.2 r.3.3 in ground (arith, w, i.3)),
        )))

-- The starts that are tried, in their order.
abbrev pub candidates : Memory → ℕ → List ℕ
candidates m size =
    append_pages (page_range m.allocation_previous (wrapping_sub allocation_end size))
      (page_range allocation_start (wrapping_sub m.allocation_previous size))

-- What `allocate_virt_region` gives: no region, or one whose pages were all unmapped and are mapped.
abbrev pub Allocated : Memory → ℕ → Option ℕ → Memory → Type 0
Allocated m size none t = (t ≡ m) × ((a : ℕ) → IsStart m size a → IsTaken m size a)
Allocated m size (some a) t =
    IsStart m size a
    × IsFree m size a
    × IsSound t
    × IsMapped t size a
    × ((v p : ℕ) → virt_to_phys m v ≡ some p → virt_to_phys t v ≡ some p)

moved : Memory → ℕ → ℕ → Memory
moved m a size = record m { allocation_previous = wrapping_add a size }

module _ (size : ℕ) (m : Memory) where
  none_found :
      find_region m size (candidates m size) ≡ none → allocate_virt_region size m ≡ ok none m
  unfolding allocate_virt_region ◌>>=◌
  none_found e = ground (arith, e)

  some_found :
      (a : ℕ) (t : Memory)
      → find_region m size (candidates m size) ≡ some a
      → ensure_all (page_range a (wrapping_add a size)) (moved m a size) ≡ ok none t
      → allocate_virt_region size m ≡ ok (some a) t
  unfolding allocate_virt_region ◌>>=◌ moved
  some_found a t e f = ground (arith, e, f)

find_cases : (o : Option ℕ) → (o ≡ none) ⊎ ((a : ℕ) × (o ≡ some a))
find_cases none = inl refl
find_cases (some a) = inr (a, refl)

moved-IsSound : (m : Memory) (a size : ℕ) → IsSound m → IsSound (moved m a size)
unfolding moved
moved-IsSound m a size s = core-IsSound m (moved m a size) s

moved-virt_to_phys :
    (m : Memory) (a size v : ℕ) → virt_to_phys (moved m a size) v ≡ virt_to_phys m v
unfolding moved
moved-virt_to_phys m a size v = core-virt_to_phys m (moved m a size) v

module _ (size : ℕ) (m : Memory) (l : allocation_start ≤ m.allocation_previous)
    (h : m.allocation_previous ≤ allocation_end)
    (k : size ≤ allocation_end - allocation_start) where
  -- The bounds of the two ranges do not wrap.
  first_stop : wrapping_sub allocation_end size ≡ allocation_end - size
  first_stop = omega arith

  second_stop : wrapping_sub m.allocation_previous size ≡ m.allocation_previous - size
  second_stop = omega arith

  abbrev first_starts : List ℕ
  first_starts = page_range m.allocation_previous (wrapping_sub allocation_end size)

  abbrev second_starts : List ℕ
  second_starts = page_range allocation_start (wrapping_sub m.allocation_previous size)

  in_area : (a : ℕ) → IsStart m size a → (allocation_start ≤ a) × (a + size < allocation_end)
  in_area a (inl (j, e, b)) = (omega (arith, e), omega (arith, b))
  in_area a (inr (j, e, b)) = (omega (arith, e), omega (arith, b))

  same_end : (a : ℕ) → IsStart m size a → wrapping_add a size ≡ a + size
  same_end a i = let b = in_area a i in omega (arith, b.1)

  all_starts : Each (IsStart m size) (candidates m size)
  all_starts =
      append_pages-Each (IsStart m size) first_starts second_starts
        (page_range-Each (IsStart m size) m.allocation_previous (wrapping_sub allocation_end size)
          (λ a (j, e, b). inl (j, e, subst (λ (x : ℕ). a < x) first_stop b)))
        (page_range-Each (IsStart m size) allocation_start (wrapping_sub m.allocation_previous size)
          (λ a (j, e, b). inr (j, e, subst (λ (x : ℕ). a < x) second_stop b)))

  no_room :
      find_region m size (candidates m size) ≡ none → (a : ℕ) → IsStart m size a → IsTaken m size a
  no_room f a i =
      let P : ℕ → Type 0 = λ a. has_room m size a ≡ false in
      let r =
        Each-append_pages P first_starts second_starts
          (find_region-none m size (candidates m size) f) in
      all_unmapped-IsTaken m size a
        (ap (λ (x : ℕ). all_unmapped m (page_range a x)) (sym (same_end a i)) ∙ full r.0 r.1 i)
    where
      full :
          Each (λ a. has_room m size a ≡ false) first_starts
          → Each (λ a. has_room m size a ≡ false) second_starts
          → IsStart m size a
          → has_room m size a ≡ false
      full b c (inl (j, e, d)) =
          step_at (λ a. has_room m size a ≡ false) m.allocation_previous
            (wrapping_sub allocation_end size) a b
            (j, e, subst (λ (x : ℕ). a < x) (sym first_stop) d)
      full b c (inr (j, e, d)) =
          step_at (λ a. has_room m size a ≡ false) allocation_start
            (wrapping_sub m.allocation_previous size) a c
            (j, e, subst (λ (x : ℕ). a < x) (sym second_stop) d)

  found_all :
      (a : ℕ)
      → IsSound m
      → 2 * ((size + 4095) / 4096) ≤ length m.free_pages
      → find_region m size (candidates m size) ≡ some a
      → Returns (allocate_virt_region size m) (Allocated m size)
  unfolding moved
  found_all a s f e =
      let g = find_region-some (IsStart m size) m size a (candidates m size) all_starts e in
      let b = in_area a g.0 in
      let w = same_end a g.0 in
      let pages = page_range a (wrapping_add a size) in
      let r = returned (Had (moved m a size) pages) (ensure_all pages (moved m a size)) (
        ensure_all-Had ((wrapping_add a size - a + 4095) / 4096) a (moved m a size)
          (moved-IsSound m a size s) (omega (arith, b.0)) (omega (arith, b.1, w))
          (omega (arith, w, f))) in
      let t = r.1 in
      let i = r.3 in
      let c = some_found size m a t e (r.2 ∙ ap (λ (x : Option ℕ). ok x t) i.0) in
      subst (λ (o : Outcome Memory ⊥ (Option ℕ)). Returns o (Allocated m size)) (sym c)
        (
          g.0,
          all_unmapped-IsFree m size a
              (ap (λ (x : ℕ). all_unmapped m (page_range a x)) (sym w) ∙ g.1),
          i.1,
          all_mapped-IsMapped t size a
              (ap (λ (x : ℕ). all_mapped t (page_range a x)) (sym w) ∙ i.3),
          λ v p d.
              Later-virt_to_phys (moved m a size) t v p (moved-IsSound m a size s) i.1 i.2
                (moved-virt_to_phys m a size v ∙ d),
        )

-- A start is an address a number of pages above the next start that leaves the size before the end
-- of the allocation area, or a number of pages above the begin of the area that leaves it before
-- the next start. From a sound state whose next start is in the area, for a size of at most the
-- area, and with two free pages for each page of the size, `allocate_virt_region` never panics. It
-- gives `none` only if behind every start one of the pages of the size has a translation, and then
-- changes nothing; or it gives a start, all of whose pages had no translation and have one in the
-- sound state that it leaves, where every other translation is as it was.
pub allocate_virt_region-Allocated :
    (size : ℕ) (m : Memory)
    → IsSound m
    → allocation_start ≤ m.allocation_previous
    → m.allocation_previous ≤ allocation_end
    → size ≤ allocation_end - allocation_start
    → 2 * ((size + 4095) / 4096) ≤ length m.free_pages
    → Returns (allocate_virt_region size m) (Allocated m size)
allocate_virt_region-Allocated size m s l h k f =
    elim (find_cases (find_region m size (candidates m size))) [
      | inl e ↦
          subst (λ (o : Outcome Memory ⊥ (Option ℕ)). Returns o (Allocated m size))
            (sym (none_found size m e)) (refl, no_room size m l h k e)
      | inr (a, e) ↦ found_all size m l h k a s f e
    ]
