-- ===== src/Xous/Pages/Grow.antt =====
-- Taking a free page for a new entry keeps the promise of the page tables (src/xous.rs,
-- ensure_page).
use yove.Base.{
  ℕ, ◌<◌, ◌≡◌, ◌≢◌, ◌⊎◌, inl, inr, subst, ap, sym, ◌∙◌, true, false, ◌&&◌, ◌||◌, List, ◌∷◌,
  if◌then◌else◌, ◌==◌, bit_and, arith,
}
use yove.Base.OrderedSet.{contains, is_ascending, is_below, contains-insert, not_contains_first}
use yove.Xous.{Memory}
use yove.Xous.Pages.{frame}
use yove.Xous.Pages.Words.{IsPage, word}
use yove.Xous.Pages.Sound.{
  Position, root, leaf, InRange, table, index, entry, is_live, IsSound, Grown, HasTable, Before,
  q_fresh, q_page, root-root, root-leaf, leaf-root, leaf-leaf, true-false, dec_eq,
}

module _ (m t : Memory) (q : ℕ) (rest : List ℕ) (e : ℕ) (s : IsSound m) where
  grown :
      (x₀ x : Position)
      → Grown m t q rest x₀ e
      → HasTable m x₀
      → InRange x
      → is_live t x ≡ true
      → Before m t e x₀ x
  grown (root i) (root k) g h r l = root-root m t q rest e s i k g r l
  grown (leaf i j) (root k) g h r l = root-leaf m t q rest e s i j k g h r l
  grown (root i) (leaf k n) g h r l = leaf-root m t q rest e s i k n g r.0 r.1 l
  grown (leaf i j) (leaf k n) g h r l = leaf-leaf m t q rest e s i j k n g h r.0 r.1 l

  table_owned :
      (x₀ : Position) → InRange x₀ → HasTable m x₀ → contains (table m x₀) m.allocated_pages ≡ true
  table_owned (root i) r h = s.root_table
  table_owned (leaf i j) r h = (s.owned (root i) r.0 h).0

module _ (m t : Memory) (q : ℕ) (rest : List ℕ) (e : ℕ) (s : IsSound m) (x₀ : Position)
    (g : Grown m t q rest x₀ e) (h : HasTable m x₀)
    (pointer : (i : ℕ) → x₀ ≡ root i → bit_and e 0xe ≡ 0) where
  fresh : contains q m.allocated_pages ≡ false
  fresh = q_fresh m t q rest x₀ e s g

  page_same : (p : ℕ) → IsPage m p → IsPage t p
  page_same p i = record {
    start = i.start;
    low = rw (g.base) i.low;
    high = rw (g.base, g.page_count) i.high;
    nonzero = i.nonzero;
  }

  now_allocated : (p : ℕ) → contains p t.allocated_pages ≡ (q == p || contains p m.allocated_pages)
  now_allocated p = ap (contains p) g.allocated_pages ∙ contains-insert q p m.allocated_pages

  was_free : (p : ℕ) → contains p t.free_pages ≡ true → (contains p m.free_pages ≡ true) × (p ≢ q)
  was_free p c =
      let d : contains p rest ≡ true = ap (contains p) (sym g.free_pages) ∙ c in
      let o : is_below q rest ≡ true =
        (let u : is_ascending (q ∷ rest) ≡ true = ap is_ascending (sym g.first) ∙ s.ascending in
          ground arith) in
      let n : contains q rest ≡ false = not_contains_first q rest o in
      (
        ap (contains p) g.first ∙ (let u : contains p (q ∷ rest) ≡ true = ground arith in u),
        λ f. true-false (sym d ∙ ap (λ (x : ℕ). contains x rest) f ∙ n),
      )

  kept : (p : ℕ) → contains p m.allocated_pages ≡ true → p ≢ q
  kept p c f = true-false (sym c ∙ ap (λ (x : ℕ). contains x m.allocated_pages) f ∙ fresh)

  zeroed : (p j : ℕ) → contains p t.free_pages ≡ true → j < 1024 → word t p j ≡ 0
  zeroed p j c k =
      let d = (was_free p c).0 in
      let i = s.free p d in
      let n : table m x₀ ≢ p = λ f. true-false (
        sym (table_owned m t q rest e s x₀ g.range h)
        ∙ ap (λ (x : ℕ). contains x m.allocated_pages) f
        ∙ i.1) in
      let u : (if table m x₀ == p && index x₀ == j then e else word m p j) ≡ word m p j =
        ground arith in
      g.words p j i.0 k ∙ u ∙ s.zeroed p j d k

  free :
      (p : ℕ) → contains p t.free_pages ≡ true → IsPage t p × (contains p t.allocated_pages ≡ false)
  free p c =
      let d = was_free p c in
      let i = s.free p d.0 in
      let n = d.1 in
      (
        page_same p i.0,
        now_allocated p
            ∙ (let u : (q == p || contains p m.allocated_pages) ≡ false = ground (arith, i.1) in u),
      )

  allocated : (p : ℕ) → contains p t.allocated_pages ≡ true → IsPage t p
  allocated p c = elim (dec_eq q p) [
    | inl f ↦ page_same p (subst (IsPage m) f (q_page m t q rest x₀ e s g))
    | inr n ↦
        let u : (q == p || contains p m.allocated_pages) ≡ true = sym (now_allocated p) ∙ c in
        page_same p (s.allocated p (ground arith))
  ]

  -- An entry that was there before, or the new one: both have a page that is allocated now.
  had : (x : Position) → InRange x → is_live t x ≡ true → Before m t e x₀ x
  had x r l = grown m t q rest e s x₀ x g h r l

  owned_page :
      (p : ℕ)
      → (p ≡ q) ⊎ ((contains p m.allocated_pages ≡ true) × (p ≢ m.l1_pt))
      → (contains p t.allocated_pages ≡ true) × (p ≢ t.l1_pt)
  owned_page p (inl f) = (
    now_allocated p ∙ (let u : (q == p || contains p m.allocated_pages) ≡ true = ground arith in u),
    λ c. kept m.l1_pt s.root_table (sym g.l1_pt ∙ sym c ∙ f),
  )
  owned_page p (inr (c, n)) = (
    now_allocated p ∙ (let u : (q == p || contains p m.allocated_pages) ≡ true = ground arith in u),
    λ d. n (d ∙ g.l1_pt),
  )

  owned :
      (x : Position)
      → InRange x
      → is_live t x ≡ true
      → (contains (frame (entry t x)) t.allocated_pages ≡ true) × (frame (entry t x) ≢ t.l1_pt)
  owned x r l = elim (had x r l) [
    | inl (f, v) ↦ owned_page (frame (entry t x)) (inl (ap frame v ∙ g.frame_is))
    | inr (b, v) ↦ owned_page (frame (entry t x)) (
        inr (
          subst (λ (w : ℕ). (contains (frame w) m.allocated_pages ≡ true) × (frame w ≢ m.l1_pt))
            (sym v) (s.owned x r b)))
  ]

  -- The new frame is none of those of before.
  other : (x : Position) → InRange x → is_live m x ≡ true → frame (entry m x) ≢ frame e
  other x r l f = kept (frame (entry m x)) (s.owned x r l).0 (f ∙ g.frame_is)

  unique :
      (x y : Position)
      → InRange x
      → InRange y
      → is_live t x ≡ true
      → is_live t y ≡ true
      → frame (entry t x) ≡ frame (entry t y)
      → x ≡ y
  unique x y r r' l l' f = elim (had x r l) [
    | inl (c, v) ↦ elim (had y r' l') [
      | inl (d, w) ↦ c ∙ sym d
      | inr (b, w) ↦ absurd (other y r' b (ap frame (sym w) ∙ sym f ∙ ap frame v))
    ]
    | inr (b, v) ↦ elim (had y r' l') [
      | inl (d, w) ↦ absurd (other x r b (ap frame (sym v) ∙ f ∙ ap frame w))
      | inr (b', w) ↦ s.unique x y r r' b b' (ap frame (sym v) ∙ f ∙ ap frame w)
    ]
  ]

  pointers : (i : ℕ) → i < 1024 → is_live t (root i) ≡ true → bit_and (entry t (root i)) 0xe ≡ 0
  pointers i r l = elim (had (root i) r l) [
    | inl (c, v) ↦ ap (λ (x : ℕ). bit_and x 0xe) v ∙ pointer i (sym c)
    | inr (b, v) ↦ ap (λ (x : ℕ). bit_and x 0xe) v ∙ s.pointers i r b
  ]

  ascending : is_ascending t.free_pages ≡ true
  ascending =
      ap is_ascending g.free_pages
      ∙ (let u : is_ascending (q ∷ rest) ≡ true = ap is_ascending (sym g.first) ∙ s.ascending in
          ground arith)

  root_table : contains t.l1_pt t.allocated_pages ≡ true
  root_table =
      ap (λ (p : ℕ). contains p t.allocated_pages) g.l1_pt
      ∙ now_allocated m.l1_pt
      ∙ (let c = s.root_table in
          let u : (q == m.l1_pt || contains m.l1_pt m.allocated_pages) ≡ true = ground arith in u)

  pub Grown-IsSound : IsSound t
  Grown-IsSound = record {
    ram = g.ram;
    root_table = root_table;
    allocated = allocated;
    free = free;
    zeroed = zeroed;
    ascending = ascending;
    pointers = pointers;
    owned = owned;
    unique = unique;
  }
