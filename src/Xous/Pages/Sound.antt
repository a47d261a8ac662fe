-- ===== src/Xous/Pages/Sound.antt =====
-- What the page tables of the program promise: no page is mapped twice, and free pages are empty
-- (src/xous.rs; the check `memory_ck` that is commented out there).
use yove.Base.{
  ℕ, ◌<◌, ◌≡◌, ◌≢◌, ◌⊎◌, inl, inr, ap, ap₂, sym, ◌∙◌, Bool, true, false, not, ◌&&◌, List, ◌∷◌,
  if◌then◌else◌, ◌==◌, bit_and, arith,
}
use yove.Base.OrderedSet.{contains, insert, is_ascending}
use yove.Xous.{Memory}
use yove.Xous.Ram.Bytes.{IsRam}
use yove.Xous.Pages.{frame, is_invalid}
use yove.Xous.Pages.Words.{IsPage, word}

pub true-false : ¬ (true ≡ false)
true-false e = cc

pub dec_eq : (a b : ℕ) → (a ≡ b) ⊎ (a ≢ b)
dec_eq a b = omega arith

-- Where an entry stands: in the root table, or in the table of a root entry.
pub data Position : Type 0 where
  root : ℕ → Position
  leaf : ℕ → ℕ → Position

abbrev pub InRange : Position → Type 0
InRange (root i) = i < 1024
InRange (leaf i j) = (i < 1024) × (j < 1024)

abbrev pub table : Memory → Position → ℕ
table m (root i) = m.l1_pt
table m (leaf i j) = frame (word m m.l1_pt i)

abbrev pub index : Position → ℕ
index (root i) = i
index (leaf i j) = j

abbrev pub entry : Memory → Position → ℕ
entry m x = word m (table m x) (index x)

abbrev pub is_live : Memory → Position → Bool
is_live m (root i) = not (is_invalid (entry m (root i)))
is_live m (leaf i j) = not (is_invalid (entry m (root i))) && not (is_invalid (entry m (leaf i j)))

pub record IsSound (m : Memory) : Type 0 where
  pub ram : IsRam m
  pub root_table : contains m.l1_pt m.allocated_pages ≡ true
  pub allocated : (p : ℕ) → contains p m.allocated_pages ≡ true → IsPage m p
  pub free :
      (p : ℕ) → contains p m.free_pages ≡ true → IsPage m p × (contains p m.allocated_pages ≡ false)
  pub zeroed : (p j : ℕ) → contains p m.free_pages ≡ true → j < 1024 → word m p j ≡ 0
  pub ascending : is_ascending m.free_pages ≡ true
  pub pointers : (i : ℕ) → i < 1024 → is_live m (root i) ≡ true → bit_and (entry m (root i)) 0xe ≡ 0
  pub owned :
      (x : Position)
      → InRange x
      → is_live m x ≡ true
      → (contains (frame (entry m x)) m.allocated_pages ≡ true) × (frame (entry m x) ≢ m.l1_pt)
  pub unique :
      (x y : Position)
      → InRange x
      → InRange y
      → is_live m x ≡ true
      → is_live m y ≡ true
      → frame (entry m x) ≡ frame (entry m y)
      → x ≡ y

-- The first free page is taken, and an entry `e` for it is written at `x₀`.
pub record Grown (m t : Memory) (q : ℕ) (rest : List ℕ) (x₀ : Position) (e : ℕ) : Type 0 where
  pub first : m.free_pages ≡ q ∷ rest
  pub range : InRange x₀
  pub base : t.base ≡ m.base
  pub page_count : t.page_count ≡ m.page_count
  pub l1_pt : t.l1_pt ≡ m.l1_pt
  pub free_pages : t.free_pages ≡ rest
  pub allocated_pages : t.allocated_pages ≡ insert q m.allocated_pages
  pub ram : IsRam t
  pub frame_is : frame e ≡ q
  pub words :
      (p j : ℕ)
      → IsPage m p
      → j < 1024
      → word t p j ≡ (if table m x₀ == p && index x₀ == j then e else word m p j)

abbrev pub root_index : Position → ℕ
root_index (root i) = i
root_index (leaf i j) = i

pub root_is_not_leaf : {i j k : ℕ} → root k ≢ leaf i j
root_is_not_leaf e = cc

-- The table of the new entry is the root table, or that of a live root entry.
abbrev pub HasTable : Memory → Position → Type 0
HasTable m (root i) = Unit
HasTable m (leaf i j) = is_live m (root i) ≡ true

-- A position that is live afterwards is the new one, or was live with the same entry.
abbrev pub Before : Memory → Memory → ℕ → Position → Position → Type 0
Before m t e x₀ x = ((x ≡ x₀) × (entry t x ≡ e)) ⊎ ((is_live m x ≡ true) × (entry t x ≡ entry m x))

module _ (m t : Memory) (q : ℕ) (rest : List ℕ) (x₀ : Position) (e : ℕ) (s : IsSound m)
    (g : Grown m t q rest x₀ e) where
  pub q_free : contains q m.free_pages ≡ true
  q_free = rw (g.first) (ground arith)

  pub q_fresh : contains q m.allocated_pages ≡ false
  q_fresh = (s.free q q_free).1

  l1_page : IsPage m m.l1_pt
  l1_page = s.allocated m.l1_pt s.root_table

  pub root_words :
      (i : ℕ)
      → i < 1024
      → entry t (root i) ≡ (if table m x₀ == m.l1_pt && index x₀ == i then e else entry m (root i))
  root_words i h = ap (λ (p : ℕ). word t p i) g.l1_pt ∙ g.words m.l1_pt i l1_page h

  pub q_page : IsPage m q
  q_page = (s.free q q_free).0

  table_page :
      (i : ℕ)
      → i < 1024
      → is_live m (root i) ≡ true
      → IsPage m (frame (entry m (root i))) × (frame (entry m (root i)) ≢ m.l1_pt)
  table_page i h l =
      let o = s.owned (root i) h l in (s.allocated (frame (entry m (root i))) o.0, o.1)

  pub leaf_word :
      (i j : ℕ)
      → i < 1024
      → j < 1024
      → is_live m (root i) ≡ true
      → entry t (root i) ≡ entry m (root i)
      → entry t (leaf i j) ≡ (
          if table m x₀ == frame (entry m (root i)) && index x₀ == j then e else entry m (leaf i j))
  leaf_word i j h k l f =
      ap (λ (r : ℕ). word t (frame r) j) f
      ∙ g.words (frame (entry m (root i))) j (table_page i h l).0 k

module _ (m t : Memory) (q : ℕ) (rest : List ℕ) (e : ℕ) (s : IsSound m) where
  pub root-root :
      (i k : ℕ)
      → Grown m t q rest (root i) e
      → k < 1024
      → is_live t (root k) ≡ true
      → Before m t e (root i) (root k)
  root-root i k g h l =
      let w = root_words m t q rest (root i) e s g k h in
      elim (dec_eq i k) [
        | inl f ↦ inl (ap root (sym f), ground arith)
        | inr n ↦ inr (ground arith, ground arith)
      ]

  pub root-leaf :
      (i j k : ℕ)
      → Grown m t q rest (leaf i j) e
      → is_live m (root i) ≡ true
      → k < 1024
      → is_live t (root k) ≡ true
      → Before m t e (leaf i j) (root k)
  root-leaf i j k g r h l =
      let w = root_words m t q rest (leaf i j) e s g k h in
      let n = (table_page m t q rest (leaf i j) e s g i g.range.0 r).1 in
      inr (ground arith, ground arith)

  pub leaf-root :
      (i k l : ℕ)
      → Grown m t q rest (root i) e
      → k < 1024
      → l < 1024
      → is_live t (leaf k l) ≡ true
      → Before m t e (root i) (leaf k l)
  leaf-root i k l g h b v =
      let alive : is_live t (root k) ≡ true = ground arith in
      elim (root-root i k g h alive) [
        | inl (f, fr) ↦
            let ne : m.l1_pt ≢ q = λ c. true-false (
              sym s.root_table
              ∙ ap (λ (p : ℕ). contains p m.allocated_pages) c
              ∙ q_fresh m t q rest (root i) e s g) in
            let w : entry t (leaf k l) ≡ word t q l =
              ap (λ (p : ℕ). word t p l) (ap frame fr ∙ g.frame_is) in
            let z = s.zeroed q l (q_free m t q rest (root i) e s g) b in
            let u = g.words q l (q_page m t q rest (root i) e s g) b in
            let gone : bit_and (entry t (leaf k l)) 1 ≡ 0 =
              ap (λ (x : ℕ). bit_and x 1)
                (w
                  ∙ u
                  ∙ (let o : (if m.l1_pt == q && i == l then e else word m q l) ≡ word m q l =
                        ground arith in
                      o)
                  ∙ z) in
            ground arith
        | inr (lm, same) ↦
            let w = leaf_word m t q rest (root i) e s g k l h b lm same in
            let n = (table_page m t q rest (root i) e s g k h lm).1 in
            inr (ground arith, ground arith)
      ]

  split :
      (i j k l : ℕ)
      → Grown m t q rest (leaf i j) e
      → entry t (leaf k l) ≡ (
          if frame (entry m (root i)) == frame (entry m (root k)) && j == l
          then e
          else entry m (leaf k l))
      → (frame (entry m (root i)) ≡ frame (entry m (root k)) → i ≡ k)
      → is_live m (root k) ≡ true
      → is_live t (leaf k l) ≡ true
      → Before m t e (leaf i j) (leaf k l)
  split i j k l g w u lm v = elim (dec_eq (frame (entry m (root i))) (frame (entry m (root k)))) [
    | inl c ↦ elim (dec_eq j l) [
      | inl d ↦ inl (ap₂ leaf (sym (u c)) (sym d), ground arith)
      | inr n ↦ inr (ground arith, ground arith)
    ]
    | inr n ↦ inr (ground arith, ground arith)
  ]

  pub leaf-leaf :
      (i j k l : ℕ)
      → Grown m t q rest (leaf i j) e
      → is_live m (root i) ≡ true
      → k < 1024
      → l < 1024
      → is_live t (leaf k l) ≡ true
      → Before m t e (leaf i j) (leaf k l)
  leaf-leaf i j k l g r h b v =
      let alive : is_live t (root k) ≡ true = ground arith in
      elim (root-leaf i j k g r h alive) [
        | inl (f, fr) ↦ absurd (root_is_not_leaf f)
        | inr (lm, same) ↦
            let w = leaf_word m t q rest (leaf i j) e s g k l h b lm same in
            let u : frame (entry m (root i)) ≡ frame (entry m (root k)) → i ≡ k =
              λ c. ap root_index (s.unique (root i) (root k) g.range.0 h r lm c) in
            split i j k l g w u lm v
      ]
