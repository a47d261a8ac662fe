-- ===== src/Xous/Pages/Later.antt =====
-- The entries that stay as they are when `ensure_page` adds one (src/xous.rs).
use yove.Base.{
  Option, some, bit_and, bit_and_mask, ◌⊎◌, ◌>>>◌, ℕ, ◌<◌, ◌≡◌, ◌≢◌, inl, inr, refl, ap, ap₂, sym,
  ◌∙◌, true, false, not, ◌&&◌, List, if◌then◌else◌, ◌==◌, arith,
}
use yove.Xous.{Memory}
use yove.Xous.Pages.{frame, is_invalid}
use yove.Xous.Pages.Words.{word}
use yove.Xous.Pages.Sound.{
  Position, root, leaf, InRange, entry, is_live, IsSound, Grown, HasTable, root_words, leaf_word,
  root_index, root_is_not_leaf, true-false, dec_eq, table, index,
}

-- The places of an address in the root table and in its table.
abbrev pub vpn1_of : ℕ → ℕ
vpn1_of virt = bit_and (virt >>> 22) 0x3ff

abbrev pub vpn0_of : ℕ → ℕ
vpn0_of virt = bit_and (virt >>> 12) 0x3ff

pub vpn1-lt : (virt : ℕ) → vpn1_of virt < 1024
vpn1-lt virt = omega (arith, bit_and_mask 10 (virt >>> 22))

pub vpn0-lt : (virt : ℕ) → vpn0_of virt < 1024
vpn0-lt virt = omega (arith, bit_and_mask 10 (virt >>> 12))

-- Where the entry of an address stands.
abbrev pub position : ℕ → Position
position virt = leaf (vpn1_of virt) (vpn0_of virt)

-- The cache has the page of an address, and that is the page of its entry.
abbrev pub IsCachedPage : Memory → ℕ → ℕ → Type 0
IsCachedPage t v q = (is_live t (position v) ≡ true) × (q ≡ frame (entry t (position v)))

-- Every live entry of `m` is there in `t`, with the words of its page, the heap is as large as before, and what is new in the
-- cache is right.
pub record Later (m t : Memory) : Type 0 where
  pub kept :
      (x : Position)
      → InRange x
      → is_live m x ≡ true
      → (is_live t x ≡ true) × (entry t x ≡ entry m x)
  pub heap_size : t.heap_size ≡ m.heap_size
  pub base : t.base ≡ m.base
  pub same_root : (t.l1_pt ≡ m.l1_pt) × (t.satp ≡ m.satp)
  pub cached :
      (v q : ℕ)
      → t.translation_cache (v >>> 12) ≡ some q
      → (m.translation_cache (v >>> 12) ≡ some q) ⊎ IsCachedPage t v q
  pub contents :
      (i j k : ℕ)
      → i < 1024
      → j < 1024
      → k < 1024
      → is_live m (leaf i j) ≡ true
      → word t (frame (entry m (leaf i j))) k ≡ word m (frame (entry m (leaf i j))) k

pub Later-refl : (m : Memory) → Later m m
Later-refl m = record {
  kept = λ x _ l. (l, refl);
  heap_size = refl;
  base = refl;
  same_root = (refl, refl);
  cached = λ v q c. inl c;
  contents = λ i j k _ _ _ _. refl;
}

pub Later-IsCachedPage :
    (m t : Memory) (v q : ℕ) → Later m t → IsCachedPage m v q → IsCachedPage t v q
Later-IsCachedPage m t v q l c =
    let k = l.kept (position v) (vpn1-lt v, vpn0-lt v) c.0 in (k.0, c.1 ∙ ap frame (sym k.1))

pub Later-trans : (m t u : Memory) → Later m t → Later t u → Later m u
Later-trans m t u a b = record {
  kept = λ x r l. (let k = a.kept x r l in let n = b.kept x r k.0 in (n.0, n.1 ∙ k.1));
  heap_size = b.heap_size ∙ a.heap_size;
  base = b.base ∙ a.base;
  same_root = (b.same_root.0 ∙ a.same_root.0, b.same_root.1 ∙ a.same_root.1);
  cached = λ v q c. elim (b.cached v q c) [
    | inl d ↦ elim (a.cached v q d) [ inl f ↦ inl f | inr f ↦ inr (Later-IsCachedPage t u v q b f) ]
    | inr d ↦ inr d
  ];
  contents = λ i j k a₁ a₂ a₃ l.
      (let n = a.kept (leaf i j) (a₁, a₂) l in
        ap (λ (w : ℕ). word u (frame w) k) (sym n.1)
        ∙ b.contents i j k a₁ a₂ a₃ n.0
        ∙ ap (λ (w : ℕ). word t (frame w) k) n.1
        ∙ a.contents i j k a₁ a₂ a₃ l);
}

module _ (m t : Memory) (q : ℕ) (rest : List ℕ) (e : ℕ) (s : IsSound m) where
  differ : (x y : Position) → is_invalid (entry m x) ≡ true → is_invalid (entry m y) ≡ false → x ≢ y
  differ x y d v f = true-false (sym d ∙ ap (λ (z : Position). is_invalid (entry m z)) f ∙ v)

  root_kept :
      (x₀ : Position)
      → Grown m t q rest x₀ e
      → HasTable m x₀
      → is_invalid (entry m x₀) ≡ true
      → (k : ℕ) → k < 1024
      → is_live m (root k) ≡ true
      → entry t (root k) ≡ entry m (root k)
  root_kept (root i) g h d k r l =
      let v : is_invalid (entry m (root k)) ≡ false = ground (arith, l) in
      let n : i ≢ k = λ f. differ (root i) (root k) d v (ap root f) in
      let u : (if m.l1_pt == m.l1_pt && i == k then e else entry m (root k)) ≡ entry m (root k) =
        ground arith in
      root_words m t q rest (root i) e s g k r ∙ u
  root_kept (leaf i j) g h d k r l =
      let n = (s.owned (root i) g.range.0 h).1 in
      let u : (if frame (entry m (root i)) == m.l1_pt && j == k then e else entry m (root k))
          ≡ entry m (root k) =
        ground arith in
      root_words m t q rest (leaf i j) e s g k r ∙ u

  leaf_kept :
      (x₀ : Position)
      → Grown m t q rest x₀ e
      → HasTable m x₀
      → is_invalid (entry m x₀) ≡ true
      → (k l : ℕ) → k < 1024
      → l < 1024
      → is_live m (root k) ≡ true
      → is_invalid (entry m (leaf k l)) ≡ false
      → entry t (leaf k l) ≡ entry m (leaf k l)
  leaf_kept (root i) g h d k l r r' a v =
      let n = (s.owned (root k) r a).1 in
      let u : (if m.l1_pt == frame (entry m (root k)) && i == l then e else entry m (leaf k l))
          ≡ entry m (leaf k l) =
        ground arith in
      leaf_word m t q rest (root i) e s g k l r r' a (root_kept (root i) g h d k r a) ∙ u
  leaf_kept (leaf i j) g h d k l r r' a v =
      let n = differ (leaf i j) (leaf k l) d v in
      let u : (if frame (entry m (root i)) == frame (entry m (root k)) && j == l
            then e
            else entry m (leaf k l))
          ≡ entry m (leaf k l) =
        elim (dec_eq (frame (entry m (root i))) (frame (entry m (root k)))) [
          | inl f ↦
              let c : i ≡ k = ap root_index (s.unique (root i) (root k) g.range.0 r h a f) in
              let o : j ≢ l = λ b. n (ap₂ leaf c b) in ground arith
          | inr f ↦ ground arith
        ] in
      leaf_word m t q rest (leaf i j) e s g k l r r' a (root_kept (leaf i j) g h d k r a) ∙ u

  kept_live :
      (x₀ : Position)
      → Grown m t q rest x₀ e
      → HasTable m x₀
      → is_invalid (entry m x₀) ≡ true
      → (x : Position) → InRange x
      → is_live m x ≡ true
      → (is_live t x ≡ true) × (entry t x ≡ entry m x)
  kept_live x₀ g h d (root k) r l =
      let f = root_kept x₀ g h d k r l in (ap (λ (w : ℕ). not (is_invalid w)) f ∙ l, f)
  kept_live x₀ g h d (leaf k n) r l =
      let a : is_live m (root k) ≡ true = ground (arith, l) in
      let v : is_invalid (entry m (leaf k n)) ≡ false = ground (arith, l) in
      let f = root_kept x₀ g h d k r.0 a in
      let w = leaf_kept x₀ g h d k n r.0 r.1 a v in
      (ap₂ (λ (b c : ℕ). not (is_invalid b) && not (is_invalid c)) f w ∙ l, w)

  -- The table of the new entry is no page that an address has.
  table_apart :
      (x₀ : Position)
      → InRange x₀
      → HasTable m x₀
      → (i j : ℕ) → i < 1024
      → j < 1024
      → is_live m (leaf i j) ≡ true
      → table m x₀ ≢ frame (entry m (leaf i j))
  table_apart (root a) r h i j b c l f = (s.owned (leaf i j) (b, c) l).1 (sym f)
  table_apart (leaf a d) r h i j b c l f =
      root_is_not_leaf (s.unique (root a) (leaf i j) r.0 (b, c) h l f)

  kept_words :
      (x₀ : Position)
      → Grown m t q rest x₀ e
      → HasTable m x₀
      → (i j k : ℕ) → i < 1024
      → j < 1024
      → k < 1024
      → is_live m (leaf i j) ≡ true
      → word t (frame (entry m (leaf i j))) k ≡ word m (frame (entry m (leaf i j))) k
  kept_words x₀ g h i j k b c d l =
      let p = frame (entry m (leaf i j)) in
      let n = table_apart x₀ g.range h i j b c l in
      let u : (if table m x₀ == p && index x₀ == k then e else word m p k) ≡ word m p k =
        ground arith in
      g.words p k (s.allocated p (s.owned (leaf i j) (b, c) l).0) d ∙ u

  pub Grown-Later :
      (x₀ : Position)
      → Grown m t q rest x₀ e
      → HasTable m x₀
      → is_invalid (entry m x₀) ≡ true
      → t.heap_size ≡ m.heap_size
      → t.translation_cache ≡ m.translation_cache
      → t.satp ≡ m.satp
      → Later m t
  Grown-Later x₀ g h d f c o = record {
    kept = kept_live x₀ g h d;
    heap_size = f;
    base = g.base;
    same_root = (g.l1_pt, o);
    cached = λ v p b. inl (ap (λ (k : ℕ → Option ℕ). k (v >>> 12)) (sym c) ∙ b);
    contents = kept_words x₀ g h;
  }
