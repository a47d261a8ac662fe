-- ===== src/Xous/Pages/Ensure/Page.antt =====
-- `ensure_page` as a whole (src/xous.rs).
use yove.Base.{
  length, ◌+◌, ◌≤◌, ℕ, ◌<◌, ◌≡◌, ◌≢◌, inl, inr, refl, subst, ap, sym, ◌∙◌, Bool, true, false,
  Option, some, none, List, [], ◌∷◌, bit_or, ◌>>>◌, ◌<<<◌, arith,
}
use yove.Base.OrderedSet.{contains}
use yove.Base.Exec.{Outcome, ok, ◌>>=◌}
use yove.Base.Exec.Returns.{Returns}
pub use yove.Base.Exec.Returns.{returned}
use yove.Xous.{Memory}
use yove.Xous.Pages.{
  frame, is_invalid, pointer_flags, page_flags, ensure_table, ensure_mapping, ensure_page,
}
use yove.Xous.Pages.Sound.{root, leaf, entry, is_live, IsSound, true-false}
use yove.Xous.Pages.Words.{frame-entry}
use yove.Xous.Pages.Later.{Later-refl, Later-trans, Later}
use yove.Xous.Pages.Ensure.{grow, page, allocate_lem, allocate_none}
use yove.Xous.Pages.Ensure.Ready.{
  vpn1_of, vpn0_of, vpn1-lt, vpn0-lt, Ready, cached, cached-Ready, boolean, valid_cases, free_cases,
  root-Ready, leaf-Ready,
}

module _ (virt : ℕ) (m : Memory) (s : IsSound m) where
  table_kept :
      is_invalid (entry m (root (vpn1_of virt))) ≡ false
      → ensure_table virt m ≡ ok (some (false, entry m (root (vpn1_of virt)))) m
  unfolding ensure_table ◌>>=◌
  table_kept v = ground (arith, v)

  table_none :
      is_invalid (entry m (root (vpn1_of virt))) ≡ true
      → m.free_pages ≡ []
      → ensure_table virt m ≡ ok none m
  unfolding ensure_table ◌>>=◌
  table_none v e = ground (arith, v, allocate_none m e)

  table_new :
      (q : ℕ) (rest : List ℕ)
      → is_invalid (entry m (root (vpn1_of virt))) ≡ true
      → m.free_pages ≡ q ∷ rest
      → ensure_table virt m
        ≡ ok
            (some (true, bit_or ((q >>> 12) <<< 10) pointer_flags))
            (grow q rest (root (vpn1_of virt)) pointer_flags m)
  unfolding ensure_table ◌>>=◌
  table_new q rest v e = ground (arith, v, allocate_lem m q rest s e)

  -- The table for an address.
  table-Ready : Returns (ensure_table virt m) (Ready m (root (vpn1_of virt)))
  table-Ready = elim (valid_cases (entry m (root (vpn1_of virt)))) [
    | inl v ↦
        subst
          (λ (o : Outcome Memory ⊥ (Option (Bool × ℕ))). Returns o (Ready m (root (vpn1_of virt))))
          (sym (table_kept v)) (s, Later-refl m, ground (arith, v), refl, omega arith)
    | inr v ↦ elim (free_cases m.free_pages) [
      | inl e ↦
          subst
            (λ (o : Outcome Memory ⊥ (Option (Bool × ℕ))).
              Returns o (Ready m (root (vpn1_of virt))))
            (sym (table_none v e)) (s, Later-refl m, e, e)
      | inr (q, rest, e) ↦
          subst
            (λ (o : Outcome Memory ⊥ (Option (Bool × ℕ))).
              Returns o (Ready m (root (vpn1_of virt))))
            (sym (table_new q rest v e)) (root-Ready m s q rest e (vpn1_of virt) (vpn1-lt virt) v)
    ]
  ]

-- The page for an address whose table is live.
module _ (virt : ℕ) (m : Memory) (s : IsSound m) (live : is_live m (root (vpn1_of virt)) ≡ true)
    (allocated : Bool) where
  mapping_kept :
      is_invalid (entry m (leaf (vpn1_of virt) (vpn0_of virt))) ≡ false
      → ensure_mapping virt (entry m (root (vpn1_of virt))) allocated m
        ≡ ok (some (allocated, entry m (leaf (vpn1_of virt) (vpn0_of virt)))) m
  unfolding ensure_mapping ◌>>=◌
  mapping_kept v = ground (arith, v)

  mapping_none :
      is_invalid (entry m (leaf (vpn1_of virt) (vpn0_of virt))) ≡ true
      → m.free_pages ≡ []
      → ensure_mapping virt (entry m (root (vpn1_of virt))) allocated m ≡ ok none m
  unfolding ensure_mapping ◌>>=◌
  mapping_none v e = ground (arith, v, allocate_none m e)

  mapping_new :
      (q : ℕ) (rest : List ℕ)
      → is_invalid (entry m (leaf (vpn1_of virt) (vpn0_of virt))) ≡ true
      → m.free_pages ≡ q ∷ rest
      → virt < 0xfffff000
      → ensure_mapping virt (entry m (root (vpn1_of virt))) allocated m
        ≡ ok
            (some (true, bit_or ((q >>> 12) <<< 10) page_flags))
            (cached virt q (grow q rest (leaf (vpn1_of virt) (vpn0_of virt)) page_flags m))
  unfolding ensure_mapping ◌>>=◌
  mapping_new q rest v e b = ground (arith, v, allocate_lem m q rest s e)

  -- The entry for the address.
  mapping-Ready :
      virt < 0xfffff000
      → Returns
          (ensure_mapping virt (entry m (root (vpn1_of virt))) allocated m)
          (Ready m (leaf (vpn1_of virt) (vpn0_of virt)))
  mapping-Ready b =
      let x = leaf (vpn1_of virt) (vpn0_of virt) in
      elim (valid_cases (entry m x)) [
        | inl v ↦
            subst (λ (o : Outcome Memory ⊥ (Option (Bool × ℕ))). Returns o (Ready m x))
              (sym (mapping_kept v)) (s, Later-refl m, ground (arith, v, live), refl, omega arith)
        | inr v ↦ elim (free_cases m.free_pages) [
          | inl e ↦
              subst (λ (o : Outcome Memory ⊥ (Option (Bool × ℕ))). Returns o (Ready m x))
                (sym (mapping_none v e)) (s, Later-refl m, e, e)
          | inr (q, rest, e) ↦
              let t = grow q rest x page_flags m in
              let r =
                leaf-Ready m s q rest e (vpn1_of virt) (vpn0_of virt) (vpn1-lt virt) (vpn0-lt virt)
                  live v in
              subst (λ (o : Outcome Memory ⊥ (Option (Bool × ℕ))). Returns o (Ready m x))
                (sym (mapping_new q rest v e b))
                (cached-Ready virt q m t (true, bit_or ((q >>> 12) <<< 10) page_flags)
                  (frame-entry m q page_flags s.ram (page m q rest s e) (omega arith)) r)
        ]
      ]

-- What `ensure_page` gives.
abbrev pub Ensured : Memory → ℕ → Option Bool → Memory → Type 0
Ensured m virt none t = IsSound t × Later m t × (t.free_pages ≡ []) × (length m.free_pages ≤ 1)
Ensured m virt (some allocated) t =
    IsSound t
    × Later m t
    × (is_live t (leaf (vpn1_of virt) (vpn0_of virt)) ≡ true)
    × (length m.free_pages ≤ 2 + length t.free_pages)

rest_of_page :
    (virt : ℕ) (w : Bool × ℕ) (m t : Memory)
    → Ready m (leaf (vpn1_of virt) (vpn0_of virt)) (some w) t
    → contains (frame w.1) t.allocated_pages ≡ true
rest_of_page virt w m t r =
    ap (λ (x : ℕ). contains (frame x) t.allocated_pages) r.3
    ∙ (r.0.owned (leaf (vpn1_of virt) (vpn0_of virt)) (vpn1-lt virt, vpn0-lt virt) r.2).0

not_free :
    (p : ℕ) (t : Memory)
    → IsSound t
    → contains p t.allocated_pages ≡ true
    → contains p t.free_pages ≡ false
not_free p t s c = elim (boolean (contains p t.free_pages)) [
  | inl f ↦ absurd (true-false (sym c ∙ (s.free p f).1))
  | inr f ↦ f
]

-- The page of a live address is there already.
pub ensure_page_live :
    (virt : ℕ) (m : Memory)
    → IsSound m
    → virt ≢ 0
    → is_live m (leaf (vpn1_of virt) (vpn0_of virt)) ≡ true
    → ensure_page virt m ≡ ok (some false) m
unfolding ensure_page ◌>>=◌
ensure_page_live virt m s n l =
    let x = leaf (vpn1_of virt) (vpn0_of virt) in
    let a : is_invalid (entry m (root (vpn1_of virt))) ≡ false = ground (arith, l) in
    let b : is_invalid (entry m x) ≡ false = ground (arith, l) in
    let k : is_live m (root (vpn1_of virt)) ≡ true = ground (arith, a) in
    let f = table_kept virt m s a in
    let g = mapping_kept virt m s k false b in
    let c = (s.owned x (vpn1-lt virt, vpn0-lt virt) l).0 in
    let d = not_free (frame (entry m x)) m s c in ground (arith, f, g, c, d)

no_page : (m : Memory) → m.free_pages ≡ [] → length m.free_pages ≤ 0
no_page m e = omega (arith, ap length e)

module _ (virt : ℕ) (m : Memory) (n : virt ≢ 0) where
  page_mapping :
      (w : Bool × ℕ) (t : Memory) (r : Option (Bool × ℕ)) (u : Memory)
      → length m.free_pages ≤ 1 + length t.free_pages
      → ensure_table virt m ≡ ok (some w) t
      → ensure_mapping virt w.1 w.0 t ≡ ok r u
      → Later m t
      → Ready t (leaf (vpn1_of virt) (vpn0_of virt)) r u
      → Returns (ensure_page virt m) (Ensured m virt)
  unfolding ensure_page ◌>>=◌
  page_mapping w t none u c₀ f g a h =
      let e : ensure_page virt m ≡ ok none u = ground (arith, f, g) in
      subst (λ (o : Outcome Memory ⊥ (Option Bool)). Returns o (Ensured m virt)) (sym e)
        (h.0, Later-trans m t u a h.1, h.2, omega (arith, c₀, no_page t h.3))
  page_mapping w t (some v) u c₀ f g a h =
      let c = rest_of_page virt v t u h in
      let d = not_free (frame v.1) u h.0 c in
      let e : ensure_page virt m ≡ ok (some v.0) u = ground (arith, f, g, c, d) in
      subst (λ (o : Outcome Memory ⊥ (Option Bool)). Returns o (Ensured m virt)) (sym e)
        (h.0, Later-trans m t u a h.1, h.2, omega (arith, c₀, h.4))

  page_table :
      (r : Option (Bool × ℕ)) (t : Memory)
      → virt < 0xfffff000
      → ensure_table virt m ≡ ok r t
      → Ready m (root (vpn1_of virt)) r t
      → Returns (ensure_page virt m) (Ensured m virt)
  unfolding ensure_page ◌>>=◌
  page_table none t b f h =
      let e : ensure_page virt m ≡ ok none t = ground (arith, f) in
      subst (λ (o : Outcome Memory ⊥ (Option Bool)). Returns o (Ensured m virt)) (sym e)
        (h.0, h.1, h.2, omega (arith, no_page m h.3))
  page_table (some w) t b f h =
      let l =
        subst
          (λ (x : ℕ).
            Returns (ensure_mapping virt x w.0 t) (Ready t (leaf (vpn1_of virt) (vpn0_of virt))))
          (sym h.3) (mapping-Ready virt t h.0 h.2 w.0 b) in
      let r =
        returned (Ready t (leaf (vpn1_of virt) (vpn0_of virt))) (ensure_mapping virt w.1 w.0 t) l in
      page_mapping w t r.0 r.1 h.4 f r.2 h.1 r.3

-- `ensure_page` from a sound state.
pub ensure_page-Ensured :
    (virt : ℕ) (m : Memory)
    → IsSound m
    → virt ≢ 0
    → virt < 0xfffff000
    → Returns (ensure_page virt m) (Ensured m virt)
ensure_page-Ensured virt m s n b =
    let r = returned (Ready m (root (vpn1_of virt))) (ensure_table virt m) (table-Ready virt m s) in
    page_table virt m n r.0 r.1 b r.2 r.3
