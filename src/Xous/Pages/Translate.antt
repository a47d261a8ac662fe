-- ===== src/Xous/Pages/Translate.antt =====
-- `Memory::virt_to_phys` (src/xous.rs) in a sound state.
use yove.Base.{
  inl, inr, ℕ, ◌+◌, ◌*◌, ◌/◌, ◌%◌, ◌^◌, ◌<◌, ◌≡◌, ◌≢◌, refl, ap, sym, ◌∙◌, Bool, true, false, not,
  Option, some, none, [], if◌then◌else◌, ◌==◌, bit_and, bit_or, bit_and_mask, bit_or_fields, ◌>>>◌,
  arith,
}
use yove.Base.Exec.Returns.{Returns, Returns-map}
use yove.Xous.{Memory}
use yove.Xous.Ram.{translate}
use yove.Xous.Pages.{frame, is_invalid, virt_to_phys, ensure_page}
use yove.Xous.Pages.Sound.{Position, root, leaf, entry, is_live, IsSound}
pub use yove.Xous.Pages.Later.{position}
use yove.Xous.Pages.Later.{IsCachedPage, Later-IsCachedPage, Later}
use yove.Xous.Pages.Ensure.Ready.{vpn1_of, vpn0_of, vpn1-lt, vpn0-lt}
use yove.Xous.Pages.Ensure.Page.{Ensured, ensure_page-Ensured}

abbrev first_of : Position → ℕ
first_of (root i) = i
first_of (leaf i j) = i

abbrev second_of : Position → ℕ
second_of (root i) = i
second_of (leaf i j) = j

pub frame_parts :
    (e virt : ℕ)
    → (bit_or (frame e) (bit_and virt 0xfff) / 2 ^ 12 ≡ frame e / 2 ^ 12)
      × (bit_or (frame e) (bit_and virt 0xfff) % 2 ^ 12 ≡ virt % 2 ^ 12)
frame_parts e virt =
    let u : frame e ≡ frame e / 2 ^ 12 * 2 ^ 12 = omega arith in
    let v = bit_and_mask 12 virt in
    let w : bit_or (frame e) (bit_and virt 0xfff) ≡ frame e / 2 ^ 12 * 2 ^ 12 + bit_and virt 0xfff =
      ap (λ (x : ℕ). bit_or x (bit_and virt 0xfff)) u
      ∙ bit_or_fields 12 (frame e / 2 ^ 12) (bit_and virt 0xfff) (omega (arith, v)) in
    (omega (arith, v, w), omega (arith, v, w))

module _ (m : Memory) (s : IsSound m) where
  -- A live entry is a translation.
  pub live_some :
      (virt : ℕ)
      → is_live m (position virt) ≡ true
      → virt_to_phys m virt ≡ some (bit_or (frame (entry m (position virt))) (bit_and virt 0xfff))
  unfolding virt_to_phys
  live_some virt l = ground (arith, s.pointers (vpn1_of virt) (vpn1-lt virt))

  pub some_live :
      (virt p : ℕ)
      → virt_to_phys m virt ≡ some p
      → (is_live m (position virt) ≡ true)
        × (p ≡ bit_or (frame (entry m (position virt))) (bit_and virt 0xfff))
  unfolding virt_to_phys
  some_live virt p e = (ground arith, ground arith)

-- `virt_to_phys` by the two entries that it reads.
abbrev pub phys_of : ℕ → ℕ → ℕ → Option ℕ
phys_of e f v =
    if is_invalid e
    then none
    else if not (bit_and e 0xe == 0)
    then none
    else if is_invalid f
    then none
    else some (bit_or (frame f) (bit_and v 0xfff))

pub virt_to_phys_lem :
    (m : Memory) (v : ℕ)
    → virt_to_phys m v ≡ phys_of (entry m (root (vpn1_of v))) (entry m (position v)) v
unfolding virt_to_phys
virt_to_phys_lem m v = refl

-- The page of an entry, by the entry's bits.
pub two_pages_lem :
    (v w : ℕ)
    → v < 2 ^ 32
    → w < 2 ^ 32
    → vpn1_of v ≡ vpn1_of w
    → vpn0_of v ≡ vpn0_of w
    → v % 2 ^ 12 ≡ w % 2 ^ 12
    → v ≡ w
two_pages_lem v w h k e f g = omega (
  arith,
  bit_and_mask 10 (v >>> 22),
  bit_and_mask 10 (w >>> 22),
  bit_and_mask 10 (v >>> 12),
  bit_and_mask 10 (w >>> 12),
)

module _ (m : Memory) (s : IsSound m) where
  -- In a sound state no two addresses of 32 bits have the same physical address.
  pub virt_to_phys-injective :
      (v w p : ℕ)
      → v < 2 ^ 32
      → w < 2 ^ 32
      → virt_to_phys m v ≡ some p
      → virt_to_phys m w ≡ some p
      → v ≡ w
  virt_to_phys-injective v w p h k e f =
      let a = some_live m s v p e in
      let b = some_live m s w p f in
      let g = frame_parts (entry m (position v)) v in
      let i = frame_parts (entry m (position w)) w in
      let same =
        s.unique (position v) (position w) (vpn1-lt v, vpn0-lt v) (vpn1-lt w, vpn0-lt w) a.0 b.0
          (omega (arith, a.1, b.1, g, i)) in
      two_pages_lem v w h k (ap first_of same) (ap second_of same) (omega (arith, a.1, b.1, g, i))

abbrev pub is_mapped : Option ℕ → Bool
is_mapped none = false
is_mapped (some p) = true

-- What `ensure_page` gives: a translation of the address, or no page is left.
abbrev pub Mapped : ℕ → Option Bool → Memory → Type 0
Mapped virt none t = IsSound t × (t.free_pages ≡ [])
Mapped virt (some allocated) t = IsSound t × (is_mapped (virt_to_phys t virt) ≡ true)

ensured-Mapped :
    (m : Memory) (virt : ℕ) (r : Option Bool) (t : Memory) → Ensured m virt r t → Mapped virt r t
ensured-Mapped m virt none t h = (h.0, h.2)
ensured-Mapped m virt (some a) t h = (h.0, ap is_mapped (live_some t h.0 virt h.2))

-- From a sound state, `ensure_page` never panics, for any address but 0 and those of the last page.
-- It leaves a sound state in which the address has a translation; or it returns `none`, and then
-- the state is sound and no page of the RAM is free.
pub ensure_page-Mapped :
    (virt : ℕ) (m : Memory)
    → IsSound m
    → virt ≢ 0
    → virt < 0xfffff000
    → Returns (ensure_page virt m) (Mapped virt)
ensure_page-Mapped virt m s n b =
    Returns-map (Ensured m virt) (Mapped virt) (ensure_page virt m)
      (ensure_page-Ensured virt m s n b) (ensured-Mapped m virt)

pub Later-virt_to_phys :
    (m t : Memory) (v p : ℕ)
    → IsSound m
    → IsSound t
    → Later m t
    → virt_to_phys m v ≡ some p
    → virt_to_phys t v ≡ some p
Later-virt_to_phys m t v p s s' l e =
    let a = some_live m s v p e in
    let k = l.kept (position v) (vpn1-lt v, vpn0-lt v) a.0 in
    live_some t s' v k.0
    ∙ ap some (ap (λ (w : ℕ). bit_or (frame w) (bit_and v 0xfff)) k.1 ∙ sym a.1)

ensured_same :
    (m : Memory) (virt v p : ℕ) (r : Option Bool) (t : Memory)
    → IsSound m
    → virt_to_phys m v ≡ some p
    → Ensured m virt r t
    → virt_to_phys t v ≡ some p
ensured_same m virt v p none t s e h = Later-virt_to_phys m t v p s h.0 h.1 e
ensured_same m virt v p (some a) t s e h = Later-virt_to_phys m t v p s h.0 h.1 e

-- From a sound state, and for any address but 0 and those of the last page, `ensure_page` leaves the
-- translation of every address that has one as it is, also when it finds no page.
pub ensure_page-virt_to_phys :
    (virt v p : ℕ) (m : Memory)
    → IsSound m
    → virt ≢ 0
    → virt < 0xfffff000
    → virt_to_phys m v ≡ some p
    → Returns (ensure_page virt m) (λ r t. virt_to_phys t v ≡ some p)
ensure_page-virt_to_phys virt v p m s n b e =
    Returns-map (Ensured m virt) (λ r t. virt_to_phys t v ≡ some p) (ensure_page virt m)
      (ensure_page-Ensured virt m s n b) (λ r t h. ensured_same m virt v p r t s e h)

-- Every entry of the cache is the page of its address.
abbrev pub IsCacheRight : Memory → Type 0
IsCacheRight m = (v q : ℕ) → m.translation_cache (v >>> 12) ≡ some q → IsCachedPage m v q

kept_right : (m t : Memory) → IsCacheRight m → Later m t → IsCacheRight t
kept_right m t r l v q c = elim (l.cached v q c) [
  | inl d ↦ Later-IsCachedPage m t v q l (r v q d)
  | inr d ↦ d
]

ensured-IsCacheRight :
    (m : Memory) (virt : ℕ) (r : Option Bool) (t : Memory)
    → IsCacheRight m
    → Ensured m virt r t
    → IsCacheRight t
ensured-IsCacheRight m virt none t c h = kept_right m t c h.1
ensured-IsCacheRight m virt (some a) t c h = kept_right m t c h.1

-- From a sound state whose cache of translations agrees with the page tables, and for any address but
-- 0 and those of the last page, `ensure_page` leaves a state whose cache agrees with the page tables.
pub ensure_page-IsCacheRight :
    (virt : ℕ) (m : Memory)
    → IsSound m
    → IsCacheRight m
    → virt ≢ 0
    → virt < 0xfffff000
    → Returns (ensure_page virt m) (λ r t. IsCacheRight t)
ensure_page-IsCacheRight virt m s c n b =
    Returns-map (Ensured m virt) (λ r t. IsCacheRight t) (ensure_page virt m)
      (ensure_page-Ensured virt m s n b) (λ r t h. ensured-IsCacheRight m virt r t c h)

-- In a sound state whose cache agrees with the page tables, `translate`, which reads the cache, gives an
-- address only if `virt_to_phys`, which reads the page tables, gives the same.
pub translate-virt_to_phys :
    (m : Memory) (v p : ℕ)
    → IsSound m
    → IsCacheRight m
    → translate m v ≡ some (some p)
    → virt_to_phys m v ≡ some p
unfolding translate
translate-virt_to_phys m v p s c e = from_cache (m.translation_cache (v >>> 12)) refl
  where
    from_cache : (o : Option ℕ) → m.translation_cache (v >>> 12) ≡ o → virt_to_phys m v ≡ some p
    from_cache none d = ground (arith, d)
    from_cache (some q) d =
        let k = c v q d in
        let f : p ≡ bit_or q (bit_and v 0xfff) = ground (arith, d) in
        live_some m s v k.0
        ∙ ap (λ (x : ℕ). some (bit_or x (bit_and v 0xfff))) (sym k.1)
        ∙ ap some (sym f)
