-- ===== src/Xous/Syscalls/Backed.antt =====
-- What `write_bytes` (src/xous.rs) needs of the free pages, and the bytes that stay when a page is
-- added.
use yove.Base.{
  false, length, ℕ, ◌+◌, ◌-◌, ◌*◌, ◌/◌, ◌%◌, ◌^◌, ◌<◌, ◌≤◌, ◌≡◌, ◌≢◌, ◌⊎◌, inl, inr, refl, subst,
  ap, ap₂, sym, ◌∙◌, Bool, true, Option, some, none, List, ◌∷◌, [], bit_and, bit_and_mask,
  wrapping_add, arith,
}
use yove.Base.Exec.{Outcome}
use yove.Base.Exec.Returns.{Returns, Returns-map}
use yove.Xous.{Memory}
use yove.Xous.Ram.{place, word_at, read_u8, read_u32}
use yove.Xous.Ram.Bytes.{IsRam, size, peek, read_u8-peek}
use yove.Xous.Ram.Word.{byte}
use yove.Xous.Pages.{frame, virt_to_phys, ensure_page}
use yove.Xous.Pages.Ensure.Page.{Ensured, ensure_page-Ensured, ensure_page_live}
use yove.Xous.Pages.Words.{IsPage, word, page_place}
use yove.Xous.Pages.Sound.{is_live, IsSound}
use yove.Xous.Pages.Later.{Later, Later-refl}
use yove.Xous.Pages.Ensure.Ready.{vpn1_of, vpn0_of, vpn1-lt, vpn0-lt}
use yove.Xous.Pages.Translate.{position, Later-virt_to_phys}
use yove.Xous.Pages.Load.{load, load-some, page_of_address, mapped_live, mapped_page, place_parts}

-- A byte of a page, by the word it is in.
peek-word :
    (m : Memory) (q n : ℕ)
    → IsRam m
    → IsPage m q
    → n < 2 ^ 12
    → peek m (q - m.base + n) ≡ byte (n % 4) (word m q (n / 4))
unfolding read_u32
peek-word m q n r g h =
    let l = q - m.base + n in
    let a = wrapping_add q (n / 4 * 4) in
    let f = page_place m q (n / 4) r g (omega arith) in
    let z : bit_and a 3 ≡ 0 = omega (arith, bit_and_mask 2 a, g.start) in
    let w : word m q (n / 4) ≡ word_at m (l / 2 ^ 12) (l % 2 ^ 12 / 4) =
      (let u : word m q (n / 4) ≡ word_at m (place m a / 2 ^ 12) (place m a % 2 ^ 12 / 4) =
          ground (arith, z) in
        u)
      ∙ ap₂ (word_at m) (omega (arith, f, g.start, g.low, r.aligned))
          (omega (arith, f, g.start, g.low, r.aligned)) in
    ap₂ byte (omega (arith, g.start, g.low, r.aligned)) (sym w)

module _ (m t : Memory) (s : IsSound m) (s' : IsSound t) (l : Later m t) where
  -- What could be loaded is loaded as before.
  pub Later-load : (v p : ℕ) → virt_to_phys m v ≡ some p → load t v ≡ load m v
  Later-load v p e =
      let n = v % 2 ^ 12 in
      let d = Later-virt_to_phys m t v p s s' l e in
      let k = l.kept (position v) (vpn1-lt v, vpn0-lt v) (mapped_live m s v p e) in
      let q = page_of_address m v in
      let f : page_of_address t v ≡ q = ap frame k.1 in
      let g : IsPage t q = subst (IsPage t) f (mapped_page t s' v p d) in
      let h : place t p ≡ q - t.base + n =
        place_parts t s' v p d ∙ ap (λ (x : ℕ). x - t.base + n) f in
      let c =
        l.contents (vpn1_of v) (vpn0_of v) (n / 4) (vpn1-lt v) (vpn0-lt v) (omega arith)
          (mapped_live m s v p e) in
      let u : read_u8 t p ≡ read_u8 m p =
        read_u8-peek t p
        ∙ ap (peek t) h
        ∙ peek-word t q n s'.ram g (omega arith)
        ∙ ap (byte (n % 4)) c
        ∙ sym (peek-word m q n s.ram (mapped_page m s v p e) (omega arith))
        ∙ ap (peek m) (sym (place_parts m s v p e))
        ∙ sym (read_u8-peek m p) in
      load-some t v p d ∙ ap some u ∙ sym (load-some m v p e)

-- What `ensure_page` needs: the page is there, or two pages are free. It takes no more than
-- those two.
abbrev pub Enough : Memory → ℕ → ℕ → Type 0
Enough m start need =
    (need ≤ length m.free_pages)
    ⊎ ((is_live m (position start) ≡ true)
        × (start % 2 ^ 12 ≢ 0)
        × (need ≤ 2 + length m.free_pages))

-- A state in which the page of the address is there.
pub record Backed (m t : Memory) (start need : ℕ) : Type 0 where
  pub sound : IsSound t
  pub later : Later m t
  pub live : is_live t (position start) ≡ true
  pub left : need ≤ 2 + length t.free_pages

-- `ensure_page` got the page.
abbrev pub Got : Memory → ℕ → ℕ → Option Bool → Memory → Type 0
Got m start need r t = ((a : Bool) × (r ≡ some a)) × Backed m t start need

backed :
    (start need : ℕ) (m : Memory) (r : Option Bool) (t : Memory)
    → 2 ≤ need
    → need ≤ length m.free_pages
    → Ensured m start r t
    → Got m start need r t
backed start need m none t h k e = absurd (omega (arith, e.3))
backed start need m (some a) t h k e =
    ((a, refl), record { sound = e.0; later = e.1; live = e.2; left = omega (arith, e.3) })

pub ensure_page-Backed :
    (start need : ℕ) (m : Memory)
    → IsSound m
    → start ≢ 0
    → start < 0xfffff000
    → 2 ≤ need
    → Enough m start need
    → Returns (ensure_page start m) (Got m start need)
ensure_page-Backed start need m s n b h (inl k) =
    Returns-map (Ensured m start) (Got m start need) (ensure_page start m)
      (ensure_page-Ensured start m s n b) (λ r t. backed start need m r t h k)
ensure_page-Backed start need m s n b h (inr (l, o, k)) =
    subst (λ (o : Outcome Memory ⊥ (Option Bool)). Returns o (Got m start need))
      (sym (ensure_page_live start m s n l))
      ((false, refl), record { sound = s; later = Later-refl m; live = l; left = k })

-- The pages that a region of bytes is in.
abbrev pub pages_of : ℕ → ℕ → ℕ
pages_of start size = (start % 2 ^ 12 + size + 4095) / 2 ^ 12

abbrev pub AreBytes : List ℕ → Type 0
AreBytes [] = Unit
AreBytes (b ∷ rest) = (b < 2 ^ 8) × AreBytes rest
