-- ===== src/Xous/Program/Reserve.antt =====
-- Pages that the loader only reserves: those of empty sections and of the stack (src/xous.rs,
-- load_program).
use yove.Base.{
  length, ℕ, zero, suc, ◌+◌, ◌*◌, ◌^◌, ◌<◌, ◌≤◌, ◌≡◌, ◌≢◌, inl, refl, subst, ap, sym, ◌∙◌, Bool,
  true, Option, some, List, ◌∷◌, arith,
}
use yove.Base.Exec.{Outcome, ok, pure, ◌>>=◌}
use yove.Base.Exec.Returns.{Returns, Returns-map}
use yove.Xous.{Memory}
use yove.Xous.Pages.{ensure_page, pages_from}
use yove.Xous.Pages.Sound.{IsSound}
use yove.Xous.Pages.Starts.{all_mapped}
use yove.Xous.Pages.Allocate.{still_mapped}
use yove.Xous.Pages.Later.{Later, Later-refl, Later-trans}
use yove.Xous.Pages.Ensure.Page.{returned}
use yove.Xous.Syscalls.Fill.{step-Enough, remaining}
use yove.Xous.Syscalls.Backed.{Enough, Got, ensure_page-Backed, pages_of}
use yove.Xous.Program.{ensure_bytes, ensure_stack}

ensure_bytes_step :
    (start n : ℕ) (m t : Memory) (a : Bool)
    → start < 2 ^ 32
    → ensure_page start m ≡ ok (some a) t
    → ensure_bytes start (suc n) m ≡ ensure_bytes (start + 1) n t
unfolding ensure_bytes ◌>>=◌
ensure_bytes_step start n m t a h e = ground (arith, e)

-- What is there stays, and some pages are left.
pub record Reserved (m t : Memory) (spare : ℕ) : Type 0 where
  pub sound : IsSound t
  pub later : Later m t
  pub left : spare ≤ length t.free_pages

pub ensure_bytes-Reserved :
    (n start spare : ℕ) (m : Memory)
    → IsSound m
    → start ≢ 0
    → start + n ≤ 0xfffff000
    → Enough m start (2 * pages_of start n + spare)
    → Returns (ensure_bytes start n m) (λ r t. Reserved m t spare)
unfolding ensure_bytes pure
ensure_bytes-Reserved zero start spare m s n h k = record {
  sound = s;
  later = Later-refl m;
  left = remaining start spare m k;
}
ensure_bytes-Reserved (suc count) start spare m s n h k =
    let need = 2 * pages_of start (suc count) + spare in
    let r =
      returned (Got m start need) (ensure_page start m)
        (ensure_page-Backed start need m s n (omega arith) (omega arith) k) in
    let t = r.1 in
    let b = r.3.1 in
    let a = r.3.0.0 in
    let e = r.2 ∙ ap (λ (x : Option Bool). ok x t) r.3.0.1 in
    let next : start + 1 ≡ suc start = omega arith in
    let f =
      ensure_bytes_step start count m t a (omega arith) e
      ∙ ap (λ (x : ℕ). ensure_bytes x count t) next in
    subst (λ (o : Outcome Memory ⊥ (Unit {0})). Returns o (λ r u. Reserved m u spare)) (sym f)
      (Returns-map (λ r u. Reserved t u spare) (λ r u. Reserved m u spare)
        (ensure_bytes (suc start) count t)
        (ensure_bytes-Reserved count (suc start) spare t b.sound (omega arith) (omega arith)
          (step-Enough start need spare count t b.live b.left refl))
        (λ r u g. record {
          sound = g.sound;
          later = Later-trans m t u b.later g.later;
          left = g.left;
        }))

ensure_stack_step :
    (page : ℕ) (rest : List ℕ) (m t : Memory) (a : Bool)
    → ensure_page page m ≡ ok (some a) t
    → ensure_stack (page ∷ rest) m ≡ ensure_stack rest t
unfolding ensure_stack ◌>>=◌
ensure_stack_step page rest m t a e = ground (arith, e)

-- The pages of the stack are there.
abbrev pub Stacked : Memory → Memory → List ℕ → ℕ → Type 0
Stacked m t pages spare = Reserved m t spare × (all_mapped t pages ≡ true)

-- The pages of a list, two free ones for each.
pub ensure_stack-Stacked :
    (n start spare : ℕ) (m : Memory)
    → IsSound m
    → start ≢ 0
    → start + n * 4096 ≤ 0xfffff000
    → 2 * n + spare ≤ length m.free_pages
    → Returns (ensure_stack (pages_from start n) m) (λ r t. Stacked m t (pages_from start n) spare)
unfolding ensure_stack pages_from pure
ensure_stack-Stacked zero start spare m s n h k =
    (record { sound = s; later = Later-refl m; left = omega arith }, refl)
ensure_stack-Stacked (suc count) start spare m s n h k =
    let need = 2 * suc count + spare in
    let r =
      returned (Got m start need) (ensure_page start m)
        (ensure_page-Backed start need m s n (omega arith) (omega arith) (inl k)) in
    let t = r.1 in
    let b = r.3.1 in
    let pages = pages_from (start + 4096) count in
    let e = r.2 ∙ ap (λ (x : Option Bool). ok x t) r.3.0.1 in
    subst
      (λ (o : Outcome Memory ⊥ (Unit {0})). Returns o (λ r u. Stacked m u (start ∷ pages) spare))
      (sym (ensure_stack_step start pages m t r.3.0.0 e))
      (Returns-map (λ r u. Stacked t u pages spare) (λ r u. Stacked m u (start ∷ pages) spare)
        (ensure_stack pages t)
        (ensure_stack-Stacked count (start + 4096) spare t b.sound (omega arith) (omega arith)
          (omega (arith, b.left)))
        (λ r u g. (
          record {
            sound = g.0.sound;
            later = Later-trans m t u b.later g.0.later;
            left = g.0.left;
          },
          (let w = still_mapped t u start b.sound g.0.sound g.0.later b.live in
              ground (arith, w, g.1)),
        )))
