-- ===== src/Xous/Pages/Regions.antt =====
-- src/xous.rs, `allocate_virt_region` and `write_bytes`: regions of virtual memory.
use yove.Base.{
  ℕ, Bool, true, false, Option, some, none, List, [], ◌∷◌, if◌then◌else◌, wrapping_add,
  wrapping_sub,
}
use yove.Base.Exec.{pure, gets, modify, unwrap, ◌>>=◌, ◌>>◌}
use yove.Xous.{Memory, Action, allocation_start, allocation_end}
use yove.Xous.Ram.{write_u8}
use yove.Xous.Pages.{page_range, virt_to_phys, ensure_page, free_virt_page}

abbrev pub all_unmapped : Memory → List ℕ → Bool
all_unmapped m [] = true
all_unmapped m (page ∷ rest) = elim (virt_to_phys m page) [
  | none ↦ all_unmapped m rest
  | some _ ↦ false
]

-- The first start with `size` bytes of unmapped pages behind it.
unfoldable pub find_region : Memory → ℕ → List ℕ → Option ℕ
find_region m size [] = none
find_region m size (start ∷ rest) =
    let later = find_region m size rest in
    if all_unmapped m (page_range start (wrapping_add start size)) then some start else later

-- The pages before the one that could not be had are given back.
unfoldable pub ensure_all : List ℕ → Action (Option ℕ)
ensure_all [] = pure none
ensure_all (page ∷ rest) = do
  ensured ← ensure_page page
  elim ensured [ none ↦ pure (some page) | some _ ↦ ensure_all rest ]

unfoldable pub free_all : List ℕ → Action (Unit {0})
free_all [] = pure tt
free_all (page ∷ rest) = do free_virt_page page; free_all rest

abbrev pub append_pages : List ℕ → List ℕ → List ℕ
append_pages [] ys = ys
append_pages (x ∷ xs) ys = x ∷ append_pages xs ys

unfoldable pub allocate_virt_region : ℕ → Action (Option ℕ)
allocate_virt_region size = do
  previous ← gets λ m. m.allocation_previous
  found ← gets λ m. find_region m size (
      append_pages (page_range previous (wrapping_sub allocation_end size))
        (page_range allocation_start (wrapping_sub previous size)))
  elim found [
    | none ↦ pure none
    | some address ↦ do
      modify λ m. record m { allocation_previous = wrapping_add address size }
      error_mark ← ensure_all (page_range address (wrapping_add address size))
      elim error_mark [
        | none ↦ pure (some address)
        | some page ↦ do free_all (page_range address page); pure none
      ]
  ]

-- The bytes are written one by one, each with its page ensured; out of memory is not looked at
-- here, but the translation after it then panics.
unfoldable pub write_bytes : List ℕ → ℕ → Action (Unit {0})
write_bytes [] start = pure tt
write_bytes (byte ∷ rest) start = do
  ensure_page start
  translated ← gets λ m. virt_to_phys m start
  phys ← unwrap translated
  modify λ m. write_u8 m phys byte
  write_bytes rest (wrapping_add start 1)
