-- ===== src/Cpu/Table/Order.antt =====
-- The order of the instruction table does not matter: no word fits two entries
-- (crates/riscv-cpu/src/cpu/instructions.rs and the search in cpu.rs).
use yove.Base.{
  ℕ, zero, suc, ◌≡◌, ◌↔◌, refl, sym, ap, ◌∙◌, Bool, true, not, ◌&&◌, some, List, [], ◌∷◌, map, ◌==◌,
  bit_and, bit_and_comm, bit_and_assoc, arith,
}
use yove.Bus.{Memory}
use yove.Cpu.Table.{Pattern, first_match, get_instructions, decode_and_get_instruction_index}

-- The entry fits the word.
abbrev pub Fits : Pattern → ℕ → Type 0
Fits p word = bit_and word p.mask ≡ p.data_bits

-- Two patterns that no word fits together: they differ on a bit that both masks have.
abbrev apart : Pattern → Pattern → Bool
apart p q = not (bit_and p.data_bits q.mask == bit_and q.data_bits p.mask)

abbrev all_apart : Pattern → List Pattern → Bool
all_apart p [] = true
all_apart p (q ∷ rest) = apart p q && all_apart p rest

abbrev pairwise : List Pattern → Bool
pairwise [] = true
pairwise (p ∷ rest) = all_apart p rest && pairwise rest

apart-Fits : (p q : Pattern) (word : ℕ) → apart p q ≡ true → Fits p word → ¬ Fits q word
apart-Fits p q word h a b = ground (arith, common)
  where
    common : bit_and p.data_bits q.mask ≡ bit_and q.data_bits p.mask
    common =
        ap (λ d. bit_and d q.mask) (sym a)
        ∙ bit_and_assoc word p.mask q.mask
        ∙ ap (bit_and word) (bit_and_comm p.mask q.mask)
        ∙ sym (bit_and_assoc word q.mask p.mask)
        ∙ ap (λ d. bit_and d p.mask) b

-- The entry at an index fits the word.
abbrev pub FitsAt : List Pattern → ℕ → ℕ → Type 0
FitsAt [] i word = ⊥
FitsAt (p ∷ rest) zero word = Fits p word
FitsAt (p ∷ rest) (suc i) word = FitsAt rest i word

all_apart-FitsAt :
    (p : Pattern) (rest : List Pattern) (i word : ℕ)
    → all_apart p rest ≡ true
    → Fits p word
    → ¬ FitsAt rest i word
all_apart-FitsAt p [] i word h a b = elim b [ ]
all_apart-FitsAt p (q ∷ rest) zero word h a b = apart-Fits p q word (ground arith) a b
all_apart-FitsAt p (q ∷ rest) (suc i) word h a b = all_apart-FitsAt p rest i word (ground arith) a b

first_match-FitsAt :
    (ps : List Pattern) (word i : ℕ) → first_match ps word ≡ some i → FitsAt ps i word
unfolding first_match
first_match-FitsAt [] word i e = cc
first_match-FitsAt (p ∷ rest) word zero e = ground arith
first_match-FitsAt (p ∷ rest) word (suc i) e = first_match-FitsAt rest word i (ground arith)

FitsAt-first_match :
    (ps : List Pattern) (word i : ℕ)
    → pairwise ps ≡ true
    → FitsAt ps i word
    → first_match ps word ≡ some i
unfolding first_match
FitsAt-first_match [] word i h f = elim f [ ]
FitsAt-first_match (p ∷ rest) word zero h f = ground arith
FitsAt-first_match (p ∷ rest) word (suc i) h f = grind (
  arith,
  FitsAt-first_match rest word i (ground arith) f,
  all_apart-FitsAt p rest i word (ground arith),
)

abbrev pub patterns : {M : Type 0} → Memory M → List Pattern
patterns bus = map (λ e. e.pattern_bits) (get_instructions bus)

patterns_apart : {M : Type 0} (bus : Memory M) → pairwise (patterns bus) ≡ true
unfolding get_instructions
patterns_apart bus = refl

-- The search finds the entry at an index exactly if that entry fits the word: the order of the
-- table decides nothing, since no word fits two entries.
pub decode_and_get_instruction_index_iff :
    {M : Type 0} (bus : Memory M) (word i : ℕ)
    → (decode_and_get_instruction_index bus word ≡ some i) ↔ FitsAt (patterns bus) i word
unfolding decode_and_get_instruction_index
decode_and_get_instruction_index_iff bus word i = (
  first_match-FitsAt (patterns bus) word i,
  FitsAt-first_match (patterns bus) word i (patterns_apart bus),
)
