-- ===== src/Xous/MemoryFlags.antt =====
-- src/xous/definitions/memoryflags.rs: sets of the flags of a page. A `usize` has 64 bits.
pub mod Sets
use yove.Base.{
  ℕ, ◌+◌, ◌-◌, ◌^◌, ◌%◌, ◌<◌, ◌≡◌, refl, sym, ap, ◌∙◌, Bool, true, false, not, Option, some, none,
  List, [], ◌∷◌, ◌++◌, if◌then◌else◌, ◌==◌, ltb, bit_and, bit_or, bit_xor, bit_and_mask, arith,
}

pub record MemoryFlags : Type 0 where
  pub bits : ℕ

abbrev pub flags_of : ℕ → MemoryFlags
flags_of bits = record { bits = bits }

abbrev pub free : MemoryFlags
free = flags_of 0x00

abbrev pub valid : MemoryFlags
valid = flags_of 0x01

abbrev pub read : MemoryFlags
read = flags_of 0x02

abbrev pub write : MemoryFlags
write = flags_of 0x04

abbrev pub execute : MemoryFlags
execute = flags_of 0x08

abbrev pub usermode : MemoryFlags
usermode = flags_of 0x10

abbrev pub global : MemoryFlags
global = flags_of 0x20

abbrev pub accessed : MemoryFlags
accessed = flags_of 0x40

abbrev pub dirty : MemoryFlags
dirty = flags_of 0x80

abbrev pub from_bits : ℕ → Option MemoryFlags
from_bits raw = if ltb 255 raw then none else some (flags_of raw)

abbrev pub is_empty : MemoryFlags → Bool
is_empty flags = flags.bits == 0

abbrev pub empty : MemoryFlags
empty = flags_of 0

abbrev pub all : MemoryFlags
all = flags_of 255

abbrev pub contains_flags : MemoryFlags → MemoryFlags → Bool
contains_flags flags other = bit_and flags.bits other.bits == other.bits

abbrev pub bitor : MemoryFlags → MemoryFlags → MemoryFlags
bitor flags other = flags_of (bit_or flags.bits other.bits)

abbrev pub bitxor : MemoryFlags → MemoryFlags → MemoryFlags
bitxor flags other = flags_of (bit_xor flags.bits other.bits)

abbrev pub bitand : MemoryFlags → MemoryFlags → MemoryFlags
bitand flags other = flags_of (bit_and flags.bits other.bits)

-- `!` of a `usize`
abbrev pub inverted : ℕ → ℕ
inverted bits = 2 ^ 64 - 1 - bits

abbrev pub sub : MemoryFlags → MemoryFlags → MemoryFlags
sub flags other = flags_of (bit_and flags.bits (inverted other.bits))

abbrev pub not_flags : MemoryFlags → MemoryFlags
not_flags flags = bitand (flags_of (inverted flags.bits)) (flags_of 255)

-- What `Display` writes: the names of flags, and ` | ` between them.
pub data Piece : Type 0 where
  separator : Piece
  name_of : MemoryFlags → Piece

-- One of the tests of `fmt`: what is written, and whether nothing was written before.
abbrev pub write_flag : MemoryFlags → MemoryFlags → List Piece × Bool → List Piece × Bool
write_flag flags flag (pieces, first) =
    if contains_flags flags flag
    then (pieces ++ (if first then name_of flag ∷ [] else separator ∷ name_of flag ∷ []), false)
    else (pieces, first)

abbrev pub fmt : MemoryFlags → List Piece
fmt flags =
    let a = write_flag flags valid (write_flag flags free ([], true)) in
    let b = write_flag flags execute (write_flag flags write (write_flag flags read a)) in
    (write_flag flags dirty
      (write_flag flags accessed (write_flag flags global (write_flag flags usermode b)))).0
