-- ===== src/Xous/Services/Buffer.antt =====
-- Slices of the buffers that the services of src/xous/services are lent, and the text in them. A text is
-- its bytes.
use Prim.Native.Char.{code}
use Prim.Native.String.{String}
use yove.Base.{
  length, ℕ, zero, suc, ◌+◌, ◌-◌, ◌/◌, ◌^◌, ◌%◌, Bool, true, false, ◌&&◌, Option, some, none, List,
  [], ◌∷◌, ◌++◌, if◌then◌else◌, ltb, leb,
}
use yove.Xous.Ram.{from_le_bytes}

abbrev pub codes : String → List ℕ
codes String.[] = []
codes (String.◌∷◌ c s) = code c ∷ codes s

abbrev pub taken : ℕ → List ℕ → List ℕ
taken zero xs = []
taken (suc n) [] = []
taken (suc n) (x ∷ xs) = x ∷ taken n xs

abbrev pub dropped : ℕ → List ℕ → List ℕ
dropped zero xs = xs
dropped (suc n) [] = []
dropped (suc n) (x ∷ xs) = dropped n xs

-- `buf[start..stop]`; `none` is its panic.
unfoldable pub slice : List ℕ → ℕ → ℕ → Option (List ℕ)
slice buf start stop =
    if leb start stop && leb stop (length buf)
    then some (taken (stop - start) (dropped start buf))
    else none

-- `buf[at..at + bytes.len()].copy_from_slice(bytes)`
unfoldable pub copy_from : ℕ → List ℕ → List ℕ → Option (List ℕ)
copy_from at bytes buf =
    if leb (at + length bytes) (length buf)
    then some (taken at buf ++ (bytes ++ dropped (at + length bytes) buf))
    else none

-- `to_le_bytes` of a number of `count` bytes
unfoldable pub to_le_bytes : ℕ → ℕ → List ℕ
to_le_bytes zero x = []
to_le_bytes (suc count) x = x % 2 ^ 8 ∷ to_le_bytes count (x / 2 ^ 8)

-- `u32::from_le_bytes(buf[at..at + 4].try_into().unwrap())`
unfoldable pub u32_at : List ℕ → ℕ → Option ℕ
u32_at buf at = elim (slice buf at (at + 4)) [
  | none ↦ none
  | some bytes ↦ some (from_le_bytes bytes)
]

-- The bytes that may follow the first byte of a character, as ranges; `none` if it starts none.
abbrev tail : ℕ × ℕ
tail = (0x80, 0xbf)

abbrev following : ℕ → Option (List (ℕ × ℕ))
following b =
    if leb b 0x7f
    then some []
    else if leb 0xc2 b && leb b 0xdf
    then some (tail ∷ [])
    else if leb b 0xe0 && leb 0xe0 b
    then some ((0xa0, 0xbf) ∷ tail ∷ [])
    else if leb b 0xed && leb 0xed b
    then some ((0x80, 0x9f) ∷ tail ∷ [])
    else if leb 0xe1 b && leb b 0xef
    then some (tail ∷ tail ∷ [])
    else if leb b 0xf0 && leb 0xf0 b
    then some ((0x90, 0xbf) ∷ tail ∷ tail ∷ [])
    else if leb 0xf1 b && leb b 0xf3
    then some (tail ∷ tail ∷ tail ∷ [])
    else if leb b 0xf4 && leb 0xf4 b
    then some ((0x80, 0x8f) ∷ tail ∷ tail ∷ [])
    else none

-- The bytes after a character that wants `pending`.
abbrev is_utf8_after : List (ℕ × ℕ) → List ℕ → Bool
is_utf8_after [] [] = true
is_utf8_after (range ∷ pending) [] = false
is_utf8_after [] (b ∷ rest) = elim (following b) [
  | none ↦ false
  | some pending ↦ is_utf8_after pending rest
]
is_utf8_after ((low, high) ∷ pending) (b ∷ rest) =
    leb low b && leb b high && is_utf8_after pending rest

-- `std::str::from_utf8(bytes).is_ok()`
unfoldable pub is_utf8 : List ℕ → Bool
is_utf8 bytes = is_utf8_after [] bytes

-- `std::str::from_utf8(bytes).unwrap_or(other)`
abbrev pub text_or : List ℕ → List ℕ → List ℕ
text_or other bytes = if is_utf8 bytes then bytes else other

abbrev digit : ℕ → ℕ
digit n = if ltb n 10 then 48 + n else 87 + n

-- The digits of a number below `base ^ count`, without leading zeros, before `rest`.
abbrev digits : ℕ → ℕ → ℕ → List ℕ → List ℕ
digits base zero n rest = digit n ∷ rest
digits base (suc count) n rest =
    let later = digits base count (n / base) (digit (n % base) ∷ rest) in
    if ltb n base then digit n ∷ rest else later

-- `{}` and `{:x}` of a `u32`
unfoldable pub decimal : ℕ → List ℕ
decimal n = digits 10 9 n []

unfoldable pub hex : ℕ → List ℕ
hex n = digits 16 7 n []

abbrev joined : List ℕ → List ℕ
joined [] = []
joined (x ∷ rest) = elim rest [ [] ↦ hex x | y ∷ more ↦ hex x ++ (codes ", " ++ joined rest) ]

-- `{:x?}` of an array of `u32`
unfoldable pub hex_array : List ℕ → List ℕ
hex_array xs = codes "[" ++ (joined xs ++ codes "]")

-- What the program printed, each with what was printed last at the end.
pub record Console : Type 0 where
  pub stdout : List ℕ
  pub stderr : List ℕ

abbrev pub print : List ℕ → Console → Console
print text c = record c { stdout = c.stdout ++ text }

abbrev pub print_line : List ℕ → Console → Console
print_line text c = print (text ++ (10 ∷ [])) c

abbrev pub print_error : List ℕ → Console → Console
print_error text c = record c { stderr = c.stderr ++ text }
