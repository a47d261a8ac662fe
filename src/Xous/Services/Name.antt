-- ===== src/Xous/Services/Name.antt =====
-- src/xous/services/name.rs: the service that registers names and finds services by them. The buffer
-- that it is lent is an argument, and comes back with the answer.
use yove.Base.{
  length, ℕ, ◌+◌, ◌-◌, ◌*◌, ◌^◌, ◌%◌, Bool, true, false, min, Option, some, none, List, [], ◌∷◌,
  ◌++◌, if◌then◌else◌, ◌==◌, ltb, bit_xor,
}
use yove.Base.Exec.{Exec, pure, gets, modify, unwrap, assert, ◌>>=◌, ◌>>◌}
use yove.Xous.Services.{LendResult, memory_returned, same_words}
use yove.Xous.Services.Buffer.{
  codes, slice, copy_from, u32_at, text_or, to_le_bytes, decimal, Console, print_line,
}

-- The maps keep what was put in last first; the handle of an output is the program's.
pub record Name : Type 0 where
  pub connection_index : List (List ℕ × ℕ)
  pub name_map : List (List ℕ × ℕ)
  pub console : Console

abbrev pub new : Console → Name
new console = record { connection_index = []; name_map = []; console = console }

-- `HashMap::get`
abbrev pub get : List ℕ → List (List ℕ × ℕ) → Option ℕ
get key [] = none
get key ((other, value) ∷ rest) = if same_words key other then some value else get key rest

-- A `u128`, whose shift drops what leaves it.
unfoldable pub djb2_from : ℕ → List ℕ → ℕ
djb2_from hash [] = hash
djb2_from hash (c ∷ rest) = djb2_from (bit_xor ((hash * 2 ^ 5 % 2 ^ 128 + hash) % 2 ^ 128) c) rest

abbrev pub djb2_hash : List ℕ → ℕ
djb2_hash path = djb2_from 5381 path

-- `x as usize` of an `i32`
abbrev pub sign_extended : ℕ → ℕ
sign_extended x = if ltb x (2 ^ 31) then x else x + 2 ^ 64 - 2 ^ 32

-- The slice that a registration names: an offset from its header, and a length.
unfoldable pub name_slice : List ℕ → ℕ → Option (List ℕ)
name_slice buf name_header = elim (u32_at buf name_header) [
  | none ↦ none
  | some name_offset ↦ elim (u32_at buf (name_header + 4)) [
    | none ↦ none
    | some name_length ↦
        let start = (name_header + sign_extended name_offset) % 2 ^ 64 in
        slice buf start ((start + name_length) % 2 ^ 64)
  ]
]

abbrev limit_text : Option ℕ → List ℕ
limit_text none = codes "an unlimited number of connections"
limit_text (some limit) =
    codes "a maximum of "
    ++ (decimal limit
        ++ (codes " " ++ (if limit == 1 then codes "connection" else codes "connections")))

-- The limit of the connections that the header has; the outer `none` is a panic.
unfoldable pub conn_limit : List ℕ → ℕ → Option (Option ℕ)
conn_limit buf rkyv_header = elim (u32_at buf rkyv_header) [
  | none ↦ none
  | some is_some ↦
      if is_some == 0
      then some none
      else elim (u32_at buf (rkyv_header + 4)) [ none ↦ none | some limit ↦ some (some limit) ]
]

abbrev pub is_none : Option ℕ → Bool
is_none none = true
is_none (some value) = false

-- The answer that is made by hand: the number 2, and the hash.
unfoldable pub registered : ℕ → List ℕ → Option (List ℕ)
registered hash buf = elim (copy_from 0 (to_le_bytes 4 2) buf) [
  | none ↦ none
  | some tagged ↦ copy_from 4 (to_le_bytes 16 hash) tagged
]

unfoldable pub register_name : List ℕ → ℕ → Exec Name ⊥ (LendResult × List ℕ)
register_name buf rkyv_header = do
  limit ← unwrap (conn_limit buf rkyv_header)
  name_bytes ← unwrap (name_slice buf (rkyv_header + 8))
  let server_name = text_or (codes "<invalid>") name_bytes
  let hash = djb2_hash server_name
  modify λ n. record n {
    console =
        print_line
          (codes "Program is registering service \""
            ++ (server_name ++ (codes "\" with " ++ limit_text limit)))
          n.console;
  }
  answered ← unwrap (registered hash buf)
  previous ← gets λ n. get server_name n.name_map
  modify λ n. record n { name_map = (server_name, hash) ∷ n.name_map }
  assert (is_none previous)
  pure (memory_returned 0 0, answered)

-- The services that are found by a name.
pub data NamedService : Type 0 where
  panic_to_screen : NamedService
  dns_resolver : NamedService

abbrev pub named_service : List ℕ → Option NamedService
named_service name =
    if same_words name (codes "panic-to-screen!")
    then some panic_to_screen
    else if same_words name (codes "_DNS Resolver Middleware_")
    then some dns_resolver
    else none

-- The name that a lookup asks for; `none` is a panic.
unfoldable pub asked_name : List ℕ → ℕ → Option (List ℕ)
asked_name buf valid = elim (slice buf 0 (min (length buf) valid)) [
  | none ↦ none
  | some bytes ↦ some (text_or (codes "<invalid>") bytes)
]

-- The answer of a lookup: the number 0, and the connection.
unfoldable pub connected : ℕ → List ℕ → Option (List ℕ)
connected connection buf = elim (copy_from 0 (to_le_bytes 4 0) buf) [
  | none ↦ none
  | some tagged ↦ copy_from 4 (to_le_bytes 4 connection) tagged
]
