-- ===== src/Xous/Services/Dns.antt =====
-- src/xous/services/dns.rs and src/xous/services/panic_to_screen.rs: the services that a program
-- finds by a name. The resolver of the host is a parameter.
use yove.Base.{
  length, ℕ, min, ◌||◌, Option, some, none, List, [], ◌∷◌, ◌++◌, if◌then◌else◌, ◌==◌, leb, u8,
}
use yove.Base.Exec.{Exec, pure, abort, gets, modify, unwrap, ◌>>=◌, ◌>>◌}
use yove.Xous.Services.{LendResult, memory_returned}
use yove.Xous.Services.Buffer.{slice, copy_from, is_utf8, to_le_bytes}

-- `none` is the error.
unfoldable pub name_from_msg : List ℕ → ℕ → Option (List ℕ)
name_from_msg msg valid =
    let valid_bytes = min (length msg) valid in
    if valid_bytes == 0 || leb 256 valid_bytes then none else elim (slice msg 0 valid_bytes) [
      | none ↦ none
      | some bytes ↦ if is_utf8 bytes then some bytes else none
    ]

-- An address of a host, with its octets: 4 or 16.
pub data SocketAddr : Type 0 where
  v4 : List ℕ → SocketAddr
  v6 : List ℕ → SocketAddr

-- What the cursor writes for the addresses.
unfoldable pub entries : List SocketAddr → List ℕ
entries [] = []
entries (v4 octets ∷ rest) = 4 ∷ (octets ++ entries rest)
entries (v6 octets ∷ rest) = 6 ∷ (octets ++ entries rest)

-- The buffer is lent: it is the state. `cursor.next().unwrap()` panics past its end.
unfoldable pub lookup_failed : Exec (List ℕ) ⊥ LendResult
lookup_failed = do
  buf ← gets λ b. b
  first ← unwrap (copy_from 0 (to_le_bytes 4 1) buf)
  second ← unwrap (copy_from 4 (to_le_bytes 4 1) first)
  modify λ _. second
  pure (memory_returned 0 0)

module _ (to_socket_addrs : List ℕ → Option (List SocketAddr)) where
  unfoldable pub lookup : ℕ → Exec (List ℕ) ⊥ LendResult
  lookup valid = do
    buf ← gets λ b. b
    elim (name_from_msg buf valid) [
      | none ↦ lookup_failed
      | some query_string ↦ elim (to_socket_addrs query_string) [
        | none ↦ lookup_failed
        | some addrs ↦ do
          written ← unwrap (copy_from 0 (0 ∷ u8 (length addrs) ∷ entries addrs) buf)
          modify λ _. written
          pure (memory_returned 0 0)
      ]
    ]

  -- `Service::lend_mut` of the resolver
  unfoldable pub lend_mut : ℕ → ℕ → Exec (List ℕ) ⊥ LendResult
  lend_mut opcode valid = if opcode == 6 then lookup valid else abort

-- `PanicToScreen::append_panic_text`, which prints nothing
unfoldable pub append_panic_text : List ℕ → ℕ → Option LendResult
append_panic_text buf valid = elim (slice buf 0 valid) [
  | none ↦ none
  | some bytes ↦ some (memory_returned 0 0)
]

-- `Service::lend` and `Service::lend_mut` of the screen; `none` is a panic.
unfoldable pub lend_to_screen : ℕ → List ℕ → ℕ → Option LendResult
lend_to_screen opcode buf valid = if opcode == 0 then append_panic_text buf valid else none
