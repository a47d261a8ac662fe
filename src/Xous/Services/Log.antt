-- ===== src/Xous/Services/Log.antt =====
-- src/xous/services/log.rs: the service that prints what a program logs.
use yove.Base.{ℕ, ◌+◌, ◌-◌, ◌&&◌, Option, some, none, List, [], ◌∷◌, ◌++◌, if◌then◌else◌, ◌==◌, leb}
use yove.Base.Exec.{Exec, pure, abort, modify, unwrap, ◌>>=◌, ◌>>◌}
use yove.Xous.Services.{LendResult, memory_returned}
use yove.Xous.Services.Buffer.{
  codes, slice, u32_at, text_or, decimal, hex_array, to_le_bytes, Console, print, print_line,
  print_error,
}

-- `str_from_log_record`; `none` is a panic.
unfoldable pub str_from_log_record : List ℕ → ℕ → Option (List ℕ)
str_from_log_record buf offset = elim (u32_at buf offset) [
  | none ↦ none
  | some length ↦ elim (slice buf (offset + 4) (offset + 4 + length)) [
    | none ↦ none
    | some bytes ↦ some (text_or (codes "<invalid utf-8>") bytes)
  ]
]

abbrev pub level_name : ℕ → List ℕ
level_name level =
    if level == 1
    then codes "ERR "
    else if level == 2
    then codes "WARN"
    else if level == 3
    then codes "INFO"
    else if level == 4
    then codes "DBG "
    else if level == 5
    then codes "TRCE"
    else codes "UNKNOWN"

unfoldable pub log_record : List ℕ → Exec Console ⊥ LendResult
log_record buf = do
  filename ← unwrap (str_from_log_record buf 0)
  line_num ← unwrap (u32_at buf 132)
  module_name ← unwrap (str_from_log_record buf 136)
  args ← unwrap (str_from_log_record buf 272)
  level ← unwrap (u32_at buf 268)
  modify (
      print_line (
        level_name level
        ++ (codes ":"
            ++ (module_name
                ++ (codes " "
                    ++ (args
                        ++ (codes " ("
                            ++ (filename ++ (codes ":" ++ (decimal line_num ++ codes ")"))))))))))
  pure (memory_returned 0 0)

-- The bytes of the arguments, one after the other.
abbrev pub output_bfr : List ℕ → List ℕ
output_bfr [] = []
output_bfr (x ∷ rest) = to_le_bytes 4 x ++ output_bfr rest

-- `Service::scalar`; `args` has four words.
unfoldable pub scalar : ℕ → ℕ → List ℕ → Exec Console ⊥ (Unit {0})
scalar sender opcode args =
    if opcode == 1000
    then modify (print_line (codes "Panic started"))
    else if opcode == 1200
    then (do modify (print_line []); modify (print_line (codes "Panic finished")))
    else if leb 1100 opcode && leb opcode 1132
    then (do
      message ← unwrap (slice (output_bfr args) 0 (opcode - 1100))
      modify (print_error (text_or (codes "<invalid>") message)))
    else modify (
        print_line (
          codes "Log scalar "
          ++ (decimal sender ++ (codes ": " ++ (decimal opcode ++ (codes " " ++ hex_array args))))))

-- `Service::lend`, with the second of the two extra words
unfoldable pub lend : ℕ → List ℕ → ℕ → Exec Console ⊥ LendResult
lend opcode buf valid =
    if opcode == 0
    then log_record buf
    else if opcode == 1
    then (do
      print_buffer ← unwrap (slice buf 0 valid)
      modify (print print_buffer)
      pure (memory_returned 0 0))
    else if opcode == 2
    then (do
      print_buffer ← unwrap (slice buf 0 valid)
      modify (print_error print_buffer)
      pure (memory_returned 0 0))
    else abort
