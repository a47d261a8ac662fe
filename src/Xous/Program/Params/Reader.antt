-- ===== src/Xous/Program/Params/Reader.antt =====
-- A reader of the block of arguments (src/xous.rs, create_params), as the program finds it on its
-- stack: three tagged blocks, of which the second has the environment and the third the arguments.
use yove.Base.{length, ℕ, zero, suc, ◌+◌, ◌*◌, ◌^◌, List, [], ◌∷◌, ◌==◌}
use yove.Base.Exec.{Outcome, Exec, ok, err, panic, pure, assert, ◌>>=◌, ◌>>◌}
use yove.Xous.Services.{same_words}
use yove.Xous.Services.Buffer.{codes}

abbrev pub Reader : Type 0 → Type 0
Reader A = Exec (List ℕ) ⊥ A

unfoldable pub next : Reader ℕ
next [] = panic
next (b ∷ rest) = ok b rest

unfoldable pub read_number : ℕ → Reader ℕ
read_number zero = pure 0
read_number (suc count) = do b ← next; x ← read_number count; pure (b + 2 ^ 8 * x)

unfoldable pub read_bytes : ℕ → Reader (List ℕ)
read_bytes zero = pure []
read_bytes (suc n) = do b ← next; bytes ← read_bytes n; pure (b ∷ bytes)

unfoldable pub read_text : Reader (List ℕ)
read_text = do n ← read_number 2; read_bytes n

unfoldable pub read_pairs : ℕ → Reader (List (List ℕ × List ℕ))
read_pairs zero = pure []
read_pairs (suc n) = do
  key ← read_text
  value ← read_text
  rest ← read_pairs n
  pure ((key, value) ∷ rest)

unfoldable pub read_texts : ℕ → Reader (List (List ℕ))
read_texts zero = pure []
read_texts (suc n) = do entry ← read_text; rest ← read_texts n; pure (entry ∷ rest)

-- A block of its tag, and what a reader makes of all of its bytes.
unfoldable pub read_block : List ℕ → Reader (List ℕ)
read_block tag = do
  found ← read_bytes 4
  assert (same_words found tag)
  size ← read_number 4
  read_bytes size

abbrev pub whole : {A : Type 0} → Outcome (List ℕ) ⊥ A → Reader A
whole (ok a []) s = ok a s
whole (ok a (b ∷ rest)) s = panic
whole (err e rest) s = panic
whole panic s = panic

unfoldable pub inside : {A : Type 0} → Reader A → List ℕ → Reader A
inside r bytes = whole (r bytes)

unfoldable pub read_count : ℕ → Reader ℕ
read_count total = do count ← read_number 4; assert (count == 3); pure total

unfoldable pub read_size : Reader ℕ
read_size = do total ← read_number 4; read_count total

unfoldable pub read_env : Reader (List (List ℕ × List ℕ))
read_env = do count ← read_number 2; read_pairs count

unfoldable pub read_args : Reader (List (List ℕ))
read_args = do count ← read_number 2; read_texts count

unfoldable pub read_blocks : ℕ → Reader (List (List ℕ × List ℕ) × List (List ℕ))
read_blocks size = do
  head ← read_block (codes "AppP")
  total ← inside read_size head
  assert (total == size)
  env_bytes ← read_block (codes "EnvB")
  env ← inside read_env env_bytes
  args_bytes ← read_block (codes "ArgL")
  args ← inside read_args args_bytes
  pure (env, args)

-- All of the block of arguments, whose size stands in its head.
unfoldable pub read_params : List ℕ → Outcome (List ℕ) ⊥ (List (List ℕ × List ℕ) × List (List ℕ))
read_params bytes = inside (read_blocks (length bytes)) bytes []
