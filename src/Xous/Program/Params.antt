-- ===== src/Xous/Program/Params.antt =====
-- The block of arguments is read as it was written (src/xous.rs, create_params).
pub mod Reader
pub mod Separator
pub mod Written
use yove.Base.{
  length, ℕ, zero, suc, ◌+◌, ◌*◌, ◌/◌, ◌%◌, ◌^◌, ◌<◌, ◌≤◌, ◌≡◌, ◌≢◌, ◌⊎◌, inl, inr, refl, ap, ap₂,
  sym, ◌∙◌, subst, Bool, true, false, List, [], ◌∷◌, ◌++◌, if◌then◌else◌, ◌==◌, ◌&&◌, arith,
}
use yove.Base.Exec.{Outcome, Exec, ok, err, panic, pure, abort, gets, modify, assert, ◌>>=◌, ◌>>◌}
use yove.Xous.Services.{same_words, same_words_refl}
use yove.Xous.Services.Buffer.{codes, to_le_bytes}
use yove.Xous.Program.{
  text, pairs, texts, env_data, env_tag, arg_data, args_size, arg_tag, params_tag, create_params,
}
use yove.Xous.Program.Params.Separator.{Passed, Passed-arg_data}
use yove.Xous.Program.Params.Reader.{
  read_number, read_bytes, read_pairs, read_texts, read_block, whole, inside, read_count, read_size,
  read_env, read_args, read_blocks, read_params,
}
use yove.Xous.Program.Params.Written.{
  Reads, limit, read_number-Reads, read_bytes-Reads, Reads-bind, AreShort, AreShortPairs,
  pure-Reads, read_texts-Reads, read_pairs-Reads, append_nil, Reads-assert, Reads-inside,
}

block : List ℕ → List ℕ → List ℕ
block tag bytes = tag ++ (to_le_bytes 4 (length bytes) ++ bytes)

read_block-Reads :
    (tag bytes : List ℕ)
    → length tag ≡ 4
    → length bytes < limit 4
    → Reads (read_block tag) (block tag bytes) bytes
unfolding read_block block
read_block-Reads tag bytes e h =
    Reads-bind (read_bytes 4) _ tag (to_le_bytes 4 (length bytes) ++ bytes) tag bytes
      (subst (λ (n : ℕ). Reads (read_bytes n) tag tag) e (read_bytes-Reads tag))
      (Reads-assert (same_words tag tag) _ (to_le_bytes 4 (length bytes) ++ bytes) bytes
        (same_words_refl tag)
        (Reads-bind (read_number 4) read_bytes (to_le_bytes 4 (length bytes)) bytes (length bytes)
          bytes (read_number-Reads 4 (length bytes) h) (read_bytes-Reads bytes)))

length_append : (xs ys : List ℕ) → length (xs ++ ys) ≡ length xs + length ys
length_append [] ys = omega arith
length_append (x ∷ xs) ys = omega (arith, length_append xs ys)

length-to_le_bytes : (count x : ℕ) → length (to_le_bytes count x) ≡ count
unfolding to_le_bytes
length-to_le_bytes zero x = refl
length-to_le_bytes (suc count) x = ap suc (length-to_le_bytes count (x / 2 ^ 8))

length-text : (bytes : List ℕ) → length (text bytes) ≡ length bytes + 2
unfolding text
length-text bytes =
    omega (
      arith,
      length_append (to_le_bytes 2 (length bytes)) bytes,
      length-to_le_bytes 2 (length bytes),
    )

length-texts : (entries : List (List ℕ)) → length (texts entries) ≡ args_size entries
unfolding texts
length-texts [] = refl
length-texts (entry ∷ rest) =
    omega (arith, length_append (text entry) (texts rest), length-text entry, length-texts rest)

-- The bytes of the third block.
args_bytes : List (List ℕ) → List ℕ
args_bytes entries = to_le_bytes 2 (length entries) ++ texts entries

arg_tag-block :
    (entries : List (List ℕ)) → arg_tag entries ≡ block (codes "ArgL") (args_bytes entries)
unfolding block args_bytes
arg_tag-block entries =
    let e : length (to_le_bytes 2 (length entries) ++ texts entries) ≡ args_size entries + 2 =
      omega (
        arith,
        length_append (to_le_bytes 2 (length entries)) (texts entries),
        length-to_le_bytes 2 (length entries),
        length-texts entries,
      ) in
    ap
      (λ (n : ℕ).
        codes "ArgL" ++ (to_le_bytes 4 n ++ (to_le_bytes 2 (length entries) ++ texts entries)))
      (sym e)

env_tag-block : (env : List (List ℕ × List ℕ)) → env_tag env ≡ block (codes "EnvB") (env_data env)
unfolding block
env_tag-block env = refl

head_bytes : ℕ → List ℕ
head_bytes total = to_le_bytes 4 total ++ to_le_bytes 4 3

head_block : (size : ℕ) → params_tag size ≡ block (codes "AppP") (head_bytes (size + 16))
unfolding block head_bytes to_le_bytes
head_block size = refl

read_count-Reads : (total : ℕ) → Reads (read_count total) (to_le_bytes 4 3) total
unfolding read_count
read_count-Reads total =
    subst (λ (bytes : List ℕ). Reads (read_count total) bytes total) (append_nil (to_le_bytes 4 3))
      (Reads-bind (read_number 4) (λ count. assert (count == 3) >> pure total) (to_le_bytes 4 3) []
        3 total (read_number-Reads 4 3 (omega arith))
        (Reads-assert (3 == 3) (pure total) [] total (ground arith) (pure-Reads total)))

read_size-Reads : (total : ℕ) → total < limit 4 → Reads read_size (head_bytes total) total
unfolding read_size head_bytes
read_size-Reads total h =
    Reads-bind (read_number 4) read_count (to_le_bytes 4 total) (to_le_bytes 4 3) total total
      (read_number-Reads 4 total h) (read_count-Reads total)

read_env-Reads :
    (env : List (List ℕ × List ℕ))
    → length env < limit 2
    → AreShortPairs env
    → Reads read_env (env_data env) env
unfolding read_env
read_env-Reads env h k =
    Reads-bind (read_number 2) read_pairs (to_le_bytes 2 (length env)) (pairs env) (length env) env
      (read_number-Reads 2 (length env) h) (read_pairs-Reads env k)

read_args-Reads :
    (entries : List (List ℕ))
    → length entries < limit 2
    → AreShort entries
    → Reads read_args (args_bytes entries) entries
unfolding read_args args_bytes
read_args-Reads entries h k =
    Reads-bind (read_number 2) read_texts (to_le_bytes 2 (length entries)) (texts entries)
      (length entries) entries (read_number-Reads 2 (length entries) h) (read_texts-Reads entries k)

length-block : (tag bytes : List ℕ) → length (block tag bytes) ≡ length tag + 4 + length bytes
unfolding block
length-block tag bytes = omega (
  arith,
  length_append tag (to_le_bytes 4 (length bytes) ++ bytes),
  length_append (to_le_bytes 4 (length bytes)) bytes,
  length-to_le_bytes 4 (length bytes),
)

length-head : (n : ℕ) → length (head_bytes n) ≡ 8
unfolding head_bytes to_le_bytes
length-head n = refl

-- Three blocks in a row, with the size of them all in the first.
read_blocks-Reads :
    (size : ℕ) (env : List (List ℕ × List ℕ)) (entries : List (List ℕ))
    → size < limit 4
    → length (env_data env) < limit 4
    → length (args_bytes entries) < limit 4
    → length env < limit 2
    → length entries < limit 2
    → AreShortPairs env
    → AreShort entries
    → Reads
        (read_blocks size)
        (block (codes "AppP") (head_bytes size)
          ++ (block (codes "EnvB") (env_data env)
              ++ (block (codes "ArgL") (args_bytes entries) ++ [])))
        (env, entries)
unfolding read_blocks
read_blocks-Reads size env entries a b c h k f g =
    Reads-bind (read_block (codes "AppP")) _ (block (codes "AppP") (head_bytes size)) _
      (head_bytes size) (env, entries)
      (read_block-Reads (codes "AppP") (head_bytes size) refl (head_small size))
      (Reads-inside read_size (head_bytes size) _ _ size (env, entries) (read_size-Reads size a)
        (Reads-assert (size == size) _ _ (env, entries) (ground arith)
          (Reads-bind (read_block (codes "EnvB")) _ (block (codes "EnvB") (env_data env)) _
            (env_data env) (env, entries) (read_block-Reads (codes "EnvB") (env_data env) refl b)
            (Reads-inside read_env (env_data env) _ _ env (env, entries) (read_env-Reads env h f)
              (Reads-bind (read_block (codes "ArgL")) _ (block (codes "ArgL") (args_bytes entries))
                [] (args_bytes entries) (env, entries)
                (read_block-Reads (codes "ArgL") (args_bytes entries) refl c)
                (Reads-inside read_args (args_bytes entries) _ [] entries (env, entries)
                  (read_args-Reads entries k g) (pure-Reads (env, entries))))))))
  where
    head_small : (n : ℕ) → length (head_bytes n) < limit 4
    head_small n = omega (arith, length-head n)

module _ (env : List (List ℕ × List ℕ)) (our_args : List (List ℕ)) where
  abbrev parts : List ℕ
  parts =
      block (codes "AppP")
        (head_bytes (length (env_tag env) + length (arg_tag (arg_data our_args)) + 16))
      ++ (block (codes "EnvB") (env_data env)
          ++ (block (codes "ArgL") (args_bytes (arg_data our_args)) ++ []))

  create_params-parts : create_params env our_args ≡ parts
  unfolding create_params
  create_params-parts =
      let size = length (env_tag env) + length (arg_tag (arg_data our_args)) in
      ap₂ ◌++◌ (head_block size) (
        ap₂ ◌++◌ (env_tag-block env) (
          arg_tag-block (arg_data our_args)
          ∙ sym (append_nil (block (codes "ArgL") (args_bytes (arg_data our_args))))))

  length-create_params :
      length (create_params env our_args)
      ≡ length (env_tag env) + length (arg_tag (arg_data our_args)) + 16
  unfolding create_params
  length-create_params =
      let size = length (env_tag env) + length (arg_tag (arg_data our_args)) in
      let head : length (params_tag size) ≡ 16 =
        ap length (head_block size)
        ∙ length-block (codes "AppP") (head_bytes (size + 16))
        ∙ omega (arith, length-head (size + 16)) in
      omega (
        arith,
        length_append (params_tag size) (env_tag env ++ arg_tag (arg_data our_args)),
        length_append (env_tag env) (arg_tag (arg_data our_args)),
        head,
      )

-- The reader on what is written, with the arguments that the code keeps.
read_params-arg_data :
    (env : List (List ℕ × List ℕ)) (our_args : List (List ℕ))
    → length (create_params env our_args) < 2 ^ 32
    → length env < 2 ^ 16
    → length (arg_data our_args) < 2 ^ 16
    → AreShortPairs env
    → AreShort (arg_data our_args)
    → read_params (create_params env our_args) ≡ ok (env, arg_data our_args) []
unfolding read_params inside
read_params-arg_data env our_args a h k f g =
    let entries = arg_data our_args in
    let bytes = create_params env our_args in
    let size = length (env_tag env) + length (arg_tag entries) + 16 in
    let l = length-create_params env our_args in
    let b = ap length (env_tag-block env) ∙ length-block (codes "EnvB") (env_data env) in
    let c = ap length (arg_tag-block entries) ∙ length-block (codes "ArgL") (args_bytes entries) in
    let r =
      read_blocks-Reads size env entries (omega (arith, l, a)) (omega (arith, l, a, b))
        (omega (arith, l, a, c)) h k f g [] in
    let p = create_params-parts env our_args ∙ sym (append_nil (parts env our_args)) in
    ap₂ (λ (n : ℕ) (s : List ℕ). whole (read_blocks n s) []) l p ∙ ap (λ o. whole o []) r

-- `passed` are the arguments after the first `--` of `our_args`, or all of them if none is `--`. For an
-- environment and passed arguments that fit in the numbers that stand for them, of 16 bits each,
-- and that make less than 4 GB, the reader finds in what `create_params` writes the environment,
-- the passed arguments, and nothing else: the tags, the sizes of the three blocks, and the size of
-- the whole are right. `our_args` are the arguments of the host without the first.
pub read_params-create_params :
    (env : List (List ℕ × List ℕ)) (our_args passed : List (List ℕ))
    → Passed our_args passed
    → length (create_params env our_args) < 2 ^ 32
    → length env < 2 ^ 16
    → length passed < 2 ^ 16
    → AreShortPairs env
    → AreShort passed
    → read_params (create_params env our_args) ≡ ok (env, passed) []
read_params-create_params env our_args passed p a h k f g =
    let e = Passed-arg_data our_args passed p in
    read_params-arg_data env our_args a h
      (subst (λ (args : List (List ℕ)). length args < 2 ^ 16) (sym e) k) f
      (subst AreShort (sym e) g)
    ∙ ap (λ (args : List (List ℕ)). ok (env, args) []) e
