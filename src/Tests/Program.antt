-- ===== src/Tests/Program.antt =====
-- The theorems on lookups of names, on the block of arguments and on the loader (src/xous/services/name.rs,
-- src/xous.rs) at concrete states.
use yove.Base.{
  false, ltb, ◌&&◌, length, ◌<◌, ℕ, ◌^◌, ◌≡◌, refl, Bool, true, Option, some, none, List, [], ◌∷◌,
  arith,
}
use yove.Base.{inr, ◌≢◌, ap}
use yove.Base.Exec.{ok}
use yove.Base.Exec.Returns.{Returns}
use yove.Xous.{Memory, memory_base}
use yove.Xous.Pages.{new}
use yove.Xous.Services.{wait_for_memory}
use yove.Xous.Services.Buffer.{codes, slice, is_utf8, to_le_bytes}
use yove.Xous.Services.Name.{panic_to_screen, asked_name}
use yove.Xous.Instances.{Running, look_up, run_pending}
use yove.Xous.Instances.Lookup.{Settled, look_up-again}
use yove.Xous.Program.{Section, Elf, create_params, arg_data, pairs, texts, text}
use yove.Xous.Program.Params.Reader.{read_params}
use yove.Xous.Program.Params.Separator.{Passed}
use yove.Xous.Program.Params.{read_params-create_params}
use yove.Xous.Ticktimer
use yove.Xous.Ticktimer.{Ticktimer, unlock_mutex}
use yove.Tests.Xous.{small}

-- A kernel with one name service, and a lookup of the service for panics.
abbrev running : Running
running = record {
  memory = small;
  connections = λ _. none;
  connection_index = 1;
  named_connections_index = [];
  world = record {
    now = 0;
    created = 1;
    ticktimers = λ _. Ticktimer.new 0;
    names = λ _. ([], []);
    channels = 0;
    pending = [];
    answers = λ _. none;
    console = record { stdout = []; stderr = [] };
  };
}

abbrev screen_name : List ℕ
screen_name = codes "panic-to-screen!"

asked_screen : asked_name screen_name 16 ≡ some screen_name
unfolding asked_name slice is_utf8
asked_screen = refl

look_up-again_example : Returns (look_up 0 screen_name 16 running) (λ r t.
    (r ≡ (wait_for_memory 0, screen_name))
    × Returns (run_pending t) (λ _ u. Settled 0 16 screen_name panic_to_screen 0 1 u))
look_up-again_example =
    look_up-again 0 16 screen_name screen_name panic_to_screen running asked_screen refl refl refl

-- One variable, and one argument after the separator.
abbrev variables : List (List ℕ × List ℕ)
variables = (codes "HOME", codes "/") ∷ []

abbrev given : List (List ℕ)
given = codes "target" ∷ codes "--" ∷ codes "-v" ∷ []

abbrev kept : List (List ℕ)
kept = codes "-v" ∷ []

after_the_separator : Passed given kept
after_the_separator = inr (codes "target" ∷ [], (not_separator, tt), refl)
  where
    target_length : length (codes "target") ≢ length (codes "--")
    target_length h = omega (arith, h)

    not_separator : codes "target" ≢ codes "--"
    not_separator e = target_length (ap length e)

little : length (create_params variables given) < 2 ^ 32
unfolding create_params to_le_bytes pairs texts text arg_data
little = omega arith

read_params-create_params_example :
    read_params (create_params variables given) ≡ ok (variables, kept) []
read_params-create_params_example =
    read_params-create_params variables given kept after_the_separator little (omega arith)
      (omega arith) (omega arith, omega arith, tt) (omega arith, tt)

-- A file of four bytes: a section of two of them, one that is empty in the file, and one that is not
-- loaded. The parser knows only this file.
abbrev image : List ℕ
image = 1 ∷ 2 ∷ 3 ∷ 4 ∷ []

abbrev code : Section
code = record {
  name = none;
  sh_flags = 2;
  sh_type = 1;
  sh_addr = 0x20000;
  sh_offset = 1;
  sh_size = 2;
}

abbrev zeroed : Section
zeroed = record {
  name = none;
  sh_flags = 2;
  sh_type = 8;
  sh_addr = 0x30000;
  sh_offset = 0;
  sh_size = 16;
}

abbrev notes : Section
notes = record { name = none; sh_flags = 0; sh_type = 1; sh_addr = 0; sh_offset = 0; sh_size = 100 }

abbrev elf : Elf
elf = record { is_64 = false; entry = 0x20000; section_headers = code ∷ zeroed ∷ notes ∷ [] }

abbrev parse : List ℕ → Option Elf
parse program = some elf

abbrev roomy : Memory
roomy = new memory_base 0x60000

abbrev no_arguments : List ℕ
no_arguments = create_params [] []

abbrev are_bytes : List ℕ → Bool
are_bytes [] = true
are_bytes (b ∷ rest) = ltb b (2 ^ 8) && are_bytes rest
