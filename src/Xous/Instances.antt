-- ===== src/Xous/Instances.antt =====
-- The services of src/xous/services as the kernel runs them: what each keeps, the lookups of
-- `Name::lend_mut` that another thread finishes, and the trait `Service` for all of them.
pub mod Lookup
use yove.Base.{
  length, ℕ, zero, suc, ◌+◌, ◌==◌, ◌||◌, Option, some, none, List, [], ◌∷◌, ◌++◌, if◌then◌else◌,
  update, wrapping_add, get_or,
}
use yove.Base.Exec.{
  Outcome, Exec, ok, err, panic, pure, raise, abort, gets, modify, unwrap, ◌>>=◌, ◌>>◌,
}
use yove.Xous.Results
use yove.Xous.Services.{
  Service, ServiceName, ticktimer, log, name, ScalarResult, LendResult, memory_returned,
  wait_for_memory,
}
use yove.Xous.Services.Buffer.{codes, Console, decimal, print_line, print_error, to_le_bytes}
use yove.Xous.Services.Log
use yove.Xous.Services.Dns
use yove.Xous.Services.Dns.{SocketAddr, lend_to_screen}
use yove.Xous.Services.Name
use yove.Xous.Services.Name.{
  Name, NamedService, panic_to_screen, dns_resolver, named_service, asked_name, connected,
  register_name,
}
use yove.Xous.Ticktimer
use yove.Xous.Ticktimer.{Ticktimer}
use yove.Xous.Kernel.{Kernel}

-- A service that was created; the two that keep something are numbered.
pub data Instance : Type 0 where
  ticktimer_at : ℕ → Instance
  log_service : Instance
  name_at : ℕ → Instance
  named : NamedService → Instance

-- A lookup whose thread has not run yet: the name service that it is for, the channel of its
-- answer, the connection, the service, its name, and the length of the buffer.
pub record Pending : Type 0 where
  pub server : ℕ
  pub channel : ℕ
  pub connection : ℕ
  pub service : NamedService
  pub name : List ℕ
  pub buffer_length : ℕ

-- What the services keep. `channels` counts the channels that were made; `answers` is what was
-- sent to each of them.
pub record World : Type 0 where
  pub now : ℕ
  pub created : ℕ
  pub ticktimers : ℕ → Ticktimer
  pub names : ℕ → List (List ℕ × ℕ) × List (List ℕ × ℕ)
  pub channels : ℕ
  pub pending : List Pending
  pub answers : ℕ → Option (List ℕ × Option (List ℕ))
  pub console : Console

abbrev pub Running : Type 0
Running = Kernel Instance World

abbrev pub in_world : (World → World) → Running → Running
in_world f k = record k { world = f k.world }

-- A fresh channel, by its number.
unfoldable pub channel : Exec Running ℕ ℕ
channel = do
  number ← gets λ k. k.world.channels
  modify (in_world λ w. record w { channels = number + 1 })
  pure number

-- A method of the clock with a number, of the console, or of the name service with a number.
unfoldable pub on_ticktimer : {A : Type 0} → ℕ → Exec Ticktimer ⊥ A → Exec Running ℕ A
on_ticktimer at f k = elim (f (k.world.ticktimers at)) [
  | ok a t ↦ ok a (in_world (λ w. record w { ticktimers = update w.ticktimers at t }) k)
  | err e t ↦ panic
  | panic ↦ panic
]

unfoldable pub on_console : {A : Type 0} → Exec Console ⊥ A → Exec Running ℕ A
on_console f k = elim (f k.world.console) [
  | ok a c ↦ ok a (in_world (λ w. record w { console = c }) k)
  | err e c ↦ panic
  | panic ↦ panic
]

abbrev pub name_server : ℕ → World → Name
name_server at w = record {
  connection_index = (w.names at).0;
  name_map = (w.names at).1;
  console = w.console;
}

abbrev pub with_name_server : ℕ → Name → World → World
with_name_server at n w = record w {
  names = update w.names at (n.connection_index, n.name_map);
  console = n.console;
}

unfoldable pub on_name : {A : Type 0} → ℕ → Exec Name ⊥ A → Exec Running ℕ A
on_name at f k = elim (f (name_server at k.world)) [
  | ok a n ↦ ok a (in_world (with_name_server at n) k)
  | err e n ↦ panic
  | panic ↦ panic
]

-- A lookup of a name that no service has ends the process.
unfoldable pub unrecognized : {A : Type 0} → List ℕ → Exec Running ℕ A
unrecognized asked = do
  modify (
      in_world λ w. record w {
        console =
            print_error (codes "Unrecognized service name " ++ (asked ++ (10 ∷ []))) w.console;
      })
  raise 1

-- The lookup of a name that has no connection yet: the rest is left to a new thread.
unfoldable pub start_connecting : ℕ → List ℕ → ℕ → NamedService → Exec Running ℕ LendResult
start_connecting server asked buffer_length service = do
  token ← channel
  connection ← gets λ k. k.connection_index
  modify λ k. record k { connection_index = wrapping_add connection 1 }
  modify (
      in_world λ w. record w {
        pending =
            w.pending
            ++ (record {
              server = server;
              channel = token;
              connection = connection;
              service = service;
              name = asked;
              buffer_length = buffer_length;
            }
                ∷ []);
      })
  pure (wait_for_memory token)

-- A lookup of a name that has a connection, or not.
unfoldable pub answer_lookup : ℕ → List ℕ → List ℕ → Option ℕ → Exec Running ℕ (LendResult × List ℕ)
answer_lookup server buf asked (some connection) = do
  modify (
      in_world λ w. record w {
        console =
            print_line (codes "Existing server found at connection index " ++ decimal connection)
              w.console;
      })
  answered ← unwrap (connected connection buf)
  pure (memory_returned 0 0, answered)
answer_lookup server buf asked none = elim (named_service asked) [
  | none ↦ unrecognized asked
  | some service ↦ do
    waiting ← start_connecting server asked (length buf) service
    pure (waiting, buf)
]

-- `TryConnect` and `BlockingConnect`
unfoldable pub look_up : ℕ → List ℕ → ℕ → Exec Running ℕ (LendResult × List ℕ)
look_up server buf valid = do
  asked ← unwrap (asked_name buf valid)
  existing ← gets λ k. Name.get asked (k.world.names server).0
  answer_lookup server buf asked existing

-- `vec![0u8; length]`
unfoldable pub zeros : ℕ → List ℕ
zeros zero = []
zeros (suc n) = 0 ∷ zeros n

-- The body of the thread that `look_up` leaves.
unfoldable pub connect_pending : Pending → Exec Running ℕ (Unit {0})
connect_pending p = do
  modify λ k. record k { connections = update k.connections p.connection (some (named p.service)) }
  modify (
      in_world λ w. record w {
        names =
            update w.names p.server
              ((p.name, p.connection) ∷ (w.names p.server).0, (w.names p.server).1);
      })
  answered ← unwrap (connected p.connection (zeros p.buffer_length))
  modify (
      in_world λ w. record w {
        answers = update w.answers p.channel (
            some (
              Results.result_number Results.memory_returned ∷ 0 ∷ 0 ∷ 0 ∷ 0 ∷ 0 ∷ 0 ∷ 0 ∷ [],
              some answered,
            ));
      })

-- The next thread that waits runs; nothing happens if there is none.
unfoldable pub run_pending : Exec Running ℕ (Unit {0})
run_pending = do
  waiting ← gets λ k. k.world.pending
  elim waiting [
    | [] ↦ pure tt
    | p ∷ rest ↦ do modify (in_world λ w. record w { pending = rest }); connect_pending p
  ]

-- `Service::lend_mut` of the name service
unfoldable pub lend_mut_name : ℕ → ℕ → List ℕ → List ℕ → Exec Running ℕ (LendResult × List ℕ)
lend_mut_name server opcode buf extra =
    if opcode == 0
    then on_name server (register_name buf (get_or extra 0 0))
    else if opcode == 7 || opcode == 6
    then look_up server buf (get_or extra 1 0)
    else abort

-- `DnsResolver::lend_mut`, whose buffer is its state
unfoldable pub lend_mut_dns :
    (List ℕ → Option (List SocketAddr)) → ℕ → List ℕ → List ℕ → Exec Running ℕ (LendResult × List ℕ)
lend_mut_dns to_socket_addrs opcode buf extra k =
    elim (Dns.lend_mut to_socket_addrs opcode (get_or extra 1 0) buf) [
      | ok r written ↦ ok (r, written) k
      | err e written ↦ panic
      | panic ↦ panic
    ]

-- `PanicToScreen::lend`, and its `lend_mut`, which leaves the buffer as it is
unfoldable pub lend_screen : ℕ → List ℕ → List ℕ → Exec Running ℕ LendResult
lend_screen opcode buf extra = unwrap (lend_to_screen opcode buf (get_or extra 1 0))

unfoldable pub create : ServiceName → Exec Running ℕ Instance
create log = pure log_service
create ticktimer = do
  at ← gets λ k. k.world.created
  modify (
      in_world λ w. record w {
        created = at + 1;
        ticktimers = update w.ticktimers at (Ticktimer.new w.now);
      })
  pure (ticktimer_at at)
create name = do
  at ← gets λ k. k.world.created
  modify (in_world λ w. record w { created = at + 1; names = update w.names at ([], []) })
  pure (name_at at)

-- The sender is always 0. What a service does not have panics, as the methods of the trait do.
unfoldable pub scalar : Instance → ℕ → List ℕ → Exec Running ℕ (Unit {0})
scalar (ticktimer_at at) opcode args = on_ticktimer at (Ticktimer.scalar opcode (get_or args 0 0))
scalar log_service opcode args = on_console (Log.scalar 0 opcode args)
scalar (name_at at) opcode args = abort
scalar (named service) opcode args = abort

unfoldable pub blocking_scalar : Instance → ℕ → List ℕ → Exec Running ℕ ScalarResult
blocking_scalar (ticktimer_at at) opcode args = do
  token ← channel
  now ← gets λ k. k.world.now
  on_ticktimer at (Ticktimer.blocking_scalar now token opcode (get_or args 0 0) (get_or args 1 0))
blocking_scalar log_service opcode args = abort
blocking_scalar (name_at at) opcode args = abort
blocking_scalar (named service) opcode args = abort

unfoldable pub lend : Instance → ℕ → List ℕ → List ℕ → Exec Running ℕ LendResult
lend (ticktimer_at at) opcode buf extra = abort
lend log_service opcode buf extra = on_console (Log.lend opcode buf (get_or extra 1 0))
lend (name_at at) opcode buf extra = abort
lend (named panic_to_screen) opcode buf extra = lend_screen opcode buf extra
lend (named dns_resolver) opcode buf extra = abort

module _ (to_socket_addrs : List ℕ → Option (List SocketAddr)) where
  unfoldable pub lend_mut : Instance → ℕ → List ℕ → List ℕ → Exec Running ℕ (LendResult × List ℕ)
  lend_mut (ticktimer_at at) opcode buf extra = abort
  lend_mut log_service opcode buf extra = abort
  lend_mut (name_at at) opcode buf extra = lend_mut_name at opcode buf extra
  lend_mut (named panic_to_screen) opcode buf extra = do
    lent ← lend_screen opcode buf extra
    pure (lent, buf)
  lend_mut (named dns_resolver) opcode buf extra = lend_mut_dns to_socket_addrs opcode buf extra

  -- No service takes a message that is sent.
  abbrev pub instances : Service Instance Running
  instances = record {
    create = create;
    scalar = scalar;
    blocking_scalar = blocking_scalar;
    lend = lend;
    lend_mut = lend_mut;
    send = λ s opcode buf extra. abort;
  }
