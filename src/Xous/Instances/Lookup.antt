-- ===== src/Xous/Instances/Lookup.antt =====
-- Lookups of names (src/xous/services/name.rs, `lend_mut`), with the thread that finishes each.
use yove.Base.{
  length, ℕ, zero, suc, ◌+◌, ◌≤◌, ◌≡◌, refl, ap, sym, ◌∙◌, subst, true, min, Option, some, none,
  List, [], ◌∷◌, ◌++◌, update, update_self, wrapping_add, arith,
}
use yove.Base.Exec.{Outcome, ok, ◌>>=◌}
use yove.Base.Exec.Returns.{Returns}
use yove.Xous.Results
use yove.Xous.Services.{LendResult, memory_returned, wait_for_memory, same_words, same_words_refl}
use yove.Xous.Services.Buffer.{
  codes, slice, copy_from, taken, dropped, to_le_bytes, decimal, print_line,
}
use yove.Xous.Services.Name.{NamedService, get, named_service, asked_name, connected}
use yove.Xous.Instances.{
  named, Pending, Running, in_world, channel, zeros, look_up, answer_lookup, start_connecting,
  connect_pending, run_pending,
}

-- The answer of a lookup: four bytes of 0, the connection, and the rest of the buffer.
abbrev pub answer_of : ℕ → List ℕ → List ℕ
answer_of connection buf = to_le_bytes 4 0 ++ (to_le_bytes 4 connection ++ dropped 8 buf)

pub connected_lem :
    (c : ℕ) (buf : List ℕ) → 8 ≤ length buf → connected c buf ≡ some (answer_of c buf)
unfolding connected copy_from to_le_bytes
connected_lem c [] h = absurd (omega arith)
connected_lem c (_ ∷ []) h = absurd (omega arith)
connected_lem c (_ ∷ _ ∷ []) h = absurd (omega arith)
connected_lem c (_ ∷ _ ∷ _ ∷ []) h = absurd (omega arith)
connected_lem c (_ ∷ _ ∷ _ ∷ _ ∷ []) h = absurd (omega arith)
connected_lem c (_ ∷ _ ∷ _ ∷ _ ∷ _ ∷ []) h = absurd (omega arith)
connected_lem c (_ ∷ _ ∷ _ ∷ _ ∷ _ ∷ _ ∷ []) h = absurd (omega arith)
connected_lem c (_ ∷ _ ∷ _ ∷ _ ∷ _ ∷ _ ∷ _ ∷ []) h = absurd (omega arith)
connected_lem c (_ ∷ _ ∷ _ ∷ _ ∷ _ ∷ _ ∷ _ ∷ _ ∷ rest) h = ground arith

same_words-length : (xs ys : List ℕ) → same_words xs ys ≡ true → length xs ≡ length ys
same_words-length [] [] h = refl
same_words-length [] (y ∷ ys) h = ground arith
same_words-length (x ∷ xs) [] h = ground arith
same_words-length (x ∷ xs) (y ∷ ys) h = ap suc (same_words-length xs ys (ground arith))

taken-length : (n : ℕ) (xs : List ℕ) → length (taken n xs) ≤ length xs
taken-length zero xs = omega arith
taken-length (suc n) [] = omega arith
taken-length (suc n) (x ∷ xs) = omega (arith, taken-length n xs)

-- The names of the services are long.
named-length : (name : List ℕ) (s : NamedService) → named_service name ≡ some s → 16 ≤ length name
named-length name s e = ground (
  arith,
  same_words-length name (codes "panic-to-screen!"),
  same_words-length name (codes "_DNS Resolver Middleware_"),
)

zeros-length : (n : ℕ) → length (zeros n) ≡ n
unfolding zeros
zeros-length zero = refl
zeros-length (suc n) = ap suc (zeros-length n)

asked-length :
    (buf name : List ℕ) (valid : ℕ)
    → asked_name buf valid ≡ some name
    → 16 ≤ length name
    → 8 ≤ length buf
unfolding asked_name slice
asked-length buf name valid e h = ground (arith, taken-length (min (length buf) valid) buf)

-- The states after a lookup of a new name, after its thread, and after a lookup of a known name.
abbrev waiting : ℕ → List ℕ → ℕ → NamedService → Running → Pending
waiting server name size service k = record {
  server = server;
  channel = k.world.channels;
  connection = k.connection_index;
  service = service;
  name = name;
  buffer_length = size;
}

abbrev started : Pending → Running → Running
started p k = record k {
  connection_index = wrapping_add k.connection_index 1;
  world = record k.world { channels = k.world.channels + 1; pending = k.world.pending ++ (p ∷ []) };
}

abbrev pub response : ℕ → ℕ → List ℕ × Option (List ℕ)
response connection size = (
  Results.result_number Results.memory_returned ∷ 0 ∷ 0 ∷ 0 ∷ 0 ∷ 0 ∷ 0 ∷ 0 ∷ [],
  some (answer_of connection (zeros size)),
)

abbrev finished : Pending → List Pending → Running → Running
finished p rest k = record k {
  connections = update k.connections p.connection (some (named p.service));
  world = record k.world {
    pending = rest;
    names =
        update k.world.names p.server
          ((p.name, p.connection) ∷ (k.world.names p.server).0, (k.world.names p.server).1);
    answers = update k.world.answers p.channel (some (response p.connection p.buffer_length));
  };
}

abbrev found : ℕ → Running → Running
found connection k =
    in_world
      (λ w. record w {
        console =
            print_line (codes "Existing server found at connection index " ++ decimal connection)
              w.console;
      })
      k

module _ (server valid : ℕ) (buf name : List ℕ) (k : Running)
    (asked : asked_name buf valid ≡ some name) where
  look_up_step :
      look_up server buf valid k
      ≡ answer_lookup server buf name (get name (k.world.names server).0) k
  unfolding look_up ◌>>=◌
  look_up_step = rw (asked) refl

  look_up_new :
      (service : NamedService)
      → named_service name ≡ some service
      → get name (k.world.names server).0 ≡ none
      → look_up server buf valid k
        ≡ ok
            (wait_for_memory k.world.channels, buf)
            (started (waiting server name (length buf) service k) k)
  unfolding answer_lookup start_connecting channel ◌>>=◌
  look_up_new service h g =
      look_up_step
      ∙ ap (λ (o : Option ℕ). answer_lookup server buf name o k) g
      ∙ (let u : answer_lookup server buf name none k
              ≡ ok (wait_for_memory k.world.channels, buf)
                  (started (waiting server name (length buf) service k) k) =
            rw (answer_lookup, h) refl in
          u)

  look_up_known :
      (connection : ℕ)
      → get name (k.world.names server).0 ≡ some connection
      → 8 ≤ length buf
      → look_up server buf valid k
        ≡ ok (memory_returned 0 0, answer_of connection buf) (found connection k)
  unfolding answer_lookup ◌>>=◌
  look_up_known connection g h =
      look_up_step
      ∙ ap (λ (o : Option ℕ). answer_lookup server buf name o k) g
      ∙ (let u : answer_lookup server buf name (some connection) k
              ≡ ok (memory_returned 0 0, answer_of connection buf) (found connection k) =
            rw (connected_lem connection buf h) refl in
          u)

run_first :
    (p : Pending) (rest : List Pending) (k : Running)
    → k.world.pending ≡ p ∷ rest
    → 8 ≤ p.buffer_length
    → run_pending k ≡ ok tt (finished p rest k)
unfolding run_pending connect_pending ◌>>=◌
run_first p rest k e h =
    let f =
      connected_lem p.connection (zeros p.buffer_length)
        (omega (arith, zeros-length p.buffer_length, h)) in
    ground (arith, e, f)

-- The first lookup has its answer, and a lookup after it gives the same connection and makes none.
abbrev pub Settled : ℕ → ℕ → List ℕ → NamedService → ℕ → ℕ → Running → Type 0
Settled server valid buf service channel connection u =
    (u.connections connection ≡ some (named service))
    × (u.world.answers channel ≡ some (response connection (length buf)))
    × Returns (look_up server buf valid u) (λ r v.
      (r ≡ (memory_returned 0 0, answer_of connection buf))
      × (v.connections ≡ u.connections)
      × (v.connection_index ≡ u.connection_index)
      × (v.world.pending ≡ u.world.pending))

-- A lookup of the name of a service that has no connection yet, with no other one under way, returns
-- at once with a channel to wait on and the buffer as it was. The thread that it leaves then
-- returns too: the service has the connection that was free, the channel has got a buffer with its
-- number, and the same lookup again gives that number and makes no other connection.
pub look_up-again :
    (server valid : ℕ) (buf name : List ℕ) (service : NamedService) (k : Running)
    → asked_name buf valid ≡ some name
    → named_service name ≡ some service
    → get name (k.world.names server).0 ≡ none
    → k.world.pending ≡ []
    → Returns (look_up server buf valid k) (λ r t.
      (r ≡ (wait_for_memory k.world.channels, buf))
      × Returns
          (run_pending t)
          (λ _ u. Settled server valid buf service k.world.channels k.connection_index u))
look_up-again server valid buf name service k asked h g e =
    let size : 8 ≤ length buf = asked-length buf name valid asked (named-length name service h) in
    let p = waiting server name (length buf) service k in
    let t = started p k in
    let u = finished p [] t in
    let again : get name (u.world.names server).0 ≡ some k.connection_index =
      ground (arith, same_words_refl name) in
    subst
      (λ (o : Outcome Running ℕ (LendResult × List ℕ)). Returns o (λ r t.
        (r ≡ (wait_for_memory k.world.channels, buf))
        × Returns (run_pending t)
            (λ _ u. Settled server valid buf service k.world.channels k.connection_index u)))
      (sym (look_up_new server valid buf name k asked service h g))
      (
        refl,
        subst
            (λ (o : Outcome Running ℕ (Unit {0})).
              Returns o
                (λ _ u. Settled server valid buf service k.world.channels k.connection_index u))
            (sym (run_first p [] t (ap (λ (x : List Pending). x ++ (p ∷ [])) e) size))
            (
              update_self k.connections k.connection_index (some (named service)),
              update_self k.world.answers k.world.channels
                  (some (response k.connection_index (length buf))),
              subst
                  (λ (o : Outcome Running ℕ (LendResult × List ℕ)). Returns o (λ r v.
                    (r ≡ (memory_returned 0 0, answer_of k.connection_index buf))
                    × (v.connections ≡ u.connections)
                    × (v.connection_index ≡ u.connection_index)
                    × (v.world.pending ≡ u.world.pending)))
                  (sym (look_up_known server valid buf name u asked k.connection_index again size))
                  (refl, refl, refl, refl),
            ),
      )
