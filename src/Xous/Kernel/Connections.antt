-- ===== src/Xous/Kernel/Connections.antt =====
-- The connections that `connect` makes (src/xous/syscalls.rs).
use yove.Base.{
  ℕ, ◌≡◌, ◌⊎◌, inl, inr, refl, subst, sym, ap, Bool, Option, some, none, List, ◌∷◌, if◌then◌else◌,
  update, wrapping_add, arith,
}
use yove.Base.Exec.{Outcome, ok, ◌>>=◌}
use yove.Base.Exec.Returns.{Returns}
use yove.Bus.{SyscallResult}
use yove.Xous.Results
use yove.Xous.Services.{Service, ServiceName, get_service, same_words_refl}
use yove.Xous.Syscalls.{answer}
use yove.Xous.Kernel.{Kernel, connection_of, connect}

known_or_new : (o : Option ℕ) → ((c : ℕ) × (o ≡ some c)) ⊎ (o ≡ none)
known_or_new none = inr refl
known_or_new (some c) = inl (c, refl)

module _ {S W : Type 0} (services : Service S (Kernel S W)) where
  known :
      (id : List ℕ) (c : ℕ) (k : Kernel S W)
      → connection_of id k.named_connections_index ≡ some c
      → connect services id k ≡ ok (answer Results.connection_id c 0) k
  unfolding connect ◌>>=◌
  known id c k h = ground (arith, h)

  abbrev connected : List ℕ → S → Kernel S W → Kernel S W
  connected id service k = record k {
    connection_index = wrapping_add k.connection_index 1;
    connections = update k.connections k.connection_index (some service);
    named_connections_index = (id, k.connection_index) ∷ k.named_connections_index;
  }

  unknown :
      (id : List ℕ) (found : ServiceName) (service : S) (k u : Kernel S W)
      → connection_of id k.named_connections_index ≡ none
      → get_service id ≡ some found
      → services.create found k ≡ ok service u
      → connect services id k
        ≡ ok (answer Results.connection_id u.connection_index 0) (connected id service u)
  unfolding connect ◌>>=◌
  unknown id found service k u h g e = ground (arith, h, g, e)

  -- For a name that stands for a service that can be created, `connect` returns, and a second call
  -- with the same name returns the same connection and changes nothing.
  pub connect-again :
      (id : List ℕ) (found : ServiceName) (service : S) (k u : Kernel S W)
      → get_service id ≡ some found
      → services.create found k ≡ ok service u
      → Returns (connect services id k) (λ r t. connect services id t ≡ ok r t)
  connect-again id found service k u g e =
      elim (known_or_new (connection_of id k.named_connections_index)) [
        | inl (c, h) ↦
            subst
              (λ (o : Outcome (Kernel S W) ℕ SyscallResult).
                Returns o (λ r t. connect services id t ≡ ok r t))
              (sym (known id c k h)) (known id c k h)
        | inr h ↦
            let first : connection_of id (connected id service u).named_connections_index
                ≡ some u.connection_index =
              ap
                (λ (b : Bool).
                  if b then some u.connection_index else connection_of id u.named_connections_index)
                (same_words_refl id) in
            subst
              (λ (o : Outcome (Kernel S W) ℕ SyscallResult).
                Returns o (λ r t. connect services id t ≡ ok r t))
              (sym (unknown id found service k u h g e))
              (known id u.connection_index (connected id service u) first)
      ]
