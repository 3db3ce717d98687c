-- ===== src/Gateway/Runs.antt =====
-- Runs of the gateway.
use mathlib.Core.Option.{none-ne-some}
use lalune_server.Base.{
  ℕ, ◌+◌, ◌/◌, refl, not, ◌||◌, List, [], ◌∷◌, ◌++◌, Option, none, some, length, if_cases, nat_key,
  arith,
}
use lalune_server.Base.Int.{ℤ, int_key}
use lalune_server.Ids.{init}
use lalune_server.Registry.{Registry, ServerInfo, get_clients_info}
use lalune_server.ServerTypes.{ServerTypes}
use lalune_server.Gateway.{
  Gateway, Reply, UserPacket, ServerPacket, addressee, forward, user_recv_finish_handler,
  server_recv_finish_handler, reply_to, get_session_by_id, new_gateway, is_not_forwarded,
}
use lalune_server.Gateway.Numbers.{Bounded, Reaches}
use lalune_server.Gateway.Routes.{forward-Reaches}

-- What can happen: a packet of a user or of a server, or the registry changes.
pub data Event : Type 0 where
  from_user : ℕ → UserPacket → Event
  from_server : ServerPacket → Event
  registry_changed : Registry → Event

module _ (t : ServerTypes) (span : ℕ) where
  abbrev pub step : Event → Gateway → Option Gateway
  step (from_user session p) s = user_recv_finish_handler t span session p s
  step (from_server p) s = some (server_recv_finish_handler p s)
  step (registry_changed registry) s = some (record s { registry = registry })

  abbrev pub run : List Event → Gateway → Option Gateway
  run [] s = some s
  run (e ∷ es) s = elim (step e s) [ none ↦ none | some s' ↦ run es s' ]

  later : (n : ℕ) (s : Gateway) → Bounded n s → Bounded (n + 1) s
  later n s (r, le) = (r, omega arith)

  -- Nothing but the replies and the registry changes.
  same-Bounded :
      (n : ℕ) (registry : Registry) (replies : List Reply) (s : Gateway)
      → Bounded n s
      → Bounded (n + 1) (record s { registry = registry; replies = replies })
  same-Bounded n registry replies s (r, le) = (
    record {
      no_free = r.no_free;
      next_pos = r.next_pos;
      next_int = r.next_int;
      known = r.known;
      asked = r.asked;
    },
    omega arith,
  )

  user-Reaches :
      (n session : ℕ) (p : UserPacket) (s : Gateway)
      → Bounded n s
      → Reaches (n + 1) (user_recv_finish_handler t span session p s)
  unfolding user_recv_finish_handler
  user-Reaches n session p s b =
      if_cases (Reaches (n + 1)) (p.too_short || is_not_forwarded t (p.msg_type / span)) (some s)
        (by_first (get_clients_info (p.msg_type / span) s.registry)) (λ dropped. later n s b)
        (λ goes. by_servers (get_clients_info (p.msg_type / span) s.registry))
    where
      by_first : List (ℕ × ServerInfo) → Option Gateway
      by_first l = elim l [
        | [] ↦ some s
        | (id, info) ∷ rest ↦ forward t (p.msg_type / span) id session p s
      ]

      by_servers : (l : List (ℕ × ServerInfo)) → Reaches (n + 1) (by_first l)
      by_servers [] = later n s b
      by_servers ((id, info) ∷ rest) = forward-Reaches t n (p.msg_type / span) id session p s b

  reply_to-Bounded :
      (n : ℕ) (id : ℤ) (p : ServerPacket) (s : Gateway)
      → Bounded n s
      → Bounded (n + 1) (reply_to id p s)
  unfolding reply_to
  reply_to-Bounded n id p s b =
      elim (get_session_by_id id s)
        as (λ o. Bounded (n + 1) (elim o [
          | none ↦ s
          | some session ↦ record s {
            replies =
                s.replies
                ++ record { to_session = session; msg_type = p.msg_type; body = p.body } ∷ [];
          }
        ])) [
          | none ↦ later n s b
          | some session ↦
              same-Bounded n s.registry
                (s.replies
                  ++ record { to_session = session; msg_type = p.msg_type; body = p.body } ∷ [])
                s b
        ]

  server-Bounded :
      (n : ℕ) (p : ServerPacket) (s : Gateway)
      → Bounded n s
      → Bounded (n + 1) (server_recv_finish_handler p s)
  unfolding server_recv_finish_handler
  server-Bounded n p s b =
      if_cases (Bounded (n + 1)) (p.too_short || not p.header_parses) _ _ (λ dropped. later n s b)
        (λ goes.
          elim (addressee p.uid p.operation_id)
            as (λ o. Bounded (n + 1) (elim o [ none ↦ s | some id ↦ reply_to id p s ])) [
              | none ↦ later n s b
              | some id ↦ reply_to-Bounded n id p s b
            ])

  step-Reaches : (n : ℕ) (e : Event) (s : Gateway) → Bounded n s → Reaches (n + 1) (step e s)
  step-Reaches n (from_user session p) s b = user-Reaches n session p s b
  step-Reaches n (from_server p) s b = server-Bounded n p s b
  step-Reaches n (registry_changed registry) s b = same-Bounded n registry s.replies s b

  pub run-Reaches :
      (es : List Event) (n : ℕ) (s : Gateway) → Bounded n s → Reaches (n + length es) (run es s)
  run-Reaches [] n s b = (b.0, omega (arith, b.1))
  run-Reaches (e ∷ es) n s b =
      by_step (step e s) (step-Reaches n e s b) (λ s' b'. run-Reaches es (n + 1) s' b')
    where
      onwards : Option Gateway → Option Gateway
      onwards o = elim o [ none ↦ none | some s' ↦ run es s' ]

      moved : (o : Option Gateway) → Reaches (n + 1 + length es) o → Reaches (n + length (e ∷ es)) o
      moved none used_up = omega (arith, used_up)
      moved (some s') (r, le) = (r, omega (arith, le))

      by_step :
          (o : Option Gateway)
          → Reaches (n + 1) o
          → ((s' : Gateway) → Bounded (n + 1) s' → Reaches (n + 1 + length es) (run es s'))
          → Reaches (n + length (e ∷ es)) (onwards o)
      by_step none used_up rest = omega (arith, used_up)
      by_step (some s') b' rest = moved (run es s') (rest s' b')

  pub start-Bounded : (registry : Registry) → Bounded 1 (new_gateway registry)
  unfolding new_gateway init
  start-Bounded registry = (
    record {
      no_free = refl;
      next_pos = omega arith;
      next_int = omega arith;
      known = λ session d at. absurd (none-ne-some d at);
      asked = tt;
    },
    omega arith,
  )
