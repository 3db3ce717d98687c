-- ===== src/Gateway/Answers.antt =====
-- The answers of the servers, after any run.
use mathlib.Core.Path.{subst}
use lalune_server.Base.{
  ℕ, ◌+◌, ◌≤◌, ◌≡◌, ap, ◌∙◌, true, false, List, [], ◌∷◌, ◌++◌, Option, none, some, All, length,
  nat_key, Bytes, arith,
}
use lalune_server.Base.Int.{ℤ, pos, int_key, int_beq_iff}
use lalune_server.Base.Maps.{lookup, erase, lookup-erase}
use lalune_server.Registry.{Registry}
use lalune_server.ServerTypes.{ServerTypes}
use lalune_server.Gateway.{
  Gateway, Forwarded, ServerPacket, neg, get_attached_data, server_recv_finish_handler, reply_to,
  get_session_by_id, new_gateway, disconnected_handler,
}
use lalune_server.Gateway.Numbers.{IsAnswerable, IsRouted, Reaches}
use lalune_server.Gateway.Runs.{Event, run, run-Reaches, start-Bounded}

-- The handler looks under the number itself, where the table has its negative.
disconnected_handler-erase :
    (session k : ℕ) (s : Gateway)
    → lookup session s.attached ≡ some (pos k)
    → 1 ≤ k
    → disconnected_handler session s ≡ record s { user2session = erase (pos k) s.user2session }
unfolding disconnected_handler get_attached_data
disconnected_handler-erase session k s at h = ground (arith, at, h)

still_there :
    (session k : ℕ) (m : List (ℤ × ℕ))
    → 1 ≤ k
    → lookup (neg k) m ≡ some session
    → lookup (neg k) (erase (pos k) m) ≡ some session
still_there session k m h at =
    ground (arith, lookup-erase (pos k) (neg k) m, int_beq_iff (pos k) (neg k), at, h)

module _ (t : ServerTypes) (span : ℕ) where
  -- An answer to the number `o`.
  abbrev pub answer_to : ℕ → ℕ → Bytes → ServerPacket
  answer_to o msg_type body = record {
    too_short = false;
    header_parses = true;
    uid = none;
    operation_id = some o;
    msg_type = msg_type;
    body = body;
  }

  -- The answer goes to the session that the packet came from, and to nobody else.
  abbrev pub Answered : Gateway → Forwarded → Type 0
  Answered s f =
      (o msg_type : ℕ) (body : Bytes)
      → f.operation_id ≡ some o
      → server_recv_finish_handler (answer_to o msg_type body) s ≡ record s {
        replies =
            s.replies ++ record { to_session = f.session; msg_type = msg_type; body = body } ∷ [];
      }

  answerable-Answered :
      (s : Gateway) (f : Forwarded) (n : ℕ)
      → n ≤ 2147483648
      → IsAnswerable s.user2session n f
      → Answered s f
  unfolding server_recv_finish_handler reply_to get_session_by_id
  answerable-Answered s f n h a o msg_type body e =
      let (o_pos, below, at) = a o e in ground (arith, at, o_pos, below, h)

  All-Answered :
      (s : Gateway) (n : ℕ) (l : List Forwarded)
      → n ≤ 2147483648
      → All (IsAnswerable s.user2session n) l
      → All (Answered s) l
  All-Answered s n [] h a = tt
  All-Answered s n (f ∷ l) h (af, a) = (answerable-Answered s f n h af, All-Answered s n l h a)

  -- What `n` events lead to: the numbers, of which there are 2 ^ 31 - 1, are used up, or every packet
  -- that was forwarded with the number of an operation is answered.
  abbrev pub AllAnswered : ℕ → Option Gateway → Type 0
  AllAnswered n none = 2147483647 ≤ n
  AllAnswered n (some s) = All (Answered s) s.forwarded

  -- After any events, for each packet that was ever forwarded with the number of an operation, an
  -- answer with this number goes to the session that the packet came from, and changes nothing else;
  -- unless the counter of numbers has passed the largest int, which is undefined and takes 2 ^ 31 - 1
  -- events at least.
  pub run-Answered :
      (registry : Registry) (es : List Event)
      → AllAnswered (length es) (run t span es (new_gateway registry))
  run-Answered registry es =
      by_run (run t span es (new_gateway registry))
        (run-Reaches t span es 1 (new_gateway registry) (start-Bounded t span registry))
    where
      by_run : (o : Option Gateway) → Reaches (1 + length es) o → AllAnswered (length es) o
      by_run none used_up = omega (arith, used_up)
      by_run (some s) (r, le) =
          All-Answered s s.available_tmp_ids.next_id s.forwarded (omega (arith, r.next_int)) r.asked

  -- After any events, as long as the counter of numbers has not passed the largest int, the handler of
  -- a disconnection, were it called, would leave a session that has a number in the table under this
  -- number, and would not give the number back.
  pub disconnected_handler-kept :
      (registry : Registry) (es : List Event) (s : Gateway) (session : ℕ) (d : ℤ)
      → run t span es (new_gateway registry) ≡ some s
      → lookup session s.attached ≡ some d
      → (k : ℕ) × (d ≡ pos k)
        × (lookup (neg k) (disconnected_handler session s).user2session ≡ some session)
        × ((disconnected_handler session s).available_tmp_ids ≡ s.available_tmp_ids)
  disconnected_handler-kept registry es s session d e at =
      kept_in
        (subst (Reaches (1 + length es)) e
          (run-Reaches t span es 1 (new_gateway registry) (start-Bounded t span registry))).0
    where
      kept_in :
          IsRouted s
          → (k : ℕ) × (d ≡ pos k)
            × (lookup (neg k) (disconnected_handler session s).user2session ≡ some session)
            × ((disconnected_handler session s).available_tmp_ids ≡ s.available_tmp_ids)
      kept_in r =
          let (k, e, k_pos, below, there) = r.known session d at in
          let x = disconnected_handler-erase session k s (at ∙ ap (λ (y : ℤ). some y) e) k_pos in
          (
            k,
            e,
            ap (λ (g : Gateway). lookup (neg k) g.user2session) x
                ∙ still_there session k s.user2session k_pos there,
            ap (λ (g : Gateway). g.available_tmp_ids) x,
          )
