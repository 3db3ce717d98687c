-- ===== src/Gateway/Routes.antt =====
-- A packet that is forwarded can be answered.
use mathlib.Core.Option.{none-ne-some, some-injective}
use lalune_server.Base.{
  ℕ, ◌+◌, ◌≤◌, ◌<◌, ◌≡◌, [], ◌∷◌, ◌++◌, Option, none, some, All-append, if_cases, if◌then◌else◌,
  nat_key, arith,
}
use lalune_server.Base.Int.{ℤ, pos, int_key}
use lalune_server.Base.Maps.{lookup}
use lalune_server.Registry.{Registry, get_client}
use lalune_server.ServerTypes.{ServerTypes}
use lalune_server.Gateway.{
  Gateway, Forwarded, UserPacket, neg, bits_of, is_zero, tmp_id_of, get_attached_data, forward_to,
  forward, is_before_login,
}
use lalune_server.Gateway.Numbers.{IsAnswerable, IsRouted, Bounded, Given, Reaches, tmp_id_of-Given}

-- One packet more for a server.
more-IsRouted :
    (f : Forwarded) (registry : Registry) (s : Gateway)
    → IsAnswerable s.user2session s.available_tmp_ids.next_id f
    → IsRouted s
    → IsRouted (record s { registry = registry; forwarded = s.forwarded ++ f ∷ [] })
more-IsRouted f registry s a r = record {
  no_free = r.no_free;
  next_pos = r.next_pos;
  next_int = r.next_int;
  known = r.known;
  asked =
      All-append (IsAnswerable s.user2session s.available_tmp_ids.next_id) s.forwarded (f ∷ [])
        r.asked (a, tt);
}

forward_to-Bounded :
    (n id : ℕ) (f : Forwarded) (s : Gateway)
    → IsAnswerable s.user2session s.available_tmp_ids.next_id f
    → Bounded n s
    → Bounded n (forward_to id f s)
unfolding forward_to
forward_to-Bounded n id f s a (r, le) =
    elim (get_client id s.registry).1
      as (λ o. Bounded n (elim o [
        | none ↦ record s { registry = (get_client id s.registry).0 }
        | some c ↦ record s {
          registry = (get_client id s.registry).0;
          forwarded = s.forwarded ++ f ∷ [];
        }
      ])) [
        | none ↦ (
          record {
            no_free = r.no_free;
            next_pos = r.next_pos;
            next_int = r.next_int;
            known = r.known;
            asked = r.asked;
          },
          le,
        )
        | some c ↦ (more-IsRouted f (get_client id s.registry).0 s a r, le)
      ]

answer :
    (session : ℕ) (d : ℤ) (s : Gateway) (k : ℕ)
    → d ≡ pos k
    → 1 ≤ k
    → k < s.available_tmp_ids.next_id
    → lookup (neg k) s.user2session ≡ some session
    → (o : ℕ) → bits_of d ≡ o
    → (1 ≤ o) × (o < s.available_tmp_ids.next_id) × (lookup (neg o) s.user2session ≡ some session)
answer session d s k e k_pos below at o e' = ground (arith, e, e', k_pos, below, at)

pub forward-Reaches :
    (t : ServerTypes) (n ty id session : ℕ) (p : UserPacket) (s : Gateway)
    → Bounded n s
    → Reaches (n + 1) (forward t ty id session p s)
unfolding forward
forward-Reaches t n ty id session p s b =
    if_cases (Reaches (n + 1)) (is_before_login t ty) (sent (tmp_id_of session s)) (some user_sent)
      (λ before. sent-Reaches (tmp_id_of session s) (tmp_id_of-Given n session s b))
      (λ later.
        if_cases (Bounded (n + 1)) (is_zero (get_attached_data session s)) s
          (forward_to id (of_user (get_attached_data session s)) s)
          (λ zero_at. (b.0, omega (arith, b.1)))
          (λ has.
            forward_to-Bounded (n + 1) id (of_user (get_attached_data session s)) s
              (λ o e'. absurd (none-ne-some o e')) (b.0, omega (arith, b.1))))
  where
    of_user : ℤ → Forwarded
    of_user d = record {
      session = session;
      server_id = id;
      uid = some d;
      operation_id = none;
      msg_type = p.msg_type;
      body = p.body;
    }

    of_operation : ℤ → Forwarded
    of_operation d = record {
      session = session;
      server_id = id;
      uid = none;
      operation_id = some (bits_of d);
      msg_type = p.msg_type;
      body = p.body;
    }

    user_sent : Gateway
    user_sent =
        if is_zero (get_attached_data session s)
        then s
        else forward_to id (of_user (get_attached_data session s)) s

    sent : Option (ℤ × Gateway) → Option Gateway
    sent o = elim o [
      | none ↦ none
      | some (tmp_id, s') ↦ some (forward_to id (of_operation tmp_id) s')
    ]

    sent-Reaches : (o : Option (ℤ × Gateway)) → Given session (n + 1) o → Reaches (n + 1) (sent o)
    sent-Reaches none used_up = used_up
    sent-Reaches (some (d, s')) (b', (k, e, k_pos, below, at)) =
        forward_to-Bounded (n + 1) id (of_operation d) s'
          (λ o e'. answer session d s' k e k_pos below at o (some-injective (bits_of d) o e')) b'
