-- ===== src/Gateway/Numbers.antt =====
-- The numbers that the gateway gives out, and the sessions that they lead to.
use mathlib.Core.Path.{subst}
use lalune_server.Base.{
  ℕ, ◌+◌, ◌≤◌, ◌<◌, ◌≡◌, ◌≢◌, refl, sym, ◌∙◌, false, List, [], ◌∷◌, Option, none, some, All,
  if_cases, ◌==◌, nat_key, nat_beq_iff, Bool-cases, inl, inr, arith,
}
use lalune_server.Base.Int.{ℤ, pos, int_key, int_beq_iff}
use lalune_server.Base.Maps.{lookup, insert, lookup-insert}
use lalune_server.Ids.{Ids, get_id}
use lalune_server.Gateway.{
  Gateway, Forwarded, neg, is_zero, tmp_id_of, get_tmp_user_id, get_attached_data,
}

-- The number of the operation leads to the session that the packet came from.
abbrev pub IsAnswerable : List (ℤ × ℕ) → ℕ → Forwarded → Type 0
IsAnswerable m next f =
    (o : ℕ) → f.operation_id ≡ some o → (1 ≤ o) × (o < next) × (lookup (neg o) m ≡ some f.session)

-- Each attached number leads to its session, and no number was given back.
pub record IsRouted (s : Gateway) : Type 0 where
  pub no_free : s.available_tmp_ids.available_ids ≡ []
  pub next_pos : 1 ≤ s.available_tmp_ids.next_id
  pub next_int : s.available_tmp_ids.next_id ≤ 2147483647
  pub known :
      (session : ℕ) (d : ℤ)
      → lookup session s.attached ≡ some d
      → (k : ℕ) × (d ≡ pos k)
        × (1 ≤ k)
        × (k < s.available_tmp_ids.next_id)
        × (lookup (neg k) s.user2session ≡ some session)
  pub asked : All (IsAnswerable s.user2session s.available_tmp_ids.next_id) s.forwarded

neg-apart : (a b : ℕ) → 1 ≤ a → a < b → neg b ≢ neg a
neg-apart a b h h' e = ground arith

-- A number more leaves the others' sessions as they are.
widened :
    (next session : ℕ) (m : List (ℤ × ℕ)) (l : List Forwarded)
    → All (IsAnswerable m next) l
    → All (IsAnswerable (insert (neg next) session m) (next + 1)) l
widened next session m [] h = tt
widened next session m (f ∷ l) (hf, h) = (
  λ o e.
      let (pos_o, below, at) = hf o e in
      (
        pos_o,
        omega arith,
        lookup-insert (neg next) (neg o) session m
            ∙ ground (arith, int_beq_iff (neg next) (neg o), neg-apart o next pos_o below, at),
      ),
  widened next session m l h,
)

-- The first number of a session.
given-IsRouted :
    (session : ℕ) (s : Gateway)
    → s.available_tmp_ids.next_id < 2147483647
    → IsRouted s
    → IsRouted (record s {
      available_tmp_ids = record s.available_tmp_ids { next_id = s.available_tmp_ids.next_id + 1 };
      attached = insert session (pos s.available_tmp_ids.next_id) s.attached;
      user2session = insert (neg s.available_tmp_ids.next_id) session s.user2session;
    })
given-IsRouted session s below_max r = record {
  no_free = r.no_free;
  next_pos = omega arith;
  next_int = omega arith;
  known = λ k d at. elim (Bool-cases (session == k)) [
    | inl same ↦ (
      s.available_tmp_ids.next_id,
      ground
          (arith, lookup-insert session k (pos s.available_tmp_ids.next_id) s.attached, same, at),
      r.next_pos,
      omega arith,
      lookup-insert (neg s.available_tmp_ids.next_id) (neg s.available_tmp_ids.next_id) session
            s.user2session
          ∙ ground (
            arith,
            int_beq_iff (neg s.available_tmp_ids.next_id) (neg s.available_tmp_ids.next_id),
            nat_beq_iff session k,
            same,
          ),
    )
    | inr other ↦
        let (o, e, pos_o, below, there) = r.known k d (
          ground (
            arith,
            lookup-insert session k (pos s.available_tmp_ids.next_id) s.attached,
            other,
            at,
          )) in
        (
          o,
          e,
          pos_o,
          omega arith,
          lookup-insert (neg s.available_tmp_ids.next_id) (neg o) session s.user2session
              ∙ ground (
                arith,
                int_beq_iff (neg s.available_tmp_ids.next_id) (neg o),
                neg-apart o s.available_tmp_ids.next_id pos_o below,
                there,
              ),
        )
  ];
  asked = widened s.available_tmp_ids.next_id session s.user2session s.forwarded r.asked;
}

-- Routed, with at most n as the next number.
abbrev pub Bounded : ℕ → Gateway → Type 0
Bounded n s = IsRouted s × (s.available_tmp_ids.next_id ≤ n)

-- The number is the session's.
abbrev pub Leads : ℕ → ℤ → Gateway → Type 0
Leads session d s =
    (k : ℕ) × (d ≡ pos k)
    × (1 ≤ k)
    × (k < s.available_tmp_ids.next_id)
    × (lookup (neg k) s.user2session ≡ some session)

-- A number that was given out, if it could be.
abbrev pub Given : ℕ → ℕ → Option (ℤ × Gateway) → Type 0
Given session n none = 2147483648 ≤ n
Given session n (some r) = Bounded n r.1 × Leads session r.0 r.1

-- Bounded, unless the numbers are used up, which takes as many numbers as there are.
abbrev pub Reaches : ℕ → Option Gateway → Type 0
Reaches n none = 2147483648 ≤ n
Reaches n (some s) = Bounded n s

pub get_attached_data-Leads :
    (session : ℕ) (s : Gateway)
    → IsRouted s
    → is_zero (get_attached_data session s) ≡ false
    → Leads session (get_attached_data session s) s
unfolding get_attached_data
get_attached_data-Leads session s r h = by_data (lookup session s.attached) refl
  where
    by_data :
        (o : Option ℤ)
        → lookup session s.attached ≡ o
        → Leads session (get_attached_data session s) s
    by_data none e = absurd (ground (arith, e))
    by_data (some d) e = rw (get_attached_data, e) (r.known session d e)

get_id-new :
    (ids : Ids)
    → ids.available_ids ≡ []
    → ids.next_id < 2147483647
    → get_tmp_user_id ids ≡ some (ids.next_id, record ids { next_id = ids.next_id + 1 })
unfolding get_id get_tmp_user_id
get_id-new ids e h = ground (arith, e)

get_id-last :
    (ids : Ids) → ids.available_ids ≡ [] → ids.next_id ≡ 2147483647 → get_tmp_user_id ids ≡ none
unfolding get_tmp_user_id
get_id-last ids e h = ground (arith, e)

pub tmp_id_of-Given :
    (n session : ℕ) (s : Gateway) → Bounded n s → Given session (n + 1) (tmp_id_of session s)
unfolding tmp_id_of
tmp_id_of-Given n session s (r, le) =
    if_cases (Given session (n + 1)) (is_zero (get_attached_data session s))
      (taken (get_tmp_user_id s.available_tmp_ids)) (some (get_attached_data session s, s))
      (λ zero_at. elim (Bool-cases (s.available_tmp_ids.next_id == 2147483647)) [
        | inl last ↦
            subst (λ o. Given session (n + 1) (taken o))
              (sym (get_id-last s.available_tmp_ids r.no_free (ground arith))) (ground (arith, le))
        | inr more ↦
            let below : s.available_tmp_ids.next_id < 2147483647 = ground (arith, r.next_int) in
            subst (λ o. Given session (n + 1) (taken o))
              (sym (get_id-new s.available_tmp_ids r.no_free below))
              ((given-IsRouted session s below r, omega (arith, le)), first_number)
      ])
      (λ has. ((r, omega (arith, le)), get_attached_data-Leads session s r has))
  where
    put : ℕ → Ids → ℤ × Gateway
    put id ids = (
      pos id,
      record s {
        available_tmp_ids = ids;
        attached = insert session (pos id) s.attached;
        user2session = insert (neg id) session s.user2session;
      },
    )

    taken : Option (ℕ × Ids) → Option (ℤ × Gateway)
    taken o = elim o [ none ↦ none | some (id, ids) ↦ some (put id ids) ]

    next : ℕ
    next = s.available_tmp_ids.next_id

    first_number :
        Leads session (pos next) (put next (record s.available_tmp_ids { next_id = next + 1 })).1
    first_number = (
      next,
      refl,
      r.next_pos,
      omega arith,
      ground (
        arith,
        lookup-insert (neg next) (neg next) session s.user2session,
        int_beq_iff (neg next) (neg next),
      ),
    )
