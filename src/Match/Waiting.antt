-- ===== src/Match/Waiting.antt =====
-- A user who waits can be found again by the session, and a cancelled session waits no longer.
use mathlib.Core.Option.{some-injective, none-ne-some}
use mathlib.Core.Bool.{true≢false}
use mathlib.Core.Path.{subst}
use lalune_server.Base.{
  ℕ, ◌≡◌, refl, sym, ap, ◌∙◌, ◌⊎◌, inl, inr, ◌≢◌, Bool, true, false, List, [], Option, none, some,
  if◌then◌else◌, ◌==◌, nat_key, bytes_key, pair_key, pair_beq_iff, nat_beq_iff, beq_refl, Bytes,
  Bool-cases, is_empty,
}
use lalune_server.Base.Maps.{
  lookup, insert, erase, emplace, lookup-insert, lookup-erase, emplace-new, emplace-old,
}
use lalune_server.Match.Heroes.{add_force, ForceData, ◌>>=◌}
use lalune_server.Match.{
  AutoMatchServer, MatchKey, WaitingUser, Output, match_request, match_cancel, start_game,
  ask_servers, servers_of, to_both, illegal_request, no_server,
}

-- Each user who waits is in the table of the sessions, under the key that the user waits for.
abbrev pub IsCancellable : AutoMatchServer → Type 0
IsCancellable s =
    (key : MatchKey) (user : WaitingUser)
    → lookup key s.waiting_users ≡ some user
    → lookup user.0 s.session2matchkey ≡ some key

-- After an insertion: an entry is the new one or an old one of another key.
module _ {κ} {V : Type κ} where
  insert-cases :
      (k j : MatchKey) (v w : V) (m : List (MatchKey × V))
      → lookup j (insert k v m) ≡ some w
      → (k ≡ j × v ≡ w) ⊎ ((k == j) ≡ false × lookup j m ≡ some w)
  insert-cases k j v w m h = elim (Bool-cases (k == j)) [
    | inl same ↦ inl (
      (pair_beq_iff k j).0 same,
      some-injective v w (sym (lookup-insert k j v m ∙ rw same refl) ∙ h),
    )
    | inr apart ↦ inr (apart, sym (lookup-insert k j v m ∙ rw apart refl) ∙ h)
  ]

  erase-cases :
      (k j : MatchKey) (w : V) (m : List (MatchKey × V))
      → lookup j (erase k m) ≡ some w
      → (k == j) ≡ false × lookup j m ≡ some w
  erase-cases k j w m h = elim (Bool-cases (k == j)) [
    | inl same ↦ absurd (none-ne-some w (sym (lookup-erase k j m ∙ rw same refl) ∙ h))
    | inr apart ↦ (apart, sym (lookup-erase k j m ∙ rw apart refl) ∙ h)
  ]

apart-names : (k j : MatchKey) → (k == j) ≡ false → k ≢ j
apart-names k j h e = true≢false (sym ((pair_beq_iff k j).1 e) ∙ h)

start_game-keeps :
    (connected : ℕ → Bool) (id : Bytes) (rolls₀ rolls₁ : List ℕ) (region : ℕ) (a b : WaitingUser)
    (s s' : AutoMatchServer) (out : List Output)
    → start_game connected id rolls₀ rolls₁ region a b s ≡ some (s', out)
    → (s'.waiting_users ≡ s.waiting_users) × (s'.session2matchkey ≡ s.session2matchkey)
unfolding start_game
start_game-keeps connected id rolls₀ rolls₁ region a b s s' out h =
    by_first (add_force rolls₀ a.1 []) h
  where
    finish : List ForceData → AutoMatchServer × List Output
    finish init =
        let (games', sent) = ask_servers connected id init a.0 b.0 (servers_of s region) s.games in
        (record s { games = games' }, if is_empty sent then to_both a.0 b.0 no_server else sent)

    by_second :
        (o : Option (List ForceData))
        → (o >>= λ init. some (finish init)) ≡ some (s', out)
        → (s'.waiting_users ≡ s.waiting_users) × (s'.session2matchkey ≡ s.session2matchkey)
    by_second none e = absurd (none-ne-some _ e)
    by_second (some init) e =
        let eq : finish init ≡ (s', out) = some-injective (finish init) (s', out) e in
        (ap (λ p. p.0.waiting_users) (sym eq), ap (λ p. p.0.session2matchkey) (sym eq))

    by_first :
        (o : Option (List ForceData))
        → (o >>= λ one. add_force rolls₁ b.1 one >>= λ init. some (finish init)) ≡ some (s', out)
        → (s'.waiting_users ≡ s.waiting_users) × (s'.session2matchkey ≡ s.session2matchkey)
    by_first none e = absurd (none-ne-some _ e)
    by_first (some one) e = by_second (add_force rolls₁ b.1 one) e

-- The tables after a user has begun to wait.
begin_to_wait :
    (session : ℕ) (key : MatchKey) (user : Bytes) (s : AutoMatchServer)
    → IsCancellable s
    → (lookup session s.session2matchkey ≡ none) ⊎ (lookup session s.session2matchkey ≡ some key)
    → (j : MatchKey) (w : WaitingUser)
    → lookup j (insert key (session, user) s.waiting_users) ≡ some w
    → lookup w.0 (emplace session key s.session2matchkey) ≡ some j
begin_to_wait session key user s good (inl new) j w h =
    elim (insert-cases key j (session, user) w s.waiting_users h) [
      | inl (is, entry) ↦ rw (emplace-new session key s.session2matchkey new) (
          subst (λ n. lookup n (insert session key s.session2matchkey) ≡ some j)
            (ap (λ p. p.0) entry)
            (lookup-insert session session key s.session2matchkey
              ∙ rw (beq_refl session) (ap some is)))
      | inr (apart, old) ↦ rw (emplace-new session key s.session2matchkey new) (
          lookup-insert session w.0 key s.session2matchkey
          ∙ by_session (session == w.0) refl (good j w old))
    ]
  where
    by_session :
        (b : Bool)
        → (session == w.0) ≡ b
        → lookup w.0 s.session2matchkey ≡ some j
        → (if b then some key else lookup w.0 s.session2matchkey) ≡ some j
    by_session true same there = absurd (
        none-ne-some j (
          sym new
          ∙ ap (λ n. lookup n s.session2matchkey) ((nat_beq_iff session w.0).0 same)
          ∙ there))
    by_session false apart there = there
begin_to_wait session key user s good (inr known) j w h =
    elim (insert-cases key j (session, user) w s.waiting_users h) [
      | inl (is, entry) ↦ rw (emplace-old session key key s.session2matchkey known) (
          subst (λ n. lookup n s.session2matchkey ≡ some j) (ap (λ p. p.0) entry)
            (known ∙ ap some is))
      | inr (apart, old) ↦ rw (emplace-old session key key s.session2matchkey known) (good j w old)
    ]

-- The tables after two users have been paired.
stop_waiting :
    (key : MatchKey) (opponent : WaitingUser) (s : AutoMatchServer)
    → IsCancellable s
    → lookup key s.waiting_users ≡ some opponent
    → (j : MatchKey) (w : WaitingUser) → lookup j (erase key s.waiting_users) ≡ some w
    → lookup w.0 (erase opponent.0 s.session2matchkey) ≡ some j
stop_waiting key opponent s good found j w h =
    let (apart, old) = erase-cases key j w s.waiting_users h in
    lookup-erase opponent.0 w.0 s.session2matchkey
    ∙ by_session (opponent.0 == w.0) refl apart (good j w old)
  where
    by_session :
        (b : Bool)
        → (opponent.0 == w.0) ≡ b
        → (key == j) ≡ false
        → lookup w.0 s.session2matchkey ≡ some j
        → (if b then none else lookup w.0 s.session2matchkey) ≡ some j
    by_session true same apart there = absurd (
        apart-names key j apart (
          some-injective key j (
            sym (good key opponent found)
            ∙ ap (λ n. lookup n s.session2matchkey) ((nat_beq_iff opponent.0 w.0).0 same)
            ∙ there)))
    by_session false other apart there = there

-- A match request keeps every waiting user cancellable, if the session is not yet in the table or
-- asked for the same map before.
pub match_request-IsCancellable :
    (connected : ℕ → Bool) (id : Bytes) (rolls₀ rolls₁ : List ℕ) (session : ℕ)
    (map_name user_id : Bytes) (s s' : AutoMatchServer) (out : List Output)
    → IsCancellable s
    → (lookup session s.session2matchkey ≡ none)
      ⊎ (lookup session s.session2matchkey ≡ some (0, map_name))
    → match_request connected id rolls₀ rolls₁ session map_name user_id s ≡ some (s', out)
    → IsCancellable s'
unfolding match_request
match_request-IsCancellable connected id rolls₀ rolls₁ session map_name user_id s s' out good new
      h =
    by_found (lookup key s.waiting_users) refl h
  where
    key : MatchKey
    key = (0, map_name)

    waits : AutoMatchServer
    waits = record s {
      waiting_users = emplace key (session, user_id) s.waiting_users;
      session2matchkey = emplace session key s.session2matchkey;
    }

    pair : WaitingUser → Option (AutoMatchServer × List Output)
    pair opponent =
        if opponent.1 == user_id
        then some (s, to_both opponent.0 session illegal_request)
        else start_game connected id rolls₀ rolls₁ 0 opponent (session, user_id) s

    done : WaitingUser → AutoMatchServer × List Output → Option (AutoMatchServer × List Output)
    done opponent (s₁, sent) = some (
      record s₁ {
        session2matchkey = erase opponent.0 s₁.session2matchkey;
        waiting_users = erase key s₁.waiting_users;
      },
      sent,
    )

    kept :
        (opponent : WaitingUser) (b : Bool) (s₁ : AutoMatchServer) (sent : List Output)
        → (if b
            then some (s, to_both opponent.0 session illegal_request)
            else start_game connected id rolls₀ rolls₁ 0 opponent (session, user_id) s)
          ≡ some (s₁, sent)
        → (s₁.waiting_users ≡ s.waiting_users) × (s₁.session2matchkey ≡ s.session2matchkey)
    kept opponent true s₁ sent e =
        let eq =
          sym (some-injective (s, to_both opponent.0 session illegal_request) (s₁, sent) e) in
        (ap (λ p. p.0.waiting_users) eq, ap (λ p. p.0.session2matchkey) eq)
    kept opponent false s₁ sent e =
        start_game-keeps connected id rolls₀ rolls₁ 0 opponent (session, user_id) s s₁ sent e

    by_pair :
        (opponent : WaitingUser) (o : Option (AutoMatchServer × List Output))
        → pair opponent ≡ o
        → lookup key s.waiting_users ≡ some opponent
        → (o >>= done opponent) ≡ some (s', out)
        → IsCancellable s'
    by_pair opponent none p found e = absurd (none-ne-some _ e)
    by_pair opponent (some (s₁, sent)) p found e = λ j w there.
        let (waits_same, table_same) = kept opponent (opponent.1 == user_id) s₁ sent p in
        let eq = some-injective _ _ e in
        subst (λ t. lookup w.0 t ≡ some j) (ap (λ p. p.0.session2matchkey) eq)
          (rw table_same (
            stop_waiting key opponent s good found j w (
              ap (λ t. lookup j (erase key t)) (sym waits_same)
              ∙ ap (λ p. lookup j p.0.waiting_users) eq
              ∙ there)))

    by_found :
        (o : Option WaitingUser)
        → lookup key s.waiting_users ≡ o
        → (elim o as (λ _. Option (AutoMatchServer × List Output)) [
          | none ↦ some (waits, [])
          | some opponent ↦ pair opponent >>= done opponent
        ])
          ≡ some (s', out)
        → IsCancellable s'
    by_found none found e = λ j w there.
        let eq : (waits, []) ≡ (s', out) = some-injective (waits, []) (s', out) e in
        subst (λ t. lookup w.0 t ≡ some j) (ap (λ p. p.0.session2matchkey) eq)
          (begin_to_wait session key user_id s good new j w (
            ap (λ t. lookup j t) (sym (emplace-new key (session, user_id) s.waiting_users found))
            ∙ ap (λ p. lookup j p.0.waiting_users) eq
            ∙ there))
    by_found (some opponent) found e = by_pair opponent (pair opponent) refl found e

-- If every waiting user is cancellable, then after a cancellation the others still are, and no user
-- waits with the session.
pub match_cancel_lem :
    (session : ℕ) (s : AutoMatchServer)
    → IsCancellable s
    → IsCancellable (match_cancel session s)
      × ((key : MatchKey) (user : WaitingUser)
          → lookup key (match_cancel session s).waiting_users ≡ some user
          → user.0 ≢ session)
unfolding match_cancel
match_cancel_lem session s good = by_found (lookup session s.session2matchkey) refl
  where
    After : AutoMatchServer → Type 0
    After s' =
        IsCancellable s'
        × ((key : MatchKey) (user : WaitingUser)
            → lookup key s'.waiting_users ≡ some user
            → user.0 ≢ session)

    by_found :
        (o : Option MatchKey)
        → lookup session s.session2matchkey ≡ o
        → After (elim o as (λ _. AutoMatchServer) [
          | none ↦ s
          | some key ↦ record s { waiting_users = erase key s.waiting_users }
        ])
    by_found none h = (
      good,
      λ key user there same.
          none-ne-some key
            (sym h ∙ ap (λ n. lookup n s.session2matchkey) (sym same) ∙ good key user there),
    )
    by_found (some k) h = (
      λ key user there. good key user (erase-cases k key user s.waiting_users there).1,
      λ key user there same.
          let (apart, old) = erase-cases k key user s.waiting_users there in
          apart-names k key apart (
            some-injective k key
              (sym h ∙ ap (λ n. lookup n s.session2matchkey) (sym same) ∙ good key user old)),
    )
