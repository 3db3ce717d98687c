-- ===== src/Pvp/Terminals.antt =====
-- Terminals that join a game, and new games, keep the links.
use lalune_server.Base.{
  ℕ, ◌+◌, ◌≤◌, ◌≡◌, refl, sym, ◌∙◌, ap, Bool, true, false, List, [], ◌∷◌, ◌++◌, Option, none, some,
  arith, Bool-cases, inl, inr, ◌==◌, nat_key, bytes_key, Bytes, elem, count, count-append,
  count-zero_of_elem, elem-append, ◌||◌, bytes_beq_iff,
}
use mathlib.Core.Option.{none-ne-some}
use mathlib.Core.Bool.{true≢false}
use lalune_server.Base.Maps.{lookup, insert}
use lalune_server.Match.Heroes.{ForceData}
use lalune_server.Terminal.{PvpTerminal}
use lalune_server.Pvp.Linked.{IsLinked, put_game-IsLinked, put_same-IsLinked, game_of-put}
use lalune_server.Pvp.{
  PvpServer, PvpGameServer, put_terminal, put_game, game_of, add_game, add_terminal_to, enter_game,
  lock, fill_game, handle_create_game_request, new_game,
}

or-false : (b : Bool) → b ≡ (b || (false || false))
or-false true = refl
or-false false = refl

-- A terminal that points to no game that is alive stands in no list.
pub enter_game-IsLinked :
    (endpoint : Bytes) (t : PvpTerminal) (place : ℕ) (s : PvpServer)
    → t.game_server ≡ game_of endpoint s
    → lock t.game_server s ≡ none
    → IsLinked s
    → IsLinked (enter_game endpoint t place s)
unfolding enter_game add_terminal_to
enter_game-IsLinked endpoint t place s same free linked = by_found (lookup place s.memory) refl
  where
    t' : PvpTerminal
    t' = record t { game_server = some place }

    s' : PvpServer
    s' = put_terminal endpoint t' s

    nowhere :
        (other : ℕ) (g : PvpGameServer)
        → lookup other s.memory ≡ some g
        → elem endpoint g.terminals ≡ false
    nowhere other g h = elim (Bool-cases (elem endpoint g.terminals)) [
      | inl there ↦
          let points : t.game_server ≡ some other = same ∙ (linked other g h endpoint).1 there in
          absurd (none-ne-some g (sym free ∙ ap (λ o. lock o s) points ∙ h))
      | inr apart ↦ apart
    ]

    linked' : IsLinked s'
    linked' other g h e = elim (Bool-cases (endpoint == e)) [
      | inl is ↦
          let out : elem e g.terminals ≡ false =
            ap (λ x. elem x g.terminals) (sym ((bytes_beq_iff endpoint e).0 is))
            ∙ nowhere other g h in
          ((linked other g h e).0, λ there. absurd (true≢false (sym there ∙ out)))
      | inr apart ↦ (
        (linked other g h e).0,
        λ there. game_of-put endpoint e t' s ∙ rw apart ((linked other g h e).1 there),
      )
    ]

    by_found :
        (o : Option PvpGameServer)
        → lookup place s.memory ≡ o
        → IsLinked (elim o as (λ _. PvpServer) [
          | none ↦ s
          | some g ↦ put_game place (add_terminal_to endpoint g) s'
        ])
    by_found none h = linked
    by_found (some g) h = put_game-IsLinked place (add_terminal_to endpoint g) s' good linked'
      where
        added : (add_terminal_to endpoint g).terminals ≡ g.terminals ++ endpoint ∷ []
        added = rw (add_terminal_to, nowhere place g h) refl

        good :
            (e : Bytes)
            → (count e (add_terminal_to endpoint g).terminals ≤ 1)
              × (elem e (add_terminal_to endpoint g).terminals ≡ true → game_of e s' ≡ some place)
        good e = rw added (elim (Bool-cases (endpoint == e)) [
          | inl is ↦
              let none_yet : count e g.terminals ≡ 0 = count-zero_of_elem e g.terminals (
                ap (λ x. elem x g.terminals) (sym ((bytes_beq_iff endpoint e).0 is))
                ∙ nowhere place g h) in
              (
                rw (count-append e g.terminals (endpoint ∷ []), is) (omega (arith, none_yet)),
                λ there. game_of-put endpoint e t' s ∙ rw is refl,
              )
          | inr apart ↦ (
            rw (count-append e g.terminals (endpoint ∷ []), apart)
                (omega (arith, (linked place g h e).0)),
            λ there. (linked' place g h e).1 (
                or-false (elem e g.terminals)
                ∙ (sym (elem-append e g.terminals (endpoint ∷ []) ∙ rw apart refl) ∙ there)),
          )
        ])

add_game-IsLinked : (id : Bytes) (s : PvpServer) → IsLinked s → IsLinked (add_game id s).0
unfolding add_game
add_game-IsLinked id s linked = by_found (lookup id s.games)
  where
    s' : PvpServer
    s' = record s {
      games = insert id s.next_place s.games;
      memory = insert s.next_place new_game s.memory;
      next_place = s.next_place + 1;
    }

    by_found :
        (o : Option ℕ)
        → IsLinked
            (elim o as (λ _. PvpServer × Option ℕ) [
              | some place ↦ (s, none)
              | none ↦ (s', some s.next_place)
            ]).0
    by_found (some place) = linked
    by_found none =
        put_game-IsLinked s.next_place new_game s
          (λ e. (omega arith, λ there. absurd (true≢false (sym there)))) linked

pub create-IsLinked :
    (id : Bytes) (init : List ForceData) (s : PvpServer)
    → IsLinked s
    → IsLinked (handle_create_game_request id init s).0
unfolding handle_create_game_request
create-IsLinked id init s linked = by_place (add_game id s).1
  where
    s' : PvpServer
    s' = (add_game id s).0

    linked' : IsLinked s'
    linked' = add_game-IsLinked id s linked

    fill :
        (place : ℕ)
        → (o : Option PvpGameServer) → lookup place s'.memory ≡ o
        → IsLinked (elim o as (λ _. PvpServer) [
          | none ↦ s'
          | some g ↦ put_game place (record g { game_id = id; init_data = init }) s'
        ])
    fill place none h = linked'
    fill place (some g) h = put_same-IsLinked place g _ s' h refl linked'

    by_place :
        (o : Option ℕ)
        → IsLinked
            (elim o as (λ _. PvpServer × ℕ) [
              | none ↦ (s', 1)
              | some place ↦ (fill_game place id init s', 0)
            ]).0
    by_place none = linked'
    by_place (some place) = fill place (lookup place s'.memory) refl
