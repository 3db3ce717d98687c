-- ===== src/Pvp/Linked.antt =====
-- The games' lists of terminals and the terminals' pointers to games agree.
use lalune_server.Base.{
  ℕ, ◌≤◌, ◌≡◌, refl, sym, ◌∙◌, ap, true, false, List, [], ◌∷◌, Option, none, some, if◌then◌else◌,
  Bool-cases, inl, inr, ◌==◌, nat_key, bytes_key, Bytes, elem, count, bytes_beq_iff, nat_beq_iff,
}
use mathlib.Core.Option.{some-injective, none-ne-some}
use mathlib.Core.Path.{subst}
use lalune_server.Base.Maps.{lookup, erase, lookup-insert, lookup-erase}
use lalune_server.Terminal.{PvpTerminal, new_message, send_message, proto_plain}
use lalune_server.Pvp.Kept.{send_message-game}
use lalune_server.Pvp.{
  PvpServer, PvpGameServer, Datagram, put_terminal, put_game, game_of, pointer_of, send_to,
  send_to_all, delete_game, to,
}

-- A game lists a terminal at most once, and only if that terminal points to the game.
abbrev pub IsLinked : PvpServer → Type 0
IsLinked s =
    (place : ℕ) (g : PvpGameServer)
    → lookup place s.memory ≡ some g
    → (endpoint : Bytes)
    → (count endpoint g.terminals ≤ 1)
      × (elem endpoint g.terminals ≡ true → game_of endpoint s ≡ some place)

-- Nothing that the links stand on has changed.
abbrev pub Frame : PvpServer → PvpServer → Type 0
Frame s s' =
    (s'.memory ≡ s.memory) × ((endpoint : Bytes) → game_of endpoint s' ≡ game_of endpoint s)

pub Frame-refl : (s : PvpServer) → Frame s s
Frame-refl s = (refl, λ e. refl)

pub Frame-trans : (a b c : PvpServer) → Frame a b → Frame b c → Frame a c
Frame-trans a b c p q = (q.0 ∙ p.0, λ e. q.1 e ∙ p.1 e)

pub Frame-IsLinked : (s s' : PvpServer) → Frame s s' → IsLinked s → IsLinked s'
Frame-IsLinked s s' f linked place g here endpoint =
    let h = linked place g (ap (λ m. lookup place m) (sym f.0) ∙ here) endpoint in
    (h.0, λ there. f.1 endpoint ∙ h.1 there)

pub game_of-put :
    (endpoint other : Bytes) (t : PvpTerminal) (s : PvpServer)
    → game_of other (put_terminal endpoint t s)
      ≡ (if endpoint == other then t.game_server else game_of other s)
game_of-put endpoint other t s =
    ap pointer_of (lookup-insert endpoint other t s.terminals)
    ∙ (elim (Bool-cases (endpoint == other)) [
      | inl same ↦ rw same refl
      | inr apart ↦ rw apart refl
    ])

pub put_terminal-Frame :
    (endpoint : Bytes) (t : PvpTerminal) (s : PvpServer)
    → t.game_server ≡ game_of endpoint s
    → Frame s (put_terminal endpoint t s)
put_terminal-Frame endpoint t s same =
    (refl, λ other. game_of-put endpoint other t s ∙ by_name other)
  where
    by_name :
        (other : Bytes)
        → (if endpoint == other then t.game_server else game_of other s) ≡ game_of other s
    by_name other = elim (Bool-cases (endpoint == other)) [
      | inl here ↦ rw here (same ∙ ap (λ e. game_of e s) ((bytes_beq_iff endpoint other).0 here))
      | inr apart ↦ rw apart refl
    ]

-- A game is written back with what the links ask of it.
pub put_game-others :
    (place : ℕ) (g' : PvpGameServer) (s : PvpServer)
    → ((endpoint : Bytes)
        → (count endpoint g'.terminals ≤ 1)
          × (elem endpoint g'.terminals ≡ true → game_of endpoint s ≡ some place))
    → ((other : ℕ) (g : PvpGameServer)
        → (place == other) ≡ false
        → lookup other s.memory ≡ some g
        → (endpoint : Bytes)
        → (count endpoint g.terminals ≤ 1)
          × (elem endpoint g.terminals ≡ true → game_of endpoint s ≡ some other))
    → IsLinked (put_game place g' s)
put_game-others place g' s good linked other g there endpoint = elim (Bool-cases (place == other)) [
  | inl same ↦
      let same_game : some g' ≡ some g =
        sym (lookup-insert place other g' s.memory ∙ rw same refl) ∙ there in
      let list : g'.terminals ≡ g.terminals =
        ap (λ (x : PvpGameServer). x.terminals) (some-injective g' g same_game) in
      let name : some place ≡ some other = ap some ((nat_beq_iff place other).0 same) in
      subst
        (λ l. (count endpoint l ≤ 1) × (elem endpoint l ≡ true → game_of endpoint s ≡ some other))
        list ((good endpoint).0, λ e. (good endpoint).1 e ∙ name)
  | inr apart ↦
      linked other g apart (sym (lookup-insert place other g' s.memory ∙ rw apart refl) ∙ there)
        endpoint
]

pub put_game-IsLinked :
    (place : ℕ) (g' : PvpGameServer) (s : PvpServer)
    → ((endpoint : Bytes)
        → (count endpoint g'.terminals ≤ 1)
          × (elem endpoint g'.terminals ≡ true → game_of endpoint s ≡ some place))
    → IsLinked s
    → IsLinked (put_game place g' s)
put_game-IsLinked place g' s good linked =
    put_game-others place g' s good (λ other g apart h. linked other g h)

pub put_same-IsLinked :
    (place : ℕ) (g g' : PvpGameServer) (s : PvpServer)
    → lookup place s.memory ≡ some g
    → g'.terminals ≡ g.terminals
    → IsLinked s
    → IsLinked (put_game place g' s)
put_same-IsLinked place g g' s here same linked =
    put_game-IsLinked place g' s (λ e. rw same (linked place g here e)) linked

pub send_to-Frame : (endpoint body : Bytes) (s : PvpServer) → Frame s (send_to endpoint body s).0
unfolding send_to
send_to-Frame endpoint body s = by_found (lookup endpoint s.terminals) refl
  where
    by_found :
        (o : Option PvpTerminal)
        → lookup endpoint s.terminals ≡ o
        → Frame s
            (elim o as (λ _. PvpServer × List Datagram) [
              | none ↦ (s, [])
              | some t ↦
                  let (t', out) = send_message t (new_message body) proto_plain in
                  (put_terminal endpoint t' s, to endpoint out)
            ]).0
    by_found none h = Frame-refl s
    by_found (some t) h =
        put_terminal-Frame endpoint (send_message t (new_message body) proto_plain).0 s
          (send_message-game t (new_message body) proto_plain ∙ ap pointer_of (sym h))

pub send_to_all-Frame :
    (l : List Bytes) (body : Bytes) (s : PvpServer) → Frame s (send_to_all l body s).0
unfolding send_to_all
send_to_all-Frame [] body s = Frame-refl s
send_to_all-Frame (e ∷ l) body s =
    Frame-trans s (send_to e body s).0 (send_to_all l body (send_to e body s).0).0
      (send_to-Frame e body s) (send_to_all-Frame l body (send_to e body s).0)

erase-IsLinked :
    (place : ℕ) (games : List (Bytes × ℕ)) (s : PvpServer)
    → IsLinked s
    → IsLinked (record s { games = games; memory = erase place s.memory })
erase-IsLinked place games s linked other g there = elim (Bool-cases (place == other)) [
  | inl same ↦
      absurd (none-ne-some g (sym (lookup-erase place other s.memory ∙ rw same refl) ∙ there))
  | inr apart ↦ linked other g (sym (lookup-erase place other s.memory ∙ rw apart refl) ∙ there)
]

pub delete_game-IsLinked : (id : Bytes) (s : PvpServer) → IsLinked s → IsLinked (delete_game id s)
unfolding delete_game
delete_game-IsLinked id s linked = by_found (lookup id s.games)
  where
    by_found :
        (o : Option ℕ)
        → IsLinked (elim o as (λ _. PvpServer) [
          | none ↦ s
          | some place ↦ record s { games = erase id s.games; memory = erase place s.memory }
        ])
    by_found none = linked
    by_found (some place) = erase-IsLinked place (erase id s.games) s linked
