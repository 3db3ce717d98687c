-- ===== src/Pvp/Leaving.antt =====
-- A terminal that leaves its game and the server keeps the links.
use lalune_server.Base.{
  ℕ, ◌≤◌, ◌≡◌, refl, sym, ◌∙◌, ap, true, false, Option, none, some, arith, if◌then◌else◌,
  Bool-cases, inl, inr, ◌==◌, nat_key, bytes_key, Bytes, elem, remove, count, count-remove,
  elem-remove, elem_of_remove, bytes_beq_iff, nat_beq_iff,
}
use mathlib.Core.Option.{some-injective, none-ne-some}
use mathlib.Core.Bool.{true≢false}
use lalune_server.Base.Maps.{lookup, insert, erase, lookup-erase, lookup-insert}
use lalune_server.Terminal.{PvpTerminal}
use lalune_server.Pvp.Linked.{IsLinked, Frame-IsLinked, put_game-others}
use lalune_server.Pvp.{
  PvpServer, PvpGameServer, put_terminal, put_game, game_of, pointer_of, delete_terminal_from,
  quit_game, reset_game_server,
}

-- A terminal that is erased may lose its pointer before.
reset-IsLinked :
    (endpoint : Bytes) (s : PvpServer)
    → IsLinked (record s { terminals = erase endpoint s.terminals })
    → IsLinked (record (reset_game_server endpoint s) {
      terminals = erase endpoint (reset_game_server endpoint s).terminals;
    })
unfolding reset_game_server
reset-IsLinked endpoint s linked = by_found (lookup endpoint s.terminals)
  where
    by_found :
        (o : Option PvpTerminal)
        → let s' : PvpServer = elim o as (λ _. PvpServer) [
          | none ↦ s
          | some t ↦ put_terminal endpoint (record t { game_server = none }) s
        ] in
          IsLinked (record s' { terminals = erase endpoint s'.terminals })
    by_found none = linked
    by_found (some t) =
        Frame-IsLinked (record s { terminals = erase endpoint s.terminals })
          (record s {
            terminals =
                erase endpoint (insert endpoint (record t { game_server = none }) s.terminals);
          })
          (
            refl,
            λ e. ap pointer_of (
                lookup-erase endpoint e
                  (insert endpoint (record t { game_server = none }) s.terminals)
                ∙ (elim (Bool-cases (endpoint == e)) [
                  | inl is ↦ rw is refl
                  | inr apart ↦ rw apart (
                      lookup-insert endpoint e (record t { game_server = none }) s.terminals
                      ∙ rw apart refl)
                ])
                ∙ sym (lookup-erase endpoint e s.terminals)),
          )
          linked

-- The terminal at an endpoint goes: out of its game, if that is alive, and out of the server.
pub leave-IsLinked :
    (endpoint : Bytes) (o : Option ℕ) (s : PvpServer)
    → o ≡ game_of endpoint s
    → IsLinked s
    → IsLinked (record (quit_game endpoint o s) {
      terminals = erase endpoint (quit_game endpoint o s).terminals;
    })
unfolding quit_game delete_terminal_from
leave-IsLinked endpoint o s mine linked = by_pointer o mine
  where
    gone :
        (e : Bytes)
        → (if endpoint == e then none else game_of e s)
          ≡ pointer_of (lookup e (erase endpoint s.terminals))
    gone e = sym (
        ap pointer_of (lookup-erase endpoint e s.terminals)
        ∙ (elim (Bool-cases (endpoint == e)) [ inl is ↦ rw is refl | inr apart ↦ rw apart refl ]))

    without : PvpServer
    without = record s { terminals = erase endpoint s.terminals }

    -- The links, but for a game at `place` that has lost its entry.
    others :
        (place : ℕ) (g : PvpGameServer)
        → lookup place s.memory ≡ some g
        → elem endpoint g.terminals ≡ false
        → (e : Bytes)
        → (count e g.terminals ≤ 1) × (elem e g.terminals ≡ true → game_of e without ≡ some place)
    others place g h away e = elim (Bool-cases (endpoint == e)) [
      | inl is ↦
          let out : elem e g.terminals ≡ false =
            ap (λ x. elem x g.terminals) (sym ((bytes_beq_iff endpoint e).0 is)) ∙ away in
          ((linked place g h e).0, λ there. absurd (true≢false (sym there ∙ out)))
      | inr apart ↦
          ((linked place g h e).0, λ there. sym (gone e) ∙ rw apart ((linked place g h e).1 there))
    ]

    by_pointer :
        (p : Option ℕ)
        → p ≡ game_of endpoint s
        → IsLinked (record (quit_game endpoint p s) {
          terminals = erase endpoint (quit_game endpoint p s).terminals;
        })
    by_pointer none same = λ place g h.
        others place g h (elim (Bool-cases (elem endpoint g.terminals)) [
          | inl there ↦ absurd (none-ne-some place (same ∙ (linked place g h endpoint).1 there))
          | inr away ↦ away
        ])
    by_pointer (some q) same = by_found (lookup q s.memory) refl
      where
        -- The other games do not list the terminal.
        apart_from :
            (other : ℕ) (g : PvpGameServer)
            → (some q ≡ some other → elem endpoint g.terminals ≡ false)
            → lookup other s.memory ≡ some g
            → elem endpoint g.terminals ≡ false
        apart_from other g clash h = elim (Bool-cases (elem endpoint g.terminals)) [
          | inl there ↦ clash (same ∙ (linked other g h endpoint).1 there)
          | inr away ↦ away
        ]

        by_found :
            (f : Option PvpGameServer)
            → lookup q s.memory ≡ f
            → IsLinked
                (record (elim f as (λ _. PvpServer) [
                  | none ↦ s
                  | some g ↦
                      reset_game_server endpoint (put_game q (delete_terminal_from endpoint g) s)
                ]) {
                  terminals =
                      erase endpoint
                        (elim f as (λ _. PvpServer) [
                          | none ↦ s
                          | some g ↦
                              reset_game_server endpoint
                                (put_game q (delete_terminal_from endpoint g) s)
                        ]).terminals;
                })
        by_found none dead = λ other g h. others other g h (
            apart_from other g
              (λ same_place. absurd (
                none-ne-some g
                  (sym dead ∙ ap (λ n. lookup n s.memory) (some-injective q other same_place) ∙ h)))
              h)
        by_found (some g) here =
            reset-IsLinked endpoint (put_game q (delete_terminal_from endpoint g) s)
              (put_game-others q (delete_terminal_from endpoint g) without good rest)
          where
            good :
                (e : Bytes)
                → (count e (remove endpoint g.terminals) ≤ 1)
                  × (elem e (remove endpoint g.terminals) ≡ true → game_of e without ≡ some q)
            good e = (
              omega (arith, count-remove endpoint e g.terminals, (linked q g here e).0),
              λ there. elim (Bool-cases (endpoint == e)) [
                | inl is ↦ absurd (
                    true≢false (
                      sym (
                        ap (λ x. elem x (remove endpoint g.terminals))
                          ((bytes_beq_iff endpoint e).0 is)
                        ∙ there)
                      ∙ elem-remove endpoint g.terminals (linked q g here endpoint).0))
                | inr apart ↦
                    sym (gone e)
                    ∙ rw apart ((linked q g here e).1 (elem_of_remove endpoint e g.terminals there))
              ],
            )

            rest :
                (other : ℕ) (g₂ : PvpGameServer)
                → (q == other) ≡ false
                → lookup other s.memory ≡ some g₂
                → (e : Bytes)
                → (count e g₂.terminals ≤ 1)
                  × (elem e g₂.terminals ≡ true → game_of e without ≡ some other)
            rest other g₂ differs h = others other g₂ h (
                apart_from other g₂
                  (λ same_place. absurd (
                    true≢false (
                      sym ((nat_beq_iff q other).1 (some-injective q other same_place)) ∙ differs)))
                  h)
