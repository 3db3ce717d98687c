-- ===== src/Directory/Joins.antt =====
-- A server that says hello for the first time, and what it knows from then on.
use mathlib.Core.Path.{subst}
use mathlib.Core.Bool.{true≢false}
use lalune_server.Base.{
  ℕ, ◌+◌, ◌<◌, ◌≡◌, refl, sym, ap, ◌∙◌, false, List, [], ◌∷◌, ◌++◌, none, some, Option-cases, inl,
  inr, if_cases, nat_key, nat_beq_iff, pair_key, pair_beq_iff, arith,
}
use lalune_server.Base.Maps.{lookup, insert, lookup-insert}
use lalune_server.Base.Entries.{IsMap, insert-IsMap}
use lalune_server.Ids.{get_id}
use lalune_server.ServerTypes.{ServerTypes}
use lalune_server.Registry
use lalune_server.Protocol.{Message, addr_info_add, addr_info_refresh, say_hello_result}
use lalune_server.Control.{
  IpPort, ServerInfo, Control, send_each, inform_address_info, reply_msg, add_server,
  generate_address_list, insert_in,
}
use lalune_server.Control.Events.{Within, add_server-Consistent}
use lalune_server.ServerCommon.{Common, receive}
use lalune_server.ServerCommon.Synced.{HasIds, IsSynced, IsSound, refresh-IsSynced, note-IsSound}
use lalune_server.Directory.{inbox, receive_all}
use lalune_server.Directory.Mail.{receive_all-append, each-kept}
use lalune_server.Directory.Steps.{ids_of, Followed}

-- A server that knows no other server but the control server.
pub record IsFresh (c : Common) : Type 0 where
  pub up : c.registry.is_shut_down ≡ false
  pub only_control :
      (id : ℕ) (v : Registry.ServerInfo) → lookup id c.registry.serverinfos ≡ some v → id ≡ 0

receive_all-own :
    (session : ℕ) (m : Message) (xs : List (ℕ × Message)) (c : Common)
    → receive_all (inbox session (xs ++ (session, m) ∷ [])) c
      ≡ receive m (receive_all (inbox session xs) c)
receive_all-own session m xs c =
    receive_all-append session xs ((session, m) ∷ []) c
    ∙ ground (arith, nat_beq_iff session session)

module _ (session : ℕ) (own : IpPort) (now ty : ℕ) (s : Control) where
  abbrev pub my : ℕ
  my = (get_id s.available_ids).0

  abbrev pub self : ServerInfo
  self = record {
    addr = record { ip = own.0; port = own.1; server_id = my; server_type = ty };
    deadline = now + s.timeout_sec;
  }

  abbrev pub with_self : Control
  with_self = record s {
    available_ids = (get_id s.available_ids).1;
    servers_info = insert own self s.servers_info;
    server_groups = insert_in own ty s.server_groups;
  }

  abbrev pub told : Control
  told =
      inform_address_info (addr_info_add self.addr)
        (reply_msg session (say_hello_result my) with_self)

  pub add_server-running : s.during_startup ≡ false → add_server now session own ty s ≡ told
  unfolding add_server
  add_server-running running =
      if_cases (λ (x : Control). x ≡ told) s.during_startup _ _
        (λ up. absurd (true≢false (sym up ∙ running))) (λ down. refl)

  module _ (t : ServerTypes) (c₀ : Common) (n : ℕ) (h : n + 1 < 4294967296) where
    -- The server, when it has read its id.
    abbrev knows_id : Common
    knows_id = receive (say_hello_result my) (receive_all (inbox session s.sent) c₀)

    -- The control server adds the server, and then sends it the whole list.
    pub joined-Followed :
        s.during_startup ≡ false
        → IsMap s.servers_info
        → lookup own s.servers_info ≡ none
        → lookup own s.server2session ≡ some session
        → Within t.max n s
        → IsFresh (receive_all (inbox session s.sent) c₀)
        → Followed session own my c₀
            (reply_msg session (addr_info_refresh (generate_address_list told.servers_info)) told)
    unfolding inform_address_info
    joined-Followed running is_map new linked w fresh = record {
      is_map = maps;
      running = running;
      linked = linked;
      self = self;
      self_known = here;
      self_id = refl;
      synced =
          subst (λ (c : Common). IsSynced my (insert own self s.servers_info) c)
            (sym (
              receive_all-own session (addr_info_refresh (generate_address_list told.servers_info))
                told.sent c₀))
            (refresh-IsSynced my (insert own self s.servers_info) ids
              (receive_all (inbox session told.sent) c₀) maps sound);
    }
      where
        maps : IsMap (insert own self s.servers_info)
        maps = insert-IsMap own self s.servers_info is_map

        here : lookup own (insert own self s.servers_info) ≡ some self
        here = ground (arith, lookup-insert own own self s.servers_info, pair_beq_iff own own)

        within : Within t.max (n + 1) told
        within =
            subst (Within t.max (n + 1)) (add_server-running running)
              (add_server-Consistent t.max n h now session own ty s new w)

        ids : HasIds (insert own self s.servers_info)
        ids = ids_of t.max _ _ _ within.0

        knows-IsSound : IsSound my (insert own self s.servers_info) knows_id
        knows-IsSound =
            unfold receive in
            record {
              up = fresh.up;
              me = refl;
              not_me =
                  elim (Option-cases
                    (lookup my (receive_all (inbox session s.sent) c₀).registry.serverinfos)) [
                      | inl e ↦ e
                      | inr (v, e) ↦
                          absurd
                            (ground (arith, fresh.only_control my v e, ids.id_pos own self here))
                    ];
              only = λ id v at off. absurd (off (fresh.only_control id v at));
            }

        sound :
            IsSound my (insert own self s.servers_info) (receive_all (inbox session told.sent) c₀)
        sound =
            subst (IsSound my (insert own self s.servers_info))
              (sym (
                receive_all-append session (s.sent ++ (session, say_hello_result my) ∷ [])
                  (send_each s.server2session (addr_info_add self.addr)) c₀
                ∙ ap
                    (receive_all
                      (inbox session (send_each s.server2session (addr_info_add self.addr))))
                    (receive_all-own session (say_hello_result my) s.sent c₀)))
              (each-kept session (IsSound my (insert own self s.servers_info))
                (addr_info_add self.addr)
                (λ c y.
                  unfold receive in
                  note-IsSound my (insert own self s.servers_info) ids own self c here y)
                s.server2session knows_id knows-IsSound)
