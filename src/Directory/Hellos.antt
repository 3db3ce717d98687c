-- ===== src/Directory/Hellos.antt =====
-- A server whose registry is in step stays so when another server says hello.
use mathlib.Core.Path.{subst}
use mathlib.Core.Bool.{true≢false}
use lalune_server.Base.{
  ℕ, ◌+◌, ◌≡◌, ◌≢◌, refl, sym, ap, ◌∙◌, Option, none, some, if_cases, nat_key, pair_key,
  pair_beq_iff, arith,
}
use lalune_server.Base.Maps.{lookup, insert, lookup-insert}
use lalune_server.Base.Entries.{insert-IsMap}
use lalune_server.Ids.{get_id}
use lalune_server.Protocol.{
  Message, addr_info_add, addr_info_restart, addr_info_refresh, say_hello_result,
}
use lalune_server.Control.{
  IpPort, ServerInfo, Control, send_each, inform_address_info, reply_msg, add_server,
  restart_server, start_server, send_list, generate_address_list, insert_in,
}
use lalune_server.Control.Events.{Within}
use lalune_server.ServerCommon.{Common, receive}
use lalune_server.ServerCommon.Synced.{IsSynced, same_view-IsSynced, quiet-view}
use lalune_server.ServerCommon.Joined.{join-IsSynced, again-IsSynced}
use lalune_server.Directory.{inbox, receive_all}
use lalune_server.Directory.Mail.{each-kept, each-first}
use lalune_server.Directory.Steps.{
  IsInStep, ids_of, received, Followed, received-reply, received-inform, refreshed-Followed,
}
use lalune_server.Directory.Quiet.{kept}

module _ (session : ℕ) (own : IpPort) (my : ℕ) (c₀ : Common) (max n : ℕ) (now k : ℕ) (a : IpPort)
    (off : k ≢ session) (apart : a ≢ own) where
  abbrev pub InStep : Control → Type 0
  InStep = Followed session own my c₀

  reply-Followed : (m : Message) (s : Control) → InStep s → InStep (reply_msg k m s)
  reply-Followed m s f =
      subst (λ (c : Common). IsInStep session own my (kept s) c)
        (sym (received-reply session own my c₀ k m s off)) f

  pub send_list-Followed : (s : Control) → InStep s → InStep (send_list k s)
  unfolding send_list
  send_list-Followed s f =
      if_cases InStep s.during_startup _ _ (λ up. f)
        (λ down. reply-Followed (addr_info_refresh (generate_address_list s.servers_info)) s f)

  told-Followed :
      (id : ℕ) (s : Control) → InStep s → InStep (inform_address_info (addr_info_restart id) s)
  unfolding inform_address_info
  told-Followed id s f = record {
    is_map = f.is_map;
    running = f.running;
    linked = f.linked;
    self = f.self;
    self_known = f.self_known;
    self_id = f.self_id;
    synced =
        subst (λ (c : Common). IsSynced my s.servers_info c)
          (sym (received-inform session own my c₀ (addr_info_restart id) s))
          (each-kept session (IsSynced my s.servers_info) (addr_info_restart id)
            (λ c y.
              same_view-IsSynced my s.servers_info c (receive (addr_info_restart id) c)
                (quiet-view (addr_info_restart id) c refl) y)
            s.server2session (received session own my c₀ s) f.synced);
  }

  restart-Followed :
      (i : ServerInfo) (s : Control)
      → lookup a s.servers_info ≡ some i
      → InStep s
      → InStep (restart_server now k a i s)
  unfolding restart_server
  restart-Followed i s e f =
      if_cases InStep s.during_startup _ _ (λ up. replied)
        (λ down.
          told-Followed i.addr.server_id (reply_msg k (say_hello_result i.addr.server_id) s₂)
            replied)
    where
      s₂ : Control
      s₂ = record s {
        servers_info = insert a (record i { deadline = now + s.timeout_sec }) s.servers_info;
      }

      replied : InStep (reply_msg k (say_hello_result i.addr.server_id) s₂)
      replied = reply-Followed (say_hello_result i.addr.server_id) s₂ (
          refreshed-Followed session own my c₀ a i (record i { deadline = now + s.timeout_sec }) s e
            refl f)

  add-Followed :
      (ty : ℕ) (s : Control)
      → Within max (n + 1) (add_server now k a ty s)
      → lookup a s.servers_info ≡ none
      → InStep s
      → InStep (add_server now k a ty s)
  unfolding add_server
  add-Followed ty s w new f =
      if_cases (λ x. Within max (n + 1) x → InStep x) s.during_startup _ _
        (λ up w'. absurd (true≢false (sym up ∙ f.running)))
        (λ down w'.
          unfold inform_address_info in
          record {
            is_map = insert-IsMap a i s.servers_info f.is_map;
            running = f.running;
            linked = f.linked;
            self = f.self;
            self_known = ground (
              arith,
              lookup-insert a own i s.servers_info,
              pair_beq_iff a own,
              f.self_known,
              apart,
            );
            self_id = f.self_id;
            synced =
                subst (λ (c : Common). IsSynced my (insert a i s.servers_info) c)
                  (sym (
                    received-inform session own my c₀ (addr_info_add i.addr)
                      (reply_msg k (say_hello_result i.addr.server_id) s₂)
                    ∙ ap
                        (receive_all
                          (inbox session (send_each s.server2session (addr_info_add i.addr))))
                        (received-reply session own my c₀ k (say_hello_result i.addr.server_id) s₂
                          off)))
                  (each-first session (IsSynced my s.servers_info)
                    (IsSynced my (insert a i s.servers_info)) (addr_info_add i.addr)
                    (λ c y.
                      join-IsSynced my s.servers_info a i c
                        (ids_of max s₂.available_ids s₂.servers_info s₂.server_groups w'.0) new y)
                    (λ c y.
                      again-IsSynced my (insert a i s.servers_info) a i c
                        (ids_of max s₂.available_ids s₂.servers_info s₂.server_groups w'.0)
                        (ground (arith, lookup-insert a a i s.servers_info, pair_beq_iff a a)) y)
                    own s.server2session (received session own my c₀ s) f.linked f.synced);
          })
        w
    where
      i : ServerInfo
      i = record {
        addr = record {
          ip = a.0;
          port = a.1;
          server_id = (get_id s.available_ids).0;
          server_type = ty;
        };
        deadline = now + s.timeout_sec;
      }

      s₂ : Control
      s₂ = record s {
        available_ids = (get_id s.available_ids).1;
        servers_info = insert a i s.servers_info;
        server_groups = insert_in a ty s.server_groups;
      }

  pub start_server-Followed :
      (ty : ℕ) (s : Control)
      → Within max (n + 1) (start_server now k a ty s)
      → InStep s
      → InStep (start_server now k a ty s)
  unfolding start_server
  start_server-Followed ty s w f = by_info (lookup a s.servers_info) refl
    where
      by_info :
          (o : Option ServerInfo) → lookup a s.servers_info ≡ o → InStep (start_server now k a ty s)
      by_info none e =
          rw (start_server, e)
            (add-Followed ty s
              (subst
                (λ o. Within max (n + 1) (elim o [
                  | none ↦ add_server now k a ty s
                  | some info ↦ restart_server now k a info s
                ]))
                e w)
              e f)
      by_info (some i) e = rw (start_server, e) (restart-Followed i s e f)
