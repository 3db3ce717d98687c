-- ===== src/Control/Events.antt =====
-- Whatever happens to the control server, the servers, their ids and their groups are consistent.
use mathlib.Core.Path.{subst}
use lalune_server.Base.{
  ℕ, ◌+◌, ◌≤◌, ◌<◌, ◌≡◌, refl, sym, Bool, true, false, Option, none, some, if_cases, ◌==◌, nat_key,
  pair_key, arith,
}
use lalune_server.Base.Maps.{lookup, insert}
use lalune_server.Ids.{Ids, get_id, release_id}
use lalune_server.Protocol.{Message, Hello}
use lalune_server.Control.{
  IpPort, ServerInfo, Control, insert_in, server_timeout, recv_keep_alive_handler,
  send_to_server_group, inform_address_info, add_server, restart_server, start_server, send_list,
  recv_say_hello,
}
use lalune_server.Control.Pool.{IsTaken, IsReleased, get_id-IsTaken, release_id-IsReleased}
use lalune_server.Control.Members.{Infos, Groups, IsConsistent, refreshed-IsConsistent}
use lalune_server.Control.Joining.{join-IsConsistent, leave-IsConsistent}

abbrev pub members : Control → Ids × Infos × Groups
members s = (s.available_ids, s.servers_info, s.server_groups)

abbrev pub Consistent : ℕ → Control → Type 0
Consistent max s = IsConsistent max s.available_ids s.servers_info s.server_groups

-- Consistent, and with the next new id at most n.
abbrev pub Within : ℕ → ℕ → Control → Type 0
Within max n s = Consistent max s × (s.available_ids.next_id ≤ n)

pub send_to_server_group-members :
    (ty : ℕ) (m : Message) (s : Control) → members (send_to_server_group ty m s) ≡ members s
unfolding send_to_server_group
send_to_server_group-members ty m s = ground arith

send_list-members : (session : ℕ) (s : Control) → members (send_list session s) ≡ members s
unfolding send_list
send_list-members session s = ground arith

module _ (max n : ℕ) (h : n + 1 < 4294967296) where
  pub same_members :
      (m : ℕ) (s s' : Control) → members s' ≡ members s → Within max m s → Within max m s'
  same_members m s s' e c =
      subst (λ (x : Ids × Infos × Groups). IsConsistent max x.0 x.1 x.2 × (x.0.next_id ≤ m)) (sym e)
        c

  pub later : (s : Control) → Within max n s → Within max (n + 1) s
  later s (c, le) = (c, omega arith)

  pub add_server-Consistent :
      (now session : ℕ) (a : IpPort) (ty : ℕ) (s : Control)
      → lookup a s.servers_info ≡ none
      → Within max n s
      → Within max (n + 1) (add_server now session a ty s)
  unfolding add_server inform_address_info
  add_server-Consistent now session a ty s new c =
      if_cases (Within max (n + 1)) s.during_startup _ _ (λ up. (joined, id_le))
        (λ down. (joined, id_le))
    where
      i : ServerInfo
      i = record {
        addr = record {
          ip = a.0;
          port = a.1;
          server_id = (get_id s.available_ids).0;
          server_type = ty;
        };
        deadline = now + s.timeout_sec;
      }

      taken : IsTaken (get_id s.available_ids).0 s.available_ids (get_id s.available_ids).1
      taken = get_id-IsTaken s.available_ids c.0.pool (omega (arith, c.1))

      id_le : (get_id s.available_ids).1.next_id ≤ n + 1
      id_le = omega (arith, taken.grows_by_one, c.1)

      joined :
          IsConsistent max
            (get_id s.available_ids).1
            (insert a i s.servers_info)
            (insert_in a ty s.server_groups)
      joined =
          join-IsConsistent max s.available_ids s.servers_info s.server_groups a c.0
            (get_id s.available_ids).1 i new refl refl taken

  restart_server-Consistent :
      (now session : ℕ) (a : IpPort) (i : ServerInfo) (s : Control)
      → lookup a s.servers_info ≡ some i
      → Within max n s
      → Within max (n + 1) (restart_server now session a i s)
  unfolding restart_server inform_address_info
  restart_server-Consistent now session a i s here c =
      if_cases (Within max (n + 1)) s.during_startup _ _ (λ up. (kept, omega (arith, c.1)))
        (λ down. (kept, omega (arith, c.1)))
    where
      kept :
          IsConsistent max s.available_ids
            (insert a (record i { deadline = now + s.timeout_sec }) s.servers_info)
            s.server_groups
      kept =
          refreshed-IsConsistent max s.available_ids s.servers_info s.server_groups a i
            (record i { deadline = now + s.timeout_sec }) here refl c.0

  pub start_server-Consistent :
      (now session : ℕ) (a : IpPort) (ty : ℕ) (s : Control)
      → Within max n s
      → Within max (n + 1) (start_server now session a ty s)
  unfolding start_server
  start_server-Consistent now session a ty s c = by_info (lookup a s.servers_info) refl
    where
      by_info :
          (o : Option ServerInfo)
          → lookup a s.servers_info ≡ o
          → Within max (n + 1) (start_server now session a ty s)
      by_info none e = rw (start_server, e) (add_server-Consistent now session a ty s e c)
      by_info (some i) e = rw (start_server, e) (restart_server-Consistent now session a i s e c)

  pub recv_say_hello-Consistent :
      (now session remote_ip : ℕ) (hello : Hello) (s : Control)
      → Within max n s
      → Within max (n + 1) (recv_say_hello now session remote_ip hello s)
  unfolding recv_say_hello
  recv_say_hello-Consistent now session remote_ip hello s c =
      let a : IpPort = (remote_ip, hello.my_listening_port) in
      let s₁ : Control = record s {
        attached = insert session a s.attached;
        server2session = insert a session s.server2session;
      } in
      let s₂ = start_server now session a hello.server_type s₁ in
      if_cases (Within max (n + 1)) (hello.is_server_start == 1) _ _
        (λ starts.
          same_members (n + 1) s₂ (send_list session s₂) (send_list-members session s₂)
            (start_server-Consistent now session a hello.server_type s₁ c))
        (λ again. later s₁ c)

  pub server_timeout-Consistent :
      (cancelled : Bool) (a : IpPort) (s : Control)
      → Within max n s
      → Within max (n + 1) (server_timeout cancelled a s)
  unfolding server_timeout inform_address_info
  server_timeout-Consistent true a s c = later s c
  server_timeout-Consistent false a s c = by_info (lookup a s.servers_info) refl
    where
      gone :
          (i : ServerInfo)
          → lookup a s.servers_info ≡ some i
          → IsReleased i.addr.server_id s.available_ids
              (release_id i.addr.server_id s.available_ids)
      gone i e =
          release_id-IsReleased i.addr.server_id s.available_ids c.0.pool (c.0.id_pos a i e)
            (c.0.id_given a i e) (c.0.id_out a i e) (omega (arith, c.1))

      by_info :
          (o : Option ServerInfo)
          → lookup a s.servers_info ≡ o
          → Within max (n + 1) (server_timeout false a s)
      by_info none e = rw (server_timeout, e) (later s c)
      by_info (some i) e =
          rw (server_timeout, e)
            (
              leave-IsConsistent max s.available_ids s.servers_info s.server_groups a c.0
                  (release_id i.addr.server_id s.available_ids) i e (gone i e),
              omega (arith, (gone i e).next_le, c.1),
            )

  pub keep_alive-Consistent :
      (now session : ℕ) (s : Control)
      → Within max n s
      → Within max (n + 1) (recv_keep_alive_handler now session s)
  unfolding recv_keep_alive_handler
  keep_alive-Consistent now session s c = by_session (lookup session s.attached) refl
    where
      by_info :
          (a : IpPort) (o : Option ServerInfo)
          → lookup session s.attached ≡ some a
          → lookup a s.servers_info ≡ o
          → Within max (n + 1) (recv_keep_alive_handler now session s)
      by_info a none e e' = rw (recv_keep_alive_handler, e, e') (later s c)
      by_info a (some i) e e' =
          rw (recv_keep_alive_handler, e, e')
            (
              refreshed-IsConsistent max s.available_ids s.servers_info s.server_groups a i
                  (record i { deadline = now + s.timeout_sec }) e' refl c.0,
              omega (arith, c.1),
            )

      by_session :
          (o : Option IpPort)
          → lookup session s.attached ≡ o
          → Within max (n + 1) (recv_keep_alive_handler now session s)
      by_session none e = rw (recv_keep_alive_handler, e) (later s c)
      by_session (some a) e = by_info a (lookup a s.servers_info) e refl
