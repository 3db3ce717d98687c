-- ===== src/Directory/Reached.antt =====
-- A control server that runs, a server that joins it, and everything after.
use mathlib.Core.Path.{subst}
use mathlib.Core.Bool.{true≢false}
use lalune_server.Base.{
  ℕ, ◌+◌, ◌<◌, ◌≡◌, refl, sym, ap, ◌∙◌, Bool, true, false, List, [], ◌∷◌, Option, none, some, All,
  length, if_cases, ◌==◌, nat_key, nat_beq_iff, pair_key, pair_beq_iff, arith,
}
use lalune_server.Base.Maps.{lookup, insert, lookup-insert}
use lalune_server.Base.Entries.{IsMap, insert-IsMap, erase-IsMap}
use lalune_server.Ids.{get_id}
use lalune_server.ServerTypes.{ServerTypes}
use lalune_server.Configs.{Rapidjson, Store}
use lalune_server.Protocol.{Hello, addr_info_refresh}
use lalune_server.Control.{
  IpPort, ServerInfo, Control, inform_address_info, reply_msg, server_timeout, startup_timer,
  recv_keep_alive_handler, add_server, restart_server, start_server, send_list, recv_say_hello,
  generate_address_list, initialize, recv_finish_handler, disconnected_handler, say_hello,
}
use lalune_server.Control.Events.{Within, recv_say_hello-Consistent}
use lalune_server.Control.Runs.{
  Event, packet, timeout, startup, keep_alive, handler_called, Ends, step, run,
  run-initialize-Within,
}
use lalune_server.ServerCommon.{Common}
use lalune_server.ServerCommon.Synced.{IsSynced}
use lalune_server.Directory.{inbox, receive_all}
use lalune_server.Directory.Packets.{packet-quiet}
use lalune_server.Directory.Quiet.{Kept, IsQuietSince}
use lalune_server.Directory.Steps.{Followed}
use lalune_server.Directory.Runs.{Spares, run-Followed}
use lalune_server.Directory.Joins.{IsFresh, joined-Followed, add_server-running, told}

abbrev pub HasMap : Control → Type 0
HasMap s = IsMap s.servers_info

quiet-HasMap : (s s' : Control) → IsQuietSince s s' → HasMap s → HasMap s'
quiet-HasMap s s' q m = subst (λ (k : Kept). IsMap k.0.1) (sym q.same) m

timeout-HasMap : (a : IpPort) (s : Control) → HasMap s → HasMap (server_timeout false a s)
unfolding server_timeout
timeout-HasMap a s m = by_info (lookup a s.servers_info) refl
  where
    by_info :
        (o : Option ServerInfo) → lookup a s.servers_info ≡ o → HasMap (server_timeout false a s)
    by_info none e = rw (server_timeout, e) m
    by_info (some i) e =
        rw (server_timeout, e) (unfold inform_address_info in erase-IsMap a s.servers_info m)

keep_alive-HasMap : (now k : ℕ) (s : Control) → HasMap s → HasMap (recv_keep_alive_handler now k s)
unfolding recv_keep_alive_handler
keep_alive-HasMap now k s m = by_session (lookup k s.attached) refl
  where
    by_info :
        (a : IpPort) (o : Option ServerInfo)
        → lookup k s.attached ≡ some a
        → lookup a s.servers_info ≡ o
        → HasMap (recv_keep_alive_handler now k s)
    by_info a none e e' = rw (recv_keep_alive_handler, e, e') m
    by_info a (some i) e e' =
        rw (recv_keep_alive_handler, e, e')
          (insert-IsMap a (record i { deadline = now + s.timeout_sec }) s.servers_info m)

    by_session :
        (o : Option IpPort) → lookup k s.attached ≡ o → HasMap (recv_keep_alive_handler now k s)
    by_session none e = rw (recv_keep_alive_handler, e) m
    by_session (some a) e = by_info a (lookup a s.servers_info) e refl

start_server-HasMap :
    (now k : ℕ) (a : IpPort) (ty : ℕ) (s : Control) → HasMap s → HasMap (start_server now k a ty s)
unfolding start_server add_server restart_server inform_address_info
start_server-HasMap now k a ty s m = by_info (lookup a s.servers_info) refl
  where
    by_info :
        (o : Option ServerInfo) → lookup a s.servers_info ≡ o → HasMap (start_server now k a ty s)
    by_info none e =
        rw (start_server, e)
          (if_cases HasMap s.during_startup _ _ (λ up. insert-IsMap a _ s.servers_info m)
            (λ down. insert-IsMap a _ s.servers_info m))
    by_info (some i) e =
        rw (start_server, e)
          (if_cases HasMap s.during_startup _ _ (λ up. insert-IsMap a _ s.servers_info m)
            (λ down. insert-IsMap a _ s.servers_info m))

hello-HasMap :
    (now k ip : ℕ) (hello : Hello) (s : Control)
    → HasMap s
    → HasMap (recv_say_hello now k ip hello s)
unfolding recv_say_hello send_list
hello-HasMap now k ip hello s m =
    let a : IpPort = (ip, hello.my_listening_port) in
    let s₁ : Control = record s {
      attached = insert k a s.attached;
      server2session = insert a k s.server2session;
    } in
    let s₂ : Control = start_server now k a hello.server_type s₁ in
    let m₂ : HasMap s₂ = start_server-HasMap now k a hello.server_type s₁ m in
    if_cases HasMap (hello.is_server_start == 1) _ _
      (λ starts. if_cases HasMap s₂.during_startup _ _ (λ up. m₂) (λ down. m₂)) (λ again. m)

startup-HasMap : (cancelled : Bool) (s : Control) → HasMap s → HasMap (startup_timer cancelled s)
unfolding startup_timer inform_address_info
startup-HasMap true s m = m
startup-HasMap false s m = m

module _ {Value : Type 0} (j : Rapidjson Value) (t : ServerTypes) where
  Ends-quiet :
      (s : Control) (o : Option Control) → HasMap s → Ends (IsQuietSince s) o → Ends HasMap o
  Ends-quiet s none m q = tt
  Ends-quiet s (some s') m q = quiet-HasMap s s' q m

  step-HasMap : (e : Event) (s : Control) → HasMap s → Ends HasMap (step j t e s)
  unfolding recv_finish_handler disconnected_handler
  step-HasMap (packet loaded time now k ip (say_hello (some hello))) s m =
      hello-HasMap now k ip hello s m
  step-HasMap (packet loaded time now k ip p) s m =
      Ends-quiet s (recv_finish_handler j t loaded time now k ip p s) m
        (packet-quiet j t loaded time now k ip p s refl)
  step-HasMap (timeout true a) s m = unfold server_timeout in m
  step-HasMap (timeout false a) s m = timeout-HasMap a s m
  step-HasMap (startup cancelled) s m = startup-HasMap cancelled s m
  step-HasMap (keep_alive now k) s m = keep_alive-HasMap now k s m
  step-HasMap (handler_called k) s m = ground (arith, m)

  run-HasMap : (es : List Event) (s : Control) → HasMap s → Ends HasMap (run j t es s)
  run-HasMap [] s m = m
  run-HasMap (e ∷ es) s m =
      by_step (step j t e s) (step-HasMap e s m) (λ s' m'. run-HasMap es s' m')
    where
      by_step :
          (o : Option Control)
          → Ends HasMap o
          → ((s' : Control) → HasMap s' → Ends HasMap (run j t es s'))
          → Ends HasMap (elim o [ none ↦ none | some s' ↦ run j t es s' ])
      by_step none m' rest = tt
      by_step (some s') m' rest = rest s' m'

-- The hello of a new server, written out.
hello-told :
    (session now ip : ℕ) (hello : Hello) (s : Control)
    → s.during_startup ≡ false
    → hello.is_server_start ≡ 1
    → lookup (ip, hello.my_listening_port) s.servers_info ≡ none
    → let own : IpPort = (ip, hello.my_listening_port) in
      let s₁ : Control = record s {
        attached = insert session own s.attached;
        server2session = insert own session s.server2session;
      } in
      let s₂ = told session own now hello.server_type s₁ in
      recv_say_hello now session ip hello s
      ≡ reply_msg session (addr_info_refresh (generate_address_list s₂.servers_info)) s₂
unfolding recv_say_hello start_server send_list
hello-told session now ip hello s running start new =
    let own : IpPort = (ip, hello.my_listening_port) in
    let s₁ : Control = record s {
      attached = insert session own s.attached;
      server2session = insert own session s.server2session;
    } in
    let s₂ = told session own now hello.server_type s₁ in
    let last = reply_msg session (addr_info_refresh (generate_address_list s₂.servers_info)) s₂ in
    let started : start_server now session own hello.server_type s₁ ≡ s₂ =
      rw (start_server, new) (add_server-running session own now hello.server_type s₁ running) in
    if_cases (λ (x : Control). x ≡ last) (hello.is_server_start == 1) _ _
      (λ is.
        ap (send_list session) started
        ∙ if_cases (λ (x : Control). x ≡ last) s₂.during_startup _ _
            (λ up. absurd (true≢false (sym up ∙ running))) (λ down. refl))
      (λ isnt. absurd (ground (arith, nat_beq_iff hello.is_server_start 1, start)))

module _ {Value : Type 0} (j : Rapidjson Value) (t : ServerTypes) where
  start-HasMap : (timeout_sec : ℕ) (store : Store) → HasMap (initialize t timeout_sec store)
  unfolding initialize
  start-HasMap timeout_sec store = tt

  joined :
      (session now ip : ℕ) (hello : Hello) (c₀ : Common) (n : ℕ) (s : Control)
      → n + 1 < 4294967296
      → s.during_startup ≡ false
      → hello.is_server_start ≡ 1
      → lookup (ip, hello.my_listening_port) s.servers_info ≡ none
      → Within t.max n s
      → HasMap s
      → IsFresh (receive_all (inbox session s.sent) c₀)
      → Followed session
          (ip, hello.my_listening_port)
          (get_id s.available_ids).0
          c₀
          (recv_say_hello now session ip hello s)
  joined session now ip hello c₀ n s h running start new w m fresh =
      let own : IpPort = (ip, hello.my_listening_port) in
      let s₁ : Control = record s {
        attached = insert session own s.attached;
        server2session = insert own session s.server2session;
      } in
      subst (Followed session own (get_id s.available_ids).0 c₀)
        (sym (hello-told session now ip hello s running start new))
        (joined-Followed session own now hello.server_type s₁ t c₀ n h running m new
          (ground (arith, lookup-insert own own session s.server2session, pair_beq_iff own own)) w
          fresh)

  -- A control server that has ended its start, however it came there, gets the hello of a server
  -- that starts at an address where none is known, and that knows no other server yet. As long as
  -- the program runs, `DisconnectedHandler` is not called, no other session says hello from this
  -- address, nor this session once more, and the server's timer does not run out, the server's
  -- registry has each known server but itself, by its id and with its address and type, and no
  -- others but the control server, when it has received what was sent to it: for fewer than 2 ^
  -- 32 - 2 events in all.
  pub hello-IsSynced :
      (timeout_sec : ℕ) (store : Store) (before after : List Event) (session now ip : ℕ)
      (hello : Hello) (c₀ : Common) (s s' : Control)
      → length before + length after + 2 < 4294967296
      → run j t before (initialize t timeout_sec store) ≡ some s
      → s.during_startup ≡ false
      → hello.is_server_start ≡ 1
      → lookup (ip, hello.my_listening_port) s.servers_info ≡ none
      → IsFresh (receive_all (inbox session s.sent) c₀)
      → All (Spares session (ip, hello.my_listening_port)) after
      → run j t after (recv_say_hello now session ip hello s) ≡ some s'
      → IsSynced (get_id s.available_ids).0 s'.servers_info (receive_all (inbox session s'.sent) c₀)
  hello-IsSynced timeout_sec store before after session now ip hello c₀ s s' h e running start new
        fresh spares e' =
      let w = run-initialize-Within j t timeout_sec store before s (omega arith) e in
      let m =
        subst (Ends HasMap) e (
          run-HasMap j t before (initialize t timeout_sec store)
            (start-HasMap timeout_sec store)) in
      let f =
        joined session now ip hello c₀ (1 + length before) s (omega arith) running start new w m
          fresh in
      let w' =
        recv_say_hello-Consistent t.max (1 + length before) (omega arith) now session ip hello s
          w in
      (subst (Ends (Followed session (ip, hello.my_listening_port) (get_id s.available_ids).0 c₀))
        e'
        (run-Followed j t session (ip, hello.my_listening_port) (get_id s.available_ids).0 c₀ after
          (1 + length before + 1) (recv_say_hello now session ip hello s) (omega arith) spares w'
          f)).synced
