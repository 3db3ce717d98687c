-- ===== src/Directory/Runs.antt =====
-- From a server's hello on, its registry stays in step with the control server.
use lalune_server.Base.{
  ℕ, ◌+◌, ◌<◌, ◌≢◌, refl, true, false, List, [], ◌∷◌, Option, none, some, All, Bytes, length,
  if_cases, ◌==◌, nat_key, pair_key, pair_beq_iff, arith,
}
use lalune_server.Base.Maps.{insert, lookup-insert}
use lalune_server.ServerTypes.{ServerTypes}
use lalune_server.Configs.{Rapidjson}
use lalune_server.Protocol.{Hello}
use lalune_server.Control.{
  IpPort, Control, Packet, server_timeout, start_server, recv_say_hello, recv_finish_handler,
  say_hello,
}
use lalune_server.Control.Events.{Within, start_server-Consistent}
use lalune_server.Control.Runs.{
  Event, packet, timeout, startup, keep_alive, handler_called, Ends, step, run, step-Within,
}
use lalune_server.ServerCommon.{Common}
use lalune_server.Directory.Packets.{packet-quiet}
use lalune_server.Directory.Quiet.{IsQuietSince}
use lalune_server.Directory.Steps.{
  Followed, quiet-Followed, keep_alive-Followed, timeout-Followed, startup-Followed,
}
use lalune_server.Directory.Hellos.{start_server-Followed, send_list-Followed}

-- What leaves a server's place alone: no other session says hello from its address, its own session
-- does not say hello once more, and its timer does not run out.
abbrev pub Spares : ℕ → IpPort → Event → Type 0
Spares session own (packet loaded time now k ip (say_hello (some hello))) =
    (k ≢ session) × ((ip, hello.my_listening_port) ≢ own)
Spares session own (timeout false a) = a ≢ own
Spares session own (handler_called k) = ⊥
Spares session own e = Unit

module _ {Value : Type 0} (j : Rapidjson Value) (t : ServerTypes) (session : ℕ) (own : IpPort)
    (my : ℕ) (c₀ : Common) where
  abbrev InStep : Control → Type 0
  InStep = Followed session own my c₀

  hello-Followed :
      (n : ℕ)
      → n + 1 < 4294967296
      → (now k ip : ℕ) (hello : Hello) (s : Control) → k ≢ session
      → (ip, hello.my_listening_port) ≢ own
      → Within t.max n s
      → InStep s
      → InStep (recv_say_hello now k ip hello s)
  unfolding recv_say_hello
  hello-Followed n h now k ip hello s off apart w f =
      if_cases InStep (hello.is_server_start == 1) _ _
        (λ starts.
          send_list-Followed session own my c₀ t.max n now k a off apart
            (start_server now k a hello.server_type s₁)
            (start_server-Followed session own my c₀ t.max n now k a off apart hello.server_type s₁
              (start_server-Consistent t.max n h now k a hello.server_type s₁ w) f₁))
        (λ again. f₁)
    where
      a : IpPort
      a = (ip, hello.my_listening_port)

      s₁ : Control
      s₁ = record s {
        attached = insert k a s.attached;
        server2session = insert a k s.server2session;
      }

      f₁ : InStep s₁
      f₁ = record {
        is_map = f.is_map;
        running = f.running;
        linked =
            ground
              (arith, lookup-insert a own k s.server2session, pair_beq_iff a own, f.linked, apart);
        self = f.self;
        self_known = f.self_known;
        self_id = f.self_id;
        synced = f.synced;
      }

  Ends-quiet :
      (s : Control) (o : Option Control) → InStep s → Ends (IsQuietSince s) o → Ends InStep o
  Ends-quiet s none f q = tt
  Ends-quiet s (some s') f q = quiet-Followed session own my c₀ s s' q f

  packet-Followed :
      (n : ℕ)
      → n + 1 < 4294967296
      → (loaded : Option (ℕ × Bytes)) (time : Bytes) (now k ip : ℕ) (p : Packet) (s : Control)
      → Spares session own (packet loaded time now k ip p)
      → Within t.max n s
      → InStep s
      → Ends InStep (recv_finish_handler j t loaded time now k ip p s)
  unfolding recv_finish_handler
  packet-Followed n h loaded time now k ip (say_hello (some hello)) s sp w f =
      hello-Followed n h now k ip hello s sp.0 sp.1 w f
  packet-Followed n h loaded time now k ip p s sp w f =
      Ends-quiet s (recv_finish_handler j t loaded time now k ip p s) f
        (packet-quiet j t loaded time now k ip p s refl)

  step-Followed :
      (n : ℕ)
      → n + 1 < 4294967296
      → (e : Event) (s : Control) → Spares session own e
      → Within t.max n s
      → InStep s
      → Ends InStep (step j t e s)
  step-Followed n h (packet loaded time now k ip p) s sp w f =
      packet-Followed n h loaded time now k ip p s sp w f
  step-Followed n h (timeout true a) s sp w f = unfold server_timeout in f
  step-Followed n h (timeout false a) s sp w f =
      timeout-Followed session own my c₀ t.max n h a s sp w f
  step-Followed n h (startup cancelled) s sp w f =
      startup-Followed session own my c₀ t.max n h cancelled s w f
  step-Followed n h (keep_alive now k) s sp w f = keep_alive-Followed session own my c₀ now k s f
  step-Followed n h (handler_called k) s sp w f = absurd sp

  pub run-Followed :
      (es : List Event) (n : ℕ) (s : Control)
      → n + length es < 4294967296
      → All (Spares session own) es
      → Within t.max n s
      → InStep s
      → Ends InStep (run j t es s)
  run-Followed [] n s h sp w f = f
  run-Followed (e ∷ es) n s h (spe, sp) w f =
      by_step (step j t e s) (step-Within j t n (omega arith) e s w)
        (step-Followed n (omega arith) e s spe w f)
        (λ s' w' f'. run-Followed es (n + 1) s' (omega arith) sp w' f')
    where
      by_step :
          (o : Option Control)
          → Ends (Within t.max (n + 1)) o
          → Ends InStep o
          → ((s' : Control) → Within t.max (n + 1) s' → InStep s' → Ends InStep (run j t es s'))
          → Ends InStep (elim o [ none ↦ none | some s' ↦ run j t es s' ])
      by_step none w' f' rest = tt
      by_step (some s') w' f' rest = rest s' w' f'
