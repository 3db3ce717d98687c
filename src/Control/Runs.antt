-- ===== src/Control/Runs.antt =====
-- Runs of the control server from its start.
use mathlib.Core.Path.{subst}
use mathlib.Core.Option.{none-ne-some}
use lalune_server.Base.{
  ℕ, zero, suc, ◌+◌, ◌<◌, ◌≡◌, refl, ◌∙◌, Bool, true, false, List, [], ◌∷◌, ◌++◌, Option, none,
  some, if◌then◌else◌, if_cases, ◌==◌, leb, nat_key, pair_key, bytes_key, arith, Bytes, length,
}
use lalune_server.Base.Maps.{lookup}
use lalune_server.Ids.{Ids, init}
use lalune_server.ServerTypes.{ServerTypes}
use lalune_server.Configs.{Rapidjson, Store, write_config, initialize_configs}
use lalune_server.Base.Text.{codes}
use lalune_server.Protocol.{
  RefreshConfig, ConfigFile, cmd2server, refresh_config, refresh_config_response, cmd_result,
}
use lalune_server.Control.{
  IpPort, ServerGroup, Control, Packet, empty_groups, initialize, server_timeout, startup_timer,
  disconnected_handler, recv_keep_alive_handler, recv_finish_handler, inform_address_info,
  send_to_server_group, recv_cmd2server, write_files, recv_refresh_config, send_configs, recv_cmd,
  recv_initialize, recv_fetch_config, type_of_cmd, localhost, too_short, initialize_in, say_hello,
  report_load, cmd2server_in, refresh_config_in, fetch_config_request, control_server_cmd, other,
  reply_msg,
}
use lalune_server.Control.Members.{Infos, Groups}
use lalune_server.Control.Events.{
  members, Consistent, Within, send_to_server_group-members, same_members, later,
  recv_say_hello-Consistent, server_timeout-Consistent, keep_alive-Consistent,
}

-- What can happen: `handler_called` is a call of `DisconnectedHandler`, which NetLib does not make.
pub data Event : Type 0 where
  packet : Option (ℕ × Bytes) → Bytes → ℕ → ℕ → ℕ → Packet → Event
  timeout : Bool → IpPort → Event
  startup : Bool → Event
  keep_alive : ℕ → ℕ → Event
  handler_called : ℕ → Event

-- No result is the end of the program, on a file that cannot be opened.
abbrev pub Ends : (Control → Type 0) → Option Control → Type 0
Ends P none = Unit
Ends P (some s) = P s

send_configs-members :
    (l : List ((ℕ × Bytes) × Bytes)) (s : Control) → members (send_configs l s) ≡ members s
unfolding send_configs
send_configs-members [] s = refl
send_configs-members (((ty, name), content) ∷ l) s =
    send_configs-members l _ ∙ send_to_server_group-members ty _ s

startup_timer-members :
    (cancelled : Bool) (s : Control) → members (startup_timer cancelled s) ≡ members s
unfolding startup_timer inform_address_info
startup_timer-members true s = refl
startup_timer-members false s = refl

disconnected_handler-members :
    (session : ℕ) (s : Control) → members (disconnected_handler session s) ≡ members s
unfolding disconnected_handler
disconnected_handler-members session s = ground arith

lookup-snoc :
    (ty k : ℕ) (g : ServerGroup) (m : Groups)
    → lookup ty (m ++ (k, g) ∷ [])
      ≡ (elim (lookup ty m) [ some w ↦ some w | none ↦ if k == ty then some g else none ])
lookup-snoc ty k g [] = ground arith
lookup-snoc ty k g ((i, w) ∷ m) = ground (arith, lookup-snoc ty k g m)

empty_groups-lookup : (n ty : ℕ) → lookup ty (empty_groups n) ≡ (if leb ty n then some [] else none)
unfolding empty_groups
empty_groups-lookup zero ty = ground arith
empty_groups-lookup (suc n) ty =
    ground (arith, lookup-snoc ty (suc n) [] (empty_groups n), empty_groups-lookup n ty)

-- A server that has just started: nobody is known.
initialize-Consistent :
    (t : ServerTypes) (timeout_sec : ℕ) (store : Store)
    → Consistent t.max (initialize t timeout_sec store)
unfolding initialize init
initialize-Consistent t timeout_sec store = record {
  address = λ a i h. absurd (none-ne-some i h);
  id_pos = λ a i h. absurd (none-ne-some i h);
  id_given = λ a i h. absurd (none-ne-some i h);
  id_out = λ a i h. absurd (none-ne-some i h);
  distinct = λ a b i k h h' e. absurd (none-ne-some i h);
  pool = record { once = λ x. omega arith; given = λ x h. ground arith; pos = omega arith };
  groups_to_max = λ ty. ground (arith, empty_groups-lookup t.max ty);
  grouped = λ a ty. ground (arith, empty_groups-lookup t.max ty);
}

module _ {Value : Type 0} (j : Rapidjson Value) (t : ServerTypes) where
  write_files-members :
      (time : Bytes) (rc : RefreshConfig) (m : Ids × Infos × Groups) (fs : List ConfigFile)
      (s : Control)
      → members s ≡ m
      → Ends (λ s'. members s' ≡ m) (write_files j t time rc fs s)
  unfolding write_files
  write_files-members time rc m [] s h = h
  write_files-members time rc m (f ∷ fs) s h =
      by_store (write_config j t time (type_of_cmd rc.server_type) f.file_name f.content s.store)
        refl
        (λ store'. write_files-members time rc m fs _ (
          send_to_server_group-members (type_of_cmd rc.server_type) (refresh_config rc)
            (record s { store = store' })
          ∙ h))
    where
      by_store :
          (o : Option Store)
          → write_config j t time (type_of_cmd rc.server_type) f.file_name f.content s.store ≡ o
          → ((store' : Store)
              → Ends
                  (λ s'. members s' ≡ m)
                  (write_files j t time rc fs (
                    send_to_server_group
                      (type_of_cmd rc.server_type)
                      (refresh_config rc)
                      (record s { store = store' }))))
          → Ends (λ s'. members s' ≡ m) (write_files j t time rc (f ∷ fs) s)
      by_store none e rest = rw (write_files, e) tt
      by_store (some store') e rest = rw (write_files, e) (rest store')

  recv_refresh_config-members :
      (time : Bytes) (session : ℕ) (rc : RefreshConfig) (s : Control)
      → Ends (λ s'. members s' ≡ members s) (recv_refresh_config j t time session rc s)
  unfolding recv_refresh_config
  recv_refresh_config-members time session rc s =
      elim (lookup (type_of_cmd rc.server_type) s.server_groups)
        as (λ o.
          Ends (λ s'. members s' ≡ members s)
            (elim o [
              | none ↦ some s
              | some g ↦ elim (write_files j t time rc rc.file s) [
                | none ↦ none
                | some s' ↦ some (reply_msg session refresh_config_response s')
              ]
            ])) [
              | none ↦ refl
              | some g ↦
                  by_written (write_files j t time rc rc.file s)
                    (write_files-members time rc (members s) rc.file s refl)
            ]
    where
      by_written :
          (o : Option Control)
          → Ends (λ s'. members s' ≡ members s) o
          → Ends
              (λ s'. members s' ≡ members s)
              (elim o [
                | none ↦ none
                | some s' ↦ some (reply_msg session refresh_config_response s')
              ])
      by_written none h = tt
      by_written (some s') h = h

  recv_cmd-members :
      (loaded : Option (ℕ × Bytes)) (session : ℕ) (name : Bytes) (s : Control)
      → Ends (λ s'. members s' ≡ members s) (recv_cmd j t loaded session name s)
  unfolding recv_cmd
  recv_cmd-members loaded session name s =
      if_cases (Ends (λ s'. members s' ≡ members s)) (name == codes "reload") _ _
        (λ is. ground arith)
        (λ isnt.
          if_cases (Ends (λ s'. members s' ≡ members s)) (name == codes "refresh_config") _ _
            (λ is. by_store (initialize_configs j t s.store)) (λ isnt. refl))
    where
      by_store :
          (o : Option Store)
          → Ends
              (λ s'. members s' ≡ members s)
              (elim o [
                | none ↦ none
                | some store' ↦ some (
                    reply_msg session
                      (cmd_result (codes "all the configs have been refreshed."))
                      (send_configs store'.configs (record s { store = store' })))
              ])
      by_store none = tt
      by_store (some store') = send_configs-members store'.configs (record s { store = store' })

  abbrev pub step : Event → Control → Option Control
  step (packet loaded time now session remote_ip p) s =
      recv_finish_handler j t loaded time now session remote_ip p s
  step (timeout cancelled a) s = some (server_timeout cancelled a s)
  step (startup cancelled) s = some (startup_timer cancelled s)
  step (keep_alive now session) s = some (recv_keep_alive_handler now session s)
  step (handler_called session) s = some (disconnected_handler session s)

  abbrev pub run : List Event → Control → Option Control
  run [] s = some s
  run (e ∷ es) s = elim (step e s) [ none ↦ none | some s' ↦ run es s' ]

  module _ (n : ℕ) (h : n + 1 < 4294967296) where
    by_members :
        (s : Control) (o : Option Control)
        → Within t.max n s
        → Ends (λ s'. members s' ≡ members s) o
        → Ends (Within t.max (n + 1)) o
    by_members s none c e = tt
    by_members s (some s') c e = same_members t.max n h (n + 1) s s' e (later t.max n h s c)

    packet-Within :
        (loaded : Option (ℕ × Bytes)) (time : Bytes) (now session remote_ip : ℕ) (p : Packet)
        (s : Control)
        → Within t.max n s
        → Ends
            (Within t.max (n + 1))
            (recv_finish_handler j t loaded time now session remote_ip p s)
    unfolding recv_finish_handler recv_initialize recv_cmd2server recv_fetch_config
    packet-Within loaded time now session ip (say_hello (some hello)) s c =
        recv_say_hello-Consistent t.max n h now session ip hello s c
    packet-Within loaded time now session ip (say_hello none) s c = later t.max n h s c
    packet-Within loaded time now session ip (refresh_config_in (some rc)) s c =
        by_members s _ c (recv_refresh_config-members time session rc s)
    packet-Within loaded time now session ip (refresh_config_in none) s c = later t.max n h s c
    packet-Within loaded time now session ip (control_server_cmd (some name)) s c =
        if_cases (Ends (Within t.max (n + 1))) (ip == localhost) _ _
          (λ is. by_members s _ c (recv_cmd-members loaded session name s))
          (λ isnt. later t.max n h s c)
    packet-Within loaded time now session ip (control_server_cmd none) s c =
        if_cases (Ends (Within t.max (n + 1))) (ip == localhost) _ _ (λ is. later t.max n h s c)
          (λ isnt. later t.max n h s c)
    packet-Within loaded time now session ip (cmd2server_in (some cmd)) s c =
        same_members t.max n h (n + 1) s (recv_cmd2server cmd s)
          (send_to_server_group-members (type_of_cmd cmd.to_server_type)
            (cmd2server (record cmd { to_server_type = none })) s)
          (later t.max n h s c)
    packet-Within loaded time now session ip (cmd2server_in none) s c = later t.max n h s c
    packet-Within loaded time now session ip (initialize_in (some ty)) s c = later t.max n h s c
    packet-Within loaded time now session ip (initialize_in none) s c = later t.max n h s c
    packet-Within loaded time now session ip (fetch_config_request (some (ty, name))) s c =
        later t.max n h s c
    packet-Within loaded time now session ip (fetch_config_request none) s c = later t.max n h s c
    packet-Within loaded time now session ip too_short s c = later t.max n h s c
    packet-Within loaded time now session ip report_load s c = later t.max n h s c
    packet-Within loaded time now session ip other s c = later t.max n h s c

    pub step-Within :
        (e : Event) (s : Control) → Within t.max n s → Ends (Within t.max (n + 1)) (step e s)
    step-Within (packet loaded time now session ip p) s c =
        packet-Within loaded time now session ip p s c
    step-Within (timeout cancelled a) s c = server_timeout-Consistent t.max n h cancelled a s c
    step-Within (startup cancelled) s c =
        same_members t.max n h (n + 1) s (startup_timer cancelled s)
          (startup_timer-members cancelled s) (later t.max n h s c)
    step-Within (keep_alive now session) s c = keep_alive-Consistent t.max n h now session s c
    step-Within (handler_called session) s c =
        same_members t.max n h (n + 1) s (disconnected_handler session s)
          (disconnected_handler-members session s) (later t.max n h s c)

  pub run-Within :
      (es : List Event) (n : ℕ) (s : Control)
      → n + length es < 4294967296
      → Within t.max n s
      → Ends (Within t.max (n + length es)) (run es s)
  run-Within [] n s h c = (c.0, omega (arith, c.1))
  run-Within (e ∷ es) n s h c =
      by_step (step e s) (step-Within n (omega arith) e s c)
        (λ s' c'. run-Within es (n + 1) s' (omega arith) c')
    where
      shifted :
          (o : Option Control)
          → Ends (Within t.max (n + 1 + length es)) o
          → Ends (Within t.max (n + length (e ∷ es))) o
      shifted none c' = tt
      shifted (some s') c' = (c'.0, omega (arith, c'.1))

      by_step :
          (o : Option Control)
          → Ends (Within t.max (n + 1)) o
          → ((s' : Control)
              → Within t.max (n + 1) s'
              → Ends (Within t.max (n + 1 + length es)) (run es s'))
          → Ends (Within t.max (n + length (e ∷ es))) (elim o [ none ↦ none | some s' ↦ run es s' ])
      by_step none c' rest = tt
      by_step (some s') c' rest = shifted (run es s') (rest s' c')

  -- From the start.
  pub run-initialize-Within :
      (timeout_sec : ℕ) (store : Store) (es : List Event) (s : Control)
      → length es < 4294967295
      → run es (initialize t timeout_sec store) ≡ some s
      → Within t.max (1 + length es) s
  unfolding initialize init
  run-initialize-Within timeout_sec store es s h e = subst (Ends (Within t.max (1 + length es))) e (
      run-Within es 1 (initialize t timeout_sec store) (omega arith)
        (initialize-Consistent t timeout_sec store, omega arith))

  -- Fewer than 2 ^ 32 - 1 events after its start, if the program still runs, every known server's
  -- address is its key, its id is at least 1, no other server's and not in the pool, and the group of
  -- a type up to the largest has exactly the known servers of the type.
  pub run-initialize-Consistent :
      (timeout_sec : ℕ) (store : Store) (es : List Event) (s : Control)
      → length es < 4294967295
      → run es (initialize t timeout_sec store) ≡ some s
      → Consistent t.max s
  run-initialize-Consistent timeout_sec store es s h e =
      (run-initialize-Within timeout_sec store es s h e).0
