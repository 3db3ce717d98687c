-- ===== src/Directory/Packets.antt =====
-- The packets of the control server but the hello are quiet.
use lalune_server.Base.{
  ℕ, ◌≡◌, refl, Bool, true, false, List, [], ◌∷◌, ◌++◌, Option, none, some, Bytes, if_cases, ◌==◌,
  nat_key, pair_key, bytes_key, arith,
}
use lalune_server.Base.Maps.{lookup}
use lalune_server.Base.Text.{codes}
use lalune_server.ServerTypes.{ServerTypes}
use lalune_server.Configs.{Rapidjson, Store, write_config, initialize_configs}
use lalune_server.Protocol.{
  RefreshConfig, ConfigFile, refresh_config, refresh_config_response, cmd_result, cmd2server,
}
use lalune_server.Control.{
  Control, Packet, send_to_server_group, recv_initialize, recv_cmd2server, recv_fetch_config,
  write_files, recv_refresh_config, send_configs, recv_cmd, recv_finish_handler, reply_msg,
  type_of_cmd, localhost, too_short, initialize_in, say_hello, report_load, cmd2server_in,
  refresh_config_in, fetch_config_request, control_server_cmd, other,
}
use lalune_server.Control.Runs.{Ends}
use lalune_server.Directory.Quiet.{
  IsQuietSince, quiet_refl, reply-IsQuietSince, send_to_server_group-IsQuietSince,
  send_configs-IsQuietSince, store-IsQuietSince,
}

module _ {Value : Type 0} (j : Rapidjson Value) (t : ServerTypes) where
  write_files-quiet :
      (time : Bytes) (rc : RefreshConfig) (base : Control) (fs : List ConfigFile) (s : Control)
      → IsQuietSince base s
      → Ends (IsQuietSince base) (write_files j t time rc fs s)
  unfolding write_files
  write_files-quiet time rc base [] s h = h
  write_files-quiet time rc base (f ∷ fs) s h =
      by_store (write_config j t time (type_of_cmd rc.server_type) f.file_name f.content s.store)
        refl
        (λ store'. write_files-quiet time rc base fs _ (
          send_to_server_group-IsQuietSince base (type_of_cmd rc.server_type) (refresh_config rc)
            (record s { store = store' }) refl (store-IsQuietSince base s store' h)))
    where
      by_store :
          (o : Option Store)
          → write_config j t time (type_of_cmd rc.server_type) f.file_name f.content s.store ≡ o
          → ((store' : Store)
              → Ends (IsQuietSince base) (
                  write_files j t time rc fs (
                    send_to_server_group
                      (type_of_cmd rc.server_type)
                      (refresh_config rc)
                      (record s { store = store' }))))
          → Ends (IsQuietSince base) (write_files j t time rc (f ∷ fs) s)
      by_store none e rest = rw (write_files, e) tt
      by_store (some store') e rest = rw (write_files, e) (rest store')

  recv_refresh_config-quiet :
      (time : Bytes) (session : ℕ) (rc : RefreshConfig) (s : Control)
      → Ends (IsQuietSince s) (recv_refresh_config j t time session rc s)
  unfolding recv_refresh_config
  recv_refresh_config-quiet time session rc s =
      elim (lookup (type_of_cmd rc.server_type) s.server_groups)
        as (λ o. Ends (IsQuietSince s) (elim o [
          | none ↦ some s
          | some g ↦ elim (write_files j t time rc rc.file s) [
            | none ↦ none
            | some s' ↦ some (reply_msg session refresh_config_response s')
          ]
        ])) [
          | none ↦ quiet_refl s
          | some g ↦
              by_written (write_files j t time rc rc.file s)
                (write_files-quiet time rc s rc.file s (quiet_refl s))
        ]
    where
      by_written :
          (o : Option Control)
          → Ends (IsQuietSince s) o
          → Ends (IsQuietSince s) (elim o [
            | none ↦ none
            | some s' ↦ some (reply_msg session refresh_config_response s')
          ])
      by_written none h = tt
      by_written (some s') h = reply-IsQuietSince s s' session refresh_config_response refl h

  recv_cmd-quiet :
      (loaded : Option (ℕ × Bytes)) (session : ℕ) (name : Bytes) (s : Control)
      → Ends (IsQuietSince s) (recv_cmd j t loaded session name s)
  unfolding recv_cmd
  recv_cmd-quiet loaded session name s =
      if_cases (Ends (IsQuietSince s)) (name == codes "reload") _ _ (λ is. by_loaded loaded)
        (λ isnt.
          if_cases (Ends (IsQuietSince s)) (name == codes "refresh_config") _ _
            (λ is. by_store (initialize_configs j t s.store))
            (λ isnt.
              reply-IsQuietSince s s session
                (cmd_result (codes "CommandName not recognized: " ++ name)) refl (quiet_refl s)))
    where
      by_loaded :
          (o : Option (ℕ × Bytes))
          → IsQuietSince s (
              reply_msg session (cmd_result (codes "config reloaded.")) (elim o [
                | none ↦ s
                | some (secs, list) ↦ record s {
                  timeout_sec = secs;
                  store = record s.store { server_configs_list_file = list };
                }
              ]))
      by_loaded none =
          reply-IsQuietSince s s session (cmd_result (codes "config reloaded.")) refl (quiet_refl s)
      by_loaded (some (secs, list)) =
          reply-IsQuietSince s
            (record s {
              timeout_sec = secs;
              store = record s.store { server_configs_list_file = list };
            })
            session (cmd_result (codes "config reloaded.")) refl
            (let q = quiet_refl s in
              record { same = q.same; mail = q.mail; sent_more = q.sent_more; quiet = q.quiet })

      by_store :
          (o : Option Store)
          → Ends (IsQuietSince s) (elim o [
            | none ↦ none
            | some store' ↦ some (
                reply_msg session
                  (cmd_result (codes "all the configs have been refreshed."))
                  (send_configs store'.configs (record s { store = store' })))
          ])
      by_store none = tt
      by_store (some store') =
          reply-IsQuietSince s (send_configs store'.configs (record s { store = store' })) session
            (cmd_result (codes "all the configs have been refreshed.")) refl
            (send_configs-IsQuietSince s store'.configs (record s { store = store' })
              (store-IsQuietSince s s store' (quiet_refl s)))

  abbrev pub is_hello : Packet → Bool
  is_hello (say_hello (some hello)) = true
  is_hello p = false

  pub packet-quiet :
      (loaded : Option (ℕ × Bytes)) (time : Bytes) (now session remote_ip : ℕ) (p : Packet)
      (s : Control)
      → is_hello p ≡ false
      → Ends (IsQuietSince s) (recv_finish_handler j t loaded time now session remote_ip p s)
  unfolding recv_finish_handler recv_initialize recv_cmd2server recv_fetch_config
  packet-quiet loaded time now session ip (say_hello (some hello)) s q = absurd (ground arith)
  packet-quiet loaded time now session ip (say_hello none) s q = quiet_refl s
  packet-quiet loaded time now session ip (refresh_config_in (some rc)) s q =
      recv_refresh_config-quiet time session rc s
  packet-quiet loaded time now session ip (refresh_config_in none) s q = quiet_refl s
  packet-quiet loaded time now session ip (control_server_cmd (some name)) s q =
      if_cases (Ends (IsQuietSince s)) (ip == localhost) _ _
        (λ is. recv_cmd-quiet loaded session name s) (λ isnt. quiet_refl s)
  packet-quiet loaded time now session ip (control_server_cmd none) s q =
      if_cases (Ends (IsQuietSince s)) (ip == localhost) _ _
        (λ is.
          reply-IsQuietSince s s session (cmd_result (codes "Protobuf parse failed")) refl
            (quiet_refl s))
        (λ isnt. quiet_refl s)
  packet-quiet loaded time now session ip (cmd2server_in (some cmd)) s q =
      send_to_server_group-IsQuietSince s (type_of_cmd cmd.to_server_type)
        (cmd2server (record cmd { to_server_type = none })) s refl (quiet_refl s)
  packet-quiet loaded time now session ip (cmd2server_in none) s q = quiet_refl s
  packet-quiet loaded time now session ip (initialize_in (some ty)) s q =
      reply-IsQuietSince s s session _ refl (quiet_refl s)
  packet-quiet loaded time now session ip (initialize_in none) s q = quiet_refl s
  packet-quiet loaded time now session ip (fetch_config_request (some (ty, name))) s q =
      reply-IsQuietSince s s session _ refl (quiet_refl s)
  packet-quiet loaded time now session ip (fetch_config_request none) s q = quiet_refl s
  packet-quiet loaded time now session ip too_short s q = quiet_refl s
  packet-quiet loaded time now session ip report_load s q = quiet_refl s
  packet-quiet loaded time now session ip other s q = quiet_refl s
