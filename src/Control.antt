-- ===== src/Control.antt =====
-- ControlServer/: the server that knows where the other servers are, gives them ids, tells each of the
-- others, and keeps their configurations. A session is a number; its remote address comes with each
-- call. What the code sends stands in `sent`, in the order of the calls.
pub mod Pool
pub mod Members
pub mod Joining
pub mod Events
pub mod Runs
use lalune_server.Base.{
  ℕ, zero, suc, ◌+◌, ◌*◌, ◌≤◌, Bool, true, false, not, List, [], ◌∷◌, ◌++◌, Option, none, some,
  if◌then◌else◌, ◌==◌, nat_key, pair_key, bytes_key, Bytes,
}
use lalune_server.Base.Maps.{lookup, insert, erase}
use lalune_server.Base.Text.{codes}
use lalune_server.Ids.{Ids, get_id, release_id, init}
use lalune_server.Configs.{Store, Rapidjson, read_config, write_config, initialize_configs}
use lalune_server.Protocol.{
  AddressInfo, ConfigFile, Cmd2Server, RefreshConfig, Hello, Message, say_hello_result,
  addr_info_add, addr_info_remove, addr_info_restart, addr_info_refresh, cmd2server, refresh_config,
  refresh_config_response, fetch_config_response, cmd_result,
}
use lalune_server.ServerTypes.{ServerTypes}

abbrev pub IpPort : Type 0
IpPort = ℕ × ℕ

-- `deadline`: when its timer runs out, in seconds.
pub record ServerInfo : Type 0 where
  pub addr : AddressInfo
  pub deadline : ℕ

-- A set of addresses as a map to the unit type.
abbrev pub ServerGroup : Type 0
ServerGroup = List (IpPort × Unit {0})

-- The variables of the program. `attached` is the attached data of the sessions.
pub record Control : Type 0 where
  pub during_startup : Bool
  pub timeout_sec : ℕ
  pub available_ids : Ids
  pub server2session : List (IpPort × ℕ)
  pub servers_info : List (IpPort × ServerInfo)
  pub server_groups : List (ℕ × ServerGroup)
  pub attached : List (ℕ × IpPort)
  pub store : Store
  pub sent : List (ℕ × Message)

abbrev pub reply_msg : ℕ → Message → Control → Control
reply_msg session m s = record s { sent = s.sent ++ (session, m) ∷ [] }

unfoldable pub send_each : List (IpPort × ℕ) → Message → List (ℕ × Message)
send_each [] m = []
send_each ((a, session) ∷ l) m = (session, m) ∷ send_each l m

unfoldable pub inform_address_info : Message → Control → Control
unfolding send_each
inform_address_info m s = record s { sent = s.sent ++ send_each s.server2session m }

unfoldable pub generate_address_list : List (IpPort × ServerInfo) → List AddressInfo
generate_address_list [] = []
generate_address_list ((a, info) ∷ l) = info.addr ∷ generate_address_list l

-- The groups of the types from 0 to the largest.
unfoldable pub empty_groups : ℕ → List (ℕ × ServerGroup)
empty_groups zero = (0, []) ∷ []
empty_groups (suc n) = empty_groups n ++ (suc n, []) ∷ []

-- The program after `Initialize`, with the configurations as they are read.
unfoldable pub initialize : ServerTypes → ℕ → Store → Control
unfolding empty_groups init
initialize t timeout_sec store = record {
  during_startup = true;
  timeout_sec = timeout_sec;
  available_ids = init;
  server2session = [];
  servers_info = [];
  server_groups = empty_groups t.max;
  attached = [];
  store = store;
  sent = [];
}

-- A group without an address, and with it: a type that has no group is left alone.
abbrev pub erase_in : IpPort → ℕ → List (ℕ × ServerGroup) → List (ℕ × ServerGroup)
erase_in a ty groups = elim (lookup ty groups) [
  | none ↦ groups
  | some g ↦ insert ty (erase a g) groups
]

abbrev pub insert_in : IpPort → ℕ → List (ℕ × ServerGroup) → List (ℕ × ServerGroup)
insert_in a ty groups = elim (lookup ty groups) [
  | none ↦ groups
  | some g ↦ insert ty (insert a tt g) groups
]

-- `cancelled`: the timer was set anew, or its server is gone.
unfoldable pub server_timeout : Bool → IpPort → Control → Control
unfolding inform_address_info
server_timeout cancelled a s = if cancelled then s else elim (lookup a s.servers_info) [
  | none ↦ s
  | some info ↦
      let s' = inform_address_info (addr_info_remove info.addr) s in
      record s' {
        server_groups = erase_in a info.addr.server_type s'.server_groups;
        available_ids = release_id info.addr.server_id s'.available_ids;
        servers_info = erase a s'.servers_info;
      }
]

unfoldable pub startup_timer : Bool → Control → Control
unfolding inform_address_info generate_address_list
startup_timer cancelled s =
    if cancelled
    then s
    else inform_address_info (addr_info_refresh (generate_address_list s.servers_info))
        (record s { during_startup = false })

abbrev pub refresh : ℕ → ℕ → ServerInfo → ServerInfo
refresh now timeout_sec info = record info { deadline = now + timeout_sec }

-- The base class has `DisconnectedHandler` with two parameters more, so NetLib does not call this.
unfoldable pub disconnected_handler : ℕ → Control → Control
disconnected_handler session s = elim (lookup session s.attached) [
  | none ↦ s
  | some a ↦ record s { server2session = erase a s.server2session }
]

unfoldable pub recv_keep_alive_handler : ℕ → ℕ → Control → Control
recv_keep_alive_handler now session s = elim (lookup session s.attached) [
  | none ↦ s
  | some a ↦ elim (lookup a s.servers_info) [
    | none ↦ s
    | some info ↦ record s {
      servers_info = insert a (refresh now s.timeout_sec info) s.servers_info;
    }
  ]
]

unfoldable pub to_group : Message → ServerGroup → List (IpPort × ℕ) → List (ℕ × Message)
to_group m [] sessions = []
to_group m ((a, u) ∷ g) sessions = elim (lookup a sessions) [
  | none ↦ to_group m g sessions
  | some session ↦ (session, m) ∷ to_group m g sessions
]

-- To each server of a type, if the type has a group.
unfoldable pub send_to_server_group : ℕ → Message → Control → Control
unfolding to_group
send_to_server_group ty m s = elim (lookup ty s.server_groups) [
  | none ↦ s
  | some g ↦ record s { sent = s.sent ++ to_group m g s.server2session }
]

unfoldable pub configs_of : ℕ → List ((ℕ × Bytes) × Bytes) → List ConfigFile
configs_of ty [] = []
configs_of ty (((t, name), content) ∷ l) =
    if t == ty
    then record { file_name = name; content = content } ∷ configs_of ty l
    else configs_of ty l

-- A server asks for its configurations.
unfoldable pub recv_initialize : ℕ → ℕ → Control → Control
unfolding configs_of
recv_initialize session ty s =
    reply_msg session
      (refresh_config (record { server_type = some ty; file = configs_of ty s.store.configs })) s

-- A server that was not known gets an id and is put among the others of its type.
unfoldable pub add_server : ℕ → ℕ → IpPort → ℕ → Control → Control
unfolding get_id inform_address_info
add_server now session a ty s =
    let (id, ids) = get_id s.available_ids in
    let addr : AddressInfo = record { ip = a.0; port = a.1; server_id = id; server_type = ty } in
    let s₁ = reply_msg session (say_hello_result id) (record s {
      available_ids = ids;
      servers_info =
          insert a (record { addr = addr; deadline = now + s.timeout_sec }) s.servers_info;
      server_groups = insert_in a ty s.server_groups;
    }) in
    if s₁.during_startup then s₁ else inform_address_info (addr_info_add addr) s₁

-- A server that is known and starts again keeps its id and its type.
unfoldable pub restart_server : ℕ → ℕ → IpPort → ServerInfo → Control → Control
unfolding inform_address_info
restart_server now session a info s =
    let s₁ =
      reply_msg session (say_hello_result info.addr.server_id)
        (record s { servers_info = insert a (refresh now s.timeout_sec info) s.servers_info }) in
    if s₁.during_startup then s₁ else inform_address_info (addr_info_restart info.addr.server_id) s₁

unfoldable pub start_server : ℕ → ℕ → IpPort → ℕ → Control → Control
unfolding add_server restart_server
start_server now session a ty s = elim (lookup a s.servers_info) [
  | none ↦ add_server now session a ty s
  | some info ↦ restart_server now session a info s
]

unfoldable pub send_list : ℕ → Control → Control
unfolding generate_address_list
send_list session s =
    if s.during_startup
    then s
    else reply_msg session (addr_info_refresh (generate_address_list s.servers_info)) s

unfoldable pub recv_say_hello : ℕ → ℕ → ℕ → Hello → Control → Control
unfolding start_server send_list
recv_say_hello now session remote_ip hello s =
    let a : IpPort = (remote_ip, hello.my_listening_port) in
    let s₁ = record s {
      attached = insert session a s.attached;
      server2session = insert a session s.server2session;
    } in
    if hello.is_server_start == 1
    then send_list session (start_server now session a hello.server_type s₁)
    else s₁

abbrev pub type_of_cmd : Option ℕ → ℕ
type_of_cmd none = 0
type_of_cmd (some ty) = ty

-- A command goes to every server of the type, without the type.
unfoldable pub recv_cmd2server : Cmd2Server → Control → Control
unfolding send_to_server_group
recv_cmd2server cmd s =
    send_to_server_group (type_of_cmd cmd.to_server_type)
      (cmd2server (record cmd { to_server_type = none })) s

unfoldable pub recv_fetch_config : ℕ → Option ℕ → Bytes → Control → Control
unfolding read_config
recv_fetch_config session ty name s =
    let content : Bytes = elim (read_config (type_of_cmd ty) name s.store) [
      | none ↦ []
      | some c ↦ c
    ] in
    reply_msg session (fetch_config_response (record { file_name = name; content = content })) s

-- What came in, as far as its header and protobuf's parser say: `none` is a body that does not parse.
pub data Packet : Type 0 where
  too_short : Packet
  initialize_in : Option ℕ → Packet
  say_hello : Option Hello → Packet
  report_load : Packet
  cmd2server_in : Option Cmd2Server → Packet
  refresh_config_in : Option RefreshConfig → Packet
  fetch_config_request : Option (Option ℕ × Bytes) → Packet
  control_server_cmd : Option Bytes → Packet
  other : Packet

-- 127.0.0.1
abbrev pub localhost : ℕ
localhost = 2130706433

-- Each configuration goes to the servers of its type, in a message that does not say the type.
unfoldable pub send_configs : List ((ℕ × Bytes) × Bytes) → Control → Control
unfolding send_to_server_group
send_configs [] s = s
send_configs (((ty, name), content) ∷ l) s =
    let f : ConfigFile = record { file_name = name; content = content } in
    send_configs l
      (send_to_server_group ty (refresh_config (record { server_type = none; file = f ∷ [] })) s)

module _ {Value : Type 0} (j : Rapidjson Value) (t : ServerTypes) where
  -- The files of a message, one after another: each is written, and then the whole message is sent.
  unfoldable pub write_files : Bytes → RefreshConfig → List ConfigFile → Control → Option Control
  unfolding write_config send_to_server_group
  write_files time rc [] s = some s
  write_files time rc (f ∷ fs) s =
      elim (write_config j t time (type_of_cmd rc.server_type) f.file_name f.content s.store) [
        | none ↦ none
        | some store' ↦ write_files time rc fs (
            send_to_server_group (type_of_cmd rc.server_type) (refresh_config rc)
              (record s { store = store' }))
      ]

  unfoldable pub recv_refresh_config : Bytes → ℕ → RefreshConfig → Control → Option Control
  unfolding write_files
  recv_refresh_config time session rc s =
      elim (lookup (type_of_cmd rc.server_type) s.server_groups) [
        | none ↦ some s
        | some g ↦ elim (write_files time rc rc.file s) [
          | none ↦ none
          | some s' ↦ some (reply_msg session refresh_config_response s')
        ]
      ]

  -- What the operator's program sends. `loaded` is what `LoadConfig` reads of the ini file, if it can.
  unfoldable pub recv_cmd : Option (ℕ × Bytes) → ℕ → Bytes → Control → Option Control
  unfolding initialize_configs send_configs
  recv_cmd loaded session name s =
      if name == codes "reload"
      then some (
          reply_msg session (cmd_result (codes "config reloaded.")) (elim loaded [
            | none ↦ s
            | some (secs, list) ↦ record s {
              timeout_sec = secs;
              store = record s.store { server_configs_list_file = list };
            }
          ]))
      else (if name == codes "refresh_config"
          then (elim (initialize_configs j t s.store) [
            | none ↦ none
            | some store' ↦ some (
                reply_msg session (cmd_result (codes "all the configs have been refreshed."))
                  (send_configs store'.configs (record s { store = store' })))
          ])
          else some
              (reply_msg session (cmd_result (codes "CommandName not recognized: " ++ name)) s))

  -- One packet. No result: the program opened a file that is not there.
  unfoldable pub recv_finish_handler :
      Option (ℕ × Bytes) → Bytes → ℕ → ℕ → ℕ → Packet → Control → Option Control
  unfolding recv_initialize recv_say_hello recv_cmd2server recv_refresh_config recv_fetch_config
      recv_cmd
  recv_finish_handler loaded time now session remote_ip (initialize_in (some ty)) s =
      some (recv_initialize session ty s)
  recv_finish_handler loaded time now session remote_ip (say_hello (some hello)) s =
      some (recv_say_hello now session remote_ip hello s)
  recv_finish_handler loaded time now session remote_ip (cmd2server_in (some cmd)) s =
      some (recv_cmd2server cmd s)
  recv_finish_handler loaded time now session remote_ip (refresh_config_in (some rc)) s =
      recv_refresh_config time session rc s
  recv_finish_handler loaded time now session remote_ip (fetch_config_request (some (ty, name))) s =
      some (recv_fetch_config session ty name s)
  recv_finish_handler loaded time now session remote_ip (control_server_cmd c) s =
      if remote_ip == localhost
      then (elim c [
        | none ↦ some (reply_msg session (cmd_result (codes "Protobuf parse failed")) s)
        | some name ↦ recv_cmd loaded session name s
      ])
      else some s
  recv_finish_handler loaded time now session remote_ip p s = some s
