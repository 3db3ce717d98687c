-- ===== src/ServerCommon.antt =====
-- ServerCommonLib/ServerCommon.cpp: what every other server does with the control server. The delegate's
-- calls stand in `calls`, and what is sent in `sent`, each in their order.
pub mod Synced
pub mod Joined
use lalune_server.Base.{
  ℕ, Bool, true, false, List, [], ◌∷◌, ◌++◌, Option, none, some, if◌then◌else◌, ◌==◌, nat_key,
  Bytes,
}
use lalune_server.ServerTypes.{ServerTypes}
use lalune_server.Registry.{
  Registry, empty_registry, update_server_info, remove_server_info, initialize_type, get_client,
  default_delegate,
}
use lalune_server.Protocol.{
  AddressInfo, ConfigFile, Cmd2Server, RefreshConfig, Hello, Message, say_hello_result,
  addr_info_add, addr_info_remove, addr_info_restart, addr_info_refresh, cmd2server, refresh_config,
}

-- The calls of the delegate.
pub data Call : Type 0 where
  on_addr_initialized : Call
  on_config_initialized : Call
  on_config_refresh : Bytes → Bytes → Call
  on_server_removed : ℕ → ℕ → Call
  on_server_added : ℕ → ℕ → Call
  on_receive_cmd : ℕ → Bytes → Call
  on_receive_other_data_from_control_server : Call

-- What a server sends to the control server.
pub data Request : Type 0 where
  hello_request : Hello → Request
  initialize_request : ℕ → Request
  refresh_config_request : RefreshConfig → Request
  cmd_request : Cmd2Server → Request

-- The id is the 32 bits of an int, which starts as -1.
pub record Common : Type 0 where
  pub my_listening_port : ℕ
  pub my_server_type : ℕ
  pub my_server_id : ℕ
  pub is_config_initialized : Bool
  pub is_addr_info_initialized : Bool
  pub registry : Registry
  pub calls : List Call
  pub sent : List Request

abbrev pub no_id : ℕ
no_id = 4294967295

abbrev pub control_server_id : ℕ
control_server_id = 0

unfoldable pub send_msg : Request → Common → Common × Bool
send_msg m c =
    let (registry, client) = get_client control_server_id c.registry in
    (elim client [
      | none ↦ (record c { registry = registry }, false)
      | some r ↦ (record c { registry = registry; sent = c.sent ++ m ∷ [] }, true)
    ])

-- The parameter is not used: it is always the start of a server.
unfoldable pub say_hello2_control_server : ℕ → Common → Common
unfolding send_msg
say_hello2_control_server is_server_start c =
    (send_msg
      (hello_request (record {
        my_listening_port = c.my_listening_port;
        server_type = c.my_server_type;
        is_server_start = 1;
      }))
      c).0

unfoldable pub reconnected_handler : Common → Common
unfolding say_hello2_control_server
reconnected_handler c = say_hello2_control_server 0 c

unfoldable pub server_started : ℕ → Common → Common
unfolding say_hello2_control_server
server_started port c = say_hello2_control_server 1 (record c { my_listening_port = port })

-- The delegate of the connection to the control server is the number `delegate`.
unfoldable pub initialize_common_lib : ServerTypes → ℕ → ℕ → ℕ → ℕ → Common → Common
unfolding send_msg
initialize_common_lib t delegate my_server_type ip port c =
    let registry =
      update_server_info control_server_id
        (record { ip = ip; port = port; server_type = t.control_server })
        (initialize_type t.control_server (delegate, 0) c.registry) in
    (send_msg (initialize_request my_server_type)
      (record c { my_server_type = my_server_type; registry = registry })).0

-- A server's address, put into the registry and told to the delegate, unless it is the server's own.
unfoldable pub note_server : AddressInfo → Common → Common
note_server addr c = if addr.server_id == c.my_server_id then c else record c {
  registry =
      update_server_info addr.server_id
        (record { ip = addr.ip; port = addr.port; server_type = addr.server_type }) c.registry;
  calls = c.calls ++ on_server_added addr.server_type addr.server_id ∷ [];
}

unfoldable pub note_servers : List AddressInfo → Common → Common
unfolding note_server
note_servers [] c = c
note_servers (a ∷ l) c = note_servers l (note_server a c)

unfoldable pub note_addr_initialized : Common → Common
note_addr_initialized c =
    if c.is_addr_info_initialized
    then c
    else record c { is_addr_info_initialized = true; calls = c.calls ++ on_addr_initialized ∷ [] }

unfoldable pub note_config_initialized : Common → Common
note_config_initialized c =
    if c.is_config_initialized
    then c
    else record c { is_config_initialized = true; calls = c.calls ++ on_config_initialized ∷ [] }

abbrev pub refresh_calls : List ConfigFile → List Call
refresh_calls [] = []
refresh_calls (f ∷ fs) = on_config_refresh f.file_name f.content ∷ refresh_calls fs

-- `RecvFinishHandler` with a message that protobuf's parser takes.
unfoldable pub receive : Message → Common → Common
unfolding note_server note_servers note_addr_initialized note_config_initialized
receive (say_hello_result id) c = record c { my_server_id = id }
receive (addr_info_refresh l) c = note_addr_initialized (note_servers l c)
receive (addr_info_add addr) c = note_server addr c
receive (addr_info_remove addr) c = record c {
  registry =
      remove_server_info addr.server_id
        (record { ip = addr.ip; port = addr.port; server_type = addr.server_type }) c.registry;
  calls = c.calls ++ on_server_removed addr.server_type addr.server_id ∷ [];
}
receive (addr_info_restart id) c = c
receive (cmd2server cmd) c = record c {
  calls = c.calls ++ on_receive_cmd cmd.cmd_type cmd.cmd_data ∷ [];
}
receive (refresh_config rc) c =
    note_config_initialized (record c { calls = c.calls ++ refresh_calls rc.file })
receive m c = record c { calls = c.calls ++ on_receive_other_data_from_control_server ∷ [] }

-- What comes in, parsed or not.
pub data Incoming : Type 0 where
  too_short : Incoming
  parsed : Message → Incoming
  unparsed : Incoming
  unparsed_config : Incoming

-- A message of configurations that does not parse counts as the first one all the same.
unfoldable pub recv_finish_handler : Incoming → Common → Common
unfolding receive note_config_initialized
recv_finish_handler too_short c = c
recv_finish_handler (parsed m) c = receive m c
recv_finish_handler unparsed c = c
recv_finish_handler unparsed_config c = note_config_initialized c

unfoldable pub send_refresh_config : ℕ → Bytes → Bytes → Common → Common
unfolding send_msg
send_refresh_config ty name content c =
    (send_msg
      (refresh_config_request (record {
        server_type = some ty;
        file = record { file_name = name; content = content } ∷ [];
      }))
      c).0

unfoldable pub send_cmd : ℕ → ℕ → Bytes → Common → Common
unfolding send_msg
send_cmd ty cmd_type text c =
    (send_msg
      (cmd_request (record { to_server_type = some ty; cmd_type = cmd_type; cmd_data = text })) c).0
