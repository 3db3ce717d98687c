-- ===== src/Protocol.antt =====
-- protobuf/commonlib/CommonLib.proto: the messages between the control server and the others, as far as
-- their parser gives them.
use lalune_server.Base.{ℕ, Bytes, List, Option}

pub record AddressInfo : Type 0 where
  pub ip : ℕ
  pub port : ℕ
  pub server_id : ℕ
  pub server_type : ℕ

pub record ConfigFile : Type 0 where
  pub file_name : Bytes
  pub content : Bytes

pub record Cmd2Server : Type 0 where
  pub to_server_type : Option ℕ
  pub cmd_type : ℕ
  pub cmd_data : Bytes

-- `server_type` is optional in the protocol, and reads as 0 where it is missing.
pub record RefreshConfig : Type 0 where
  pub server_type : Option ℕ
  pub file : List ConfigFile

pub record Hello : Type 0 where
  pub my_listening_port : ℕ
  pub server_type : ℕ
  pub is_server_start : ℕ

-- The messages that the control server sends.
pub data Message : Type 0 where
  say_hello_result : ℕ → Message
  addr_info_add : AddressInfo → Message
  addr_info_remove : AddressInfo → Message
  addr_info_restart : ℕ → Message
  addr_info_refresh : List AddressInfo → Message
  cmd2server : Cmd2Server → Message
  refresh_config : RefreshConfig → Message
  refresh_config_response : Message
  fetch_config_response : ConfigFile → Message
  cmd_result : Bytes → Message
