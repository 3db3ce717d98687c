-- ===== src/Registry.antt =====
-- ServerCommonLib/NetLibPlus.cpp: the servers that a server knows of, grouped by their type, and the
-- clients that connect to them. A delegate is a number. A set of ids is a map to the unit type.
pub mod Groups
pub mod Updates
pub mod Infos
use lalune_server.Base.{
  ℕ, zero, suc, ◌+◌, Bool, true, false, not, ◌&&◌, ◌||◌, List, [], ◌∷◌, ◌++◌, Option, none, some,
  if◌then◌else◌, ◌==◌, nat_key,
}
use lalune_server.Base.Maps.{lookup, insert, erase, emplace}

pub record ServerInfo : Type 0 where
  pub ip : ℕ
  pub port : ℕ
  pub server_type : ℕ

-- A delegate and the flags of the connections.
abbrev pub DelegateAndFlag : Type 0
DelegateAndFlag = ℕ × ℕ

-- What the registry does to a client: its delegate, and where `ResetClient` last sent it. A released
-- client, and one that was never sent anywhere, has no target.
pub record RemoteClient : Type 0 where
  pub delegate : Option ℕ
  pub target : Option (ℕ × ℕ × ℕ)

abbrev pub IdSet : Type 0
IdSet = List (ℕ × Unit {0})

pub record Registry : Type 0 where
  pub is_shut_down : Bool
  pub global_delegate : Option DelegateAndFlag
  pub init_info : List (ℕ × DelegateAndFlag)
  pub clients : List (ℕ × RemoteClient)
  pub serverinfos : List (ℕ × ServerInfo)
  pub serverid_groupby_type : List (ℕ × IdSet)

abbrev pub empty_registry : Registry
empty_registry = record {
  is_shut_down = false;
  global_delegate = none;
  init_info = [];
  clients = [];
  serverinfos = [];
  serverid_groupby_type = [];
}

-- The delegate that stands for the `NetLibPlus_Client_Delegate` of no special kind.
abbrev pub default_delegate : ℕ
default_delegate = 0

abbrev pub fresh_client : RemoteClient
fresh_client = record { delegate = none; target = none }

unfoldable pub select_delegate_and_flag : ℕ → Registry → Option DelegateAndFlag
select_delegate_and_flag server_type s = elim (lookup server_type s.init_info) [
  | some d ↦ some d
  | none ↦ s.global_delegate
]

unfoldable pub try_start_a_client : ℕ → ServerInfo → Registry → Registry
unfolding select_delegate_and_flag
try_start_a_client id info s = elim (select_delegate_and_flag info.server_type s) [
  | none ↦ s
  | some d ↦
      let c : RemoteClient = elim (lookup id s.clients) [ none ↦ fresh_client | some c ↦ c ] in
      record s {
        clients =
            insert id (record c { delegate = some d.0; target = some (info.ip, info.port, d.1) })
              s.clients;
      }
]

abbrev pub group : ℕ → Registry → IdSet
group server_type s = elim (lookup server_type s.serverid_groupby_type) [ none ↦ [] | some l ↦ l ]

abbrev pub same_info : ServerInfo → ServerInfo → Bool
same_info a b = a.ip == b.ip && a.port == b.port && a.server_type == b.server_type

-- The info is written, and a client started, if the info is new or not the same.
unfoldable pub write_info : ℕ → ServerInfo → Registry → Registry
unfolding try_start_a_client
write_info id info s = elim (lookup id s.serverinfos) [
  | some old ↦
      if same_info old info
      then s
      else try_start_a_client id info (record s { serverinfos = insert id info s.serverinfos })
  | none ↦ try_start_a_client id info (record s { serverinfos = insert id info s.serverinfos })
]

unfoldable pub update_server_info : ℕ → ServerInfo → Registry → Registry
unfolding write_info
update_server_info id info s =
    if s.is_shut_down
    then s
    else (let s' = write_info id info s in
        record s' {
          serverid_groupby_type =
              insert info.server_type (insert id tt (group info.server_type s'))
                s'.serverid_groupby_type;
        })

unfoldable pub remove_server_info : ℕ → ServerInfo → Registry → Registry
remove_server_info id info s = if s.is_shut_down then s else (elim (lookup id s.serverinfos) [
  | none ↦ s
  | some old ↦
      if same_info old info
      then record s {
        clients = erase id s.clients;
        serverid_groupby_type =
            insert info.server_type (erase id (group info.server_type s)) s.serverid_groupby_type;
        serverinfos = erase id s.serverinfos;
      }
      else s
])

unfoldable pub initialize_clients : DelegateAndFlag → Registry → Registry
initialize_clients d s =
    if s.is_shut_down
    then s
    else (elim s.global_delegate [ some old ↦ s | none ↦ record s { global_delegate = some d } ])

unfoldable pub initialize_type : ℕ → DelegateAndFlag → Registry → Registry
initialize_type server_type d s =
    if s.is_shut_down then s else record s { init_info = emplace server_type d s.init_info }

abbrev pub delegate_of : Option DelegateAndFlag → ℕ
delegate_of none = default_delegate
delegate_of (some d) = d.0

-- A client for an id that has none is made without a target.
unfoldable pub get_client : ℕ → Registry → Registry × Option RemoteClient
get_client id s = if s.is_shut_down then (s, none) else (elim (lookup id s.clients) [
  | some c ↦ (s, some c)
  | none ↦
      let c = record fresh_client { delegate = some (delegate_of s.global_delegate) } in
      (record s { clients = insert id c s.clients }, some c)
])

unfoldable pub clients_of : List (ℕ × RemoteClient) → IdSet → List RemoteClient
clients_of clients [] = []
clients_of clients ((id, u) ∷ rest) = elim (lookup id clients) [
  | none ↦ clients_of clients rest
  | some c ↦ c ∷ clients_of clients rest
]

unfoldable pub get_clients : ℕ → Registry → List RemoteClient
unfolding clients_of
get_clients server_type s =
    if s.is_shut_down then [] else clients_of s.clients (group server_type s)

unfoldable pub infos_of : List (ℕ × ServerInfo) → IdSet → List (ℕ × ServerInfo)
infos_of infos [] = []
infos_of infos ((id, u) ∷ rest) = elim (lookup id infos) [
  | none ↦ infos_of infos rest
  | some i ↦ insert id i (infos_of infos rest)
]

unfoldable pub get_clients_info : ℕ → Registry → List (ℕ × ServerInfo)
unfolding infos_of
get_clients_info server_type s =
    if s.is_shut_down then [] else infos_of s.serverinfos (group server_type s)

unfoldable pub release_ids : IdSet → List (ℕ × RemoteClient) → List (ℕ × RemoteClient)
release_ids [] clients = clients
release_ids ((id, u) ∷ rest) clients = elim (lookup id clients) [
  | none ↦ release_ids rest clients
  | some c ↦ release_ids rest (insert id (record c { target = none }) clients)
]

unfoldable pub uninitialize_type : ℕ → Registry → Registry
unfolding release_ids
uninitialize_type server_type s =
    if s.is_shut_down then s else record s { clients = release_ids (group server_type s) s.clients }

unfoldable pub uninitialize : Registry → Registry
uninitialize s =
    if s.is_shut_down
    then s
    else record s { is_shut_down = true; clients = []; init_info = []; global_delegate = none }
