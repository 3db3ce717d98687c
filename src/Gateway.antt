-- ===== src/Gateway.antt =====
-- GatewayServer/: the packets of users, forwarded to the servers, and the servers' packets, forwarded to
-- the users. A session of a user is a number. What goes to the servers stands in `forwarded`, with the
-- session that it came from, and what goes to users in `replies`, each in the order of the calls.
pub mod Numbers
pub mod Routes
pub mod Runs
pub mod Answers
use lalune_server.Base.{
  ℕ, ◌+◌, ◌-◌, ◌/◌, Bool, true, false, not, ◌||◌, ◌&&◌, is_empty, List, [], ◌∷◌, ◌++◌, Option, none,
  some, if◌then◌else◌, ◌==◌, ltb, leb, nat_key, Bytes,
}
use lalune_server.Base.Int.{ℤ, pos, negsuc, int_key}
use lalune_server.Base.Maps.{lookup, insert, erase}
use lalune_server.Ids.{Ids, get_id, release_id, init}
use lalune_server.Registry.{Registry, ServerInfo, get_clients_info, get_client}
use lalune_server.ServerTypes.{ServerTypes}

-- A packet for a server: its extended header has the user's id or the number of an operation.
pub record Forwarded : Type 0 where
  pub session : ℕ
  pub server_id : ℕ
  pub uid : Option ℤ
  pub operation_id : Option ℕ
  pub msg_type : ℕ
  pub body : Bytes

pub record Reply : Type 0 where
  pub to_session : ℕ
  pub msg_type : ℕ
  pub body : Bytes

-- `attached` is the attached number of the sessions, which is 0 where it is missing. The numbers of
-- `available_tmp_ids` are ints, of which none is above 2 ^ 31 - 1.
pub record Gateway : Type 0 where
  pub user2session : List (ℤ × ℕ)
  pub available_tmp_ids : Ids
  pub attached : List (ℕ × ℤ)
  pub registry : Registry
  pub forwarded : List Forwarded
  pub replies : List Reply

unfoldable pub new_gateway : Registry → Gateway
unfolding init
new_gateway registry = record {
  user2session = [];
  available_tmp_ids = init;
  attached = [];
  registry = registry;
  forwarded = [];
  replies = [];
}

unfoldable pub get_attached_data : ℕ → Gateway → ℤ
get_attached_data session s = elim (lookup session s.attached) [ none ↦ pos 0 | some d ↦ d ]

-- -n.
abbrev pub neg : ℕ → ℤ
neg n = if n == 0 then pos 0 else negsuc (n - 1)

-- The int of 32 bits.
abbrev pub int_of : ℕ → ℤ
int_of n = if ltb n 2147483648 then pos n else negsuc (4294967295 - n)

-- -(int)n, for an n that is not the smallest int.
abbrev pub neg_int_of : ℕ → ℤ
neg_int_of n = if ltb n 2147483648 then neg n else pos (4294967296 - n)

-- `GetTmpUserId`, of the pool `AvailableIDs<int>`. No result: `_next_id++` would pass the largest int,
-- which C++ does not define.
unfoldable pub get_tmp_user_id : Ids → Option (ℕ × Ids)
get_tmp_user_id ids =
    if is_empty ids.available_ids && ids.next_id == 2147483647 then none else some (get_id ids)

unfoldable pub get_session_by_id : ℤ → Gateway → Option ℕ
get_session_by_id id s = lookup id s.user2session

-- The numbers of the pool are below the largest int, so that its `_id + 1` is an int.
-- NetLib calls the handler of the base class, which has two parameters more, and not this one.
unfoldable pub disconnected_handler : ℕ → Gateway → Gateway
unfolding get_attached_data
disconnected_handler session s = elim (get_attached_data session s) [
  | pos n ↦ if n == 0 then s else record s { user2session = erase (pos n) s.user2session }
  | negsuc n ↦ record s {
    user2session = erase (negsuc n) s.user2session;
    available_tmp_ids = release_id (n + 1) s.available_tmp_ids;
  }
]

-- A packet of a user, after its header. `too_short`: shorter than the header.
pub record UserPacket : Type 0 where
  pub too_short : Bool
  pub msg_type : ℕ
  pub body : Bytes

abbrev pub is_zero : ℤ → Bool
is_zero (pos n) = n == 0
is_zero (negsuc n) = false

-- What a user of no session id yet is known by: its number in `attached`, given out when it is 0.
unfoldable pub tmp_id_of : ℕ → Gateway → Option (ℤ × Gateway)
unfolding get_attached_data get_tmp_user_id
tmp_id_of session s =
    if is_zero (get_attached_data session s)
    then (elim (get_tmp_user_id s.available_tmp_ids) [
      | none ↦ none
      | some (id, ids) ↦ some (
        pos id,
        record s {
          available_tmp_ids = ids;
          attached = insert session (pos id) s.attached;
          user2session = insert (neg id) session s.user2session;
        },
      )
    ])
    else some (get_attached_data session s, s)

-- The 32 bits of an int.
abbrev pub bits_of : ℤ → ℕ
bits_of (pos n) = n
bits_of (negsuc n) = 4294967295 - n

abbrev pub is_before_login : ServerTypes → ℕ → Bool
is_before_login t ty =
    ty == t.version_server || (ty == t.account_server || ty == t.auto_match_server)

abbrev pub is_not_forwarded : ServerTypes → ℕ → Bool
is_not_forwarded t ty =
    ty == t.gateway_server
    || (ty == t.basic_info_server || (ty == t.league_server || ty == t.async_battle_server))

-- To the server `id`, if it has a client.
unfoldable pub forward_to : ℕ → Forwarded → Gateway → Gateway
forward_to id f s =
    let (registry, client) = get_client id s.registry in
    elim client [
      | none ↦ record s { registry = registry }
      | some c ↦ record s { registry = registry; forwarded = s.forwarded ++ f ∷ [] }
    ]

-- Before the login a number is given out to who has none; then the number of an operation stands for the user, and later the user's id.
unfoldable pub forward : ServerTypes → ℕ → ℕ → ℕ → UserPacket → Gateway → Option Gateway
unfolding forward_to tmp_id_of get_attached_data
forward t ty id session p s =
    if is_before_login t ty
    then (elim (tmp_id_of session s) [
      | none ↦ none
      | some (tmp_id, s') ↦ some (
          forward_to id
            (record {
              session = session;
              server_id = id;
              uid = none;
              operation_id = some (bits_of tmp_id);
              msg_type = p.msg_type;
              body = p.body;
            })
            s')
    ])
    else some (
        if is_zero (get_attached_data session s)
        then s
        else forward_to id
            (record {
              session = session;
              server_id = id;
              uid = some (get_attached_data session s);
              operation_id = none;
              msg_type = p.msg_type;
              body = p.body;
            })
            s)

-- `RecvFinishHandler` of a user's session. `span` is MSG_TYPE_SPAN. No result: what the program does
-- is undefined.
unfoldable pub user_recv_finish_handler :
    ServerTypes → ℕ → ℕ → UserPacket → Gateway → Option Gateway
unfolding forward
user_recv_finish_handler t span session p s =
    if p.too_short || is_not_forwarded t (p.msg_type / span)
    then some s
    else (elim (get_clients_info (p.msg_type / span) s.registry) [
      | [] ↦ some s
      | (id, info) ∷ rest ↦ forward t (p.msg_type / span) id session p s
    ])

-- A packet of a server: its extended header, if it parses.
pub record ServerPacket : Type 0 where
  pub too_short : Bool
  pub header_parses : Bool
  pub uid : Option ℕ
  pub operation_id : Option ℕ
  pub msg_type : ℕ
  pub body : Bytes

abbrev pub addressee : Option ℕ → Option ℕ → Option ℤ
addressee (some uid) o = some (int_of uid)
addressee none (some o) = some (neg_int_of o)
addressee none none = none

unfoldable pub reply_to : ℤ → ServerPacket → Gateway → Gateway
unfolding get_session_by_id
reply_to id p s = elim (get_session_by_id id s) [
  | none ↦ s
  | some session ↦ record s {
    replies =
        s.replies ++ record { to_session = session; msg_type = p.msg_type; body = p.body } ∷ [];
  }
]

-- `RecvFinishHandler` of the connection to a server.
unfoldable pub server_recv_finish_handler : ServerPacket → Gateway → Gateway
unfolding reply_to
server_recv_finish_handler p s =
    if p.too_short || not p.header_parses
    then s
    else (elim (addressee p.uid p.operation_id) [ none ↦ s | some id ↦ reply_to id p s ])
