-- ===== src/Lib.antt =====
-- A model of the game server of this repository: the battle server of server/BoidsPvpServer, the
-- match server of server/IntegretedServer and the parts that they and the other servers stand on.
--
-- How the parts interact. A player's request goes to the match server, which pairs two users,
-- sends every connected battle server of the region a request to create the game, and tells both
-- users where the game is when the answer comes. The players then speak to the battle server over
-- UDP: each endpoint has a terminal, which acknowledges, orders and repeats packets, and hands
-- each new message to the game that the player has entered. A game sends all its terminals the
-- players' operations once in a frame. Every server says hello to the control server, which gives
-- it an id, tells it where the others are, and tells the others; each keeps them in its registry.
-- The gateway forwards the packets of users to the servers of its registry, and their answers to
-- the users.
--
-- - Ids: the pool of ids, `AvailableIDs` of server/include/utility1.h.
-- - Queue: the template `MessageQueue` of
--   server/BoidsPvpServer/BoidsPvpServer/Data/MessageQueue.h.
-- - Terminal: `PvpTerminal` of server/BoidsPvpServer/BoidsPvpServer/Terminal. The fields of the
--   record are those of the class without sockets and timers; `send_message` is `sendMessage`,
--   `receive_message` is `receiveMessage` up to the call of `parseMessage`, `resend_messages` is
--   `resendMessages` and `trigger_update` is `triggerUpdate`.
-- - Pvp: `PvpServer` and `PvpGameServer` of server/BoidsPvpServer/BoidsPvpServer/Server, and the
--   calls of `PvpTerminal` that reach them. A game is known by its place in memory, and `memory`
--   holds those that are alive; a terminal is known by its endpoint. Pvp/Control is the framing
--   of the connection to the match server.
-- - Match: `AutoMatchServer` of server/IntegretedServer/AutomatchServer.cpp. Match/Heroes is
--   `addForce`, Match/Servers the list of battle servers.
-- - Session: one session of a server, `NetLib_ServerSession_Imp` with its
--   `NetLib_Connected_TcpSession`, of server/NetLib. The functions are the handlers that asio
--   calls; Session/Counted has the events, each of which needs the operation that it ends.
-- - Client: `NetLib_Client_Imp` of server/NetLib, a client that connects again by itself and
--   keeps the data that it could not send. Client/Events has the events, each of which needs what
--   it completes.
-- - Registry: the known servers, their groups and clients, of
--   server/ServerCommonLib/NetLibPlus.cpp.
-- - Version: the answer of the version server to a check,
--   server/VersionServer/VersionServerSessionDelegate.cpp, and `GetVerctor`.
-- - Configs: server/ControlServer/Config.cpp, the configurations in memory and in files.
--   Configs/Listed is the list, Configs/Files and Configs/Written a write, Configs/Stored what is
--   read after it.
-- - Protocol: the messages of server/protobuf/commonlib/CommonLib.proto that the control server
--   takes and sends.
-- - Control: server/ControlServer. `recv_finish_handler` is `RecvFinishHandler`, with a function
--   for each message; Control/Runs has the events.
-- - ServerCommon: server/ServerCommonLib/ServerCommon.cpp, the other servers' side of it, over
--   Registry.
-- - Directory: the two together: the control server and one server that receives what is sent to
--   its session.
-- - ServerTypes: the numbers of the types of servers, as parameters.
-- - Gateway: server/GatewayServer, `GatewayUserSessionDelegate` and `toBackEndDelegate` over
--   Registry and Ids. Gateway/Numbers and Gateway/Routes follow the numbers that are given out,
--   Gateway/Runs has the events.
-- - Server: `NetLib_Server_Imp` of server/NetLib, which accepts sessions.
-- - Base: lists, maps, bits, texts and Boolean tests that the parts share.
-- - Tests: the theorems at concrete inputs.
--
-- Bounds and fuel. No function runs on fuel: each loop is recursion on its list or on its count
-- of rounds. `handle_queue` has at most 4 rounds, `acknowledge_loop` 32 less the distance,
-- `resend_loop` `max_resent_bit` rounds, as in the source. Unsigned words wrap: `u16` and `u32`
-- are written where the source cuts. A shift by 32 or more, a read out of range, a negative size
-- and a counter that passes the largest int have results of their own.
--
-- What stands as a parameter: protobuf's parser and printer, rapidjson's array of objects, which
-- paths can be opened for writing, whether a session is connected, the numbers that `rand()`
-- gives, and the numbers of the types of servers, whose header is not in the repository.
--
-- What is not modelled: sockets, threads and the event loop (an event is a call of its handler),
-- log output, the vendored libraries, the generated protobuf code, the samples and tools, and the
-- combat servers, the log, and the servers for accounts, notices and basic information, which are
-- handlers around sockets, files and a database.
mod Base
pub mod Ids
pub mod Queue
pub mod Terminal
pub mod Match
pub mod Pvp
pub mod Session
pub mod Client
pub mod Registry
pub mod Version
pub mod ServerTypes
pub mod Configs
pub mod Protocol
pub mod Control
pub mod ServerCommon
pub mod Directory
pub mod Gateway
pub mod Server
mod Tests
