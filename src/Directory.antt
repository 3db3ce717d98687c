-- ===== src/Directory.antt =====
-- The control server together with one of the servers that it tells about the others: each message
-- that the control server sends to the server's session is received there, in the order of sending.
pub mod Mail
pub mod Quiet
pub mod Packets
pub mod Steps
pub mod Hellos
pub mod Runs
pub mod Joins
pub mod Reached
use lalune_server.Base.{ℕ, List, [], ◌∷◌, if◌then◌else◌, ◌==◌, nat_key}
use lalune_server.Protocol.{Message}
use lalune_server.ServerCommon.{Common, receive}

-- What was sent to a session.
abbrev pub inbox : ℕ → List (ℕ × Message) → List Message
inbox session [] = []
inbox session ((k, m) ∷ l) = if k == session then m ∷ inbox session l else inbox session l

abbrev pub receive_all : List Message → Common → Common
receive_all [] c = c
receive_all (m ∷ l) c = receive_all l (receive m c)
