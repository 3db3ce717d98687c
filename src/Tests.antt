-- ===== src/Tests.antt =====
-- The theorems at concrete inputs.
mod Ids
mod Queue
mod Terminal
mod Match
mod Pvp
mod Session
mod Client
mod Registry
mod Version
mod Json
mod Configs
mod Control
mod Directory
mod Gateway
mod Server
