-- ===== src/Configs/Stored.antt =====
-- What is written is there after the configurations were read again from the files.
use lalune_server.Base.{nat_key, pair_key, bytes_key}
use lalune_server.ServerTypes.{ServerTypes}
