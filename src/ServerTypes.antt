-- ===== src/ServerTypes.antt =====
-- The numbers of the types of servers. Their header, LaluneCommon/include/MessageTypeDef.h, is not in
-- the repository: they are parameters.
use lalune_server.Base.{ℕ, nat_key}

pub record ServerTypes : Type 0 where
  pub gateway_server : ℕ
  pub version_server : ℕ
  pub account_server : ℕ
  pub basic_info_server : ℕ
  pub league_server : ℕ
  pub notice_server : ℕ
  pub rank_server : ℕ
  pub async_battle_server : ℕ
  pub replay_server : ℕ
  pub stat_server : ℕ
  pub auto_match_server : ℕ
  pub sync_battle_server : ℕ
  pub control_server : ℕ
  pub background : ℕ
  pub max : ℕ
