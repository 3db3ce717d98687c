-- ===== src/Tests/Configs.antt =====
-- ControlServer/Config.cpp.
use lalune_server.Base.{List, [], ◌∷◌, true, bytes_key}
use lalune_server.Base.Text.{codes}
use lalune_server.ServerTypes.{ServerTypes}
use lalune_server.Configs.{Store}
use lalune_server.Tests.Json.{Value}

abbrev pub types : ServerTypes
types = record {
  gateway_server = 1;
  version_server = 2;
  account_server = 3;
  basic_info_server = 4;
  league_server = 5;
  notice_server = 6;
  rank_server = 7;
  async_battle_server = 8;
  replay_server = 9;
  stat_server = 10;
  auto_match_server = 11;
  sync_battle_server = 12;
  control_server = 13;
  background = 14;
  max = 14;
}

-- The list, at /l, names the configuration "a" of a type 20 that has no name.
abbrev pub store : Store
store = record {
  folder = codes "/";
  files = (codes "/l", 20 ∷ 1 ∷ b'a' ∷ 0 ∷ []) ∷ (codes "/configs/default/a", codes "old") ∷ [];
  can_write = λ path. true;
  server_configs_list_file = codes "/l";
  configs = [];
}

abbrev listed_values : List Value
listed_values = (20, codes "a") ∷ []
