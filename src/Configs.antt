-- ===== src/Configs.antt =====
-- ControlServer/Config.cpp: the configurations of the servers, in memory and in files, and the list of
-- them, which is a JSON array in a file of its own.
pub mod Listed
pub mod Files
pub mod Written
pub mod Stored
use lalune_server.Base.{
  ℕ, ◌≡◌, Bool, false, List, [], ◌∷◌, ◌++◌, Option, none, some, if◌then◌else◌, ◌==◌, nat_key,
  pair_key, bytes_key, Bytes,
}
use lalune_server.Base.Maps.{lookup, insert, emplace}
use lalune_server.Base.Text.{codes}
use lalune_server.ServerTypes.{ServerTypes}

unfoldable pub get_server_type_written_name : ServerTypes → ℕ → Bytes
get_server_type_written_name t ty =
    if ty == t.gateway_server
    then codes "gateway"
    else (if ty == t.version_server
        then codes "version_server"
        else (if ty == t.account_server
            then codes "account_server"
            else (if ty == t.basic_info_server
                then codes "basic_info_server"
                else (if ty == t.league_server
                    then codes "league_server"
                    else (if ty == t.notice_server
                        then codes "notice_server"
                        else (if ty == t.rank_server
                            then codes "rank_server"
                            else (if ty == t.async_battle_server
                                then codes "async_battle_server"
                                else (if ty == t.replay_server
                                    then codes "replay_server"
                                    else (if ty == t.stat_server
                                        then codes "stat_server"
                                        else (if ty == t.auto_match_server
                                            then codes "auto_match_server"
                                            else (if ty == t.sync_battle_server
                                                then codes "sync_battle_server"
                                                else (if ty == t.control_server
                                                    then codes "control_server"
                                                    else (if ty == t.background
                                                        then codes "background"
                                                        else codes "default")))))))))))))

-- What the code calls of rapidjson: `parse` has no result where the text is not an array. `none` of
-- a member: the element has no such member, or it is a number that is no int, and rapidjson's
-- assertion ends the program. `some none`: the member is there, and is no number or no string.
pub record Rapidjson (Value : Type 0) : Type 0 where
  pub parse : Bytes → Option (List Value)
  pub print : List Value → Bytes
  -- An object of the members "server_type", "server_type_name" and "file_name".
  pub object : ℕ → Bytes → Bytes → Value
  pub server_type : Value → Option (Option ℕ)
  pub file_name : Value → Option (Option Bytes)

-- A printed array parses again, and the members of an object are those that it was made with.
pub record IsFaithful {Value : Type 0} (j : Rapidjson Value) : Type 0 where
  pub parse-print : (vs : List Value) → j.parse (j.print vs) ≡ some vs
  pub server_type-object : (ty : ℕ) (n f : Bytes) → j.server_type (j.object ty n f) ≡ some (some ty)
  pub file_name-object : (ty : ℕ) (n f : Bytes) → j.file_name (j.object ty n f) ≡ some (some f)

-- `folder` is where the program's file lies, with the slash at its end. `can_write` says of a path
-- whether fopen opens it for writing: its folder is there.
pub record Store : Type 0 where
  pub folder : Bytes
  pub files : List (Bytes × Bytes)
  pub can_write : Bytes → Bool
  pub server_configs_list_file : Bytes
  pub configs : List ((ℕ × Bytes) × Bytes)

abbrev pub is_absolute : Bytes → Bool
is_absolute [] = false
is_absolute (c ∷ cs) = c == b'/'

unfoldable pub to_absolute_path : Bytes → Bytes → Bytes
to_absolute_path folder path = if is_absolute path then path else folder ++ path

abbrev pub put_file : Bytes → Bytes → Store → Store
put_file path content s = record s { files = insert path content s.files }

-- No result: the file could not be opened, and the null pointer is used all the same.
unfoldable pub write_file : Bytes → Bytes → Store → Option Store
write_file path content s = if s.can_write path then some (put_file path content s) else none

-- Where a file stands that the configuration is kept in.
abbrev pub config_path : ServerTypes → Store → ℕ → Bytes → Bytes
config_path t s ty file =
    to_absolute_path s.folder
      (codes "configs/" ++ (get_server_type_written_name t ty ++ (codes "/" ++ file)))

unfoldable pub read_config : ℕ → Bytes → Store → Option Bytes
read_config ty file s = lookup (ty, file) s.configs

module _ {Value : Type 0} (j : Rapidjson Value) (t : ServerTypes) where
  -- The new file's name is put at the end of the list. No result: the file could not be opened.
  unfoldable pub add_to_list : ℕ → Bytes → Store → Option Store
  unfolding write_file
  add_to_list ty file s = elim (lookup s.server_configs_list_file s.files) [
    | none ↦ none
    | some content ↦ elim (j.parse content) [
      | none ↦ some s
      | some vs ↦ elim (write_file (s.server_configs_list_file ++ codes ".bak") content s) [
        | none ↦ none
        | some s' ↦
            write_file s.server_configs_list_file
              (j.print (vs ++ j.object ty (get_server_type_written_name t ty) file ∷ [])) s'
      ]
    ]
  ]

  -- The table in memory has the new content; before, a new file was put into the list.
  unfoldable pub keep_config : ℕ → Bytes → Bytes → Store → Option Store
  unfolding add_to_list
  keep_config ty file content s =
      let s' : Option Store = elim (lookup (ty, file) s.configs) [
        | some old ↦ some s
        | none ↦ add_to_list ty file s
      ] in
      elim s' [
        | none ↦ none
        | some s'' ↦ some (record s'' { configs = insert (ty, file) content s''.configs })
      ]

  -- `time` is the printed time.
  unfoldable pub write_config : Bytes → ℕ → Bytes → Bytes → Store → Option Store
  unfolding write_file keep_config
  write_config time ty file content s =
      elim (write_file (config_path t s ty (codes "[" ++ (time ++ (codes "] " ++ file)))) content
        s) [
          | none ↦ none
          | some s₁ ↦ elim (write_file (config_path t s₁ ty file) content s₁) [
            | none ↦ none
            | some s₂ ↦ keep_config ty file content s₂
          ]
        ]

  -- One element of the list: it is skipped if a member is no number or no string.
  unfoldable pub load_config : Value → Store → Option Store
  load_config v s = elim (j.server_type v) [
    | none ↦ none
    | some number ↦ elim number [
      | none ↦ some s
      | some ty ↦ elim (j.file_name v) [
        | none ↦ none
        | some string ↦ elim string [
          | none ↦ some s
          | some file ↦ elim (lookup (config_path t s ty file) s.files) [
            | none ↦ none
            | some content ↦ some (record s { configs = emplace (ty, file) content s.configs })
          ]
        ]
      ]
    ]
  ]

  unfoldable pub load_configs : List Value → Store → Option Store
  unfolding load_config
  load_configs [] s = some s
  load_configs (v ∷ vs) s = elim (load_config v s) [ none ↦ none | some s' ↦ load_configs vs s' ]

  unfoldable pub read_list : Store → Option Store
  unfolding load_configs
  read_list s = elim (lookup s.server_configs_list_file s.files) [
    | none ↦ none
    | some content ↦ elim (j.parse content) [
      | none ↦ some s
      | some vs ↦ load_configs vs (record s { configs = [] })
    ]
  ]

  -- The path of the list is made absolute, then the list is read.
  unfoldable pub initialize_configs : Store → Option Store
  unfolding read_list
  initialize_configs s =
      read_list (record s {
        server_configs_list_file = to_absolute_path s.folder s.server_configs_list_file;
      })
