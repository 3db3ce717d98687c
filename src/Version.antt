-- ===== src/Version.antt =====
-- VersionServer: lists of the configuration, split at '|', and the answer to a check of the version.
-- The configuration is a list of versions, as `onConfigRefresh` leaves it.
pub mod Chain
use lalune_server.Base.{
  ℕ, Bool, true, false, List, [], ◌∷◌, ◌++◌, Option, none, some, if◌then◌else◌, ◌==◌, nat_key,
  bytes_key, Bytes,
}
use lalune_server.Base.Maps.{insert}

-- The byte of '|'.
abbrev pub bar : ℕ
bar = 124

-- The loop of `GetVerctor`, with the part that is being read.
unfoldable pub split_from : Bytes → Bytes → List Bytes
split_from part [] = []
split_from part (c ∷ rest) =
    if c == bar then part ∷ split_from [] rest else split_from (part ++ c ∷ []) rest

unfoldable pub get_verctor : Bytes → List Bytes
unfolding split_from
get_verctor text = split_from [] text

pub record VersionInformation : Type 0 where
  pub now_version : Bytes
  pub next_version : Bytes
  pub file_path : List Bytes
  pub file_url : List Bytes

abbrev pub Files : Type 0
Files = List (Bytes × Bytes)

-- `none`: there are fewer urls than paths, and the program reads beyond the end.
unfoldable pub add_files : List Bytes → List Bytes → Files → Option Files
add_files [] urls files = some files
add_files (p ∷ ps) [] files = none
add_files (p ∷ ps) (u ∷ us) files = add_files ps us (insert p u files)

-- The inner loop: each version that starts where the answer stands takes it on.
unfoldable pub follow : List VersionInformation → Bytes → Files → Option (Bytes × Files)
follow [] now files = some (now, files)
follow (v ∷ l) now files =
    if now == v.now_version
    then (elim (add_files v.file_path v.file_url files) [
      | none ↦ none
      | some files' ↦ follow l v.next_version files'
    ])
    else follow l now files

-- The outer loop ends at the first version that is the client's.
unfoldable pub check_version : List VersionInformation → Bytes → Option (Bytes × Files)
unfolding follow
check_version [] now = some (now, [])
check_version (v ∷ l) now =
    if now == v.now_version then follow (v ∷ l) now [] else check_version l now
