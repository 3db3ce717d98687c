-- ===== src/Tests/Version.antt =====
-- VersionServer.
use lalune_server.Base.{ℕ, ◌≡◌, refl, [], ◌∷◌, ◌++◌, some}
use lalune_server.Version.{VersionInformation, Files, get_verctor, follow, check_version}
use lalune_server.Version.Chain.{
  barred, get_verctor-barred, check_version-follow, check_version-last,
}

abbrev version : ℕ → ℕ → VersionInformation
version a b = record {
  now_version = a ∷ [];
  next_version = b ∷ [];
  file_path = (9 ∷ []) ∷ [];
  file_url = (8 ∷ []) ∷ [];
}

get_verctor-barred_example : get_verctor (barred ((97 ∷ []) ∷ [] ∷ [])) ≡ (97 ∷ []) ∷ [] ∷ []
get_verctor-barred_example = get_verctor-barred ((97 ∷ []) ∷ [] ∷ []) ((refl, tt), (tt, tt))

check_version-follow_example :
    check_version (version 1 2 ∷ version 2 3 ∷ []) (2 ∷ [])
    ≡ follow (version 1 2 ∷ version 2 3 ∷ []) (2 ∷ []) []
check_version-follow_example = check_version-follow (version 1 2 ∷ version 2 3 ∷ []) (2 ∷ [])

check_version-last_example :
    (files : Files) × (check_version ((version 1 2 ∷ []) ++ version 2 3 ∷ version 3 4 ∷ []) (2 ∷ [])
      ≡ some (4 ∷ [], files))
check_version-last_example =
    check_version-last (version 1 2 ∷ []) (version 2 3 ∷ version 3 4 ∷ []) (2 ∷ []) (4 ∷ [])
      (refl, tt) (refl, (refl, refl)) (refl, (refl, tt))
