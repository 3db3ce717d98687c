-- ===== src/Configs/Files.antt =====
-- What single writes do to the files, the list and the table in memory.
use lalune_server.Base.{
  ℕ, ◌≡◌, ◌≢◌, refl, true, ◌||◌, List, [], ◌∷◌, ◌++◌, nat_key, pair_key, bytes_key, Bytes, All,
  All-append, arith, pair_beq_iff, bytes_beq_iff,
}
use lalune_server.Base.Maps.{insert, lookup-insert}
use lalune_server.ServerTypes.{ServerTypes}
use lalune_server.Configs.{Rapidjson, IsFaithful, Store, config_path, put_file}
use lalune_server.Configs.Listed.{ConfigKey, HasFile, IsStored, listed}

module _ {Value : Type 0} (j : Rapidjson Value) (t : ServerTypes) where
  -- A file that is written takes no other file away.
  pub HasFile-put_file :
      (path content : Bytes) (s : Store) (v : Value)
      → HasFile j t s v
      → HasFile j t (put_file path content s) v
  HasFile-put_file path content s v h = (
    h.0,
    λ ty file e₁ e₂.
        ground
          (arith, h.1 ty file e₁ e₂, lookup-insert path (config_path t s ty file) content s.files),
  )

  pub All-put_file :
      (path content : Bytes) (s : Store) (vs : List Value)
      → All (HasFile j t s) vs
      → All (HasFile j t (put_file path content s)) vs
  All-put_file path content s [] h = tt
  All-put_file path content s (v ∷ vs) (hv, h) =
      (HasFile-put_file path content s v hv, All-put_file path content s vs h)

  pub listed-append :
      (key : ConfigKey) (vs ws : List Value)
      → listed j t key (vs ++ ws) ≡ (listed j t key vs || listed j t key ws)
  listed-append key [] ws = refl
  listed-append key (v ∷ vs) ws = ground (arith, listed-append key vs ws)

  -- A list with something behind it is another list.
  pub append-ne : (xs : Bytes) (y : ℕ) (ys : Bytes) → xs ++ y ∷ ys ≢ xs
  append-ne [] y ys h = ground arith
  append-ne (x ∷ xs) y ys h = append-ne xs y ys (ground arith)

  pub put_file-IsStored :
      (path c : Bytes) (vs : List Value) (s : Store)
      → path ≢ s.server_configs_list_file
      → IsStored j t vs s
      → IsStored j t vs (put_file path c s)
  put_file-IsStored path c vs s apart st = record {
    list_at = st.list_at;
    content = st.content;
    list_read = ground (
      arith,
      lookup-insert path s.server_configs_list_file c s.files,
      bytes_beq_iff path s.server_configs_list_file,
      st.list_read,
    );
    list_parsed = st.list_parsed;
    have_files = All-put_file path c s vs st.have_files;
    in_list = st.in_list;
  }

  pub insert-IsStored :
      (key : ConfigKey) (c : Bytes) (vs : List Value) (s : Store)
      → listed j t key vs ≡ true
      → IsStored j t vs s
      → IsStored j t vs (record s { configs = insert key c s.configs })
  insert-IsStored key c vs s l st = record {
    list_at = st.list_at;
    content = st.content;
    list_read = st.list_read;
    list_parsed = st.list_parsed;
    have_files = st.have_files;
    in_list = λ k c' e.
        ground (arith, lookup-insert key k c s.configs, pair_beq_iff key k, st.in_list k c');
  }

  -- The list is written again with one element more.
  pub relist-IsStored :
      (v : Value) (vs : List Value) (s : Store)
      → IsFaithful j
      → HasFile j t s v
      → IsStored j t vs s
      → IsStored j t (vs ++ v ∷ []) (put_file s.server_configs_list_file (j.print (vs ++ v ∷ [])) s)
  relist-IsStored v vs s f hv st = record {
    list_at = st.list_at;
    content = j.print (vs ++ v ∷ []);
    list_read = ground (
      arith,
      lookup-insert s.server_configs_list_file s.server_configs_list_file (j.print (vs ++ v ∷ []))
          s.files,
      bytes_beq_iff s.server_configs_list_file s.server_configs_list_file,
    );
    list_parsed = f.parse-print (vs ++ v ∷ []);
    have_files =
        All-put_file s.server_configs_list_file (j.print (vs ++ v ∷ [])) s (vs ++ v ∷ [])
          (All-append (HasFile j t s) vs (v ∷ []) st.have_files (hv, tt));
    in_list = λ k c e. ground (arith, listed-append k vs (v ∷ []), st.in_list k c e);
  }
