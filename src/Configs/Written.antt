-- ===== src/Configs/Written.antt =====
-- What a write of a configuration does to the files, the list and the table in memory.
use mathlib.Core.Option.{some-injective}
use mathlib.Core.Path.{subst}
use lalune_server.Base.{
  ℕ, ◌≡◌, ◌≢◌, refl, sym, ap, ◌∙◌, true, List, [], ◌∷◌, ◌++◌, Option, none, some, nat_key, pair_key,
  bytes_key, Bytes, arith, nat_beq_iff, bytes_beq_iff,
}
use lalune_server.Base.Maps.{lookup, insert, lookup-insert}
use lalune_server.Base.Text.{codes}
use lalune_server.ServerTypes.{ServerTypes}
use lalune_server.Configs.{
  Rapidjson, IsFaithful, Store, config_path, add_to_list, write_config,
  get_server_type_written_name, put_file, write_file, keep_config,
}
use lalune_server.Configs.Listed.{ConfigKey, HasFile, IsStored, listed, file_of}
use lalune_server.Configs.Files.{
  listed-append, append-ne, put_file-IsStored, insert-IsStored, relist-IsStored,
}

module _ {Value : Type 0} (j : Rapidjson Value) (t : ServerTypes) where
  -- Neither of the two files that a write makes is the list, and the configuration's file is not the
  -- copy that is kept of the list.
  pub record AreApart (time : Bytes) (ty : ℕ) (file : Bytes) (s : Store) : Type 0 where
    pub history :
        config_path t s ty (codes "[" ++ (time ++ (codes "] " ++ file)))
        ≢ s.server_configs_list_file
    pub current : config_path t s ty file ≢ s.server_configs_list_file
    pub copy : config_path t s ty file ≢ s.server_configs_list_file ++ codes ".bak"

  -- The files that a write may make can be opened for writing: the history, the configuration's file,
  -- the list, and the copy that is kept of the list.
  pub record IsWritable (time : Bytes) (ty : ℕ) (file : Bytes) (s : Store) : Type 0 where
    pub history :
        s.can_write (config_path t s ty (codes "[" ++ (time ++ (codes "] " ++ file)))) ≡ true
    pub current : s.can_write (config_path t s ty file) ≡ true
    pub list : s.can_write s.server_configs_list_file ≡ true
    pub copy : s.can_write (s.server_configs_list_file ++ codes ".bak") ≡ true

  -- A written configuration: the store holds together, the configuration is listed, and its file has
  -- the content. What was listed still is.
  abbrev pub Writes : Bytes → ℕ → Bytes → Bytes → List Value → Store → Type 0
  Writes time ty file c vs s =
      (s' : Store) × (write_config j t time ty file c s ≡ some s')
      × (ws : List Value) × IsStored j t ws s'
      × (listed j t (ty, file) ws ≡ true)
      × (file_of j t (ty, file) s' ≡ some c)
      × ((key : ConfigKey) → listed j t key vs ≡ true → listed j t key ws ≡ true)

  -- What `add_to_list` makes of a store whose list is in order.
  add_to_list-some :
      (ty : ℕ) (file : Bytes) (vs : List Value) (s : Store)
      → IsStored j t vs s
      → s.can_write s.server_configs_list_file ≡ true
      → s.can_write (s.server_configs_list_file ++ codes ".bak") ≡ true
      → (content : Bytes) × (add_to_list j t ty file s
          ≡ some (
              put_file s.server_configs_list_file
                (j.print (vs ++ j.object ty (get_server_type_written_name t ty) file ∷ []))
                (put_file (s.server_configs_list_file ++ codes ".bak") content s)))
  unfolding add_to_list write_file
  add_to_list-some ty file vs s st list copy =
      (st.content, ground (arith, st.list_read, st.list_parsed, list, copy))

  -- The history and the configuration's own file are written.
  abbrev pub both_written : Bytes → ℕ → Bytes → Bytes → Store → Store
  both_written time ty file c s =
      put_file (config_path t s ty file) c
        (put_file (config_path t s ty (codes "[" ++ (time ++ (codes "] " ++ file)))) c s)

  write_file-some :
      (path c : Bytes) (s : Store)
      → s.can_write path ≡ true
      → write_file path c s ≡ some (put_file path c s)
  unfolding write_file
  write_file-some path c s h = rw h refl

  -- Where the first two files can be opened, the rest of a write is what happens in memory.
  write_config-keep :
      (time : Bytes) (ty : ℕ) (file c : Bytes) (s : Store)
      → IsWritable time ty file s
      → write_config j t time ty file c s
        ≡ keep_config j t ty file c (both_written time ty file c s)
  unfolding write_config
  write_config-keep time ty file c s w =
      let past = config_path t s ty (codes "[" ++ (time ++ (codes "] " ++ file))) in
      ap
        (λ (o : Option Store). elim o as (λ _. Option Store) [
          | none ↦ none
          | some s₁ ↦ elim (write_file (config_path t s₁ ty file) c s₁) as (λ _. Option Store) [
            | none ↦ none
            | some s₂ ↦ keep_config j t ty file c s₂
          ]
        ])
        (write_file-some past c s w.history)
      ∙ ap
          (λ (o : Option Store). elim o as (λ _. Option Store) [
            | none ↦ none
            | some s₂ ↦ keep_config j t ty file c s₂
          ])
          (write_file-some (config_path t s ty file) c (put_file past c s) w.current)

  file_of-both_written :
      (time : Bytes) (ty : ℕ) (file c : Bytes) (s : Store)
      → file_of j t (ty, file) (both_written time ty file c s) ≡ some c
  file_of-both_written time ty file c s = ground (
    arith,
    lookup-insert (config_path t s ty file) (config_path t s ty file) c
        (put_file (config_path t s ty (codes "[" ++ (time ++ (codes "] " ++ file)))) c s).files,
    bytes_beq_iff (config_path t s ty file) (config_path t s ty file),
  )

  -- A write to another path leaves a file as it is.
  file_of-put_file :
      (path content : Bytes) (ty : ℕ) (file : Bytes) (s : Store)
      → config_path t s ty file ≢ path
      → file_of j t (ty, file) (put_file path content s) ≡ file_of j t (ty, file) s
  file_of-put_file path content ty file s apart = ground (
    arith,
    lookup-insert path (config_path t s ty file) content s.files,
    bytes_beq_iff path (config_path t s ty file),
  )

  HasFile-object :
      (ty : ℕ) (n file c : Bytes) (s : Store)
      → IsFaithful j
      → file_of j t (ty, file) s ≡ some c
      → HasFile j t s (j.object ty n file)
  HasFile-object ty n file c s f e = (
    (
      λ none_at. ground (arith, f.server_type-object ty n file, none_at),
      λ ty' e₁ none_at. ground (arith, f.file_name-object ty n file, none_at),
    ),
    λ ty' file' e₁ e₂.
        subst (λ (k : ConfigKey). file_of j t k s ≢ none)
          (λ i. (
            inner ty ty' (sym (f.server_type-object ty n file) ∙ e₁) i,
            inner file file' (sym (f.file_name-object ty n file) ∙ e₂) i,
          ))
          (ground (arith, e)),
  )
    where
      inner : {A : Type 0} (x y : A) → some (some x) ≡ some (some y) → x ≡ y
      inner x y q = some-injective x y (some-injective (some x) (some y) q)

  listed-object :
      (ty : ℕ) (n file : Bytes) (vs : List Value)
      → IsFaithful j
      → listed j t (ty, file) (vs ++ j.object ty n file ∷ []) ≡ true
  listed-object ty n file vs f = ground (
    arith,
    listed-append j t (ty, file) vs (j.object ty n file ∷ []),
    f.server_type-object ty n file,
    f.file_name-object ty n file,
    nat_beq_iff ty ty,
    bytes_beq_iff file file,
  )

  pub write_config-Writes :
      (time : Bytes) (ty : ℕ) (file c : Bytes) (vs : List Value) (s : Store)
      → IsFaithful j
      → IsStored j t vs s
      → AreApart time ty file s
      → IsWritable time ty file s
      → Writes time ty file c vs s
  unfolding keep_config
  write_config-Writes time ty file c vs s f st apart w =
      by_memory (lookup (ty, file) s.configs) refl
    where
      s₂ : Store
      s₂ = both_written time ty file c s

      st₂ : IsStored j t vs s₂
      st₂ =
          put_file-IsStored j t (config_path t s ty file) c vs
            (put_file (config_path t s ty (codes "[" ++ (time ++ (codes "] " ++ file)))) c s)
            apart.current
            (put_file-IsStored j t
              (config_path t s ty (codes "[" ++ (time ++ (codes "] " ++ file)))) c vs s
              apart.history st)

      by_memory : (o : Option Bytes) → lookup (ty, file) s.configs ≡ o → Writes time ty file c vs s
      by_memory (some old) e = (
        record s₂ { configs = insert (ty, file) c s.configs },
        write_config-keep time ty file c s w ∙ ground (arith, e),
        vs,
        insert-IsStored j t (ty, file) c vs s₂ (st.in_list (ty, file) old e) st₂,
        st.in_list (ty, file) old e,
        file_of-both_written time ty file c s,
        λ k l. l,
      )
      by_memory none e =
          let (old_list, added) = add_to_list-some ty file vs s₂ st₂ w.list w.copy in
          let v = j.object ty (get_server_type_written_name t ty) file in
          let s₃ = put_file (s.server_configs_list_file ++ codes ".bak") old_list s₂ in
          let st₃ : IsStored j t vs s₃ =
            put_file-IsStored j t (s.server_configs_list_file ++ codes ".bak") old_list vs s₂
              (append-ne j t s.server_configs_list_file b'.' (codes "bak")) st₂ in
          let at₃ : file_of j t (ty, file) s₃ ≡ some c =
            file_of-put_file (s.server_configs_list_file ++ codes ".bak") old_list ty file s₂
              apart.copy
            ∙ file_of-both_written time ty file c s in
          let s₄ = put_file s.server_configs_list_file (j.print (vs ++ v ∷ [])) s₃ in
          (
            record s₄ { configs = insert (ty, file) c s.configs },
            write_config-keep time ty file c s w ∙ ground (arith, e, added),
            vs ++ v ∷ [],
            insert-IsStored j t (ty, file) c (vs ++ v ∷ []) s₄
                (listed-object ty (get_server_type_written_name t ty) file vs f)
                (relist-IsStored j t v vs s₃ f
                  (HasFile-object ty (get_server_type_written_name t ty) file c s₃ f at₃) st₃),
            listed-object ty (get_server_type_written_name t ty) file vs f,
            file_of-put_file s.server_configs_list_file (j.print (vs ++ v ∷ [])) ty file s₃
                  apart.current
                ∙ at₃,
            λ k l. ground (arith, listed-append j t k vs (v ∷ []), l),
          )
