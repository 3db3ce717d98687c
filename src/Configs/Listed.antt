-- ===== src/Configs/Listed.antt =====
-- The list of the configurations, and what reading it gives.
use lalune_server.Base.{
  ℕ, ◌≡◌, ◌≢◌, refl, ap, ◌∙◌, Bool, true, false, ◌||◌, List, [], ◌∷◌, Option, none, some,
  if◌then◌else◌, ◌==◌, nat_key, pair_key, bytes_key, Bytes, All, arith, pair_beq_iff,
}
use lalune_server.Base.Maps.{lookup, emplace, lookup-emplace}
use lalune_server.ServerTypes.{ServerTypes}
use lalune_server.Configs.{
  Rapidjson, Store, config_path, load_config, load_configs, initialize_configs, read_list,
  to_absolute_path,
}

abbrev pub ConfigKey : Type 0
ConfigKey = ℕ × Bytes

module _ {Value : Type 0} (j : Rapidjson Value) (t : ServerTypes) where
  -- Whether an element of the list is about a configuration.
  abbrev pub is_entry : ConfigKey → Value → Bool
  is_entry key v = elim (j.server_type v) [
    | none ↦ false
    | some number ↦ elim number [
      | none ↦ false
      | some ty ↦ elim (j.file_name v) [
        | none ↦ false
        | some string ↦ elim string [ none ↦ false | some file ↦ (ty, file) == key ]
      ]
    ]
  ]

  abbrev pub listed : ConfigKey → List Value → Bool
  listed key [] = false
  listed key (v ∷ vs) = is_entry key v || listed key vs

  -- The members that are read of an element are there.
  abbrev pub HasMembers : Value → Type 0
  HasMembers v =
      (j.server_type v ≢ none)
      × ((ty : ℕ) → j.server_type v ≡ some (some ty) → j.file_name v ≢ none)

  -- The members of an element are there, and the file of a listed configuration can be opened.
  abbrev pub HasFile : Store → Value → Type 0
  HasFile s v =
      HasMembers v
      × ((ty : ℕ) (file : Bytes)
          → j.server_type v ≡ some (some ty)
          → j.file_name v ≡ some (some file)
          → lookup (config_path t s ty file) s.files ≢ none)

  abbrev pub file_of : ConfigKey → Store → Option Bytes
  file_of (ty, file) s = lookup (config_path t s ty file) s.files

  abbrev pub loaded : ConfigKey → List Value → Store → Option Bytes
  loaded key vs s = elim (lookup key s.configs) [
    | some c ↦ some c
    | none ↦ if listed key vs then file_of key s else none
  ]

  -- The result of reading a list.
  abbrev pub Loads : List Value → Store → Type 0
  Loads vs s =
      (m : List (ConfigKey × Bytes)) × (load_configs j t vs s ≡ some (record s { configs = m }))
      × ((key : ConfigKey) → lookup key m ≡ loaded key vs s)

  -- The same for one element of it.
  abbrev pub LoadsOne : Value → Store → Type 0
  LoadsOne v s =
      (m : List (ConfigKey × Bytes)) × (load_config j t v s ≡ some (record s { configs = m }))
      × ((key : ConfigKey) → lookup key m ≡ loaded key (v ∷ []) s)

  load_config-some : (v : Value) (s : Store) → HasFile s v → LoadsOne v s
  unfolding load_config
  load_config-some v s h = by_type (j.server_type v) refl
    where
      kept :
          ((key : ConfigKey) → is_entry key v ≡ false)
          → (key : ConfigKey) → lookup key s.configs ≡ loaded key (v ∷ []) s
      kept e key = ground (arith, e key)

      by_file :
          (ty : ℕ) (file : Bytes) (o : Option Bytes)
          → j.server_type v ≡ some (some ty)
          → j.file_name v ≡ some (some file)
          → file_of (ty, file) s ≡ o
          → LoadsOne v s
      by_file ty file none e₁ e₂ e₃ = absurd (h.1 ty file e₁ e₂ e₃)
      by_file ty file (some c) e₁ e₂ e₃ = (
        emplace (ty, file) c s.configs,
        ground arith,
        λ key.
            ground (arith, lookup-emplace (ty, file) key c s.configs, pair_beq_iff (ty, file) key),
      )

      by_name :
          (ty : ℕ) (o : Option (Option Bytes))
          → j.server_type v ≡ some (some ty)
          → j.file_name v ≡ o
          → LoadsOne v s
      by_name ty none e₁ e₂ = absurd (h.0.1 ty e₁ e₂)
      by_name ty (some none) e₁ e₂ = (s.configs, ground arith, kept (λ key. ground arith))
      by_name ty (some (some file)) e₁ e₂ = by_file ty file (file_of (ty, file) s) e₁ e₂ refl

      by_type : (o : Option (Option ℕ)) → j.server_type v ≡ o → LoadsOne v s
      by_type none e = absurd (h.0.0 e)
      by_type (some none) e = (s.configs, ground arith, kept (λ key. ground arith))
      by_type (some (some ty)) e = by_name ty (j.file_name v) e refl

  pub load_configs-some : (vs : List Value) (s : Store) → All (HasFile s) vs → Loads vs s
  unfolding load_configs
  load_configs-some [] s h = (s.configs, refl, λ key. ground arith)
  load_configs-some (v ∷ vs) s (hv, h) =
      let (m, e, l) = load_config-some v s hv in
      let (m', e', l') = load_configs-some vs (record s { configs = m }) h in
      (m', rw (load_configs, e) e', λ key. ground (arith, l key, l' key))

  -- The list of the configurations can be read, each element has its members and each listed one
  -- its file, and each one in memory is listed.
  pub record IsStored (elements : List Value) (s : Store) : Type 0 where
    pub list_at : to_absolute_path s.folder s.server_configs_list_file ≡ s.server_configs_list_file
    pub content : Bytes
    pub list_read : lookup s.server_configs_list_file s.files ≡ some content
    pub list_parsed : j.parse content ≡ some elements
    pub have_files : All (HasFile s) elements
    pub in_list :
        (key : ConfigKey) (c : Bytes) → lookup key s.configs ≡ some c → listed key elements ≡ true

  -- What memory holds after the list was read again.
  abbrev pub Reloads : List Value → Store → Type 0
  Reloads vs s =
      (s' : Store) × (initialize_configs j t s ≡ some s')
      × ((key : ConfigKey)
          → lookup key s'.configs ≡ (if listed key vs then file_of key s else none))

  pub initialize_configs-some : (vs : List Value) (s : Store) → IsStored vs s → Reloads vs s
  unfolding initialize_configs
  initialize_configs-some vs s st =
      let (m, e, l) = load_configs-some vs (record s { configs = [] }) st.have_files in
      (
        record s { configs = m },
        ap (λ p. read_list j t (record s { server_configs_list_file = p })) st.list_at
            ∙ (by_content st.content st.list_read st.list_parsed ∙ e),
        l,
      )
    where
      by_content :
          (c : Bytes)
          → lookup s.server_configs_list_file s.files ≡ some c
          → j.parse c ≡ some vs
          → read_list j t s ≡ load_configs j t vs (record s { configs = [] })
      by_content c e₁ e₂ = unfold read_list in ground (arith, e₁, e₂)
