-- ===== src/ServerCommon/Synced.antt =====
-- The registry of a server against the servers that the control server knows: what each message does.
use mathlib.Core.Bool.{true≢false}
use mathlib.Core.Option.{some-injective}
use lalune_server.Base.{
  All, ℕ, ◌≤◌, ◌≡◌, ◌≢◌, ◌⊎◌, inl, inr, Bool-cases, refl, sym, ap, ◌∙◌, Bool, true, false, not,
  ◌&&◌, [], ◌∷◌, none, some, if◌then◌else◌, if_cases, ◌==◌, nat_key, pair_key, nat_beq_iff,
  pair_beq_iff, arith,
}
use lalune_server.Base.Maps.{lookup}
use lalune_server.Base.Entries.{Found, IsMap}
use lalune_server.Registry
use lalune_server.Registry.{update_server_info, remove_server_info}
use lalune_server.Registry.Infos.{update-lookup, update-up}
use lalune_server.Protocol.{
  AddressInfo, Message, say_hello_result, addr_info_add, addr_info_remove, addr_info_refresh,
  addr_info_restart, cmd2server, refresh_config, refresh_config_response, fetch_config_response,
  cmd_result,
}
use lalune_server.Control.{IpPort, ServerInfo, generate_address_list}
use lalune_server.Control.Members.{Infos}
use lalune_server.ServerCommon.{
  Common, receive, note_server, note_servers, note_addr_initialized, note_config_initialized,
}

-- What the registry keeps of an address record.
abbrev pub info_of : AddressInfo → Registry.ServerInfo
info_of addr = record { ip = addr.ip; port = addr.port; server_type = addr.server_type }

-- The servers' ids are at least 1 and differ.
pub record HasIds (infos : Infos) : Type 0 where
  pub id_pos : (a : IpPort) (i : ServerInfo) → lookup a infos ≡ some i → 1 ≤ i.addr.server_id
  pub distinct :
      (a b : IpPort) (i k : ServerInfo)
      → lookup a infos ≡ some i
      → lookup b infos ≡ some k
      → i.addr.server_id ≡ k.addr.server_id
      → a ≡ b

-- A server's registry is up, does not have the server itself, and besides the control server has only
-- known servers.
pub record IsSound (my : ℕ) (infos : Infos) (c : Common) : Type 0 where
  pub up : c.registry.is_shut_down ≡ false
  pub me : c.my_server_id ≡ my
  pub not_me : lookup my c.registry.serverinfos ≡ none
  pub only :
      (id : ℕ) (v : Registry.ServerInfo)
      → lookup id c.registry.serverinfos ≡ some v
      → id ≢ 0
      → (a : IpPort) × (i : ServerInfo) × (lookup a infos ≡ some i) × (i.addr.server_id ≡ id)

-- The registry has what is known of an address.
abbrev pub HasAt : ℕ → Infos → Common → IpPort → Type 0
HasAt my infos c a =
    (i : ServerInfo)
    → lookup a infos ≡ some i
    → i.addr.server_id ≢ my
    → lookup i.addr.server_id c.registry.serverinfos ≡ some (info_of i.addr)

-- The registry has the known servers but the server itself, and besides them only the control server.
abbrev pub IsSynced : ℕ → Infos → Common → Type 0
IsSynced my infos c = IsSound my infos c × ((a : IpPort) → HasAt my infos c a)

-- What the messages about addresses change.
abbrev pub View : Type 0
View = Registry.Registry × ℕ

abbrev pub view : Common → View
view c = (c.registry, c.my_server_id)

-- What holds of the view holds after a message that leaves it as it is.
same_view-IsSound :
    (my : ℕ) (infos : Infos) (c c' : Common)
    → view c' ≡ view c
    → IsSound my infos c
    → IsSound my infos c'
same_view-IsSound my infos c c' e h = record {
  up = ap (λ (v : View). v.0.is_shut_down) e ∙ h.up;
  me = ap (λ (v : View). v.1) e ∙ h.me;
  not_me = ap (λ (v : View). lookup my v.0.serverinfos) e ∙ h.not_me;
  only = λ id x k. h.only id x (ap (λ (v : View). lookup id v.0.serverinfos) (sym e) ∙ k);
}

pub same_view-IsSynced :
    (my : ℕ) (infos : Infos) (c c' : Common)
    → view c' ≡ view c
    → IsSynced my infos c
    → IsSynced my infos c'
same_view-IsSynced my infos c c' e (h, k) = (
  same_view-IsSound my infos c c' e h,
  λ a i at off. ap (λ (v : View). lookup i.addr.server_id v.0.serverinfos) e ∙ k a i at off,
)

-- The messages that say nothing about an address.
abbrev pub is_quiet : Message → Bool
is_quiet (say_hello_result id) = false
is_quiet (addr_info_refresh l) = false
is_quiet (addr_info_add addr) = false
is_quiet (addr_info_remove addr) = false
is_quiet m = true

pub quiet-view : (m : Message) (c : Common) → is_quiet m ≡ true → view (receive m c) ≡ view c
unfolding receive note_config_initialized
quiet-view (addr_info_restart id) c q = refl
quiet-view (cmd2server cmd) c q = refl
quiet-view (refresh_config rc) c q = ground arith
quiet-view refresh_config_response c q = refl
quiet-view (fetch_config_response f) c q = refl
quiet-view (cmd_result r) c q = refl
quiet-view (say_hello_result id) c q = absurd (ground arith)
quiet-view (addr_info_refresh l) c q = absurd (ground arith)
quiet-view (addr_info_add addr) c q = absurd (ground arith)
quiet-view (addr_info_remove addr) c q = absurd (ground arith)

module _ (my : ℕ) (infos : Infos) (ids : HasIds infos) where
  note-up :
      (addr : AddressInfo) (c : Common)
      → (note_server addr c).registry.is_shut_down ≡ c.registry.is_shut_down
  unfolding note_server
  note-up addr c =
      if_cases (λ (x : Common). x.registry.is_shut_down ≡ c.registry.is_shut_down)
        (addr.server_id == c.my_server_id) c _ (λ mine. refl)
        (λ other. update-up addr.server_id (info_of addr) c.registry)

  note-me : (addr : AddressInfo) (c : Common) → (note_server addr c).my_server_id ≡ c.my_server_id
  unfolding note_server
  note-me addr c =
      if_cases (λ (x : Common). x.my_server_id ≡ c.my_server_id) (addr.server_id == c.my_server_id)
        c _ (λ mine. refl) (λ other. refl)

  note-lookup :
      (addr : AddressInfo) (k : ℕ) (c : Common)
      → IsSound my infos c
      → lookup k (note_server addr c).registry.serverinfos ≡ (
          if addr.server_id == k && not (k == my)
          then some (info_of addr)
          else lookup k c.registry.serverinfos)
  unfolding note_server
  note-lookup addr k c h =
      if_cases
        (λ (x : Common). lookup k x.registry.serverinfos ≡ (
          if addr.server_id == k && not (k == my)
          then some (info_of addr)
          else lookup k c.registry.serverinfos))
        (addr.server_id == c.my_server_id) c _
        (λ mine. ground (
          arith,
          h.me,
          nat_beq_iff addr.server_id c.my_server_id,
          nat_beq_iff addr.server_id k,
          nat_beq_iff k my,
        ))
        (λ other. ground (
          arith,
          update-lookup addr.server_id k (info_of addr) c.registry h.up,
          h.me,
          nat_beq_iff addr.server_id c.my_server_id,
          nat_beq_iff addr.server_id k,
          nat_beq_iff k my,
        ))

  -- A known server's address is noted.
  pub note-IsSound :
      (a : IpPort) (i : ServerInfo) (c : Common)
      → lookup a infos ≡ some i
      → IsSound my infos c
      → IsSound my infos (note_server i.addr c)
  note-IsSound a i c here h = record {
    up = note-up i.addr c ∙ h.up;
    me = note-me i.addr c ∙ h.me;
    not_me = ground (arith, note-lookup i.addr my c h, h.not_me, nat_beq_iff my my);
    only = λ id v at off. elim (Bool-cases (i.addr.server_id == id)) [
      | inl same ↦ (a, i, here, (nat_beq_iff i.addr.server_id id).0 same)
      | inr other ↦ h.only id v (ground (arith, note-lookup i.addr id c h, other, at)) off
    ];
  }

  same_server :
      (a b : IpPort) (i k : ServerInfo)
      → a ≡ b
      → lookup a infos ≡ some i
      → lookup b infos ≡ some k
      → i ≡ k
  same_server a b i k same at at' =
      some-injective i k (sym at ∙ (ap (λ x. lookup x infos) same ∙ at'))

  -- What is noted is there, and what was there stays.
  pub note-HasAt :
      (a b : IpPort) (i : ServerInfo) (c : Common)
      → lookup a infos ≡ some i
      → IsSound my infos c
      → (a ≡ b) ⊎ HasAt my infos c b
      → HasAt my infos (note_server i.addr c) b
  note-HasAt a b i c here h was k at off =
      elim (Bool-cases (i.addr.server_id == k.addr.server_id)) [
        | inl same ↦
            let e =
              same_server a b i k
                (ids.distinct a b i k here at
                  ((nat_beq_iff i.addr.server_id k.addr.server_id).0 same))
                here at in
            note-lookup i.addr k.addr.server_id c h
            ∙ ground (arith, same, nat_beq_iff k.addr.server_id my, off, e)
        | inr other ↦ elim was [
          | inl same ↦ absurd (
              true≢false (
                sym (
                  sym other
                  ∙ ap (λ (x : ServerInfo). i.addr.server_id == x.addr.server_id)
                      (sym (same_server a b i k same here at))
                  ∙ (nat_beq_iff i.addr.server_id i.addr.server_id).1 refl)))
          | inr old ↦ note-lookup i.addr k.addr.server_id c h ∙ ground (arith, other, old k at off)
        ]
      ]

  -- A list of known servers is noted.
  notes :
      (m : Infos) (c : Common)
      → All (Found infos) m
      → IsSound my infos c
      → IsSound my infos (note_servers (generate_address_list m) c)
        × ((b : IpPort)
            → HasAt my infos c b ⊎ (lookup b m ≢ none)
            → HasAt my infos (note_servers (generate_address_list m) c) b)
  unfolding note_servers generate_address_list
  notes [] c fs h = (h, λ b was. elim was [ inl old ↦ old | inr there ↦ absurd (there refl) ])
  notes ((a, i) ∷ m) c (f, fs) h =
      let (h', k) = notes m (note_server i.addr c) fs (note-IsSound a i c f h) in
      (h', λ b was. k b (carried b was))
    where
      carried :
          (b : IpPort)
          → HasAt my infos c b ⊎ (lookup b ((a, i) ∷ m) ≢ none)
          → HasAt my infos (note_server i.addr c) b ⊎ (lookup b m ≢ none)
      carried b (inl old) = inl (note-HasAt a b i c f h (inr old))
      carried b (inr there) = elim (Bool-cases (a == b)) [
        | inl same ↦ inl (note-HasAt a b i c f h (inl ((pair_beq_iff a b).0 same)))
        | inr other ↦ inr (ground (arith, there, other))
      ]

  -- After the whole list the registry has every known server.
  pub refresh-IsSynced :
      (c : Common)
      → IsMap infos
      → IsSound my infos c
      → IsSynced my infos (receive (addr_info_refresh (generate_address_list infos)) c)
  unfolding receive note_addr_initialized
  refresh-IsSynced c fs h =
      let (h', k) = notes infos c fs h in
      same_view-IsSynced my infos (note_servers (generate_address_list infos) c)
        (note_addr_initialized (note_servers (generate_address_list infos) c)) (ground arith)
        (h', λ b i at off. k b (inr (ground (arith, at))) i at off)
