-- ===== src/ServerCommon/Joined.antt =====
-- The registry of a server when another server joins and when one leaves.
use mathlib.Core.Option.{some-injective, none-ne-some}
use lalune_server.Base.{
  ℕ, ◌≤◌, ◌≡◌, ◌≢◌, ◌⊎◌, inl, inr, Bool-cases, sym, ap, ◌∙◌, none, some, Option-cases,
  if◌then◌else◌, ◌==◌, nat_key, pair_key, nat_beq_iff, pair_beq_iff, arith,
}
use lalune_server.Base.Maps.{lookup, insert, erase, lookup-insert, lookup-erase}
use lalune_server.Registry
use lalune_server.Registry.{update_server_info, remove_server_info}
use lalune_server.Registry.Infos.{remove-up, remove-lookup, remove-absent}
use lalune_server.Protocol.{AddressInfo, addr_info_add, addr_info_remove}
use lalune_server.Control.{IpPort, ServerInfo}
use lalune_server.Control.Members.{Infos, known_in-erase}
use lalune_server.ServerCommon.{Common, receive}
use lalune_server.ServerCommon.Synced.{
  HasIds, IsSound, HasAt, IsSynced, note-IsSound, note-HasAt, info_of, same_view-IsSynced,
}

module _ (my : ℕ) where
  -- A known server is added once more.
  pub again-IsSynced :
      (infos : Infos) (a : IpPort) (i : ServerInfo) (c : Common)
      → HasIds infos
      → lookup a infos ≡ some i
      → IsSynced my infos c
      → IsSynced my infos (receive (addr_info_add i.addr) c)
  unfolding receive
  again-IsSynced infos a i c ids here (h, k) = (
    note-IsSound my infos ids a i c here h,
    λ b. note-HasAt my infos ids a b i c here h (inr (k b)),
  )

  -- A server that joins is added.
  pub join-IsSynced :
      (infos : Infos) (a : IpPort) (i : ServerInfo) (c : Common)
      → HasIds (insert a i infos)
      → lookup a infos ≡ none
      → IsSynced my infos c
      → IsSynced my (insert a i infos) (receive (addr_info_add i.addr) c)
  unfolding receive
  join-IsSynced infos a i c ids new (h, k) = (
    note-IsSound my (insert a i infos) ids a i c here wide,
    λ b. note-HasAt my (insert a i infos) ids a b i c here wide (carried b),
  )
    where
      here : lookup a (insert a i infos) ≡ some i
      here = ground (arith, lookup-insert a a i infos, pair_beq_iff a a)

      stays :
          (b : IpPort) (m : ServerInfo)
          → lookup b infos ≡ some m
          → lookup b (insert a i infos) ≡ some m
      stays b m at = ground (arith, lookup-insert a b i infos, pair_beq_iff a b, new, at)

      wide : IsSound my (insert a i infos) c
      wide = record {
        up = h.up;
        me = h.me;
        not_me = h.not_me;
        only = λ id v at off. let (b, m, at', e) = h.only id v at off in (b, m, stays b m at', e);
      }

      carried : (b : IpPort) → (a ≡ b) ⊎ HasAt my (insert a i infos) c b
      carried b = elim (Bool-cases (a == b)) [
        | inl same ↦ inl ((pair_beq_iff a b).0 same)
        | inr other ↦
            inr (λ m at off. k b m (ground (arith, lookup-insert a b i infos, other, at)) off)
      ]

  -- A server that leaves is removed.
  pub leave-IsSynced :
      (infos : Infos) (a : IpPort) (i : ServerInfo) (c : Common)
      → HasIds infos
      → lookup a infos ≡ some i
      → i.addr.server_id ≢ my
      → IsSynced my infos c
      → IsSynced my (erase a infos) (receive (addr_info_remove i.addr) c)
  unfolding receive
  leave-IsSynced infos a i c ids here off (h, k) = (
    record {
      up = remove-up i.addr.server_id (info_of i.addr) c.registry ∙ h.up;
      me = h.me;
      not_me = gone my ∙ ground (arith, h.not_me);
      only = λ id v at pos. left id v at pos;
    },
    λ b m at off'.
        let (apart, old) = known_in-erase a b m infos at in
        gone m.addr.server_id
        ∙ ground (
          arith,
          k b m old off',
          nat_beq_iff i.addr.server_id m.addr.server_id,
          ids.distinct a b i m here old,
          apart,
        ),
  )
    where
      gone :
          (x : ℕ)
          → lookup x (remove_server_info i.addr.server_id (info_of i.addr) c.registry).serverinfos
            ≡ (if i.addr.server_id == x then none else lookup x c.registry.serverinfos)
      gone x = remove-lookup i.addr.server_id x (info_of i.addr) c.registry h.up (k a i here off)

      still :
          (id : ℕ) (v : Registry.ServerInfo)
          → (i.addr.server_id ≢ id)
          → lookup id c.registry.serverinfos ≡ some v
          → id ≢ 0
          → (b : IpPort) × (m : ServerInfo) × (lookup b (erase a infos) ≡ some m)
            × (m.addr.server_id ≡ id)
      still id v other at pos =
          let (b, m, at', e) = h.only id v at pos in
          (
            b,
            m,
            ground (arith, lookup-erase a b infos, pair_beq_iff a b, at', apart b m at' e other),
            e,
          )
        where
          apart :
              (b : IpPort) (m : ServerInfo)
              → lookup b infos ≡ some m
              → m.addr.server_id ≡ id
              → i.addr.server_id ≢ id
              → a ≢ b
          apart b m at' e other same = other (
              ap (λ (x : ServerInfo). x.addr.server_id)
                (some-injective i m (sym here ∙ (ap (λ x. lookup x infos) same ∙ at')))
              ∙ e)

      left :
          (id : ℕ) (v : Registry.ServerInfo)
          → lookup id (remove_server_info i.addr.server_id (info_of i.addr) c.registry).serverinfos
            ≡ some v
          → id ≢ 0
          → (b : IpPort) × (m : ServerInfo) × (lookup b (erase a infos) ≡ some m)
            × (m.addr.server_id ≡ id)
      left id v at pos = elim (Bool-cases (i.addr.server_id == id)) [
        | inl same ↦ absurd (
            none-ne-some v (
              ap (λ t. if t then none else lookup id c.registry.serverinfos) (sym same)
              ∙ (sym (gone id) ∙ at)))
        | inr other ↦
            still id v (λ e. ground (arith, nat_beq_iff i.addr.server_id id))
              (ap (λ t. if t then none else lookup id c.registry.serverinfos) (sym other)
                ∙ (sym (gone id) ∙ at))
              pos
      ]

  -- A server that is not known is removed once more.
  pub gone-IsSynced :
      (infos : Infos) (addr : AddressInfo) (c : Common)
      → 1 ≤ addr.server_id
      → ((b : IpPort) (m : ServerInfo)
          → lookup b infos ≡ some m
          → m.addr.server_id ≢ addr.server_id)
      → IsSynced my infos c
      → IsSynced my infos (receive (addr_info_remove addr) c)
  unfolding receive
  gone-IsSynced infos addr c pos apart (h, k) =
      same_view-IsSynced my infos c (receive (addr_info_remove addr) c)
        (ap (λ (r : Registry.Registry). (r, c.my_server_id))
          (remove-absent addr.server_id (info_of addr) c.registry absent))
        (h, k)
    where
      absent : lookup addr.server_id c.registry.serverinfos ≡ none
      absent = elim (Option-cases (lookup addr.server_id c.registry.serverinfos)) [
        | inl e ↦ e
        | inr (v, e) ↦
            let (b, m, at, same) = h.only addr.server_id v e (omega arith) in
            absurd (apart b m at same)
      ]
