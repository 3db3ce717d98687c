-- ===== src/Registry/Infos.antt =====
-- What is known of the servers after an update and after a removal.
use mathlib.Core.Bool.{true≢false}
use lalune_server.Base.{
  ℕ, ◌≡◌, refl, ap, sym, ◌∙◌, true, false, Option, none, some, if◌then◌else◌, if_cases, ◌==◌,
  nat_key, nat_beq_iff, arith,
}
use lalune_server.Base.Maps.{lookup, insert, lookup-insert, lookup-erase}
use lalune_server.Registry.{
  Registry, ServerInfo, update_server_info, remove_server_info, write_info, same_info,
  try_start_a_client,
}
use lalune_server.Registry.Groups.{same_infos}

same_info-eq : (a b : ServerInfo) → same_info a b ≡ true → a ≡ b
same_info-eq a b h = ground (
  arith,
  nat_beq_iff a.ip b.ip,
  nat_beq_iff a.port b.port,
  nat_beq_iff a.server_type b.server_type,
)

same_info_refl : (a : ServerInfo) → same_info a a ≡ true
same_info_refl a = ground (
  arith,
  nat_beq_iff a.ip a.ip,
  nat_beq_iff a.port a.port,
  nat_beq_iff a.server_type a.server_type,
)

write_info-lookup :
    (id k : ℕ) (info : ServerInfo) (s : Registry)
    → lookup k (write_info id info s).serverinfos
      ≡ (if id == k then some info else lookup k s.serverinfos)
unfolding write_info
write_info-lookup id k info s = by_old (lookup id s.serverinfos) refl
  where
    started :
        lookup k
          (try_start_a_client id info
            (record s { serverinfos = insert id info s.serverinfos })).serverinfos
        ≡ (if id == k then some info else lookup k s.serverinfos)
    started =
        ap (lookup k) (same_infos id info (record s { serverinfos = insert id info s.serverinfos }))
        ∙ lookup-insert id k info s.serverinfos

    by_old :
        (o : Option ServerInfo)
        → lookup id s.serverinfos ≡ o
        → lookup k (write_info id info s).serverinfos
          ≡ (if id == k then some info else lookup k s.serverinfos)
    by_old none e = rw (write_info, e) started
    by_old (some old) e =
        rw (write_info, e)
          (if_cases
            (λ (r : Registry).
              lookup k r.serverinfos ≡ (if id == k then some info else lookup k s.serverinfos))
            (same_info old info) s
            (try_start_a_client id info (record s { serverinfos = insert id info s.serverinfos }))
            (λ same. ground (arith, e, same_info-eq old info same, nat_beq_iff id k))
            (λ other. started))

pub update-lookup :
    (id k : ℕ) (info : ServerInfo) (s : Registry)
    → s.is_shut_down ≡ false
    → lookup k (update_server_info id info s).serverinfos
      ≡ (if id == k then some info else lookup k s.serverinfos)
unfolding update_server_info
update-lookup id k info s up =
    if_cases
      (λ (r : Registry).
        lookup k r.serverinfos ≡ (if id == k then some info else lookup k s.serverinfos))
      s.is_shut_down s _ (λ down. absurd (true≢false (sym down ∙ up)))
      (λ running. write_info-lookup id k info s)

pub update-up :
    (id : ℕ) (info : ServerInfo) (s : Registry)
    → (update_server_info id info s).is_shut_down ≡ s.is_shut_down
unfolding update_server_info write_info try_start_a_client
update-up id info s = ground arith

pub remove-up :
    (id : ℕ) (info : ServerInfo) (s : Registry)
    → (remove_server_info id info s).is_shut_down ≡ s.is_shut_down
unfolding remove_server_info
remove-up id info s = ground arith

pub remove-lookup :
    (id k : ℕ) (info : ServerInfo) (s : Registry)
    → s.is_shut_down ≡ false
    → lookup id s.serverinfos ≡ some info
    → lookup k (remove_server_info id info s).serverinfos
      ≡ (if id == k then none else lookup k s.serverinfos)
unfolding remove_server_info
remove-lookup id k info s up here =
    rw (remove_server_info, up, here, same_info_refl info) (lookup-erase id k s.serverinfos)

pub remove-absent :
    (id : ℕ) (info : ServerInfo) (s : Registry)
    → lookup id s.serverinfos ≡ none
    → remove_server_info id info s ≡ s
unfolding remove_server_info
remove-absent id info s gone = ground (arith, gone)
