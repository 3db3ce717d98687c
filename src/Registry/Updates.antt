-- ===== src/Registry/Updates.antt =====
-- Updates and removals keep the groups in step with the infos.
use mathlib.Core.Option.{some-injective, none-ne-some}
use mathlib.Core.Bool.{true≢false}
use lalune_server.Base.{
  ℕ, ◌≡◌, refl, ap, sym, ◌∙◌, Bool, true, false, ◌&&◌, ◌||◌, Option, none, some, if◌then◌else◌,
  if_cases, ◌==◌, nat_key, nat_beq_iff, Bool-cases, inl, inr, ◌⊎◌,
}
use lalune_server.Base.Maps.{lookup, insert, erase, lookup-insert, lookup-erase}
use lalune_server.Registry.Groups.{
  of_type, has, IsGrouped, same_infos, write_info-groups, put_in-has, take_out-has,
}
use lalune_server.Registry.{
  Registry, ServerInfo, group, same_info, update_server_info, remove_server_info, write_info,
  try_start_a_client,
}

or_true : (b : Bool) → (b || true) ≡ true
or_true true = refl
or_true false = refl

both_true : (a b c : Bool) → a ≡ true → b ≡ true → ((a && b) || c) ≡ true
both_true true true c p q = refl
both_true false b c p q = absurd (true≢false (sym p))
both_true true false c p q = absurd (true≢false (sym q))

write_info-info :
    (id other : ℕ) (info found : ServerInfo) (s : Registry)
    → lookup other (write_info id info s).serverinfos ≡ some found
    → ((id ≡ other) × (info ≡ found)) ⊎ (lookup other s.serverinfos ≡ some found)
unfolding write_info
write_info-info id other info found s h = by_old (lookup id s.serverinfos) refl h
  where
    s' : Registry
    s' = record s { serverinfos = insert id info s.serverinfos }

    written :
        lookup other (try_start_a_client id info s').serverinfos ≡ some found
        → ((id ≡ other) × (info ≡ found)) ⊎ (lookup other s.serverinfos ≡ some found)
    written k =
        let e : lookup other (insert id info s.serverinfos) ≡ some found =
          ap (lookup other) (sym (same_infos id info s')) ∙ k in
        elim (Bool-cases (id == other)) [
          | inl same ↦ inl (
            (nat_beq_iff id other).0 same,
            some-injective info found
                (sym (lookup-insert id other info s.serverinfos ∙ rw same refl) ∙ e),
          )
          | inr apart ↦ inr (sym (lookup-insert id other info s.serverinfos ∙ rw apart refl) ∙ e)
        ]

    by_same :
        (b : Bool)
        → lookup other (if b then s else try_start_a_client id info s').serverinfos ≡ some found
        → ((id ≡ other) × (info ≡ found)) ⊎ (lookup other s.serverinfos ≡ some found)
    by_same true k = inr k
    by_same false k = written k

    by_old :
        (o : Option ServerInfo)
        → lookup id s.serverinfos ≡ o
        → lookup other
            (elim o as (λ _. Registry) [
              | some old ↦ if same_info old info then s else try_start_a_client id info s'
              | none ↦ try_start_a_client id info s'
            ]).serverinfos
          ≡ some found
        → ((id ≡ other) × (info ≡ found)) ⊎ (lookup other s.serverinfos ≡ some found)
    by_old none e k = written k
    by_old (some old) e k = by_same (same_info old info) k

-- If every known server is in the group of its type, an update leaves it so.
pub update-IsGrouped :
    (id : ℕ) (info : ServerInfo) (s : Registry)
    → IsGrouped s
    → IsGrouped (update_server_info id info s)
unfolding update_server_info
update-IsGrouped id info s good = by_running s.is_shut_down refl
  where
    grown : Registry
    grown = record (write_info id info s) {
      serverid_groupby_type =
          insert info.server_type (insert id tt (group info.server_type (write_info id info s)))
            (write_info id info s).serverid_groupby_type;
    }

    in_grown : s.is_shut_down ≡ false → IsGrouped grown
    in_grown up other found h =
        ap
          (λ g. has other (
            of_type found.server_type
              (insert info.server_type (insert id tt (of_type info.server_type g)) g)))
          (write_info-groups id info s)
        ∙ put_in-has id other info.server_type found.server_type s.serverid_groupby_type
        ∙ (elim (write_info-info id other info found s h) [
          | inl (same, is) ↦
              both_true (id == other) (info.server_type == found.server_type)
                (has other (of_type found.server_type s.serverid_groupby_type))
                ((nat_beq_iff id other).1 same)
                ((nat_beq_iff info.server_type found.server_type).1
                  (ap (λ (x : ServerInfo). x.server_type) is))
          | inr old ↦
              rw (good other found old)
                (or_true (id == other && info.server_type == found.server_type))
        ])

    by_running : (b : Bool) → s.is_shut_down ≡ b → IsGrouped (if b then s else grown)
    by_running true down = good
    by_running false up = in_grown up

-- If every known server is in the group of its type, a removal leaves it so.
pub remove-IsGrouped :
    (id : ℕ) (info : ServerInfo) (s : Registry)
    → IsGrouped s
    → IsGrouped (remove_server_info id info s)
unfolding remove_server_info
remove-IsGrouped id info s good =
    if_cases IsGrouped s.is_shut_down s _ (λ down. good)
      (λ running. by_old (lookup id s.serverinfos))
  where
    shrunk : Registry
    shrunk = record s {
      clients = erase id s.clients;
      serverid_groupby_type =
          insert info.server_type (erase id (group info.server_type s)) s.serverid_groupby_type;
      serverinfos = erase id s.serverinfos;
    }

    in_shrunk : IsGrouped shrunk
    in_shrunk other found h = elim (Bool-cases (id == other)) [
      | inl same ↦
          absurd (none-ne-some found (sym (lookup-erase id other s.serverinfos ∙ rw same refl) ∙ h))
      | inr apart ↦
          take_out-has id other info.server_type found.server_type s.serverid_groupby_type
          ∙ rw apart
              (good other found (sym (lookup-erase id other s.serverinfos ∙ rw apart refl) ∙ h))
    ]

    by_old :
        (o : Option ServerInfo)
        → IsGrouped (elim o as (λ _. Registry) [
          | none ↦ s
          | some old ↦ if same_info old info then shrunk else s
        ])
    by_old none = good
    by_old (some old) =
        if_cases IsGrouped (same_info old info) shrunk s (λ same. in_shrunk) (λ other. good)
