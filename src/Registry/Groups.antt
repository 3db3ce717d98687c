-- ===== src/Registry/Groups.antt =====
-- The groups of ids by type against the infos of the servers.
use mathlib.Core.Bool.{true≢false}
use lalune_server.Base.{
  ℕ, ◌≡◌, refl, ap, sym, ◌∙◌, Bool, true, false, not, ◌&&◌, ◌||◌, List, [], none, some,
  if◌then◌else◌, if_cases, ◌==◌, nat_key, nat_beq_iff, Bool-cases, inl, inr, arith,
}
use lalune_server.Base.Maps.{lookup, insert, erase, lookup-insert, lookup-erase}
use lalune_server.Registry.{
  Registry, ServerInfo, IdSet, update_server_info, write_info, try_start_a_client,
}

abbrev pub of_type : ℕ → List (ℕ × IdSet) → IdSet
of_type ty g = elim (lookup ty g) [ none ↦ [] | some l ↦ l ]

abbrev pub has : ℕ → IdSet → Bool
has id l = elim (lookup id l) [ none ↦ false | some u ↦ true ]

-- Whether the group of a type has the id.
abbrev pub in_group : ℕ → ℕ → Registry → Bool
in_group id server_type s = has id (of_type server_type s.serverid_groupby_type)

of_type-insert :
    (t ty : ℕ) (l : IdSet) (g : List (ℕ × IdSet))
    → of_type ty (insert t l g) ≡ (if t == ty then l else of_type ty g)
of_type-insert t ty l g = ground (arith, lookup-insert t ty l g)

has-insert : (id other : ℕ) (l : IdSet) → has other (insert id tt l) ≡ (id == other || has other l)
has-insert id other l = ground (arith, lookup-insert id other tt l)

has-erase : (id other : ℕ) (l : IdSet) → has other (erase id l) ≡ (not (id == other) && has other l)
has-erase id other l = ground (arith, lookup-erase id other l)

-- Every server that is known stands in the group of its type.
abbrev pub IsGrouped : Registry → Type 0
IsGrouped s =
    (id : ℕ) (info : ServerInfo)
    → lookup id s.serverinfos ≡ some info
    → in_group id info.server_type s ≡ true

pub same_infos :
    (id : ℕ) (info : ServerInfo) (s : Registry)
    → (try_start_a_client id info s).serverinfos ≡ s.serverinfos
unfolding try_start_a_client
same_infos id info s = ground arith

same_groups :
    (id : ℕ) (info : ServerInfo) (s : Registry)
    → (try_start_a_client id info s).serverid_groupby_type ≡ s.serverid_groupby_type
unfolding try_start_a_client
same_groups id info s = ground arith

pub write_info-groups :
    (id : ℕ) (info : ServerInfo) (s : Registry)
    → (write_info id info s).serverid_groupby_type ≡ s.serverid_groupby_type
unfolding write_info
write_info-groups id info s =
    ground (arith, same_groups id info (record s { serverinfos = insert id info s.serverinfos }))

-- The groups after an id was put into one of them, or taken out.
pub put_in-has :
    (id other t ty : ℕ) (g : List (ℕ × IdSet))
    → has other (of_type ty (insert t (insert id tt (of_type t g)) g))
      ≡ ((id == other && t == ty) || has other (of_type ty g))
put_in-has id other t ty g =
    ap (has other) (of_type-insert t ty (insert id tt (of_type t g)) g)
    ∙ (elim (Bool-cases (t == ty)) [
      | inl same ↦ rw same (
          has-insert id other (of_type t g)
          ∙ ap (λ n. (id == other) || has other (of_type n g)) ((nat_beq_iff t ty).0 same)
          ∙ by_true (id == other))
      | inr apart ↦ rw apart (by_false (id == other))
    ])
  where
    by_true :
        (b : Bool) → (b || has other (of_type ty g)) ≡ ((b && true) || has other (of_type ty g))
    by_true true = refl
    by_true false = refl

    by_false : (b : Bool) → has other (of_type ty g) ≡ ((b && false) || has other (of_type ty g))
    by_false true = refl
    by_false false = refl

pub take_out-has :
    (id other t ty : ℕ) (g : List (ℕ × IdSet))
    → has other (of_type ty (insert t (erase id (of_type t g)) g))
      ≡ (not (id == other && t == ty) && has other (of_type ty g))
take_out-has id other t ty g =
    ap (has other) (of_type-insert t ty (erase id (of_type t g)) g) ∙ (elim (Bool-cases (t == ty)) [
      | inl same ↦ rw same (
          has-erase id other (of_type t g)
          ∙ ap (λ n. not (id == other) && has other (of_type n g)) ((nat_beq_iff t ty).0 same)
          ∙ by_true (id == other))
      | inr apart ↦ rw apart (by_false (id == other))
    ])
  where
    by_true :
        (b : Bool)
        → (not b && has other (of_type ty g)) ≡ (not (b && true) && has other (of_type ty g))
    by_true true = refl
    by_true false = refl

    by_false :
        (b : Bool) → has other (of_type ty g) ≡ (not (b && false) && has other (of_type ty g))
    by_false true = refl
    by_false false = refl

-- An update of a registry that is not shut down puts the id into the group of the type; no update
-- takes an id out of any group, also not out of the group of the type that the server had before,
-- and an update of a registry that is shut down puts none into a group.
pub update-in_group :
    (id other ty : ℕ) (info : ServerInfo) (s : Registry)
    → in_group other ty (update_server_info id info s)
      ≡ ((not s.is_shut_down && (id == other && info.server_type == ty)) || in_group other ty s)
unfolding update_server_info
update-in_group id other ty info s =
    if_cases
      (λ t.
        in_group other ty t
        ≡ ((not s.is_shut_down && (id == other && info.server_type == ty)) || in_group other ty s))
      s.is_shut_down s _ (λ down. when_down s.is_shut_down _ (in_group other ty s) down)
      (λ running.
        ap
          (λ g.
            has other
              (of_type ty (insert info.server_type (insert id tt (of_type info.server_type g)) g)))
          (write_info-groups id info s)
        ∙ (put_in-has id other info.server_type ty s.serverid_groupby_type
            ∙ when_up s.is_shut_down _ (in_group other ty s) running))
  where
    when_down : (b x y : Bool) → b ≡ true → y ≡ ((not b && x) || y)
    when_down true x y h = refl
    when_down false x y h = absurd (true≢false (sym h))

    when_up : (b x y : Bool) → b ≡ false → (x || y) ≡ ((not b && x) || y)
    when_up false x y h = refl
    when_up true x y h = absurd (true≢false h)
