-- ===== src/Control/Members.antt =====
-- The servers that are known, their ids and their groups: what joining and leaving keeps.
use lalune_server.Base.{
  ℕ, ◌≤◌, ◌<◌, ◌≡◌, ◌≢◌, ◌⊎◌, inl, inr, Bool-cases, refl, sym, ap, ◌∙◌, Bool, true, false, not,
  ◌&&◌, ◌||◌, List, Option, none, some, ◌==◌, leb, nat_key, pair_key, count, nat_beq_iff,
  pair_beq_iff, arith,
}
use lalune_server.Base.Maps.{lookup, insert, erase, lookup-insert, lookup-erase}
use lalune_server.Ids.{Ids}
use lalune_server.Control.Pool.{IsPool}
use lalune_server.Protocol.{AddressInfo}
use lalune_server.Control.{IpPort, ServerInfo, ServerGroup, insert_in, erase_in}

abbrev pub Infos : Type 0
Infos = List (IpPort × ServerInfo)

abbrev pub Groups : Type 0
Groups = List (ℕ × ServerGroup)

abbrev pub has_group : ℕ → Groups → Bool
has_group ty groups = elim (lookup ty groups) [ none ↦ false | some g ↦ true ]

abbrev pub has_member : IpPort → Option ServerGroup → Bool
has_member a none = false
has_member a (some g) = elim (lookup a g) [ none ↦ false | some u ↦ true ]

-- Whether an address stands in the group of a type.
abbrev pub in_group : IpPort → ℕ → Groups → Bool
in_group a ty groups = has_member a (lookup ty groups)

-- Whether a server of the type is known at the address.
abbrev pub is_of_type : IpPort → ℕ → Infos → Bool
is_of_type a ty infos = elim (lookup a infos) [ none ↦ false | some i ↦ i.addr.server_type == ty ]

-- Each known server's address is its key, and its id is at least 1, was given out, is not in the pool
-- and is no other server's. A type has a group up to the largest type, and its group has exactly the
-- known servers of the type.
pub record IsConsistent (max : ℕ) (ids : Ids) (infos : Infos) (groups : Groups) : Type 0 where
  pub address :
      (a : IpPort) (i : ServerInfo)
      → lookup a infos ≡ some i
      → (i.addr.ip ≡ a.0) × (i.addr.port ≡ a.1)
  pub id_pos : (a : IpPort) (i : ServerInfo) → lookup a infos ≡ some i → 1 ≤ i.addr.server_id
  pub id_given :
      (a : IpPort) (i : ServerInfo) → lookup a infos ≡ some i → i.addr.server_id < ids.next_id
  pub id_out :
      (a : IpPort) (i : ServerInfo)
      → lookup a infos ≡ some i
      → count i.addr.server_id ids.available_ids ≡ 0
  pub distinct :
      (a b : IpPort) (i k : ServerInfo)
      → lookup a infos ≡ some i
      → lookup b infos ≡ some k
      → i.addr.server_id ≡ k.addr.server_id
      → a ≡ b
  pub pool : IsPool ids
  pub groups_to_max : (ty : ℕ) → has_group ty groups ≡ leb ty max
  pub grouped : (a : IpPort) (ty : ℕ) → in_group a ty groups ≡ (is_of_type a ty infos && leb ty max)

-- Who is known after a server was put at an address: that one, or who was known before.
pub known_in-insert :
    (a b : IpPort) (k m : ServerInfo) (infos : Infos)
    → lookup b (insert a k infos) ≡ some m
    → ((a ≡ b) × (k ≡ m)) ⊎ ((a ≢ b) × (lookup b infos ≡ some m))
known_in-insert a b k m infos h = elim (Bool-cases (a == b)) [
  | inl same ↦ inl ((pair_beq_iff a b).0 same, ground (arith, lookup-insert a b k infos, same, h))
  | inr other ↦ inr (
    λ e. ground (arith, pair_beq_iff a b, e, other),
    ground (arith, lookup-insert a b k infos, other, h),
  )
]

pub known_in-erase :
    (a b : IpPort) (m : ServerInfo) (infos : Infos)
    → lookup b (erase a infos) ≡ some m
    → (a ≢ b) × (lookup b infos ≡ some m)
known_in-erase a b m infos h = ground (arith, lookup-erase a b infos, pair_beq_iff a b, h)

-- The address record of a server that is known after a refresh, as it was before.
pub before-refresh :
    (a b : IpPort) (i k m : ServerInfo) (infos : Infos)
    → lookup a infos ≡ some i
    → k.addr ≡ i.addr
    → lookup b (insert a k infos) ≡ some m
    → (n : ServerInfo) × (lookup b infos ≡ some n) × (n.addr ≡ m.addr)
before-refresh a b i k m infos e same h = elim (known_in-insert a b k m infos h) [
  | inl (at, this) ↦ (i, ap (λ c. lookup c infos) (sym at) ∙ e, sym same ∙ ap (λ x. x.addr) this)
  | inr (off, old) ↦ (m, old, refl)
]

-- A known server whose address record is as before.
pub refreshed-IsConsistent :
    (max : ℕ) (ids : Ids) (infos : Infos) (groups : Groups) (a : IpPort) (i k : ServerInfo)
    → lookup a infos ≡ some i
    → k.addr ≡ i.addr
    → IsConsistent max ids infos groups
    → IsConsistent max ids (insert a k infos) groups
refreshed-IsConsistent max ids infos groups a i k e same c = record {
  address = λ b m h.
      let (n, at, eq) = before-refresh a b i k m infos e same h in
      ground (arith, c.address b n at, eq);
  id_pos = λ b m h.
      let (n, at, eq) = before-refresh a b i k m infos e same h in
      ground (arith, c.id_pos b n at, eq);
  id_given = λ b m h.
      let (n, at, eq) = before-refresh a b i k m infos e same h in
      ground (arith, c.id_given b n at, eq);
  id_out = λ b m h.
      let (n, at, eq) = before-refresh a b i k m infos e same h in
      ap (λ (r : AddressInfo). count r.server_id ids.available_ids) (sym eq) ∙ c.id_out b n at;
  distinct = λ b b' m m' h h' same_id.
      let (n, at, eq) = before-refresh a b i k m infos e same h in
      let (n', at', eq') = before-refresh a b' i k m' infos e same h' in
      c.distinct b b' n n' at at' (
        ap (λ (r : AddressInfo). r.server_id) eq
        ∙ (same_id ∙ ap (λ (r : AddressInfo). r.server_id) (sym eq')));
  pool = c.pool;
  groups_to_max = c.groups_to_max;
  grouped =
      λ b ty. ground (arith, lookup-insert a b k infos, pair_beq_iff a b, c.grouped b ty, e, same);
}

pub has_group-insert_in :
    (a : IpPort) (t ty : ℕ) (groups : Groups)
    → has_group ty (insert_in a t groups) ≡ has_group ty groups
has_group-insert_in a t ty groups = by_group (lookup t groups) refl
  where
    by_group :
        (o : Option ServerGroup)
        → lookup t groups ≡ o
        → has_group ty (insert_in a t groups) ≡ has_group ty groups
    by_group none e = ground (arith, e)
    by_group (some g) e =
        ground (arith, e, lookup-insert t ty (insert a tt g) groups, nat_beq_iff t ty)

pub has_group-erase_in :
    (a : IpPort) (t ty : ℕ) (groups : Groups)
    → has_group ty (erase_in a t groups) ≡ has_group ty groups
has_group-erase_in a t ty groups = by_group (lookup t groups) refl
  where
    by_group :
        (o : Option ServerGroup)
        → lookup t groups ≡ o
        → has_group ty (erase_in a t groups) ≡ has_group ty groups
    by_group none e = ground (arith, e)
    by_group (some g) e = ground (arith, e, lookup-insert t ty (erase a g) groups, nat_beq_iff t ty)

pub in_group-insert_in :
    (a b : IpPort) (t ty : ℕ) (groups : Groups)
    → in_group b ty (insert_in a t groups)
      ≡ ((a == b && t == ty && has_group t groups) || in_group b ty groups)
in_group-insert_in a b t ty groups = by_group (lookup t groups) refl
  where
    by_group :
        (o : Option ServerGroup)
        → lookup t groups ≡ o
        → in_group b ty (insert_in a t groups)
          ≡ ((a == b && t == ty && has_group t groups) || in_group b ty groups)
    by_group none e = ground (arith, e)
    by_group (some g) e = ground (
      arith,
      e,
      lookup-insert t ty (insert a tt g) groups,
      lookup-insert a b tt g,
      nat_beq_iff t ty,
    )

pub in_group-erase_in :
    (a b : IpPort) (t ty : ℕ) (groups : Groups)
    → in_group b ty (erase_in a t groups) ≡ (not (a == b && t == ty) && in_group b ty groups)
in_group-erase_in a b t ty groups = by_group (lookup t groups) refl
  where
    by_group :
        (o : Option ServerGroup)
        → lookup t groups ≡ o
        → in_group b ty (erase_in a t groups) ≡ (not (a == b && t == ty) && in_group b ty groups)
    by_group none e = ground (arith, e, nat_beq_iff t ty)
    by_group (some g) e =
        ground
          (arith, e, lookup-insert t ty (erase a g) groups, lookup-erase a b g, nat_beq_iff t ty)
