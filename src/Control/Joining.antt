-- ===== src/Control/Joining.antt =====
-- A server that joins and a server that leaves keep the servers, the ids and the groups consistent.
use lalune_server.Base.{
  ℕ, ◌≡◌, inl, inr, sym, ap, ◌∙◌, none, some, nat_key, pair_key, count, nat_beq_iff, pair_beq_iff,
  arith,
}
use lalune_server.Base.Maps.{lookup, insert, erase, lookup-insert, lookup-erase}
use lalune_server.Ids.{Ids}
use lalune_server.Control.{IpPort, ServerInfo, insert_in, erase_in}
use lalune_server.Control.Pool.{IsTaken, IsReleased}
use lalune_server.Control.Members.{
  Infos, Groups, IsConsistent, known_in-insert, known_in-erase, has_group-insert_in,
  has_group-erase_in, in_group-insert_in, in_group-erase_in,
}

module _ (max : ℕ) (ids : Ids) (infos : Infos) (groups : Groups) (a : IpPort)
    (c : IsConsistent max ids infos groups) where
  pub join-IsConsistent :
      (ids' : Ids) (i : ServerInfo)
      → lookup a infos ≡ none
      → i.addr.ip ≡ a.0
      → i.addr.port ≡ a.1
      → IsTaken i.addr.server_id ids ids'
      → IsConsistent max ids' (insert a i infos) (insert_in a i.addr.server_type groups)
  join-IsConsistent ids' i new ip_at port_at taken = record {
    address = λ b m h. elim (known_in-insert a b i m infos h) [
      | inl (at, this) ↦ ground (arith, at, this, ip_at, port_at)
      | inr (off, old) ↦ c.address b m old
    ];
    id_pos = λ b m h. elim (known_in-insert a b i m infos h) [
      | inl (at, this) ↦ ground (arith, this, taken.id_pos)
      | inr (off, old) ↦ c.id_pos b m old
    ];
    id_given = λ b m h. elim (known_in-insert a b i m infos h) [
      | inl (at, this) ↦ ground (arith, this, taken.id_given)
      | inr (off, old) ↦ ground (arith, c.id_given b m old, taken.grows)
    ];
    id_out = λ b m h. elim (known_in-insert a b i m infos h) [
      | inl (at, this) ↦
          ap (λ (k : ServerInfo). count k.addr.server_id ids'.available_ids) (sym this)
          ∙ taken.id_out
      | inr (off, old) ↦ taken.others_out m.addr.server_id (c.id_out b m old)
    ];
    distinct = λ b b' m m' h h' e. elim (known_in-insert a b i m infos h) [
      | inl (at, this) ↦ elim (known_in-insert a b' i m' infos h') [
        | inl (at', this') ↦ sym at ∙ at'
        | inr (off', old') ↦ absurd (
            taken.is_fresh m'.addr.server_id (c.id_given b' m' old') (c.id_out b' m' old')
              (sym e ∙ ap (λ (k : ServerInfo). k.addr.server_id) (sym this)))
      ]
      | inr (off, old) ↦ elim (known_in-insert a b' i m' infos h') [
        | inl (at', this') ↦ absurd (
            taken.is_fresh m.addr.server_id (c.id_given b m old) (c.id_out b m old)
              (e ∙ ap (λ (k : ServerInfo). k.addr.server_id) (sym this')))
        | inr (off', old') ↦ c.distinct b b' m m' old old' e
      ]
    ];
    pool = taken.pool;
    groups_to_max = λ ty. has_group-insert_in a i.addr.server_type ty groups ∙ c.groups_to_max ty;
    grouped = λ b ty. ground (
      arith,
      in_group-insert_in a b i.addr.server_type ty groups,
      c.grouped b ty,
      c.groups_to_max i.addr.server_type,
      lookup-insert a b i infos,
      pair_beq_iff a b,
      nat_beq_iff i.addr.server_type ty,
      new,
    );
  }

  pub leave-IsConsistent :
      (ids' : Ids) (i : ServerInfo)
      → lookup a infos ≡ some i
      → IsReleased i.addr.server_id ids ids'
      → IsConsistent max ids' (erase a infos) (erase_in a i.addr.server_type groups)
  leave-IsConsistent ids' i here gone = record {
    address = λ b m h. c.address b m (known_in-erase a b m infos h).1;
    id_pos = λ b m h. c.id_pos b m (known_in-erase a b m infos h).1;
    id_given = λ b m h.
        let (off, old) = known_in-erase a b m infos h in
        gone.others_given m.addr.server_id (λ e. off (c.distinct a b i m here old (sym e)))
          (c.id_given b m old);
    id_out = λ b m h.
        let (off, old) = known_in-erase a b m infos h in
        gone.others_out m.addr.server_id (λ e. off (c.distinct a b i m here old (sym e)))
          (c.id_out b m old);
    distinct = λ b b' m m' h h' e.
        c.distinct b b' m m' (known_in-erase a b m infos h).1 (known_in-erase a b' m' infos h').1 e;
    pool = gone.pool;
    groups_to_max = λ ty. has_group-erase_in a i.addr.server_type ty groups ∙ c.groups_to_max ty;
    grouped = λ b ty. ground (
      arith,
      in_group-erase_in a b i.addr.server_type ty groups,
      c.grouped b ty,
      lookup-erase a b infos,
      pair_beq_iff a b,
      nat_beq_iff i.addr.server_type ty,
      here,
    );
  }
