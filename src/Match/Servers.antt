-- ===== src/Match/Servers.antt =====
-- The list of battle servers of one region.
use lalune_server.Base.{
  ℕ, ◌+◌, ◌≤◌, ◌≡◌, refl, List, [], ◌∷◌, Option, none, some, arith, if◌then◌else◌, leb, ◌==◌,
  nat_key, bytes_key, pair_key, Bytes, All, Bool-cases, inl, inr, nat_beq, beq-same, beq-other,
  beq_refl, ap, ◌∙◌,
}

abbrev pub IpPort : Type 0
IpPort = Bytes × ℕ

-- `deadline` is when the entry's timer runs out.
pub record PvPServerInfo : Type 0 where
  pub id : IpPort
  pub session : ℕ
  pub region : ℕ
  pub priority : ℕ
  pub deadline : ℕ

abbrev pub timeout_secs : ℕ
timeout_secs = 90

-- The first entry of the same id is replaced; a new id goes to the end.
unfoldable pub replace_or_push : PvPServerInfo → List PvPServerInfo → List PvPServerInfo
replace_or_push info [] = info ∷ []
replace_or_push info (x ∷ l) = if x.id == info.id then info ∷ l else x ∷ replace_or_push info l

-- `std::sort` by priority. Where priorities are equal C++ leaves the order open; here they keep it.
unfoldable pub insert_by_priority : PvPServerInfo → List PvPServerInfo → List PvPServerInfo
insert_by_priority x [] = x ∷ []
insert_by_priority x (y ∷ l) =
    if leb x.priority y.priority then x ∷ y ∷ l else y ∷ insert_by_priority x l

unfoldable pub sort_by_priority : List PvPServerInfo → List PvPServerInfo
sort_by_priority [] = []
sort_by_priority (x ∷ l) = insert_by_priority x (sort_by_priority l)

unfoldable pub register_in : PvPServerInfo → List PvPServerInfo → List PvPServerInfo
register_in info l = sort_by_priority (replace_or_push info l)

unfoldable pub without_server : IpPort → List PvPServerInfo → List PvPServerInfo
without_server id [] = []
without_server id (x ∷ l) = if x.id == id then l else x ∷ without_server id l

-- `none` if no entry has the id.
unfoldable pub refresh_in : ℕ → ℕ → IpPort → List PvPServerInfo → Option (List PvPServerInfo)
refresh_in now session id [] = none
refresh_in now session id (x ∷ l) =
    if x.id == id
    then some (record x { deadline = now + timeout_secs; session = session } ∷ l)
    else (elim (refresh_in now session id l) [ none ↦ none | some l' ↦ some (x ∷ l') ])

-- How many entries have the id.
abbrev pub times : IpPort → List PvPServerInfo → ℕ
times id [] = 0
times id (x ∷ l) = (if x.id == id then 1 else 0) + times id l

abbrev pub IsSorted : List PvPServerInfo → Type 0
IsSorted [] = Unit {0}
IsSorted (x ∷ l) = All (λ y. x.priority ≤ y.priority) l × IsSorted l

module _ (P : PvPServerInfo → Type 0) where
  insert_by_priority-All :
      (x : PvPServerInfo) (l : List PvPServerInfo) → P x → All P l → All P (insert_by_priority x l)
  unfolding insert_by_priority
  insert_by_priority-All x [] p h = (p, tt)
  insert_by_priority-All x (y ∷ l) p h = elim (Bool-cases (leb x.priority y.priority)) [
    | inl low ↦ rw low (p, h)
    | inr high ↦ rw high (h.0, insert_by_priority-All x l p h.1)
  ]

  sort_by_priority-All : (l : List PvPServerInfo) → All P l → All P (sort_by_priority l)
  unfolding sort_by_priority
  sort_by_priority-All [] h = tt
  sort_by_priority-All (x ∷ l) h =
      insert_by_priority-All x (sort_by_priority l) h.0 (sort_by_priority-All l h.1)

All-priority_mono :
    (a b : ℕ) (l : List PvPServerInfo)
    → a ≤ b
    → All (λ y. b ≤ y.priority) l
    → All (λ y. a ≤ y.priority) l
All-priority_mono a b [] h k = tt
All-priority_mono a b (y ∷ l) h k = (omega arith, All-priority_mono a b l h k.1)

insert_by_priority-IsSorted :
    (x : PvPServerInfo) (l : List PvPServerInfo) → IsSorted l → IsSorted (insert_by_priority x l)
unfolding insert_by_priority
insert_by_priority-IsSorted x [] s = (tt, tt)
insert_by_priority-IsSorted x (y ∷ l) s = elim (Bool-cases (leb x.priority y.priority)) [
  | inl low ↦
      let h : x.priority ≤ y.priority = ground arith in
      rw low ((h, All-priority_mono x.priority y.priority l h s.0), s)
  | inr high ↦
      let h : y.priority ≤ x.priority = ground arith in
      rw high (
        insert_by_priority-All (λ z. y.priority ≤ z.priority) x l h s.0,
        insert_by_priority-IsSorted x l s.1,
      )
]

sort_by_priority-IsSorted : (l : List PvPServerInfo) → IsSorted (sort_by_priority l)
unfolding sort_by_priority
sort_by_priority-IsSorted [] = tt
sort_by_priority-IsSorted (x ∷ l) =
    insert_by_priority-IsSorted x (sort_by_priority l) (sort_by_priority-IsSorted l)

times-insert :
    (id : IpPort) (x : PvPServerInfo) (l : List PvPServerInfo)
    → times id (insert_by_priority x l) ≡ times id (x ∷ l)
unfolding insert_by_priority
times-insert id x [] = refl
times-insert id x (y ∷ l) = elim (Bool-cases (leb x.priority y.priority)) [
  | inl low ↦ rw low
  | inr high ↦ rw high (omega (arith, times-insert id x l))
]

times-sort : (id : IpPort) (l : List PvPServerInfo) → times id (sort_by_priority l) ≡ times id l
unfolding sort_by_priority
times-sort id [] = refl
times-sort id (x ∷ l) = omega (arith, times-insert id x (sort_by_priority l), times-sort id l)

times-replace :
    (id : IpPort) (info : PvPServerInfo) (l : List PvPServerInfo)
    → times id (replace_or_push info l)
      ≡ (if info.id == id then (if nat_beq (times id l) 0 then 1 else times id l) else times id l)
unfolding replace_or_push
times-replace id info [] = ground arith
times-replace id info (x ∷ l) = elim (Bool-cases (x.id == info.id)) [
  | inl same ↦ elim (Bool-cases (info.id == id)) [
    | inl here ↦ rw (same, beq-same x.id info.id id same, here) (ground arith)
    | inr away ↦ rw (same, beq-same x.id info.id id same, away) refl
  ]
  | inr other ↦ elim (Bool-cases (info.id == id)) [
    | inl here ↦
        let ih : times id (replace_or_push info l)
            ≡ (if nat_beq (times id l) 0 then 1 else times id l) =
          times-replace id info l ∙ rw here refl in
        rw (other, here, beq-other x.id info.id id other here) (ground (arith, ih))
    | inr away ↦
        rw (other, away)
          (ap (λ (n : ℕ). (if x.id == id then 1 else 0) + n)
            (times-replace id info l ∙ rw away refl))
  ]
]

-- Registration keeps the list in the order of the priorities, leaves at most one entry for each id
-- if there was at most one, and leaves the server's own entry there.
pub register_in_lem :
    (info : PvPServerInfo) (l : List PvPServerInfo)
    → ((id : IpPort) → times id l ≤ 1)
    → IsSorted (register_in info l)
      × ((id : IpPort) → times id (register_in info l) ≤ 1)
      × times info.id (register_in info l) ≡ 1
unfolding register_in
register_in_lem info l once = (sort_by_priority-IsSorted (replace_or_push info l), all_once, own)
  where
    count_of :
        (id : IpPort)
        → times id (register_in info l) ≡ (
            if info.id == id
            then (if nat_beq (times id l) 0 then 1 else times id l)
            else times id l)
    count_of id = times-sort id (replace_or_push info l) ∙ times-replace id info l

    all_once : (id : IpPort) → times id (register_in info l) ≤ 1
    all_once id = elim (Bool-cases (info.id == id)) [
      | inl here ↦
          let h : times id (register_in info l)
              ≡ (if nat_beq (times id l) 0 then 1 else times id l) =
            count_of id ∙ rw here refl in
          ground (arith, h, once id)
      | inr away ↦
          let h : times id (register_in info l) ≡ times id l = count_of id ∙ rw away refl in
          ground (arith, h, once id)
    ]

    own : times info.id (register_in info l) ≡ 1
    own =
        let h : times info.id (register_in info l)
            ≡ (if nat_beq (times info.id l) 0 then 1 else times info.id l) =
          count_of info.id ∙ rw (beq_refl info.id) refl in
        ground (arith, h, once info.id)
