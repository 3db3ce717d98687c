-- ===== src/Directory/Steps.antt =====
-- A server whose registry is in step with the control server stays so, whatever happens to others.
use mathlib.Core.Path.{subst}
use mathlib.Core.Option.{some-injective}
use lalune_server.Base.{
  ℕ, ◌+◌, ◌<◌, ◌≡◌, ◌≢◌, refl, sym, ap, ◌∙◌, Bool, true, false, List, [], ◌∷◌, Option, none, some,
  Bool-cases, inl, inr, ◌==◌, nat_key, pair_key, pair_beq_iff, arith,
}
use lalune_server.Base.Maps.{lookup, insert, erase, lookup-insert, lookup-erase}
use lalune_server.Base.Entries.{IsMap, insert-IsMap, erase-IsMap}
use lalune_server.Ids.{Ids}
use lalune_server.Protocol.{AddressInfo, Message, addr_info_remove, addr_info_refresh}
use lalune_server.Control.{
  IpPort, ServerInfo, Control, send_each, inform_address_info, reply_msg, server_timeout,
  startup_timer, recv_keep_alive_handler, generate_address_list,
}
use lalune_server.Control.Members.{Infos, Groups, IsConsistent, known_in-erase, before-refresh}
use lalune_server.Control.Events.{Within}
use lalune_server.ServerCommon.{Common}
use lalune_server.ServerCommon.Synced.{HasIds, IsSynced, refresh-IsSynced, info_of}
use lalune_server.ServerCommon.Joined.{leave-IsSynced, gone-IsSynced}
use lalune_server.Directory.{inbox, receive_all}
use lalune_server.Directory.Mail.{
  receive_all-append, receive_all-other, receive_all-quiet, each-kept, each-first,
}
use lalune_server.Directory.Quiet.{Kept, kept, IsQuietSince}

pub ids_of :
    (max : ℕ) (ids : Ids) (infos : Infos) (groups : Groups)
    → IsConsistent max ids infos groups
    → HasIds infos
ids_of max ids infos groups c = record { id_pos = c.id_pos; distinct = c.distinct }

-- The server of a session is known at its own address by its id, and its registry is in step.
pub record IsInStep (session : ℕ) (own : IpPort) (my : ℕ) (k : Kept) (c : Common) : Type 0 where
  pub is_map : IsMap k.0.1
  pub running : k.1 ≡ false
  pub linked : lookup own k.2 ≡ some session
  pub self : ServerInfo
  pub self_known : lookup own k.0.1 ≡ some self
  pub self_id : self.addr.server_id ≡ my
  pub synced : IsSynced my k.0.1 c

module _ (session : ℕ) (own : IpPort) (my : ℕ) (c₀ : Common) where
  -- The server after everything that was sent to it.
  abbrev pub received : Control → Common
  received s = receive_all (inbox session s.sent) c₀

  abbrev pub Followed : Control → Type 0
  Followed s = IsInStep session own my (kept s) (received s)

  pub quiet-Followed : (s s' : Control) → IsQuietSince s s' → Followed s → Followed s'
  quiet-Followed s s' q f =
      subst (λ (k : Kept). IsInStep session own my k (received s')) (sym q.same)
        (subst
          (λ (l : List (ℕ × Message)).
            IsInStep session own my (kept s) (receive_all (inbox session l) c₀))
          (sym q.sent_more)
          (subst (λ (c : Common). IsInStep session own my (kept s) c)
            (sym (receive_all-append session s.sent q.mail c₀))
            (record {
              is_map = f.is_map;
              running = f.running;
              linked = f.linked;
              self = f.self;
              self_known = f.self_known;
              self_id = f.self_id;
              synced =
                  receive_all-quiet session my s.servers_info q.mail (received s) q.quiet f.synced;
            })))

  pub received-reply :
      (k : ℕ) (m : Message) (s : Control) → k ≢ session → received (reply_msg k m s) ≡ received s
  received-reply k m s off =
      receive_all-append session s.sent ((k, m) ∷ []) c₀
      ∙ receive_all-other session k m (received s) off

  pub received-inform :
      (m : Message) (s : Control)
      → received (inform_address_info m s)
        ≡ receive_all (inbox session (send_each s.server2session m)) (received s)
  unfolding inform_address_info
  received-inform m s = receive_all-append session s.sent (send_each s.server2session m) c₀

  -- A timer is set anew.
  refreshed-IsSynced :
      (infos : Infos) (a : IpPort) (i k : ServerInfo) (c : Common)
      → lookup a infos ≡ some i
      → k.addr ≡ i.addr
      → IsSynced my infos c
      → IsSynced my (insert a k infos) c
  refreshed-IsSynced infos a i k c e same (y, has) = (
    record {
      up = y.up;
      me = y.me;
      not_me = y.not_me;
      only = λ id v at off.
          let (b, m, at', id_at) = y.only id v at off in
          let (o, at'', e'') = now b m at' id_at in (b, o, at'', e'');
    },
    λ b m at off.
        let (o, at', eq) = before-refresh a b i k m infos e same at in
        subst (λ (r : AddressInfo). lookup r.server_id c.registry.serverinfos ≡ some (info_of r)) eq
          (has b o at' (λ e'. off (ap (λ (r : AddressInfo). r.server_id) (sym eq) ∙ e'))),
  )
    where
      now :
          {id : ℕ} (b : IpPort) (m : ServerInfo)
          → lookup b infos ≡ some m
          → m.addr.server_id ≡ id
          → (o : ServerInfo) × (lookup b (insert a k infos) ≡ some o) × (o.addr.server_id ≡ id)
      now {id} b m at' id_at = elim (Bool-cases (a == b)) [
        | inl here ↦ (
          k,
          ground (arith, lookup-insert a b k infos, here),
          ap (λ (r : AddressInfo). r.server_id) same
              ∙ (ap (λ (x : ServerInfo). x.addr.server_id)
                    (some-injective i m
                      (sym e ∙ (ap (λ x. lookup x infos) ((pair_beq_iff a b).0 here) ∙ at')))
                  ∙ id_at),
        )
        | inr apart ↦ (m, ground (arith, lookup-insert a b k infos, apart, at'), id_at)
      ]

  pub refreshed-Followed :
      (a : IpPort) (i k : ServerInfo) (s : Control)
      → lookup a s.servers_info ≡ some i
      → k.addr ≡ i.addr
      → Followed s
      → Followed (record s { servers_info = insert a k s.servers_info })
  refreshed-Followed a i k s e same f = elim (Bool-cases (a == own)) [
    | inl here ↦ build k (ground (arith, lookup-insert a own k s.servers_info, here)) (
        ap (λ (r : AddressInfo). r.server_id) same
        ∙ (ap (λ (x : ServerInfo). x.addr.server_id)
              (some-injective i f.self (
                sym e
                ∙ (ap (λ x. lookup x s.servers_info) ((pair_beq_iff a own).0 here) ∙ f.self_known)))
            ∙ f.self_id))
    | inr apart ↦
        build f.self (ground (arith, lookup-insert a own k s.servers_info, apart, f.self_known))
          f.self_id
  ]
    where
      build :
          (self : ServerInfo)
          → lookup own (insert a k s.servers_info) ≡ some self
          → self.addr.server_id ≡ my
          → Followed (record s { servers_info = insert a k s.servers_info })
      build self at id_at = record {
        is_map = insert-IsMap a k s.servers_info f.is_map;
        running = f.running;
        linked = f.linked;
        self = self;
        self_known = at;
        self_id = id_at;
        synced = refreshed-IsSynced s.servers_info a i k (received s) e same f.synced;
      }

  pub keep_alive-Followed :
      (now k : ℕ) (s : Control) → Followed s → Followed (recv_keep_alive_handler now k s)
  unfolding recv_keep_alive_handler
  keep_alive-Followed now k s f = by_session (lookup k s.attached) refl
    where
      by_info :
          (a : IpPort) (o : Option ServerInfo)
          → lookup k s.attached ≡ some a
          → lookup a s.servers_info ≡ o
          → Followed (recv_keep_alive_handler now k s)
      by_info a none e e' = rw (recv_keep_alive_handler, e, e') f
      by_info a (some i) e e' =
          rw (recv_keep_alive_handler, e, e')
            (refreshed-Followed a i (record i { deadline = now + s.timeout_sec }) s e' refl f)

      by_session :
          (o : Option IpPort) → lookup k s.attached ≡ o → Followed (recv_keep_alive_handler now k s)
      by_session none e = rw (recv_keep_alive_handler, e) f
      by_session (some a) e = by_info a (lookup a s.servers_info) e refl

  module _ (max n : ℕ) (h : n + 1 < 4294967296) where
    -- Another server's timer runs out.
    pub timeout-Followed :
        (a : IpPort) (s : Control)
        → a ≢ own
        → Within max n s
        → Followed s
        → Followed (server_timeout false a s)
    unfolding server_timeout
    timeout-Followed a s off w f = by_info (lookup a s.servers_info) refl
      where
        not_mine : (i : ServerInfo) → lookup a s.servers_info ≡ some i → i.addr.server_id ≢ my
        not_mine i e same = off (w.0.distinct a own i f.self e f.self_known (same ∙ sym f.self_id))

        others :
            (i : ServerInfo)
            → lookup a s.servers_info ≡ some i
            → (b : IpPort) (m : ServerInfo) → lookup b (erase a s.servers_info) ≡ some m
            → m.addr.server_id ≢ i.addr.server_id
        others i e b m at same =
            let (apart, old) = known_in-erase a b m s.servers_info at in
            apart (w.0.distinct a b i m e old (sym same))

        by_info :
            (o : Option ServerInfo)
            → lookup a s.servers_info ≡ o
            → Followed (server_timeout false a s)
        by_info none e = rw (server_timeout, e) f
        by_info (some i) e =
            rw (server_timeout, e)
              (unfold inform_address_info in
                record {
                  is_map = erase-IsMap a s.servers_info f.is_map;
                  running = f.running;
                  linked = f.linked;
                  self = f.self;
                  self_known = ground (
                    arith,
                    lookup-erase a own s.servers_info,
                    pair_beq_iff a own,
                    f.self_known,
                    off,
                  );
                  self_id = f.self_id;
                  synced =
                      subst (λ (c : Common). IsSynced my (erase a s.servers_info) c)
                        (sym (received-inform (addr_info_remove i.addr) s))
                        (each-first session (IsSynced my s.servers_info)
                          (IsSynced my (erase a s.servers_info)) (addr_info_remove i.addr)
                          (λ c y.
                            leave-IsSynced my s.servers_info a i c
                              (ids_of max s.available_ids s.servers_info s.server_groups w.0) e
                              (not_mine i e) y)
                          (λ c y.
                            gone-IsSynced my (erase a s.servers_info) i.addr c (w.0.id_pos a i e)
                              (others i e) y)
                          own s.server2session (received s) f.linked f.synced);
                })

    -- The end of the start, once more: the whole list goes to every session.
    pub startup-Followed :
        (cancelled : Bool) (s : Control)
        → Within max n s
        → Followed s
        → Followed (startup_timer cancelled s)
    unfolding startup_timer inform_address_info
    startup-Followed true s w f = f
    startup-Followed false s w f = record {
      is_map = f.is_map;
      running = refl;
      linked = f.linked;
      self = f.self;
      self_known = f.self_known;
      self_id = f.self_id;
      synced =
          subst (λ (c : Common). IsSynced my s.servers_info c)
            (sym (received-inform (addr_info_refresh (generate_address_list s.servers_info)) s))
            (each-kept session (IsSynced my s.servers_info)
              (addr_info_refresh (generate_address_list s.servers_info))
              (λ c y.
                refresh-IsSynced my s.servers_info
                  (ids_of max s.available_ids s.servers_info s.server_groups w.0) c f.is_map y.0)
              s.server2session (received s) f.synced);
    }
