-- ===== src/Directory/Mail.antt =====
-- What the messages to one session do, as far as a predicate on the receiver tells.
use lalune_server.Base.{
  ℕ, ◌≡◌, ◌≢◌, refl, true, List, [], ◌∷◌, ◌++◌, some, All, ◌==◌, nat_key, pair_key, nat_beq_iff,
  Bool-cases, inl, inr, arith,
}
use lalune_server.Base.Maps.{lookup}
use lalune_server.Protocol.{Message}
use lalune_server.Control.{IpPort, send_each}
use lalune_server.Control.Members.{Infos}
use lalune_server.ServerCommon.{Common, receive}
use lalune_server.ServerCommon.Synced.{is_quiet, quiet-view, IsSynced, same_view-IsSynced}
use lalune_server.Directory.{inbox, receive_all}

module _ (session : ℕ) where
  pub receive_all-append :
      (xs ys : List (ℕ × Message)) (c : Common)
      → receive_all (inbox session (xs ++ ys)) c
        ≡ receive_all (inbox session ys) (receive_all (inbox session xs) c)
  receive_all-append [] ys c = refl
  receive_all-append ((k, m) ∷ xs) ys c = elim (Bool-cases (k == session)) [
    | inl mine ↦ rw mine (receive_all-append xs ys (receive m c))
    | inr other ↦ rw other (receive_all-append xs ys c)
  ]

  -- To another session.
  pub receive_all-other :
      (k : ℕ) (m : Message) (c : Common)
      → k ≢ session
      → receive_all (inbox session ((k, m) ∷ [])) c ≡ c
  receive_all-other k m c off = ground (arith, nat_beq_iff k session, off)

  -- Each of the messages to the session is quiet.
  abbrev pub IsQuiet : List (ℕ × Message) → Type 0
  IsQuiet = All (λ p. is_quiet p.1 ≡ true)

  pub receive_all-quiet :
      (my : ℕ) (infos : Infos) (l : List (ℕ × Message)) (c : Common)
      → IsQuiet l
      → IsSynced my infos c
      → IsSynced my infos (receive_all (inbox session l) c)
  receive_all-quiet my infos [] c q h = h
  receive_all-quiet my infos ((k, m) ∷ l) c (qm, q) h = elim (Bool-cases (k == session)) [
    | inl mine ↦ rw mine (
        receive_all-quiet my infos l (receive m c) q
          (same_view-IsSynced my infos c (receive m c) (quiet-view m c qm) h))
    | inr other ↦ rw other (receive_all-quiet my infos l c q h)
  ]

  -- One message to every session keeps what one reception keeps.
  pub each-kept :
      (B : Common → Type 0) (m : Message)
      → ((c : Common) → B c → B (receive m c))
      → (l : List (IpPort × ℕ)) (c : Common) → B c
      → B (receive_all (inbox session (send_each l m)) c)
  unfolding send_each
  each-kept B m g [] c b = b
  each-kept B m g ((a, k) ∷ l) c b = elim (Bool-cases (k == session)) [
    | inl mine ↦ rw mine (each-kept B m g l (receive m c) (g c b))
    | inr other ↦ rw other (each-kept B m g l c b)
  ]

  -- One message to every session, this one among them, does what one reception does.
  pub each-first :
      (A B : Common → Type 0) (m : Message)
      → ((c : Common) → A c → B (receive m c))
      → ((c : Common) → B c → B (receive m c))
      → (own : IpPort) (l : List (IpPort × ℕ)) (c : Common) → lookup own l ≡ some session
      → A c
      → B (receive_all (inbox session (send_each l m)) c)
  unfolding send_each
  each-first A B m f g own [] c at h = absurd (ground arith)
  each-first A B m f g own ((a, k) ∷ l) c at h = elim (Bool-cases (k == session)) [
    | inl mine ↦ rw mine (each-kept B m g l (receive m c) (f c h))
    | inr other ↦
        rw other (each-first A B m f g own l c (ground (arith, at, other, nat_beq_iff k session)) h)
  ]
