-- ===== src/Directory/Quiet.antt =====
-- The operations of the control server that send nothing about addresses.
use mathlib.Core.List.{append_assoc, append-nil}
use lalune_server.Base.{
  ℕ, ◌≡◌, refl, sym, ap, ◌∙◌, Bool, true, List, [], ◌∷◌, ◌++◌, none, some, All, All-append, Bytes,
  nat_key, pair_key, bytes_key,
}
use lalune_server.Base.Maps.{lookup}
use lalune_server.Ids.{Ids}
use lalune_server.Configs.{Store}
use lalune_server.Protocol.{Message, ConfigFile, refresh_config}
use lalune_server.Control.{
  IpPort, ServerGroup, Control, to_group, send_to_server_group, send_configs, reply_msg,
}
use lalune_server.Control.Members.{Infos, Groups}
use lalune_server.Control.Events.{members}
use lalune_server.ServerCommon.Synced.{is_quiet}

-- What a quiet operation leaves as it is.
abbrev pub Kept : Type 0
Kept = (Ids × Infos × Groups) × Bool × List (IpPort × ℕ)

abbrev pub kept : Control → Kept
kept s = (members s, s.during_startup, s.server2session)

abbrev pub AllQuiet : List (ℕ × Message) → Type 0
AllQuiet = All (λ p. is_quiet p.1 ≡ true)

-- From `base` on, only quiet messages were sent, and nothing else changed.
pub record IsQuietSince (base s : Control) : Type 0 where
  pub same : kept s ≡ kept base
  pub mail : List (ℕ × Message)
  pub sent_more : s.sent ≡ base.sent ++ mail
  pub quiet : AllQuiet mail

pub quiet_refl : (s : Control) → IsQuietSince s s
quiet_refl s = record { same = refl; mail = []; sent_more = sym (append-nil s.sent); quiet = tt }

-- More quiet messages.
sends-IsQuietSince :
    (base s s' : Control) (mail : List (ℕ × Message))
    → kept s' ≡ kept s
    → s'.sent ≡ s.sent ++ mail
    → AllQuiet mail
    → IsQuietSince base s
    → IsQuietSince base s'
sends-IsQuietSince base s s' mail e e' q h = record {
  same = e ∙ h.same;
  mail = h.mail ++ mail;
  sent_more = e' ∙ (ap (λ l. l ++ mail) h.sent_more ∙ append_assoc base.sent h.mail mail);
  quiet = All-append (λ (p : ℕ × Message). is_quiet p.1 ≡ true) h.mail mail h.quiet q;
}

pub reply-IsQuietSince :
    (base s : Control) (session : ℕ) (m : Message)
    → is_quiet m ≡ true
    → IsQuietSince base s
    → IsQuietSince base (reply_msg session m s)
reply-IsQuietSince base s session m q h =
    sends-IsQuietSince base s (reply_msg session m s) ((session, m) ∷ []) refl refl (q, tt) h

to_group-AllQuiet :
    (m : Message) (g : ServerGroup) (l : List (IpPort × ℕ))
    → is_quiet m ≡ true
    → AllQuiet (to_group m g l)
unfolding to_group
to_group-AllQuiet m [] l q = tt
to_group-AllQuiet m ((a, u) ∷ g) l q =
    elim (lookup a l)
      as (λ o. AllQuiet (elim o [ none ↦ to_group m g l | some k ↦ (k, m) ∷ to_group m g l ])) [
        | none ↦ to_group-AllQuiet m g l q
        | some k ↦ (q, to_group-AllQuiet m g l q)
      ]

pub send_to_server_group-IsQuietSince :
    (base : Control) (ty : ℕ) (m : Message) (s : Control)
    → is_quiet m ≡ true
    → IsQuietSince base s
    → IsQuietSince base (send_to_server_group ty m s)
unfolding send_to_server_group
send_to_server_group-IsQuietSince base ty m s q h =
    elim (lookup ty s.server_groups)
      as (λ o. IsQuietSince base (elim o [
        | none ↦ s
        | some g ↦ record s { sent = s.sent ++ to_group m g s.server2session }
      ])) [
        | none ↦ h
        | some g ↦
            sends-IsQuietSince base s (record s { sent = s.sent ++ to_group m g s.server2session })
              (to_group m g s.server2session) refl refl (to_group-AllQuiet m g s.server2session q) h
      ]

pub send_configs-IsQuietSince :
    (base : Control) (l : List ((ℕ × Bytes) × Bytes)) (s : Control)
    → IsQuietSince base s
    → IsQuietSince base (send_configs l s)
unfolding send_configs
send_configs-IsQuietSince base [] s h = h
send_configs-IsQuietSince base (((ty, name), content) ∷ l) s h =
    let f : ConfigFile = record { file_name = name; content = content } in
    let m = refresh_config (record { server_type = none; file = f ∷ [] }) in
    send_configs-IsQuietSince base l (send_to_server_group ty m s)
      (send_to_server_group-IsQuietSince base ty m s refl h)

-- The store is not among what is looked at.
pub store-IsQuietSince :
    (base s : Control) (store' : Store)
    → IsQuietSince base s
    → IsQuietSince base (record s { store = store' })
store-IsQuietSince base s store' h = record {
  same = h.same;
  mail = h.mail;
  sent_more = h.sent_more;
  quiet = h.quiet;
}
