-- ===== src/Client/Resent.antt =====
-- Data that could not be sent is kept, and goes out in its order when the client is connected again.
use lalune_server.Base.{
  ◌+◌, ◌-◌, ◌≡◌, refl, ap, sym, ◌∙◌, Bool, true, false, ◌||◌, List, [], ◌∷◌, ◌++◌, Option, none,
  some, if◌then◌else◌, if_cases, ◌==◌, nat_key,
}
use mathlib.Core.Bool.{true≢false}
use mathlib.Core.Option.{none-ne-some}
use mathlib.Core.List.{append-nil, append_assoc}
use lalune_server.Session.{Packet}
use lalune_server.Client.{
  ClientError, call, connected, reconnected, Client, Detail, send_all, session_send,
  connected_handler, tcp_connected_handler, decrease_pending, is_connected,
}

send_all-queue :
    (l : List Packet) (c : Client) (d : Detail)
    → c.connected_session ≡ some d
    → (send_all l c).connected_session ≡ some (record d { queue = d.queue ++ l })
unfolding send_all session_send
send_all-queue [] c d h = rw (append-nil d.queue) h
send_all-queue (p ∷ l) c d h =
    send_all-queue l (session_send p c) (record d { queue = d.queue ++ p ∷ [] })
      (rw (session_send, h) refl)
    ∙ ap (λ q. some (record d { queue = q })) (append_assoc d.queue (p ∷ []) l)

-- A client whose session is up with this queue, and with no failed data.
abbrev IsResent : List Packet → Client → Type 0
IsResent q c =
    (c.connected_session ≡ some (record { is_up = true; queue = q })) × (c.failed_data_queue ≡ [])

decrease-IsResent : (q : List Packet) (c : Client) → IsResent q c → IsResent q (decrease_pending c)
unfolding decrease_pending
decrease-IsResent q c h =
    if_cases (IsResent q) (c.pending_ops_count - 1 == 0) _
      (record c { pending_ops_count = c.pending_ops_count - 1 }) (λ last. by_error c.last_error)
      (λ more. h)
  where
    by_error :
        (o : Option ClientError)
        → IsResent q (elim o as (λ _. Client) [
          | none ↦ record c { pending_ops_count = c.pending_ops_count - 1 }
          | some e ↦ record c {
            pending_ops_count = c.pending_ops_count - 1;
            in_disconnect_process = true;
            posted_disconnected = c.posted_disconnected + 1;
          }
        ])
    by_error none = h
    by_error (some e) = h

resend-IsResent :
    (c : Client)
    → c.connected_session ≡ some (record { is_up = true; queue = [] })
    → let c₃ = record (send_all c.failed_data_queue c) { failed_data_queue = [] } in
      IsResent c.failed_data_queue
        (if c₃.keep_alive then record c₃ { pending_ops_count = c₃.pending_ops_count + 1 } else c₃)
resend-IsResent c h =
    if_cases (IsResent c.failed_data_queue) sent.keep_alive
      (record sent { pending_ops_count = sent.pending_ops_count + 1 }) sent (λ alive. both)
      (λ quiet. both)
  where
    sent : Client
    sent = record (send_all c.failed_data_queue c) { failed_data_queue = [] }

    both : IsResent c.failed_data_queue sent
    both = (send_all-queue c.failed_data_queue c (record { is_up = true; queue = [] }) h, refl)

connected_handler-IsResent :
    (c : Client)
    → c.connected_session ≡ some (record { is_up = true; queue = [] })
    → IsResent c.failed_data_queue (connected_handler c)
unfolding connected_handler
connected_handler-IsResent c h = by_retries (c.currently_retries == 0)
  where
    first : Client
    first = call connected (record c {
      will_reconnect_if_disconnected = c.enable_reconnect || c.will_reconnect_if_disconnected;
      first_connect = false;
    })

    again : Client
    again = call reconnected (record c {
      will_reconnect_if_disconnected = c.enable_reconnect || c.will_reconnect_if_disconnected;
      in_disconnect_process = false;
      currently_retries = 0;
    })

    after : Client → Client
    after c₂ = elim c₂.connected_session as (λ _. Client) [
      | none ↦ c₂
      | some d ↦
          let c₃ = record (send_all c₂.failed_data_queue c₂) { failed_data_queue = [] } in
          if c₃.keep_alive then record c₃ { pending_ops_count = c₃.pending_ops_count + 1 } else c₃
    ]

    with_session :
        (c₂ : Client) (o : Option Detail)
        → c₂.connected_session ≡ some (record { is_up = true; queue = [] })
        → o ≡ some (record { is_up = true; queue = [] })
        → IsResent c₂.failed_data_queue (elim o as (λ _. Client) [
          | none ↦ c₂
          | some d ↦
              let c₃ = record (send_all c₂.failed_data_queue c₂) { failed_data_queue = [] } in
              if c₃.keep_alive
              then record c₃ { pending_ops_count = c₃.pending_ops_count + 1 }
              else c₃
        ])
    with_session c₂ none k e = absurd (none-ne-some _ e)
    with_session c₂ (some d) k e = resend-IsResent c₂ k

    by_retries : (b : Bool) → IsResent c.failed_data_queue (after (if b then first else again))
    by_retries true = with_session first c.connected_session h h
    by_retries false = with_session again c.connected_session h h

-- A new connection that is not cancelled is up, with all the failed data in its queue, in the order
-- in which it failed, and no data is left among the failed.
pub tcp_connected_handler-resent :
    (c : Client)
    → c.manually_disconnect ≡ false
    → is_connected c ≡ false
    → let c' = tcp_connected_handler false c in
      (c'.connected_session ≡ some (record { is_up = true; queue = c.failed_data_queue }))
      × (c'.failed_data_queue ≡ [])
unfolding tcp_connected_handler
tcp_connected_handler-resent c free down =
    decrease-IsResent c.failed_data_queue
      (if c.manually_disconnect || is_connected c
        then record c { connecting = false }
        else connected_handler opened)
      (if_cases (IsResent c.failed_data_queue) (c.manually_disconnect || is_connected c)
        (record c { connecting = false }) (connected_handler opened)
        (λ stays. absurd (true≢false (sym stays ∙ rw (free, down) refl)))
        (λ goes. connected_handler-IsResent opened refl))
  where
    opened : Client
    opened = record c {
      connecting = false;
      connected_session = some (record { is_up = true; queue = [] });
      pending_ops_count = c.pending_ops_count + 1;
    }
