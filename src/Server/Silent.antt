-- ===== src/Server/Silent.antt =====
-- Servers that no session connects to any more.
use mathlib.Core.Bool.{true≢false}
use mathlib.Core.Path.{subst}
use lalune_server.Base.{
  ℕ, ◌≡◌, ◌⊎◌, inl, inr, refl, sym, ◌∙◌, Bool, true, false, ◌||◌, List, [], ◌∷◌, Option, none, some,
  if◌then◌else◌, if_cases, ltb, arith,
}
use lalune_server.Server.{
  Server, ServerError, tcp_accept_handler, erase_session, start_tcp, initialize, stop_server,
}

-- What can happen: the handler of an accept runs only if one is under way.
pub data Event : Type 0 where
  accepted : Option ℕ → Event
  erased : ℕ → Event
  started : Option ServerError → ℕ → ℕ → Event
  stopped : Event

abbrev pub step : Event → Server → Server
step (accepted o) s = if ltb 0 s.accepting then tcp_accept_handler o s else s
step (erased session) s = erase_session session s
step (started failing timeout_seconds flags) s = (start_tcp failing timeout_seconds flags s).0
step stopped s = stop_server s

abbrev pub run : List Event → Server → Server
run [] s = s
run (e ∷ es) s = run es (step e s)

-- Started once, and stopped or not accepting.
abbrev pub IsSilent : Server → Type 0
IsSilent s = (s.is_closed ≡ true) ⊎ ((s.is_started ≡ true) × (s.accepting ≡ 0))

-- Silent, and nobody has connected since.
abbrev pub StaysSilent : Server → Server → Type 0
StaysSilent s s' = IsSilent s' × (s'.connected ≡ s.connected)

start_tcp-refused :
    (failing : Option ServerError) (timeout_seconds flags : ℕ) (s : Server)
    → (s.is_started || s.is_closed) ≡ true
    → start_tcp failing timeout_seconds flags s ≡ (s, false)
unfolding start_tcp initialize
start_tcp-refused failing timeout_seconds flags s h = ground (arith, h)

no_start : (s : Server) → IsSilent s → (s.is_started || s.is_closed) ≡ true
no_start s (inl h) = ground (arith, h)
no_start s (inr (h, k)) = ground (arith, h)

step-StaysSilent : (e : Event) (s : Server) → IsSilent s → StaysSilent s (step e s)
unfolding tcp_accept_handler erase_session stop_server
step-StaysSilent (accepted none) s (inl h) =
    if_cases (StaysSilent s) (ltb 0 s.accepting) _ _ (λ up. (inl h, refl)) (λ down. (inl h, refl))
step-StaysSilent (accepted (some x)) s (inl h) =
    if_cases (StaysSilent s) (ltb 0 s.accepting) _ _
      (λ up.
        if_cases (StaysSilent s) s.is_closed _ _ (λ c. (inl h, refl))
          (λ c. absurd (true≢false (sym h ∙ c))))
      (λ down. (inl h, refl))
step-StaysSilent (accepted o) s (inr (h, k)) =
    if_cases (StaysSilent s) (ltb 0 s.accepting) _ _ (λ up. absurd (ground (arith, k)))
      (λ down. (inr (h, k), refl))
step-StaysSilent (erased session) s h = (h, refl)
step-StaysSilent (started failing timeout_seconds flags) s h =
    subst (λ (x : Server × Bool). StaysSilent s x.0)
      (sym (start_tcp-refused failing timeout_seconds flags s (no_start s h))) (h, refl)
step-StaysSilent stopped s h = (inl refl, refl)

run-StaysSilent : (es : List Event) (s : Server) → IsSilent s → (run es s).connected ≡ s.connected
run-StaysSilent [] s h = refl
run-StaysSilent (e ∷ es) s h =
    let (h', same) = step-StaysSilent e s h in run-StaysSilent es (step e s) h' ∙ same

-- After a server was stopped no session connects to it, whatever happens, also if it is started again.
pub run-stop_server :
    (es : List Event) (s : Server) → (run es (stop_server s)).connected ≡ s.connected
unfolding stop_server
run-stop_server es s = run-StaysSilent es (stop_server s) (inl refl)

-- If the one accept that is under way fails in a server that was started, no session connects to the
-- server from then on, whatever happens, though it is not stopped.
pub run-accept_error :
    (es : List Event) (s : Server)
    → s.is_started ≡ true
    → s.accepting ≡ 1
    → (run es (tcp_accept_handler none s)).connected ≡ s.connected
unfolding tcp_accept_handler
run-accept_error es s h k =
    run-StaysSilent es (tcp_accept_handler none s) (inr (h, omega (arith, k)))
