-- ===== src/Transport/Disposal.antt =====
-- The end of the service, and of the socket that another replaces.
use wootty.Base.{
  ℕ, ◌≡◌, ◌⊎◌, refl, sym, subst, ap, ◌∙◌, Bool, true, false, Option, none, some, Text, codes,
  Bool-cases, inl, inr, Listed, arith,
}
use wootty.Sanitization.{UrlApi}
use wootty.Transport.Browser.{Browser}
use wootty.Transport.Contracts.{SocketCloseIntent, dispose, closed}
use wootty.Transport.State.{reduce_transport_state, socket_closed}
use wootty.Transport.Service.{Service, dispatch_event}
use wootty.Transport.Heartbeat.{stop_heartbeat, cleared_ping, clear_pong_timeout, cleared_pong}
use wootty.Transport.SocketSession.{clear_session, close_active, close_when}
use wootty.Transport.Lifecycle.{
  lifecycle_command, dispose_service, close_released, on_socket_close, run_action, run_actions,
}
use wootty.Transport.ClosePlan.{execute_transport_close_plan, resolve_transport_close_plan}
use wootty.Transport.Reliability.{handle_socket_close}
use wootty.Transport.Frames.{timers_of, session_of}
use wootty.Transport.Sessions.{IsBound, IsUnbound, clear_session-IsUnbound, clear_session-rest}
use wootty.Transport.Invariant.{IsSound}
use wootty.Transport.Reachable.{dispose_service-IsSound}
use wootty.Transport.Commands.{IsIdle, prepared, lifecycle_commands-IsIdle}
use wootty.Transport.Dropped.{listener_closes}

-- Nothing is left of the connection.
pub record IsEnded {N : Type 0} (s : Service N) : Type 0 where
  pub unbound : IsUnbound (session_of s)
  pub idle : IsIdle (timers_of s)
  pub status : s.state.status ≡ closed

module _ {N : Type 0} where
  stop_heartbeat_idle :
      (s : Service N) → s.ping_timer ≡ none → s.pong_timer ≡ none → stop_heartbeat s ≡ s
  unfolding stop_heartbeat clear_pong_timeout
  stop_heartbeat_idle s a b =
      ap (λ o. cleared_pong (cleared_ping o s).pong_timer (cleared_ping o s)) a
      ∙ ap (λ o. cleared_pong o s) b

  abbrev ended : Service N → Service N
  ended t = dispatch_event socket_closed (clear_session t)

module _ {N U : Type 0} (browser : Browser N) (api : UrlApi U) where
  abbrev closing : Service N → Bool × Service N
  closing s = close_active browser 1000 (codes "component unmount") dispose (prepared false s)

  dispose_cases :
      (s : Service N)
      → (((closing s).0 ≡ true) × (dispose_service browser api s ≡ (closing s).1))
        ⊎ (((closing s).0 ≡ false) × (dispose_service browser api s ≡ ended (closing s).1))
  unfolding dispose_service lifecycle_command
  dispose_cases s = elim (Bool-cases (closing s).0) [
    | inl e ↦ inl (e, rw e refl)
    | inr e ↦ inr (e, rw e refl)
  ]

  close_when_intent :
      (o : Option ℕ) (c : ℕ) (r : Text) (i : SocketCloseIntent) (s : Service N)
      → (close_when browser o c r i s).0 ≡ true
      → (close_when browser o c r i s).1.close_intent ≡ i
  close_when_intent none c r i s e = ground arith
  close_when_intent (some k) c r i s e = ground arith

  -- A close event that a disposal asked for.
  close_released-IsEnded :
      (g code : ℕ) (reason : Text) (s : Service N)
      → IsUnbound (session_of s)
      → IsIdle (timers_of s)
      → IsEnded (close_released browser api dispose g code reason s)
  unfolding close_released handle_socket_close execute_transport_close_plan
      resolve_transport_close_plan run_actions run_action dispatch_event reduce_transport_state
  close_released-IsEnded g code reason s u (p, a, b, c) =
      rw (stop_heartbeat_idle s a b) (record { unbound = u; idle = (p, a, b, c); status = refl })

  ended-IsUnbound : (s : Service N) → IsBound (session_of s) → IsUnbound (session_of (ended s))
  unfolding dispatch_event
  ended-IsUnbound s b = clear_session-IsUnbound s b

  -- Without a socket there is no listener.
  unbound_listener :
      (k g : ℕ) (s : Service N)
      → IsBound (session_of s)
      → s.socket ≡ none
      → Listed (k, g) s.listeners
      → ⊥
  unbound_listener k g s (inl (a, b, c)) e m = subst (Listed (k, g)) c m
  unbound_listener k g s (inr (j, a, b, c)) e m = ground (arith, e, a)

  disposal_intent :
      (k g : ℕ) (s : Service N)
      → IsSound s
      → Listed (k, g) (dispose_service browser api s).listeners
      → (dispose_service browser api s).close_intent ≡ dispose
  unfolding dispose_service lifecycle_command close_active clear_session dispatch_event
  disposal_intent k g s v m = elim (dispose_cases s) [
    | inl (e, same) ↦
        ap (λ t. t.close_intent) same
        ∙ close_when_intent (prepared false s).socket 1000 (codes "component unmount") dispose
            (prepared false s) e
    | inr (e, same) ↦ absurd (
        unbound_listener k g (dispose_service browser api s)
          (dispose_service-IsSound browser api s v).bound (ap (λ t. t.socket) same) m)
  ]

  -- After a disposal, the close event of a socket that still has listeners leaves nothing: no
  -- socket, no listener, no timer pending or held, and the status `closed`; there is no reconnect.
  pub dispose_then_close-IsEnded :
      (k g code : ℕ) (reason : Text) (s : Service N)
      → IsSound s
      → Listed (k, g) (dispose_service browser api s).listeners
      → IsEnded (on_socket_close browser api k g code reason (dispose_service browser api s))
  dispose_then_close-IsEnded k g code reason s v m =
      let t = dispose_service browser api s in
      let w = dispose_service-IsSound browser api s v in
      let (_, _, _, idle) = lifecycle_commands-IsIdle browser api s v.timers in
      subst IsEnded
        (sym (
          listener_closes browser api k g code reason dispose t w.bound m
            (disposal_intent k g s v m)))
        (close_released-IsEnded g code reason (clear_session t) (clear_session-IsUnbound t w.bound)
          (subst IsIdle (sym (clear_session-rest t).0) idle))
