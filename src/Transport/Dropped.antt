-- ===== src/Transport/Dropped.antt =====
-- A connection that is lost: the delayed reconnect, and its limit.
use wootty.Base.{
  ℕ, ◌+◌, ◌<◌, ◌≡◌, refl, sym, subst, ap, ◌∙◌, Bool, true, false, not, List, [], ◌∷◌, none, some,
  Text, Listed, arith,
}
use wootty.Sanitization.{UrlApi}
use wootty.Transport.Browser.{Browser}
use wootty.Transport.Contracts.{SocketCloseIntent, normal, reconnecting}
use wootty.Transport.State.{TransportEvent, reduce_transport_state}
use wootty.Transport.Policy.{is_recoverable_transport_close, reconnect_delay_ms, max_attempts}
use wootty.Transport.ClosePlan.{
  PlanAction, reported, execute_transport_close_plan, resolve_transport_close_plan,
}
use wootty.Transport.Service.{Service, Timer, dispatch_event, set_timer}
use wootty.Transport.Service
use wootty.Transport.Heartbeat.{stop_heartbeat}
use wootty.Transport.SocketSession.{holds, clear_session, release_if_current_with_intent}
use wootty.Transport.Reliability.{handle_socket_close, report_close_failure}
use wootty.Transport.Lifecycle.{
  run_action, run_actions, close_released, on_socket_close, schedule_reconnect,
  clear_reconnect_timer,
}
use wootty.Transport.Frames.{timers_of, session_of, report_close_failure-Quiet}
use wootty.Transport.Timers.{IsHeld, eq-nil_of_IsHeld}
use wootty.Transport.TimerOps.{
  clear_reconnect_timer-Clears, clear_reconnect_timer_field, clear_reconnect_timer_rest,
  schedule_reconnect-Clears, stop_heartbeat-Clears, stop_heartbeat_fields,
}
use wootty.Transport.Sessions.{
  IsBound, IsUnbound, clear_session-IsUnbound, listener-is_current, clear_session-rest,
}
use wootty.Transport.Invariant.{IsSound}
use wootty.Transport.Reachable.{clear_session-IsSound}

-- Nothing but a delayed `connect` is to come.
pub record IsWaiting {N : Type 0} (attempt : ℕ) (s : Service N) : Type 0 where
  pub attempts : s.state.reconnect_attempt ≡ attempt + 1
  pub status : s.state.status ≡ reconnecting
  pub unbound : IsUnbound (session_of s)
  pub handle : ℕ
  pub field : s.reconnect_timer ≡ some handle
  pub pending :
      s.pending
      ≡ record {
        handle = handle;
        task = Service.Task.reconnect;
        delay_ms = reconnect_delay_ms attempt;
      }
        ∷ []

module _ {N : Type 0} where
  -- The delayed reconnect replaces whatever timer is left.
  schedule_reconnect_alone :
      (d : ℕ) (s : Service N)
      → IsHeld (timers_of s)
      → s.ping_timer ≡ none
      → s.pong_timer ≡ none
      → (h : ℕ) × ((schedule_reconnect d s).reconnect_timer ≡ some h)
        × ((schedule_reconnect d s).pending
            ≡ record { handle = h; task = Service.Task.reconnect; delay_ms = d } ∷ [])
  unfolding schedule_reconnect set_timer
  schedule_reconnect_alone d s v a b =
      let t = clear_reconnect_timer s in
      let (ping, pong) = clear_reconnect_timer_rest s in
      let none_left =
        eq-nil_of_IsHeld (timers_of t) ((clear_reconnect_timer-Clears s).held v) (ping ∙ a)
          (pong ∙ b) (clear_reconnect_timer_field s) in
      (
        t.next_handle,
        refl,
        ap (λ l. record { handle = t.next_handle; task = Service.Task.reconnect; delay_ms = d } ∷ l)
            none_left,
      )

abbrev pub drop_actions : ℕ → List PlanAction
drop_actions attempt =
    PlanAction.dispatch_event (TransportEvent.schedule_reconnect (attempt + 1))
    ∷ PlanAction.schedule (reconnect_delay_ms attempt)
    ∷ []

plan_of_drop :
    (code attempt : ℕ) (r : Bool)
    → is_recoverable_transport_close code ≡ true
    → attempt < max_attempts
    → execute_transport_close_plan normal code attempt r ≡ reported r (drop_actions attempt)
unfolding execute_transport_close_plan resolve_transport_close_plan
plan_of_drop code attempt r e lt = ground arith

module _ {N U : Type 0} (browser : Browser N) (api : UrlApi U) where
  run_drop :
      (code : ℕ) (reason : Text) (attempt : ℕ) (s : Service N)
      → IsHeld (timers_of s)
      → IsUnbound (session_of s)
      → s.ping_timer ≡ none
      → s.pong_timer ≡ none
      → IsWaiting attempt (run_actions browser api code reason (drop_actions attempt) s)
  unfolding run_actions run_action dispatch_event reduce_transport_state
  run_drop code reason attempt s v b ping pong =
      let t = dispatch_event (TransportEvent.schedule_reconnect (attempt + 1)) s in
      let d = reconnect_delay_ms attempt in
      let (h, field, pending) = schedule_reconnect_alone d t v ping pong in
      let c = schedule_reconnect-Clears d t in
      record {
        attempts = ap (λ x. x.reconnect_attempt) c.state;
        status = ap (λ x. x.status) c.state;
        unbound = subst IsUnbound (sym c.session) b;
        handle = h;
        field = field;
        pending = pending;
      }

  run_reported_drop :
      (code : ℕ) (reason : Text) (attempt : ℕ) (r : Bool) (s : Service N)
      → IsHeld (timers_of s)
      → IsUnbound (session_of s)
      → s.ping_timer ≡ none
      → s.pong_timer ≡ none
      → IsWaiting attempt
          (run_actions browser api code reason (reported r (drop_actions attempt)) s)
  unfolding run_actions run_action
  run_reported_drop code reason attempt false s v b ping pong =
      run_drop code reason attempt s v b ping pong
  run_reported_drop code reason attempt true s v b ping pong =
      let q = report_close_failure-Quiet browser code reason s in
      run_drop code reason attempt (report_close_failure browser code reason s)
        (subst IsHeld (sym q.timers) v) (subst IsUnbound (sym q.session) b)
        (ap (λ f. f.ping) q.timers ∙ ping) (ap (λ f. f.pong) q.timers ∙ pong)

  released_drop :
      (g code : ℕ) (reason : Text) (s : Service N)
      → IsSound s
      → IsUnbound (session_of s)
      → is_recoverable_transport_close code ≡ true
      → s.state.reconnect_attempt < max_attempts
      → IsWaiting s.state.reconnect_attempt (close_released browser api normal g code reason s)
  unfolding close_released handle_socket_close
  released_drop g code reason s v b e lt =
      let t = stop_heartbeat s in
      let c = stop_heartbeat-Clears s in
      let (ping, pong, _) = stop_heartbeat_fields s in
      let same = ap (λ x. x.reconnect_attempt) c.state in
      let u : Service N = record t { socket_error_generation = none } in
      let r = not (holds t.socket_error_generation g) in
      let plan =
        plan_of_drop code t.state.reconnect_attempt r e (omega (arith, same, lt))
        ∙ ap (λ n. reported r (drop_actions n)) same in
      subst (λ as_. IsWaiting s.state.reconnect_attempt (run_actions browser api code reason as_ u))
        (sym plan)
        (run_reported_drop code reason s.state.reconnect_attempt r u (c.held v.timers)
          (subst IsUnbound (sym c.session) b) ping pong)

  -- What the close event of a listener runs.
  pub listener_closes :
      (k g code : ℕ) (reason : Text) (i : SocketCloseIntent) (s : Service N)
      → IsBound (session_of s)
      → Listed (k, g) s.listeners
      → s.close_intent ≡ i
      → on_socket_close browser api k g code reason s
        ≡ close_released browser api i g code reason (clear_session s)
  unfolding on_socket_close release_if_current_with_intent
  listener_closes k g code reason i s b m e =
      rw (listener-is_current k g s b m)
        (ap (λ x. close_released browser api x g code reason (clear_session s)) e)

  -- When the connection in use is lost with a recoverable code, while fewer than 8 attempts are
  -- counted and nothing of the program closed it, one more attempt is counted and the status is
  -- `reconnecting`; no socket and no listener is left, and the only timer pending is the delayed
  -- `connect`, with the delay of the attempt and a handle that the service can cancel.
  pub on_socket_close-IsWaiting :
      (k g code : ℕ) (reason : Text) (s : Service N)
      → IsSound s
      → Listed (k, g) s.listeners
      → s.close_intent ≡ normal
      → is_recoverable_transport_close code ≡ true
      → s.state.reconnect_attempt < max_attempts
      → IsWaiting s.state.reconnect_attempt (on_socket_close browser api k g code reason s)
  on_socket_close-IsWaiting k g code reason s v m i e lt =
      let (same, kept, gen) = clear_session-rest s in
      let attempt = ap (λ x. x.reconnect_attempt) kept in
      subst (IsWaiting s.state.reconnect_attempt)
        (sym (listener_closes k g code reason normal s v.bound m i))
        (subst
          (λ n. IsWaiting n (close_released browser api normal g code reason (clear_session s)))
          attempt
          (released_drop g code reason (clear_session s) (clear_session-IsSound s v)
            (clear_session-IsUnbound s v.bound) e (omega (arith, attempt, lt))))
