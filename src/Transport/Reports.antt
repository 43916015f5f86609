-- ===== src/Transport/Reports.antt =====
-- A socket that fails is reported once, though its error and its close are two events.
use wootty.Base.{
  ℕ, ◌≡◌, refl, sym, subst, ap, ◌∙◌, false, not, List, [], ◌∷◌, Option, none, some, Text, Listed,
  All, arith,
}
use wootty.Sanitization.{UrlApi}
use wootty.Transport.Browser.{Browser}
use wootty.Transport.Contracts.{SocketCloseIntent, normal, TransportFailure}
use wootty.Transport.Contracts
use wootty.Transport.State.{socket_failure}
use wootty.Transport.ClosePlan.{
  PlanAction, execute_transport_close_plan, resolve_transport_close_plan,
}
use wootty.Transport.Service.{Service, dispatch_event, set_timer, clear_timer, call, Call}
use wootty.Transport.Heartbeat.{cleared_ping, cleared_pong, clear_pong_timeout, stop_heartbeat}
use wootty.Transport.Reporter.{report, announced, to_failure_context}
use wootty.Transport.SocketSession.{holds, clear_session, unlisten}
use wootty.Transport.Reliability.{
  ErrorEvent, error_failure, handle_socket_error, handle_socket_close,
}
use wootty.Transport.Lifecycle.{
  schedule_reconnect, clear_reconnect_timer, cleared_reconnect, run_action, run_actions,
  close_released, on_socket_error, on_socket_close,
}
use wootty.Transport.Frames.{session_of, handle_socket_error-Quiet}
use wootty.Transport.Sessions.{IsBound, listener-is_current}
use wootty.Transport.Dropped.{listener_closes}

-- What the reports depend on.
record ReportFields : Type 0 where
  error_generation : Option ℕ
  close_intent : SocketCloseIntent
  calls : List Call

module _ {N : Type 0} where
  abbrev reports_of : Service N → ReportFields
  reports_of s = record {
    error_generation = s.socket_error_generation;
    close_intent = s.close_intent;
    calls = s.calls;
  }

  stop_heartbeat-reports : (s : Service N) → reports_of (stop_heartbeat s) ≡ reports_of s
  unfolding stop_heartbeat clear_pong_timeout clear_timer
  stop_heartbeat-reports s = pong _ _ ∙ ping s.ping_timer
    where
      ping : (o : Option ℕ) → reports_of (cleared_ping o s) ≡ reports_of s
      ping none = refl
      ping (some h) = refl

      pong : (o : Option ℕ) (t : Service N) → reports_of (cleared_pong o t) ≡ reports_of t
      pong none t = refl
      pong (some h) t = refl

  clear_session-reports :
      (s : Service N)
      → ((clear_session s).socket_error_generation ≡ s.socket_error_generation)
        × ((clear_session s).calls ≡ s.calls)
  unfolding clear_session
  clear_session-reports s = go s.detach_listeners
    where
      go :
          (l : Option (ℕ × ℕ))
          → ((unlisten l s).socket_error_generation ≡ s.socket_error_generation)
            × ((unlisten l s).calls ≡ s.calls)
      go none = (refl, refl)
      go (some l) = (refl, refl)

  schedule_reconnect-calls : (d : ℕ) (s : Service N) → (schedule_reconnect d s).calls ≡ s.calls
  unfolding schedule_reconnect set_timer clear_reconnect_timer clear_timer
  schedule_reconnect-calls d s = go s.reconnect_timer
    where
      go : (o : Option ℕ) → (cleared_reconnect o s).calls ≡ s.calls
      go none = refl
      go (some h) = refl

  announced-reports :
      (f : TransportFailure) (m : Option Text) (s : Service N)
      → ((announced f m s).socket_error_generation ≡ s.socket_error_generation)
        × ((announced f m s).close_intent ≡ s.close_intent)
  unfolding call
  announced-reports f none s = (refl, refl)
  announced-reports f (some m) s = (refl, refl)

-- Actions that tell nobody.
abbrev IsSilent : PlanAction → Type 0
IsSilent (PlanAction.dispatch_event e) = Unit
IsSilent (PlanAction.schedule d) = Unit
IsSilent _ = ⊥

normal_plan-IsSilent :
    (code attempt : ℕ) → All IsSilent (execute_transport_close_plan normal code attempt false)
unfolding execute_transport_close_plan resolve_transport_close_plan
normal_plan-IsSilent code attempt = ground arith

module _ {N U : Type 0} (browser : Browser N) (api : UrlApi U) where
  run_silent :
      (code : ℕ) (reason : Text) (actions : List PlanAction) (s : Service N)
      → All IsSilent actions
      → (run_actions browser api code reason actions s).calls ≡ s.calls
  unfolding run_actions run_action dispatch_event
  run_silent code reason [] s h = refl
  run_silent code reason (PlanAction.dispatch_event e ∷ rest) s h =
      run_silent code reason rest (dispatch_event e s) h.1
  run_silent code reason (PlanAction.schedule d ∷ rest) s h =
      run_silent code reason rest (schedule_reconnect d s) h.1 ∙ schedule_reconnect-calls d s
  run_silent code reason (PlanAction.connect ∷ rest) s h = absurd h.0
  run_silent code reason (PlanAction.report_close_failure ∷ rest) s h = absurd h.0

  -- After an error of its generation, a close adds no report.
  close_released_silent :
      (g code : ℕ) (reason : Text) (s : Service N)
      → s.socket_error_generation ≡ some g
      → (close_released browser api normal g code reason s).calls ≡ s.calls
  unfolding close_released handle_socket_close
  close_released_silent g code reason s e =
      let t = stop_heartbeat s in
      let same = stop_heartbeat-reports s in
      let silent : not (holds t.socket_error_generation g) ≡ false =
        ground (arith, ap (λ f. f.error_generation) same, e) in
      rw silent (
        run_silent code reason _ (record t { socket_error_generation = none })
          (normal_plan-IsSilent code t.state.reconnect_attempt)
        ∙ ap (λ f. f.calls) same)

  report_fields :
      (f : TransportFailure) (s : Service N)
      → ((report browser f s).socket_error_generation ≡ s.socket_error_generation)
        × ((report browser f s).close_intent ≡ s.close_intent)
  unfolding report dispatch_event
  report_fields f s =
      let t = dispatch_event (socket_failure (to_failure_context f)) s in announced-reports f _ t

  handle_error_fields :
      (g : ℕ) (e : ErrorEvent) (s : Service N)
      → let t = handle_socket_error browser g e s in
        (t.socket_error_generation ≡ some g) × (t.close_intent ≡ s.close_intent)
  unfolding handle_socket_error dispatch_event
  handle_error_fields g e s =
      report_fields (error_failure Contracts.FailureReasonCode.socket_failure e.code e.message)
        (record s { socket_error_generation = some g })

  -- When the socket in use has an error and then closes, and nothing of the program closed it,
  -- the close calls no handler of the coordinator: the failure is reported by the error only.
  pub error_then_close_reports_once :
      (k g code : ℕ) (reason : Text) (event : ErrorEvent) (s : Service N)
      → IsBound (session_of s)
      → Listed (k, g) s.listeners
      → s.close_intent ≡ normal
      → let t = on_socket_error browser api k g event s in
        (on_socket_close browser api k g code reason t).calls ≡ t.calls
  unfolding on_socket_error
  error_then_close_reports_once k g code reason event s b m i =
      let t = handle_socket_error browser g event s in
      let (e, j) = handle_error_fields g event s in
      let q = (handle_socket_error-Quiet browser g event s).session in
      let (f, c) = clear_session-reports t in
      rw (listener-is_current k g s b m) (
        ap (λ u. u.calls)
          (listener_closes browser api k g code reason normal t (subst IsBound (sym q) b)
            (subst (λ x. Listed (k, g) x.listeners) (sym q) m) (j ∙ i))
        ∙ close_released_silent g code reason (clear_session t) (f ∙ e)
        ∙ c)
