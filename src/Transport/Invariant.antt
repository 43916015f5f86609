-- ===== src/Transport/Invariant.antt =====
-- What holds of the transport in every state that it reaches.
use wootty.Base.{
  ℕ, ◌≤◌, inl, inr, sym, subst, Bool, true, false, List, [], ◌∷◌, none, Text, if◌then◌else◌,
  Bool-cases, All, arith,
}
use wootty.Sanitization.{UrlApi}
use wootty.Transport.Browser.{Browser}
use wootty.Transport.Contracts.{SocketCloseIntent, normal, fresh, manual, dispose}
use wootty.Transport.State.{
  TransportEvent, reduce_transport_state, schedule_reconnect, connected, clear_reconnect_attempts,
  set_connecting, socket_closed, socket_error, latency, socket_failure,
}
use wootty.Transport.Policy.{max_attempts}
use wootty.Transport.ClosePlan.{
  PlanAction, report_close_failure, schedule, execute_transport_close_plan,
  resolve_transport_close_plan,
}
use wootty.Transport.ClosePlan
use wootty.Transport.Service.{Service, dispatch_event}
use wootty.Transport.Heartbeat.{stop_heartbeat}
use wootty.Transport.Reliability.{handle_socket_close}
use wootty.Transport.Lifecycle.{connect, run_action, run_actions, close_released, lifecycle_command}
use wootty.Transport.Lifecycle
use wootty.Transport.Frames.{session_of, Quiet, report_close_failure-Quiet}
use wootty.Transport.Timers.{IsHeld}
use wootty.Transport.TimerOps.{
  HoldsTimers, Clears, stop_heartbeat-Clears, schedule_reconnect-Clears,
  clear_reconnect_timer-Clears,
}
use wootty.Transport.Sessions.{IsBound, Connects, connect-Connects}

-- Events that keep the count of attempts within the limit.
abbrev pub IsWithin : TransportEvent → Type 0
IsWithin (schedule_reconnect n) = n ≤ max_attempts
IsWithin _ = Unit

pub record IsSound {N : Type 0} (s : Service N) : Type 0 where
  -- each pending timer is the one that its field can cancel
  pub timers : HoldsTimers s
  -- at most one socket has listeners: the current one, in its generation
  pub bound : IsBound (session_of s)
  -- no more attempts than allowed
  pub attempts : s.state.reconnect_attempt ≤ max_attempts

module _ {N : Type 0} where
  pub Clears-IsSound : {s t : Service N} → Clears s t → IsSound s → IsSound t
  Clears-IsSound c v = record {
    timers = c.held v.timers;
    bound = subst IsBound (sym c.session) v.bound;
    attempts = subst (λ x. x.reconnect_attempt ≤ max_attempts) (sym c.state) v.attempts;
  }

  pub Quiet-IsSound : {s t : Service N} → Quiet s t → IsSound s → IsSound t
  Quiet-IsSound q v = record {
    timers = subst IsHeld (sym q.timers) v.timers;
    bound = subst IsBound (sym q.session) v.bound;
    attempts = omega (arith, q.attempt, v.attempts);
  }

  pub Connects-IsSound : {s t : Service N} → Connects s t → IsSound s → IsSound t
  Connects-IsSound c v = record {
    timers = subst IsHeld (sym c.timers) v.timers;
    bound = c.bound v.bound;
    attempts = omega (arith, c.attempt, v.attempts);
  }

  pub dispatch_event-IsSound :
      (e : TransportEvent) (s : Service N) → IsWithin e → IsSound s → IsSound (dispatch_event e s)
  unfolding dispatch_event reduce_transport_state
  dispatch_event-IsSound e s w v = record {
    timers = v.timers;
    bound = v.bound;
    attempts = bounded e w;
  }
    where
      bounded :
          (x : TransportEvent)
          → IsWithin x
          → (reduce_transport_state s.state x).reconnect_attempt ≤ max_attempts
      bounded (set_connecting b) h = v.attempts
      bounded connected h = omega arith
      bounded socket_closed h = v.attempts
      bounded socket_error h = v.attempts
      bounded (latency ms) h = v.attempts
      bounded (socket_failure c) h = v.attempts
      bounded (schedule_reconnect n) h = h
      bounded clear_reconnect_attempts h = omega arith

abbrev IsAllowed : PlanAction → Type 0
IsAllowed (ClosePlan.PlanAction.dispatch_event e) = IsWithin e
IsAllowed _ = Unit

execute_plan-IsAllowed :
    (i : SocketCloseIntent) (code attempt : ℕ) (r : Bool)
    → All IsAllowed (execute_transport_close_plan i code attempt r)
unfolding execute_transport_close_plan resolve_transport_close_plan
execute_plan-IsAllowed normal code attempt true = ground arith
execute_plan-IsAllowed normal code attempt false = ground arith
execute_plan-IsAllowed fresh code attempt r = (tt, (tt, tt))
execute_plan-IsAllowed manual code attempt r = (tt, (tt, tt))
execute_plan-IsAllowed dispose code attempt r = (tt, tt)

module _ {N U : Type 0} (browser : Browser N) (api : UrlApi U) where
  pub connect-IsSound : (s : Service N) → IsSound s → IsSound (connect browser api s)
  connect-IsSound s v = Connects-IsSound (connect-Connects browser api s) v

  run_action-IsSound :
      (code : ℕ) (reason : Text) (a : PlanAction) (s : Service N)
      → IsAllowed a
      → IsSound s
      → IsSound (run_action browser api code reason a s)
  unfolding run_action
  run_action-IsSound code reason (ClosePlan.PlanAction.dispatch_event e) s h v =
      dispatch_event-IsSound e s h v
  run_action-IsSound code reason ClosePlan.PlanAction.connect s h v = connect-IsSound s v
  run_action-IsSound code reason report_close_failure s h v =
      Quiet-IsSound (report_close_failure-Quiet browser code reason s) v
  run_action-IsSound code reason (schedule d) s h v =
      Clears-IsSound (schedule_reconnect-Clears d s) v

  run_actions-IsSound :
      (code : ℕ) (reason : Text) (actions : List PlanAction) (s : Service N)
      → All IsAllowed actions
      → IsSound s
      → IsSound (run_actions browser api code reason actions s)
  unfolding run_actions
  run_actions-IsSound code reason [] s h v = v
  run_actions-IsSound code reason (a ∷ rest) s h v =
      run_actions-IsSound code reason rest (run_action browser api code reason a s) h.1
        (run_action-IsSound code reason a s h.0 v)

  pub close_released-IsSound :
      (i : SocketCloseIntent) (g code : ℕ) (reason : Text) (s : Service N)
      → IsSound s
      → IsSound (close_released browser api i g code reason s)
  unfolding close_released handle_socket_close
  close_released-IsSound i g code reason s v =
      let t = stop_heartbeat s in
      let w = Clears-IsSound (stop_heartbeat-Clears s) v in
      run_actions-IsSound code reason _ (record t { socket_error_generation = none })
        (execute_plan-IsAllowed i code t.state.reconnect_attempt _)
        (record { timers = w.timers; bound = w.bound; attempts = w.attempts })

  -- A lifecycle command is sound if its two parts are.
  pub lifecycle_command-IsSound :
      (c : Bool) (close : Service N → Bool × Service N) (fallback : Service N → Service N)
      → ((t : Service N) → IsSound t → IsSound (close t).1)
      → ((t : Service N) → IsSound t → IsSound (fallback t))
      → (s : Service N) → IsSound s
      → IsSound (lifecycle_command c close fallback s)
  unfolding lifecycle_command
  lifecycle_command-IsSound c close fallback f g s v = elim (Bool-cases (close (before c)).0) [
    | inl done ↦ rw done (f (before c) (sound c))
    | inr missed ↦ rw missed (g (close (before c)).1 (f (before c) (sound c)))
  ]
    where
      t : Service N
      t = Lifecycle.clear_reconnect_timer s

      before : Bool → Service N
      before b = stop_heartbeat (if b then dispatch_event clear_reconnect_attempts t else t)

      sound : (b : Bool) → IsSound (before b)
      sound true = Clears-IsSound (stop_heartbeat-Clears _) (
          dispatch_event-IsSound clear_reconnect_attempts t tt
            (Clears-IsSound (clear_reconnect_timer-Clears s) v))
      sound false =
          Clears-IsSound (stop_heartbeat-Clears _)
            (Clears-IsSound (clear_reconnect_timer-Clears s) v)
