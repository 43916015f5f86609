-- ===== src/Transport/Still.antt =====
-- Operations that leave the count of attempts and the delayed reconnect alone, and the plans that
-- pay for a reconnect with an attempt.
use wootty.Base.{
  ℕ, ◌+◌, ◌≤◌, ◌≡◌, ◌⊎◌, inl, inr, refl, ap, ◌∙◌, Bool, true, false, [], ◌∷◌, Option, none, some,
  Text, leb, Bool-cases, All, arith,
}
use wootty.Transport.Contracts.{SocketCloseIntent, normal, fresh, manual, dispose}
use wootty.Transport.State.{
  TransportEvent, reduce_transport_state, schedule_reconnect, connected, clear_reconnect_attempts,
  set_connecting, socket_closed, socket_error, latency, socket_failure,
}
use wootty.Transport.Policy.{is_recoverable_transport_close, max_attempts}
use wootty.Transport.ClosePlan.{
  PlanAction, report_close_failure, schedule, reported, execute_transport_close_plan,
  resolve_transport_close_plan,
}
use wootty.Transport.ClosePlan
use wootty.Transport.Service.{Service, dispatch_event, set_timer}
use wootty.Transport.Heartbeat.{stop_heartbeat, mark_pong, measured, on_ping_interval, tick_when}
use wootty.Transport.SocketSession.{clear_session}
use wootty.Transport.Lifecycle.{update_runtime}
use wootty.Transport.Frames.{Quiet}
use wootty.Transport.TimerOps.{
  stop_heartbeat-Clears, stop_heartbeat_fields, clear_pong_timeout-Clears,
  clear_pong_timeout_fields,
}
use wootty.Transport.Sessions.{Connects, clear_session-rest}
use wootty.Transport.Dropped.{drop_actions}

-- One, if a delayed reconnect is held.
abbrev pub held : Option ℕ → ℕ
held none = 0
held (some h) = 1

pub held-le : (o : Option ℕ) → held o ≤ 1
held-le none = omega arith
held-le (some h) = omega arith

-- From s to t as many reconnects fired, and one of them may be held.
pub record Pays {N : Type 0} (fired : ℕ) (s t : Service N) : Type 0 where
  pub paid :
      s.state.reconnect_attempt + held t.reconnect_timer + fired
      ≤ t.state.reconnect_attempt + held s.reconnect_timer

-- Neither the count of attempts nor the delayed reconnect changes.
pub record Still {N : Type 0} (s t : Service N) : Type 0 where
  pub attempt : t.state.reconnect_attempt ≡ s.state.reconnect_attempt
  pub timer : t.reconnect_timer ≡ s.reconnect_timer

module _ {N : Type 0} where
  pub Still-trans : {s t u : Service N} → Still s t → Still t u → Still s u
  Still-trans p q = record { attempt = q.attempt ∙ p.attempt; timer = q.timer ∙ p.timer }

  pub Still-Pays : {s t : Service N} → Still s t → Pays 0 s t
  Still-Pays k = record { paid = omega (arith, k.attempt, ap held k.timer) }

  pub Quiet-Still : {s t : Service N} → Quiet s t → Still s t
  Quiet-Still q = record { attempt = q.attempt; timer = ap (λ f. f.reconnect) q.timers }

  pub Connects-Still : {s t : Service N} → Connects s t → Still s t
  Connects-Still c = record { attempt = c.attempt; timer = ap (λ f. f.reconnect) c.timers }

  pub stop_heartbeat-Still : (s : Service N) → Still s (stop_heartbeat s)
  stop_heartbeat-Still s = record {
    attempt = ap (λ x. x.reconnect_attempt) (stop_heartbeat-Clears s).state;
    timer = (stop_heartbeat_fields s).2;
  }

  pub clear_session-Still : (s : Service N) → Still s (clear_session s)
  clear_session-Still s =
      let (a, b, c) = clear_session-rest s in
      record { attempt = ap (λ x. x.reconnect_attempt) b; timer = ap (λ f. f.reconnect) a }

  measured-Still : (o : Option ℕ) (s : Service N) → Still s (measured o s)
  unfolding dispatch_event reduce_transport_state
  measured-Still none s = record { attempt = refl; timer = refl }
  measured-Still (some at) s = record { attempt = refl; timer = refl }

  pub mark_pong-Still : (s : Service N) → Still s (mark_pong s)
  unfolding mark_pong
  mark_pong-Still s =
      let m = measured s.ping_sent_at s in
      Still-trans (measured-Still s.ping_sent_at s) (record {
        attempt = ap (λ x. x.reconnect_attempt) (clear_pong_timeout-Clears m).state;
        timer = (clear_pong_timeout_fields m).2;
      })

  pub updated-Still :
      (url : Option Text) (c : Bool) (s : Service N) → Still s (update_runtime url c s)
  unfolding update_runtime
  updated-Still url c s = record { attempt = refl; timer = refl }

  pub ping-Still :
      (ping : Service N → Service N)
      → ((t : Service N) → Quiet t (ping t))
      → (s : Service N) → Still s (on_ping_interval ping s)
  unfolding on_ping_interval set_timer
  ping-Still ping q s = go s.pong_timer
    where
      go : (o : Option ℕ) → Still s (tick_when o ping s)
      go (some h) = record { attempt = refl; timer = refl }
      go none =
          let k = Quiet-Still (q (record s { ping_sent_at = some s.now })) in
          record { attempt = k.attempt; timer = k.timer }

-- Events and actions that leave the attempts and the delayed reconnect alone.
abbrev pub IsCalmEvent : TransportEvent → Type 0
IsCalmEvent connected = ⊥
IsCalmEvent (schedule_reconnect n) = ⊥
IsCalmEvent clear_reconnect_attempts = ⊥
IsCalmEvent _ = Unit

abbrev pub IsCalm : PlanAction → Type 0
IsCalm (ClosePlan.PlanAction.dispatch_event e) = IsCalmEvent e
IsCalm (schedule d) = ⊥
IsCalm _ = Unit

pub plan_cases :
    (i : SocketCloseIntent) (code attempt : ℕ) (r : Bool)
    → let plan = execute_transport_close_plan i code attempt r in
      (plan ≡ reported r (drop_actions attempt)) ⊎ All IsCalm plan
unfolding execute_transport_close_plan resolve_transport_close_plan
plan_cases fresh code attempt r = inr (tt, (tt, tt))
plan_cases manual code attempt r = inr (tt, (tt, tt))
plan_cases dispose code attempt r = inr (tt, tt)
plan_cases normal code attempt r = elim (Bool-cases (is_recoverable_transport_close code)) [
  | inr e ↦ rw e (inr (calm_error r))
  | inl e ↦ elim (Bool-cases (leb max_attempts attempt)) [
    | inl full ↦ rw (e, full) (inr (calm_failure r))
    | inr more ↦ rw (e, more) (inl refl)
  ]
]
  where
    calm_error :
        (b : Bool) → All IsCalm (reported b (ClosePlan.PlanAction.dispatch_event socket_error ∷ []))
    calm_error true = (tt, (tt, tt))
    calm_error false = (tt, tt)

    calm_failure :
        (b : Bool)
        → All IsCalm (
            reported b (
              ClosePlan.PlanAction.dispatch_event
                (socket_failure (ClosePlan.exhausted_context attempt))
              ∷ ClosePlan.PlanAction.dispatch_event socket_error
              ∷ []))
    calm_failure true = (tt, (tt, (tt, tt)))
    calm_failure false = (tt, (tt, tt))

pub calm_dispatch :
    {N : Type 0} (e : TransportEvent) (s : Service N) → IsCalmEvent e → Still s (dispatch_event e s)
unfolding dispatch_event reduce_transport_state
calm_dispatch (set_connecting b) s h = record { attempt = refl; timer = refl }
calm_dispatch connected s h = absurd h
calm_dispatch socket_closed s h = record { attempt = refl; timer = refl }
calm_dispatch socket_error s h = record { attempt = refl; timer = refl }
calm_dispatch (latency ms) s h = record { attempt = refl; timer = refl }
calm_dispatch (socket_failure c) s h = record { attempt = refl; timer = refl }
calm_dispatch (schedule_reconnect n) s h = absurd h
calm_dispatch clear_reconnect_attempts s h = absurd h
