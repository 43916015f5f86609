-- ===== src/Transport/Outage.antt =====
-- An outage: steps of the transport among which no socket opens and no command but `connect` and
-- `send` is given. Each delayed reconnect that fires in it was paid for with an attempt.
use wootty.Base.{
  ℕ, ◌+◌, ◌≡◌, inl, inr, refl, sym, subst, ap, Bool, true, false, List, [], ◌∷◌, none, some, Text,
  Bool-cases, All, All-Listed, Listed, arith,
}
use wootty.Protocol.ClientMessages.{create_ping_message}
use wootty.Sanitization.{UrlApi}
use wootty.Transport.Browser.{Browser}
use wootty.Transport.Contracts.{SocketCloseIntent, normal}
use wootty.Transport.State.{reduce_transport_state, schedule_reconnect}
use wootty.Transport.ClosePlan.{
  PlanAction, report_close_failure, schedule, reported, execute_transport_close_plan,
  resolve_transport_close_plan,
}
use wootty.Transport.ClosePlan
use wootty.Transport.Service.{
  Service, Task, Timer, MessageEvent, ping_tick, pong_timeout, dispatch_event, call, set_timer,
  clear_timer,
}
use wootty.Transport.Service
use wootty.Transport.Heartbeat.{stop_heartbeat}
use wootty.Transport.SocketSession.{is_current, clear_session, release_if_current_with_intent}
use wootty.Transport.Reliability.{ErrorEvent, handle_socket_close}
use wootty.Transport.Reliability
use wootty.Transport.Lifecycle.{
  send_payload, run_action, run_actions, close_released, on_socket_message, on_socket_error,
  on_socket_close, fire_task, fire,
}
use wootty.Transport.Frames.{
  timers_of, close_active-Quiet, send_payload-Quiet, handle_socket_error-Quiet,
  report_close_failure-Quiet,
}
use wootty.Transport.Timers.{field_of}
use wootty.Transport.TimerOps.{schedule_reconnect-Clears}
use wootty.Transport.Sessions.{connect-Connects}
use wootty.Transport.Steps.{
  Step, updates, connects, reconnects, changes_endpoint, starts_fresh, disposes, sends, marks_pong,
  opens, receives, errs, closes, fires, moves,
}
use wootty.Transport.Invariant.{IsSound}
use wootty.Transport.Dropped.{drop_actions}
use wootty.Transport.Still.{
  held, held-le, Pays, Still, IsCalm, Still-trans, Still-Pays, Quiet-Still, Connects-Still,
  stop_heartbeat-Still, clear_session-Still, mark_pong-Still, updated-Still, ping-Still, plan_cases,
  calm_dispatch,
}

module _ {N U : Type 0} (browser : Browser N) (api : UrlApi U) where
  calm_action :
      (code : ℕ) (reason : Text) (a : PlanAction) (s : Service N)
      → IsCalm a
      → Still s (run_action browser api code reason a s)
  unfolding run_action
  calm_action code reason (ClosePlan.PlanAction.dispatch_event e) s h = calm_dispatch e s h
  calm_action code reason ClosePlan.PlanAction.connect s h =
      Connects-Still (connect-Connects browser api s)
  calm_action code reason report_close_failure s h =
      Quiet-Still (report_close_failure-Quiet browser code reason s)
  calm_action code reason (schedule d) s h = absurd h

  calm_actions :
      (code : ℕ) (reason : Text) (actions : List PlanAction) (s : Service N)
      → All IsCalm actions
      → Still s (run_actions browser api code reason actions s)
  unfolding run_actions
  calm_actions code reason [] s h = record { attempt = refl; timer = refl }
  calm_actions code reason (a ∷ rest) s h =
      Still-trans (calm_action code reason a s h.0)
        (calm_actions code reason rest (run_action browser api code reason a s) h.1)

  drop_attempt :
      (code : ℕ) (reason : Text) (n : ℕ) (s : Service N)
      → (run_actions browser api code reason (drop_actions n) s).state.reconnect_attempt ≡ n + 1
  unfolding run_actions run_action dispatch_event reduce_transport_state
  drop_attempt code reason n s =
      let t = dispatch_event (schedule_reconnect (n + 1)) s in
      ap (λ x. x.reconnect_attempt) (schedule_reconnect-Clears _ t).state

  -- The plan of a lost connection pays for its delayed reconnect.
  reported_drop-Pays :
      (code : ℕ) (reason : Text) (r : Bool) (s : Service N)
      → let actions = reported r (drop_actions s.state.reconnect_attempt) in
        Pays 0 s (run_actions browser api code reason actions s)
  unfolding run_actions run_action
  reported_drop-Pays code reason true s =
      let n = s.state.reconnect_attempt in
      let t = Reliability.report_close_failure browser code reason s in
      record {
        paid = omega (
          arith,
          drop_attempt code reason n t,
          held-le (run_actions browser api code reason (drop_actions n) t).reconnect_timer,
        );
      }
  reported_drop-Pays code reason false s =
      let n = s.state.reconnect_attempt in
      record {
        paid = omega (
          arith,
          drop_attempt code reason n s,
          held-le (run_actions browser api code reason (drop_actions n) s).reconnect_timer,
        );
      }

  plan-Pays :
      (i : SocketCloseIntent) (code : ℕ) (reason : Text) (r : Bool) (s : Service N)
      → let actions = execute_transport_close_plan i code s.state.reconnect_attempt r in
        Pays 0 s (run_actions browser api code reason actions s)
  plan-Pays i code reason r s =
      let n = s.state.reconnect_attempt in
      elim (plan_cases i code n r) [
        | inl e ↦
            subst (λ as_. Pays 0 s (run_actions browser api code reason as_ s)) (sym e)
              (reported_drop-Pays code reason r s)
        | inr calm ↦ Still-Pays (calm_actions code reason _ s calm)
      ]

  Still-then-Pays : {n : ℕ} {s t u : Service N} → Still s t → Pays n t u → Pays n s u
  Still-then-Pays k p = record { paid = omega (arith, k.attempt, ap held k.timer, p.paid) }

  close_released-Pays :
      (i : SocketCloseIntent) (g code : ℕ) (reason : Text) (s : Service N)
      → Pays 0 s (close_released browser api i g code reason s)
  unfolding close_released handle_socket_close
  close_released-Pays i g code reason s =
      let t = stop_heartbeat s in
      let u : Service N = record t { socket_error_generation = none } in
      let k = stop_heartbeat-Still s in
      Still-then-Pays (record { attempt = k.attempt; timer = k.timer })
        (plan-Pays i code reason _ u)

  on_socket_close-Pays :
      (k g code : ℕ) (reason : Text) (s : Service N)
      → Pays 0 s (on_socket_close browser api k g code reason s)
  unfolding on_socket_close release_if_current_with_intent
  on_socket_close-Pays k g code reason s = elim (Bool-cases (is_current k g s)) [
    | inl here ↦ rw here (
        Still-then-Pays (clear_session-Still s)
          (close_released-Pays s.close_intent g code reason (clear_session s)))
    | inr stale ↦ rw stale (record { paid = omega arith })
  ]

  message-Still :
      (k g : ℕ) (m : MessageEvent) (s : Service N) → Still s (on_socket_message browser api k g m s)
  unfolding on_socket_message call
  message-Still k g m s = elim (Bool-cases (is_current k g s)) [
    | inl here ↦ rw here (record { attempt = refl; timer = refl })
    | inr stale ↦ rw stale (record { attempt = refl; timer = refl })
  ]

  error-Still :
      (k g : ℕ) (e : ErrorEvent) (s : Service N) → Still s (on_socket_error browser api k g e s)
  unfolding on_socket_error
  error-Still k g e s = elim (Bool-cases (is_current k g s)) [
    | inl here ↦ rw here (Quiet-Still (handle_socket_error-Quiet browser g e s))
    | inr stale ↦ rw stale (record { attempt = refl; timer = refl })
  ]

  abbrev pub fired_task : Task → ℕ
  fired_task Service.Task.reconnect = 1
  fired_task _ = 0

  fire_task-Pays :
      (t : Task) (h : ℕ) (s : Service N)
      → field_of (timers_of s) t ≡ some h
      → Pays (fired_task t) s (fire_task browser api t h s)
  unfolding fire_task clear_timer
  fire_task-Pays ping_tick h s e = Still-Pays (
      ping-Still (λ u. (send_payload browser api create_ping_message u).1)
        (send_payload-Quiet browser api create_ping_message) s)
  fire_task-Pays pong_timeout h s e =
      let k = Quiet-Still (close_active-Quiet browser _ _ normal (clear_timer h s)) in
      Still-Pays (record { attempt = k.attempt; timer = k.timer })
  fire_task-Pays Service.Task.reconnect h s e =
      let t : Service N = record (clear_timer h s) { reconnect_timer = none } in
      let k = Connects-Still (connect-Connects browser api t) in
      record { paid = omega (arith, k.attempt, ap held k.timer, ap held e) }

  fire-Pays :
      (t : Timer) (s : Service N)
      → IsSound s
      → Listed t s.pending
      → Pays (fired_task t.task) s (fire browser api t s)
  unfolding fire
  fire-Pays t s v m = fire_task-Pays t.task t.handle s (All-Listed _ t s.pending v.timers.held m)

  -- The steps of an outage, and the delayed reconnects that fire by them.
  abbrev pub IsOfOutage : {s t : Service N} → Step browser api s t → Type 0
  IsOfOutage (opens k g m) = ⊥
  IsOfOutage reconnects = ⊥
  IsOfOutage changes_endpoint = ⊥
  IsOfOutage starts_fresh = ⊥
  IsOfOutage disposes = ⊥
  IsOfOutage _ = Unit

  abbrev pub fired_by : {s t : Service N} → Step browser api s t → ℕ
  fired_by (fires t m) = fired_task t.task
  fired_by _ = 0

  pub Step-Pays :
      {s t : Service N} (step : Step browser api s t)
      → IsOfOutage step
      → IsSound s
      → Pays (fired_by step) s t
  Step-Pays {s} (updates url c) h v = Still-Pays (updated-Still url c s)
  Step-Pays {s} connects h v = Still-Pays (Connects-Still (connect-Connects browser api s))
  Step-Pays reconnects h v = absurd h
  Step-Pays changes_endpoint h v = absurd h
  Step-Pays starts_fresh h v = absurd h
  Step-Pays disposes h v = absurd h
  Step-Pays {s} (sends payload) h v =
      Still-Pays (Quiet-Still (send_payload-Quiet browser api payload s))
  Step-Pays {s} marks_pong h v = Still-Pays (mark_pong-Still s)
  Step-Pays (opens k g m) h v = absurd h
  Step-Pays {s} (receives k g e m) h v = Still-Pays (message-Still k g e s)
  Step-Pays {s} (errs k g e m) h v = Still-Pays (error-Still k g e s)
  Step-Pays {s} (closes k g c r m) h v = on_socket_close-Pays k g c r s
  Step-Pays {s} (fires t m) h v = fire-Pays t s v m
  Step-Pays {s} (moves now net) h v = record { paid = omega arith }
