-- ===== src/Transport/Reachable.antt =====
-- Every step of the transport keeps the invariant.
use wootty.Base.{
  ℕ, ◌≡◌, inl, inr, refl, sym, subst, ap, ◌∙◌, true, false, Option, none, some, Text, ltb,
  Bool-cases, arith,
}
use wootty.Protocol.ClientMessages.{create_ping_message}
use wootty.Sanitization.{UrlApi}
use wootty.Transport.Browser.{Browser}
use wootty.Transport.Contracts.{SocketCloseIntent, normal, fresh, manual, dispose}
use wootty.Transport.State.{connected, socket_closed, latency}
use wootty.Transport.Service.{
  Service, Timer, Task, ping_tick, pong_timeout, MessageEvent, on_open, on_message, call,
  dispatch_event, set_timer, clear_timer,
}
use wootty.Transport.Service
use wootty.Transport.Heartbeat.{on_ping_interval, tick_when, measured, mark_pong}
use wootty.Transport.SocketSession.{
  is_current, close_active, clear_session, detach_for_socket_swap, release_if_current_with_intent,
}
use wootty.Transport.Reliability.{ErrorEvent, on_connected}
use wootty.Transport.Lifecycle.{
  reconnect_now, reconnect_with_endpoint_change, schedule_fresh_connection, dispose_service,
  send_payload, swap_socket, on_socket_open, on_socket_message, on_socket_error, on_socket_close,
  fire_task,
}
use wootty.Transport.Frames.{
  timers_of, session_of, Quiet, close_active-Quiet, send_payload-Quiet, handle_socket_error-Quiet,
}
use wootty.Transport.Timers.{IsHeld, field_of, set_field-IsHeld, without-IsHeld, clear_field-IsHeld}
use wootty.Transport.TimerOps.{start_heartbeat-Clears, clear_pong_timeout-Clears}
use wootty.Transport.Sessions.{clear_session-IsUnbound, clear_session-rest}
use wootty.Transport.Invariant.{
  IsSound, Clears-IsSound, Quiet-IsSound, dispatch_event-IsSound, connect-IsSound,
  close_released-IsSound, lifecycle_command-IsSound,
}

module _ {N : Type 0} where
  pub clear_session-IsSound : (s : Service N) → IsSound s → IsSound (clear_session s)
  clear_session-IsSound s v =
      let (same, kept, gen) = clear_session-rest s in
      record {
        timers = subst IsHeld (sym same) v.timers;
        bound = inl (clear_session-IsUnbound s v.bound);
        attempts = omega (arith, ap (λ x. x.reconnect_attempt) kept, v.attempts);
      }

  -- Only the three parts count.
  pub same_parts-IsSound :
      {s t : Service N}
      → timers_of t ≡ timers_of s
      → session_of t ≡ session_of s
      → t.state.reconnect_attempt ≡ s.state.reconnect_attempt
      → IsSound s
      → IsSound t
  same_parts-IsSound a b c v = Quiet-IsSound (record { timers = a; session = b; attempt = c }) v

  on_connected-IsSound : (s : Service N) → IsSound s → IsSound (on_connected s)
  unfolding on_connected
  on_connected-IsSound s v =
      Clears-IsSound (start_heartbeat-Clears _) (same_parts-IsSound {s = s} refl refl refl v)

  measured-IsSound : (o : Option ℕ) (s : Service N) → IsSound s → IsSound (measured o s)
  measured-IsSound none s v = v
  measured-IsSound (some at) s v =
      same_parts-IsSound {s = dispatch_event (latency _) s} refl refl refl
        (dispatch_event-IsSound (latency _) s tt v)

  pub mark_pong-IsSound : (s : Service N) → IsSound s → IsSound (mark_pong s)
  unfolding mark_pong
  mark_pong-IsSound s v =
      Clears-IsSound (clear_pong_timeout-Clears _) (measured-IsSound s.ping_sent_at s v)

  -- The interval's callback, for a ping that changes no timer.
  on_ping_interval-IsSound :
      (ping : Service N → Service N)
      → ((t : Service N) → Quiet t (ping t))
      → (s : Service N) → IsSound s
      → IsSound (on_ping_interval ping s)
  unfolding on_ping_interval set_timer
  on_ping_interval-IsSound ping q s v = go s.pong_timer refl
    where
      go : (o : Option ℕ) → s.pong_timer ≡ o → IsSound (tick_when o ping s)
      go (some h) e = v
      go none e =
          let u = record s { ping_sent_at = some s.now } in
          let w = Quiet-IsSound (q u) (same_parts-IsSound {s = s} {t = u} refl refl refl v) in
          record {
            timers =
                set_field-IsHeld (timers_of (ping u)) pong_timeout 12_000
                  (ap (λ f. f.pong) (q u).timers ∙ e) w.timers;
            bound = w.bound;
            attempts = w.attempts;
          }

module _ {N U : Type 0} (browser : Browser N) (api : UrlApi U) where
  close_active-IsSound :
      (c : ℕ) (r : Text) (i : SocketCloseIntent) (s : Service N)
      → IsSound s
      → IsSound (close_active browser c r i s).1
  close_active-IsSound c r i s v = Quiet-IsSound (close_active-Quiet browser c r i s) v

  swap_socket-IsSound :
      (o : Option ℕ) (s : Service N) → IsSound s → IsSound (swap_socket browser api o s).1
  unfolding swap_socket
  swap_socket-IsSound none s v = v
  swap_socket-IsSound (some k) s v = elim (Bool-cases (ltb (browser.ready_state s.net k) 2)) [
    | inl live ↦
        rw live (connect-IsSound browser api _ (same_parts-IsSound {s = s} refl refl refl v))
    | inr gone ↦ rw gone v
  ]

  pub reconnect_now-IsSound : (s : Service N) → IsSound s → IsSound (reconnect_now browser api s)
  unfolding reconnect_now
  reconnect_now-IsSound s v =
      lifecycle_command-IsSound browser api true _ _ (close_active-IsSound _ _ manual)
        (connect-IsSound browser api) s v

  pub schedule_fresh_connection-IsSound :
      (s : Service N) → IsSound s → IsSound (schedule_fresh_connection browser api s)
  unfolding schedule_fresh_connection
  schedule_fresh_connection-IsSound s v =
      lifecycle_command-IsSound browser api true _ _ (close_active-IsSound _ _ fresh)
        (connect-IsSound browser api) s v

  pub endpoint_change-IsSound :
      (s : Service N) → IsSound s → IsSound (reconnect_with_endpoint_change browser api s)
  unfolding reconnect_with_endpoint_change detach_for_socket_swap
  endpoint_change-IsSound s v =
      lifecycle_command-IsSound browser api true _ _
        (λ t w. swap_socket-IsSound t.socket (clear_session t) (clear_session-IsSound t w))
        (connect-IsSound browser api) s v

  pub dispose_service-IsSound :
      (s : Service N) → IsSound s → IsSound (dispose_service browser api s)
  unfolding dispose_service
  dispose_service-IsSound s v =
      lifecycle_command-IsSound browser api false _ _ (close_active-IsSound _ _ dispose)
        (λ t w.
          dispatch_event-IsSound socket_closed (clear_session t) tt (clear_session-IsSound t w))
        s v

  pub on_socket_open-IsSound :
      (k g : ℕ) (s : Service N) → IsSound s → IsSound (on_socket_open browser api k g s)
  unfolding on_socket_open call
  on_socket_open-IsSound k g s v = elim (Bool-cases (is_current k g s)) [
    | inl here ↦ rw here (
        let u = dispatch_event connected (on_connected s) in
        same_parts-IsSound {s = u} refl refl refl
          (dispatch_event-IsSound connected (on_connected s) tt (on_connected-IsSound s v)))
    | inr stale ↦ rw stale v
  ]

  pub on_socket_message-IsSound :
      (k g : ℕ) (m : MessageEvent) (s : Service N)
      → IsSound s
      → IsSound (on_socket_message browser api k g m s)
  unfolding on_socket_message call
  on_socket_message-IsSound k g m s v = elim (Bool-cases (is_current k g s)) [
    | inl here ↦ rw here (same_parts-IsSound {s = s} refl refl refl v)
    | inr stale ↦ rw stale v
  ]

  pub on_socket_error-IsSound :
      (k g : ℕ) (e : ErrorEvent) (s : Service N)
      → IsSound s
      → IsSound (on_socket_error browser api k g e s)
  unfolding on_socket_error
  on_socket_error-IsSound k g e s v = elim (Bool-cases (is_current k g s)) [
    | inl here ↦ rw here (Quiet-IsSound (handle_socket_error-Quiet browser g e s) v)
    | inr stale ↦ rw stale v
  ]

  pub on_socket_close-IsSound :
      (k g code : ℕ) (reason : Text) (s : Service N)
      → IsSound s
      → IsSound (on_socket_close browser api k g code reason s)
  unfolding on_socket_close release_if_current_with_intent
  on_socket_close-IsSound k g code reason s v = elim (Bool-cases (is_current k g s)) [
    | inl here ↦ rw here (
        close_released-IsSound browser api s.close_intent g code reason (clear_session s)
          (clear_session-IsSound s v))
    | inr stale ↦ rw stale v
  ]

  pub fire_task-IsSound :
      (t : Task) (h : ℕ) (s : Service N)
      → field_of (timers_of s) t ≡ some h
      → IsSound s
      → IsSound (fire_task browser api t h s)
  unfolding fire_task clear_timer
  fire_task-IsSound ping_tick h s e v =
      on_ping_interval-IsSound (λ u. (send_payload browser api create_ping_message u).1)
        (send_payload-Quiet browser api create_ping_message) s v
  fire_task-IsSound pong_timeout h s e v =
      close_active-IsSound _ _ normal (clear_timer h s) (record {
        timers = without-IsHeld (timers_of s) h v.timers;
        bound = v.bound;
        attempts = v.attempts;
      })
  fire_task-IsSound Service.Task.reconnect h s e v =
      connect-IsSound browser api (record (clear_timer h s) { reconnect_timer = none })
        (record {
          timers = clear_field-IsHeld (timers_of s) Service.Task.reconnect h e v.timers;
          bound = v.bound;
          attempts = v.attempts;
        })
