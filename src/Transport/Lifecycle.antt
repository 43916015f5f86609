-- ===== src/Transport/Lifecycle.antt =====
-- Connecting, closing and reconnecting (apps/web/src/features/terminal/app/engine/transport/
-- lifecycle/transport-lifecycle-service.ts).
use wootty.Base.{
  ℕ, Bool, true, false, List, [], ◌∷◌, Option, none, some, Text, codes, ltb, ◌==◌, if◌then◌else◌,
}
use wootty.Protocol.ClientMessages.{ClientMessage, create_ping_message}
use wootty.Sanitization.{UrlApi}
use wootty.Transport.Browser.{Browser, Thrown, ready_state_open, ready_state_closing}
use wootty.Transport.Bootstrap.{BootstrapResult, ok, failed, create_socket}
use wootty.Transport.Contracts.{SocketCloseIntent, normal, fresh, manual, dispose}
use wootty.Transport.State.{set_connecting, connected, socket_closed, clear_reconnect_attempts}
use wootty.Transport.Policy.{manual_reconnect_code, start_fresh_session_code, pong_timeout_code}
use wootty.Transport.ClosePlan.{
  PlanAction, report_close_failure, schedule, execute_transport_close_plan,
}
use wootty.Transport.ClosePlan
use wootty.Transport.Service.{
  Service, Task, ping_tick, pong_timeout, MessageEvent, on_open, on_message, call, dispatch_event,
  set_timer, clear_timer,
}
use wootty.Transport.Service
use wootty.Transport.Heartbeat.{stop_heartbeat, on_ping_interval}
use wootty.Transport.SocketSession.{
  is_current, attach, clear_session, has_active_connection, close_active, detach_for_socket_swap,
  release_if_current_with_intent,
}
use wootty.Transport.Reliability.{
  ErrorEvent, on_connected, handle_socket_close, handle_socket_error, report_send_failure,
  report_bootstrap_failure,
}
use wootty.Transport.Reliability

module _ {N : Type 0} where
  abbrev pub cleared_reconnect : Option ℕ → Service N → Service N
  cleared_reconnect none s = s
  cleared_reconnect (some handle) s = record (clear_timer handle s) { reconnect_timer = none }

  unfoldable pub clear_reconnect_timer : Service N → Service N
  clear_reconnect_timer s = cleared_reconnect s.reconnect_timer s

  unfoldable pub schedule_reconnect : ℕ → Service N → Service N
  schedule_reconnect delay_ms s =
      let t = clear_reconnect_timer s in
      record (set_timer Service.Task.reconnect delay_ms t) { reconnect_timer = some t.next_handle }

  unfoldable pub update_runtime : Option Text → Bool → Service N → Service N
  update_runtime ws_url has_session_context s = record s {
    ws_url = ws_url;
    has_session_context = has_session_context;
  }

  -- `executeLifecycleCommand`.
  unfoldable pub lifecycle_command :
      Bool → (Service N → Bool × Service N) → (Service N → Service N) → Service N → Service N
  lifecycle_command clear_attempts try_close fallback s =
      let t = clear_reconnect_timer s in
      let u = if clear_attempts then dispatch_event clear_reconnect_attempts t else t in
      let (closed, v) = try_close (stop_heartbeat u) in if closed then v else fallback v

module _ {N U : Type 0} (browser : Browser N) (api : UrlApi U) where
  -- What `send` answers, as `sendPayload` takes it.
  abbrev pub sent : Option Thrown → Service N → Bool × Service N
  sent none s = (true, s)
  sent (some thrown) s = (false, report_send_failure browser thrown s)

  abbrev pub send_when : Option ℕ → ClientMessage → Service N → Bool × Service N
  send_when none payload s = (false, s)
  send_when (some socket) payload s =
      if browser.ready_state s.net socket == ready_state_open
      then (let (answer, net) = browser.send socket payload s.net in
          sent answer (record s { net = net }))
      else (false, s)

  unfoldable pub send_payload : ClientMessage → Service N → Bool × Service N
  send_payload payload s = send_when s.socket payload s

  abbrev pub bootstrapped : BootstrapResult → Service N → Service N
  bootstrapped (ok socket) s = attach socket s
  bootstrapped (failed reason_code debug_detail) s =
      report_bootstrap_failure browser reason_code debug_detail s

  unfoldable pub open_connection : Service N → Service N
  open_connection s =
      let t = dispatch_event (set_connecting s.has_session_context) s in
      let (result, net) = create_socket browser api t.ws_url t.net in
      bootstrapped result (record t { net = net })

  unfoldable pub connect : Service N → Service N
  connect s = if has_active_connection browser s then s else open_connection s

  unfoldable pub reconnect_now : Service N → Service N
  reconnect_now s =
      lifecycle_command true
        (close_active browser manual_reconnect_code (codes "manual reconnect") manual) connect s

  unfoldable pub swap_socket : Option ℕ → Service N → Bool × Service N
  swap_socket none t = (false, t)
  swap_socket (some previous) t =
      if ltb (browser.ready_state t.net previous) ready_state_closing
      then (
        true,
        connect (record t {
          net = browser.close previous manual_reconnect_code (codes "endpoint changed") t.net;
        }),
      )
      else (false, t)

  unfoldable pub reconnect_with_endpoint_change : Service N → Service N
  reconnect_with_endpoint_change s =
      lifecycle_command true
        (λ t. let (previous, u) = detach_for_socket_swap t in swap_socket previous u) connect s

  unfoldable pub schedule_fresh_connection : Service N → Service N
  schedule_fresh_connection s =
      lifecycle_command true
        (close_active browser start_fresh_session_code (codes "start fresh session") fresh) connect
        s

  unfoldable pub dispose_service : Service N → Service N
  dispose_service s =
      lifecycle_command false (close_active browser 1000 (codes "component unmount") dispose)
        (λ t. dispatch_event socket_closed (clear_session t)) s

  -- The listeners that `connect` attaches, with the socket and the generation they close over.
  unfoldable pub on_socket_open : ℕ → ℕ → Service N → Service N
  on_socket_open socket generation s =
      if is_current socket generation s
      then call on_open (dispatch_event connected (on_connected s))
      else s

  unfoldable pub on_socket_message : ℕ → ℕ → MessageEvent → Service N → Service N
  on_socket_message socket generation event s =
      if is_current socket generation s then call (on_message event) s else s

  unfoldable pub on_socket_error : ℕ → ℕ → ErrorEvent → Service N → Service N
  on_socket_error socket generation event s =
      if is_current socket generation s then handle_socket_error browser generation event s else s

  unfoldable pub run_action : ℕ → Text → PlanAction → Service N → Service N
  run_action code reason (ClosePlan.PlanAction.dispatch_event e) s = dispatch_event e s
  run_action code reason ClosePlan.PlanAction.connect s = connect s
  run_action code reason report_close_failure s =
      Reliability.report_close_failure browser code reason s
  run_action code reason (schedule delay_ms) s = schedule_reconnect delay_ms s

  unfoldable pub run_actions : ℕ → Text → List PlanAction → Service N → Service N
  unfolding run_action
  run_actions code reason [] s = s
  run_actions code reason (a ∷ as_) s = run_actions code reason as_ (run_action code reason a s)

  -- `onSocketClose` once the socket is released.
  unfoldable pub close_released : SocketCloseIntent → ℕ → ℕ → Text → Service N → Service N
  close_released intent generation code reason s =
      let (should_report, t) = handle_socket_close generation s in
      run_actions code reason
        (execute_transport_close_plan intent code t.state.reconnect_attempt should_report) t

  abbrev pub close_when_released : Option SocketCloseIntent × Service N → ℕ → ℕ → Text → Service N
  close_when_released (none, s) generation code reason = s
  close_when_released (some intent, s) generation code reason =
      close_released intent generation code reason s

  unfoldable pub on_socket_close : ℕ → ℕ → ℕ → Text → Service N → Service N
  on_socket_close socket generation code reason s =
      close_when_released (release_if_current_with_intent socket generation s) generation code
        reason

  unfoldable pub fire_task : Task → ℕ → Service N → Service N
  fire_task ping_tick handle s = on_ping_interval (λ t. (send_payload create_ping_message t).1) s
  fire_task pong_timeout handle s =
      (close_active browser pong_timeout_code (codes "pong timeout") normal
        (clear_timer handle s)).1
  fire_task Service.Task.reconnect handle s =
      connect (record (clear_timer handle s) { reconnect_timer = none })

  -- A timer fires: the interval stays with the scheduler, a timeout leaves it.
  unfoldable pub fire : Service.Timer → Service N → Service N
  unfolding fire_task
  fire timer s = fire_task timer.task timer.handle s
