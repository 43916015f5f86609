-- ===== src/Transport/Steps.antt =====
-- The transport as a step relation: the coordinator calls it, a socket fires an event at its
-- listeners, the scheduler fires a timer that it holds, or the clock and the sockets move.
use wootty.Base.{ℕ, Bool, false, [], Option, none, Text, Listed}
use wootty.Protocol.ClientMessages.{ClientMessage}
use wootty.Sanitization.{UrlApi}
use wootty.Transport.Browser.{Browser}
use wootty.Transport.Contracts.{normal}
use wootty.Transport.State.{initial_transport_state}
use wootty.Transport.Service.{Service, Timer, MessageEvent}
use wootty.Transport.Heartbeat.{mark_pong}
use wootty.Transport.Reliability.{ErrorEvent}
use wootty.Transport.Lifecycle.{
  update_runtime, connect, reconnect_now, reconnect_with_endpoint_change, schedule_fresh_connection,
  dispose_service, send_payload, on_socket_open, on_socket_message, on_socket_error,
  on_socket_close, fire,
}

-- The fields as the constructors leave them, with the coordinator's first runtime.
unfoldable pub initial_service : {N : Type 0} → N → ℕ → Service N
initial_service net now = record {
  socket = none;
  detach_listeners = none;
  generation = 0;
  close_intent = normal;
  ping_timer = none;
  pong_timer = none;
  ping_sent_at = none;
  socket_failure_notice = none;
  socket_error_generation = none;
  reconnect_timer = none;
  ws_url = none;
  has_session_context = false;
  state = initial_transport_state;
  next_handle = 1;
  pending = [];
  now = now;
  listeners = [];
  net = net;
  calls = [];
}

module _ {N U : Type 0} (browser : Browser N) (api : UrlApi U) where
  pub data Step (s : Service N) : Service N → Type 0 where
    updates : (url : Option Text) (context : Bool) → Step s (update_runtime url context s)
    connects : Step s (connect browser api s)
    reconnects : Step s (reconnect_now browser api s)
    changes_endpoint : Step s (reconnect_with_endpoint_change browser api s)
    starts_fresh : Step s (schedule_fresh_connection browser api s)
    disposes : Step s (dispose_service browser api s)
    sends : (payload : ClientMessage) → Step s (send_payload browser api payload s).1
    marks_pong : Step s (mark_pong s)
    opens : (k g : ℕ) → Listed (k, g) s.listeners → Step s (on_socket_open browser api k g s)
    receives :
        (k g : ℕ) (event : MessageEvent)
        → Listed (k, g) s.listeners
        → Step s (on_socket_message browser api k g event s)
    errs :
        (k g : ℕ) (event : ErrorEvent)
        → Listed (k, g) s.listeners
        → Step s (on_socket_error browser api k g event s)
    closes :
        (k g code : ℕ) (reason : Text)
        → Listed (k, g) s.listeners
        → Step s (on_socket_close browser api k g code reason s)
    fires : (t : Timer) → Listed t s.pending → Step s (fire browser api t s)
    moves : (now : ℕ) (net : N) → Step s (record s { now = now; net = net })

  -- What can be reached from a fresh service.
  pub data Reach : Service N → Type 0 where
    start : (net : N) (now : ℕ) → Reach (initial_service net now)
    next : {s t : Service N} → Reach s → Step s t → Reach t
