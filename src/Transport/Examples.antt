-- ===== src/Transport/Examples.antt =====
-- The transport with sockets that a list of ready states stands for.
use wootty.Base.{
  ℕ, suc, ◌≡◌, refl, sym, subst, ◌<◌, inl, inr, true, false, List, [], ◌∷◌, ◌++◌, Option, none,
  some, Text, codes, length, get_elem?, Listed, ◌+◌, ◌-◌, ◌≤◌, arith, trim, text_eq,
}
use wootty.Sanitization.{UrlApi}
use wootty.Transport.Browser.{Browser, socket}
use wootty.Transport.Contracts.{normal, ConnectionStatus}
use wootty.Transport.State.{initial_transport_state, reduce_transport_state}
use wootty.Transport.Heartbeat.{stop_heartbeat, clear_pong_timeout}
use wootty.Transport.SocketSession.{close_active}
use wootty.Transport.Policy.{is_recoverable_transport_close, reconnect_delay_ms}
use wootty.Transport.Bootstrap.{create_socket}
use wootty.Transport.SocketSession.{has_active_connection, attach, clear_session}
use wootty.Transport.Service
use wootty.Transport.Service.{Service, Timer, dispatch_event, ping_tick, pong_timeout, clear_timer}
use wootty.Transport.Reliability.{ErrorEvent}
use wootty.Transport.Lifecycle.{
  update_runtime, connect, reconnect_now, schedule_fresh_connection, reconnect_with_endpoint_change,
  dispose_service, lifecycle_command, clear_reconnect_timer, on_socket_error, on_socket_close,
  fire_task, fire, open_connection,
}
use wootty.Transport.Frames.{timers_of}
use wootty.Transport.Timers.{IsHeld}
use wootty.Transport.Steps.{initial_service, Reach, start, next, updates, connects, closes, fires}
use wootty.Transport.Invariant.{IsSound}
use wootty.Transport.Soundness.{Reach-IsSound}
use wootty.Transport.Dropped.{IsWaiting, on_socket_close-IsWaiting}
use wootty.Transport.Limit.{Outage, begins, goes_on, reconnects_in, outage_gives_up}
use wootty.Transport.Still.{held}
use wootty.Transport.Commands.{IsIdle, lifecycle_commands-IsIdle}
use wootty.Transport.Disposal.{IsEnded, dispose_then_close-IsEnded}
use wootty.Transport.Replacement.{IsIgnored, endpoint_change-IsIgnored}
use wootty.Transport.Liveness.{pong_timeout-IsWaiting}
use wootty.Transport.Reports.{error_then_close_reports_once}

-- Sockets are numbered by their creation; `Net` holds their ready states.
abbrev Net : Type 0
Net = List ℕ

abbrev state_of : Option ℕ → ℕ
state_of none = 3
state_of (some n) = n

abbrev set_state : ℕ → ℕ → Net → Net
set_state k n [] = []
set_state ℕ.zero n (x ∷ xs) = n ∷ xs
set_state (suc k) n (x ∷ xs) = x ∷ set_state k n xs

abbrev demo : Browser Net
demo = record {
  create_transport = λ url net. (socket (length net), net ++ 0 ∷ []);
  ready_state = λ net k. state_of (get_elem? net k);
  send = λ k m net. (none, net);
  close = λ k code reason net. set_state k 2 net;
  to_lower_case = λ t. t;
}

-- Every text is a WebSocket address.
abbrev demo_api : UrlApi Text
demo_api = record {
  parse = λ t. some t;
  protocol = λ u. codes "wss:";
  has_token = λ u. false;
  set_token = λ u t. u;
  to_text = λ u. u;
}

-- Socket 0 is open, with a heartbeat whose pong is awaited, after two attempts.
abbrev live : Service Net
live = record {
  socket = some 0;
  detach_listeners = some (0, 1);
  generation = 1;
  close_intent = normal;
  ping_timer = some 5;
  pong_timer = some 6;
  ping_sent_at = some 12_000;
  socket_failure_notice = none;
  socket_error_generation = none;
  reconnect_timer = none;
  ws_url = some (codes "wss://host/ws");
  has_session_context = true;
  state = record initial_transport_state {
    status = ConnectionStatus.connected;
    reconnect_attempt = 2;
  };
  next_handle = 7;
  pending =
      record { handle = 6; task = pong_timeout; delay_ms = 12_000 }
      ∷ record { handle = 5; task = ping_tick; delay_ms = 12_000 }
      ∷ [];
  now = 20_000;
  listeners = (0, 1) ∷ [];
  net = 1 ∷ [];
  calls = [];
}

live-IsHeld : IsHeld (timers_of live)
live-IsHeld = record { held = (refl, (refl, tt)); fresh = (omega arith, (omega arith, tt)) }

live-IsSound : IsSound live
live-IsSound = record {
  timers = live-IsHeld;
  bound = inr (0, refl, refl, refl);
  attempts = omega arith;
}

abbrev no_message : ErrorEvent
no_message = record { message = codes "websocket error"; code = none }

lost_is_recoverable : is_recoverable_transport_close 1006 ≡ true
unfolding is_recoverable_transport_close
lost_is_recoverable = refl

still_listens : Listed (0, 1) (dispose_service demo demo_api live).listeners
unfolding dispose_service lifecycle_command close_active stop_heartbeat clear_pong_timeout
    clear_reconnect_timer clear_timer
still_listens = inl refl

Reach-IsSound_example : IsSound (
    connect demo demo_api
      (update_runtime (some (codes "wss://host/ws")) false (initial_service [] 0)))
Reach-IsSound_example =
    Reach-IsSound demo demo_api
      (connect demo demo_api
        (update_runtime (some (codes "wss://host/ws")) false (initial_service [] 0)))
      (next (next (start [] 0) (updates (some (codes "wss://host/ws")) false)) connects)

on_socket_close-IsWaiting_example :
    IsWaiting 2 (on_socket_close demo demo_api 0 1 1006 (codes "lost") live)
on_socket_close-IsWaiting_example =
    on_socket_close-IsWaiting demo demo_api 0 1 1006 (codes "lost") live live-IsSound (inl refl)
      refl lost_is_recoverable (omega arith)

lifecycle_commands-IsIdle_example :
    IsIdle (timers_of (reconnect_now demo demo_api live))
    × IsIdle (timers_of (schedule_fresh_connection demo demo_api live))
    × IsIdle (timers_of (reconnect_with_endpoint_change demo demo_api live))
    × IsIdle (timers_of (dispose_service demo demo_api live))
lifecycle_commands-IsIdle_example = lifecycle_commands-IsIdle demo demo_api live live-IsHeld

dispose_then_close-IsEnded_example :
    IsEnded (on_socket_close demo demo_api 0 1 1000 [] (dispose_service demo demo_api live))
dispose_then_close-IsEnded_example =
    dispose_then_close-IsEnded demo demo_api 0 1 1000 [] live live-IsSound still_listens

endpoint_change-IsIgnored_example :
    IsIgnored demo demo_api 0 1 (reconnect_with_endpoint_change demo demo_api live)
endpoint_change-IsIgnored_example = endpoint_change-IsIgnored demo demo_api 0 live

pong_timeout-IsWaiting_example :
    let t = fire_task demo demo_api pong_timeout 6 live in
    (t.net ≡ 2 ∷ [])
    × IsWaiting 2 (on_socket_close demo demo_api 0 1 4_103 [] t)
    × IsWaiting 2 (on_socket_close demo demo_api 0 1 1006 [] t)
pong_timeout-IsWaiting_example =
    pong_timeout-IsWaiting demo demo_api 0 1 6 [] live live-IsSound refl (inl refl) (omega arith)
      refl (omega arith)

error_then_close_reports_once_example :
    (on_socket_close demo demo_api 0 1 1006 []
      (on_socket_error demo demo_api 0 1 no_message live)).calls
    ≡ (on_socket_error demo demo_api 0 1 no_message live).calls
error_then_close_reports_once_example =
    error_then_close_reports_once demo demo_api 0 1 1006 [] no_message live
      (inr (0, refl, refl, refl)) (inl refl) refl

-- A first socket that connects, is lost, and is replaced when the delayed reconnect fires.
abbrev dialling : Service Net
dialling =
    connect demo demo_api
      (update_runtime (some (codes "wss://host/ws")) false (initial_service [] 0))

abbrev lost : Service Net
lost = on_socket_close demo demo_api 0 1 1006 (codes "lost") dialling

dialling_listens : Listed (0, 1) dialling.listeners
unfolding connect has_active_connection update_runtime initial_service open_connection create_socket
    dispatch_event trim text_eq attach clear_session
dialling_listens = inl refl

dialling_normal : dialling.close_intent ≡ normal
unfolding connect has_active_connection update_runtime initial_service open_connection create_socket
    dispatch_event trim text_eq attach clear_session
dialling_normal = refl

dialling_first : dialling.state.reconnect_attempt < 8
unfolding connect has_active_connection update_runtime initial_service open_connection create_socket
    dispatch_event trim text_eq attach clear_session reduce_transport_state
dialling_first = omega arith

dialling-Reach : Reach demo demo_api dialling
dialling-Reach = next (next (start [] 0) (updates (some (codes "wss://host/ws")) false)) connects

abbrev lost_waits : IsWaiting dialling.state.reconnect_attempt lost
lost_waits =
    on_socket_close-IsWaiting demo demo_api 0 1 1006 (codes "lost") dialling
      (Reach-IsSound demo demo_api dialling dialling-Reach) dialling_listens dialling_normal
      lost_is_recoverable dialling_first

abbrev first_reconnect : Timer
first_reconnect = record {
  handle = lost_waits.handle;
  task = Service.Task.reconnect;
  delay_ms = reconnect_delay_ms dialling.state.reconnect_attempt;
}

first_reconnect_waits : Listed first_reconnect lost.pending
first_reconnect_waits = subst (Listed first_reconnect) (sym lost_waits.pending) (inl refl)

redialling : Outage demo demo_api dialling (fire demo demo_api first_reconnect lost)
redialling =
    goes_on (goes_on begins (closes 0 1 1006 (codes "lost") dialling_listens) tt)
      (fires first_reconnect first_reconnect_waits) tt

outage_gives_up_example :
    reconnects_in demo demo_api redialling
      + held (fire demo demo_api first_reconnect lost).reconnect_timer
    ≤ (8 - dialling.state.reconnect_attempt) + held dialling.reconnect_timer
outage_gives_up_example = outage_gives_up demo demo_api dialling-Reach redialling
