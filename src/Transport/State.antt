-- ===== src/Transport/State.antt =====
-- What the interface knows of the connection
-- (apps/web/src/features/terminal/app/engine/transport/state/transport-state-machine.ts).
use wootty.Base.{ℕ, ℤ, Bool, Option, none, some, if◌then◌else◌}
use wootty.Transport.Contracts.{ConnectionStatus, connecting, reconnecting, TransportFailureContext}

pub record TransportState : Type 0 where
  pub status : ConnectionStatus
  pub reconnect_attempt : ℕ
  pub latency_ms : Option ℤ
  pub last_socket_failure : Option TransportFailureContext

abbrev pub initial_transport_state : TransportState
initial_transport_state = record {
  status = connecting;
  reconnect_attempt = 0;
  latency_ms = none;
  last_socket_failure = none;
}

pub data TransportEvent : Type 0 where
  set_connecting : Bool → TransportEvent
  connected socket_closed socket_error : TransportEvent
  latency : ℤ → TransportEvent
  socket_failure : TransportFailureContext → TransportEvent
  schedule_reconnect : ℕ → TransportEvent
  clear_reconnect_attempts : TransportEvent

unfoldable pub reduce_transport_state : TransportState → TransportEvent → TransportState
reduce_transport_state s (set_connecting is_reconnecting) = record s {
  status = if is_reconnecting then reconnecting else connecting;
}
reduce_transport_state s connected = record s {
  status = ConnectionStatus.connected;
  reconnect_attempt = 0;
  latency_ms = none;
  last_socket_failure = none;
}
reduce_transport_state s socket_closed = record s { status = ConnectionStatus.closed }
reduce_transport_state s socket_error = record s { status = ConnectionStatus.error }
reduce_transport_state s (latency ms) = record s { latency_ms = some ms }
reduce_transport_state s (socket_failure context) = record s { last_socket_failure = some context }
reduce_transport_state s (schedule_reconnect attempt) = record s {
  status = reconnecting;
  reconnect_attempt = attempt;
}
reduce_transport_state s clear_reconnect_attempts = record s { reconnect_attempt = 0 }
