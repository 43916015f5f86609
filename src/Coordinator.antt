-- ===== src/Coordinator.antt =====
-- The coordinator of a connection
-- (apps/web/src/features/terminal/app/engine/connection-coordinator.ts): the handlers that it gives
-- to the transport, and in Coordinator/Effects what it makes of the renderings.
pub mod Effects
mod Trace
mod Heard
mod Examples
use wootty.Base.{
  ℕ, Bool, true, false, List, [], ◌∷◌, Option, none, some, Text, Number, if◌then◌else◌,
}
use wootty.Backpressure.{AttachMode, watch, control}
use wootty.Protocol.ClientMessages.{ClientMessage, create_attach_message}
use wootty.Protocol.ServerMessages.{Json}
use wootty.Transport.Contracts.{
  ConnectionStatus, connecting, error, TransportFailure, FailureSource, FailureReasonCode,
  socket_failure,
}
use wootty.Transport.Contracts
use wootty.Adapters.Events.{MessageEvent}
use wootty.Sanitization.{Cause, undefined}
use wootty.UserNotice.{
  NoticeDetails, transport, protocol, NoticeReason, attach_handshake_send_failed, failure_reason,
  malformed_transport_event,
}
use wootty.Gateway.{
  ConnectionStatusFlag, runtime_error, ConnectionStatusState, ConnectionStatusEvent,
  initial_connection_status_state, reduce_connection_status_state, GatewayCall,
  handle_socket_message,
}
use wootty.Gateway

abbrev reason_or_default : Option FailureReasonCode → NoticeReason
reason_or_default none = failure_reason socket_failure
reason_or_default (some r) = failure_reason r

-- The cause is that of the failure.
unfoldable pub report_socket_failure : TransportFailure → Cause → NoticeDetails
report_socket_failure f cause = transport (record {
  source = some f.source;
  reason_code = reason_or_default f.reason_code;
  code = f.code;
  debug_detail = f.technical_detail;
  notice_message = f.notice_message;
  cause = cause;
})

-- What `onMessage` leads to: a notice, or the calls of the gateway.
pub data MessageEffect : Type 0 where
  notice : NoticeDetails → MessageEffect
  gateway : List GatewayCall → MessageEffect

unfoldable pub on_message : (Text → Option Json) → MessageEvent → MessageEffect
on_message parse_json e = elim e.malformed [
  | none ↦ gateway (handle_socket_message parse_json e.data_)
  | some [] ↦ gateway (handle_socket_message parse_json e.data_)
  | some (c ∷ s) ↦ notice (protocol (malformed_transport_event (c ∷ s)))
]

-- The state that the coordinator keeps for the status, and what it has published.
pub record CoordinatorState : Type 0 where
  pub status_state : ConnectionStatusState
  -- the latest first
  pub notices : List NoticeDetails

abbrev is_watch : AttachMode → Bool
is_watch watch = true
is_watch control = false

abbrev pub publish : NoticeDetails → CoordinatorState → CoordinatorState
publish n s = record s { notices = n ∷ s.notices }

abbrev pub dispatch_status_event : ConnectionStatusEvent → CoordinatorState → CoordinatorState
dispatch_status_event e s = record s {
  status_state = reduce_connection_status_state s.status_state e;
}

abbrev pub set_status_flag : Option ConnectionStatusFlag → CoordinatorState → CoordinatorState
set_status_flag next s = dispatch_status_event (ConnectionStatusEvent.status_flag next) s

abbrev pub handle_runtime_boot_error : CoordinatorState → CoordinatorState
handle_runtime_boot_error s = set_status_flag (some runtime_error) s

abbrev pub transport_status_effect : ConnectionStatus → CoordinatorState → CoordinatorState
transport_status_effect status s =
    dispatch_status_event (ConnectionStatusEvent.transport_status status) s

abbrev attach_failed : NoticeDetails
attach_failed = transport (record {
  source = none;
  reason_code = attach_handshake_send_failed;
  code = none;
  debug_detail = none;
  notice_message = none;
  cause = undefined;
})

abbrev after_attach : Bool → CoordinatorState → CoordinatorState
after_attach true s = s
after_attach false s = publish attach_failed s

-- `status` of the result.
unfoldable pub shown_status : (bootstrap_failure : Bool) → CoordinatorState → ConnectionStatus
shown_status true s = error
shown_status false s = s.status_state.status

module _ {ℓ} {W : Type ℓ} (send_now : W → ClientMessage → Bool × W) where
  -- `onOpen`; the sizes are those of `runtimeFitSizeRef`.
  unfoldable pub on_open :
      Option Text → AttachMode → Number → Number → W → CoordinatorState → CoordinatorState × W
  on_open session_id mode cols rows w s =
      let (sent, w') =
        send_now w (create_attach_message cols rows session_id (some (is_watch mode))) in
      (after_attach sent (set_status_flag none s), w')

module _ {ℓ} {S : Type ℓ}
    (reconnect_transport_now schedule_fresh_transport_connection : S → S) where
  unfoldable pub reconnect_now : CoordinatorState × S → CoordinatorState × S
  reconnect_now (s, t) = (set_status_flag none s, reconnect_transport_now t)

  unfoldable pub schedule_fresh_connection : CoordinatorState × S → CoordinatorState × S
  schedule_fresh_connection (s, t) = (set_status_flag none s, schedule_fresh_transport_connection t)
