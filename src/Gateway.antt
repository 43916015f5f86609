-- ===== src/Gateway.antt =====
-- What the messages of the server do
-- (apps/web/src/features/terminal/app/engine/protocol/connection-message-gateway.ts, with
-- connection-message-policy.ts beside it and protocol/policies/server-error-policy.ts), and the
-- status that the interface shows (connection-status-projector.ts). The gateway's calls of the
-- session, the runtime and the transport are a list, in their order.
pub mod Status
pub mod Messages
mod Examples
use wootty.Base.{ℕ, Bool, true, false, List, [], ◌∷◌, ◌++◌, Option, none, some, Text, if◌then◌else◌}
use wootty.Backpressure.{AttachMode, watch}
use wootty.Transport.Contracts.{ConnectionStatus, connecting, connected, closed, error}
use wootty.Protocol.ServerMessages.{
  Json, ServerErrorCode, ServerMessage, ready, output, exit, pong, ProtocolFailure,
  wire_version_mismatch, ParseResult, message, failure, parse_server_message_with_reason,
}
use wootty.Protocol.ServerMessages

pub data ConnectionStatusFlag : Type 0 where
  runtime_error protocol_incompatible session_not_found remote_exit : ConnectionStatusFlag

pub record ConnectionStatusState : Type 0 where
  pub transport_status : ConnectionStatus
  pub status_flag : Option ConnectionStatusFlag
  pub status : ConnectionStatus

pub data ConnectionStatusEvent : Type 0 where
  transport_status : ConnectionStatus → ConnectionStatusEvent
  status_flag : Option ConnectionStatusFlag → ConnectionStatusEvent

abbrev pub initial_connection_status_state : ConnectionStatusState
initial_connection_status_state = record {
  transport_status = connecting;
  status_flag = none;
  status = connecting;
}

abbrev is_connected : ConnectionStatus → Bool
is_connected connected = true
is_connected _ = false

unfoldable pub project_status : ConnectionStatus → Option ConnectionStatusFlag → ConnectionStatus
project_status transport none = transport
project_status transport (some runtime_error) = error
project_status transport (some protocol_incompatible) = error
project_status transport (some session_not_found) =
    if is_connected transport then closed else transport
project_status transport (some remote_exit) = if is_connected transport then closed else transport

-- The source returns the same object where nothing changes, for React to compare; as values the
-- two are the same.
unfoldable pub reduce_connection_status_state :
    ConnectionStatusState → ConnectionStatusEvent → ConnectionStatusState
unfolding project_status
reduce_connection_status_state s (transport_status next) =
    let flag = if is_connected next then none else s.status_flag in
    record { transport_status = next; status_flag = flag; status = project_status next flag }
reduce_connection_status_state s (status_flag next) = record s {
  status_flag = next;
  status = project_status s.transport_status next;
}

-- `ServerErrorNoticePayload`.
pub data ServerErrorNotice : Type 0 where
  known : ServerErrorCode → ServerErrorNotice
  raw_code : Text → ServerErrorNotice
  missing_code : ServerErrorNotice

pub record ServerErrorPolicy : Type 0 where
  pub notice : ServerErrorNotice
  pub status_flag : Option ConnectionStatusFlag
  pub next_attach_mode : Option AttachMode
  pub clear_missing_session : Bool
  pub refresh_sessions : Bool

abbrev only_notice : ServerErrorNotice → ServerErrorPolicy
only_notice notice = record {
  notice = notice;
  status_flag = none;
  next_attach_mode = none;
  clear_missing_session = false;
  refresh_sessions = false;
}

-- `SERVER_ERROR_SIDE_EFFECTS`, with the notice.
abbrev known_policy : ServerErrorCode → ServerErrorPolicy
known_policy ServerErrorCode.session_not_found =
    record (only_notice (known ServerErrorCode.session_not_found)) {
      status_flag = some session_not_found;
      clear_missing_session = true;
      refresh_sessions = true;
    }
known_policy ServerErrorCode.attach_forbidden =
    record (only_notice (known ServerErrorCode.attach_forbidden)) { next_attach_mode = some watch }
known_policy ServerErrorCode.incompatible_version =
    record (only_notice (known ServerErrorCode.incompatible_version)) {
      status_flag = some protocol_incompatible;
    }
known_policy code = only_notice (known code)

unfoldable pub resolve_server_error_policy :
    Option ServerErrorCode → Option Text → ServerErrorPolicy
resolve_server_error_policy (some code) raw = known_policy code
resolve_server_error_policy none (some (c ∷ s)) = only_notice (raw_code (c ∷ s))
resolve_server_error_policy none _ = only_notice missing_code

pub data Notice : Type 0 where
  empty_transport_message : Notice
  protocol_failure : ProtocolFailure → Notice
  server_policy : ServerErrorNotice → Notice

pub data GatewayCall : Type 0 where
  publish_notice : Notice → GatewayCall
  apply_ready_session : Text → Bool → GatewayCall
  clear_missing_session request_transport_refresh mark_pong : GatewayCall
  set_session_mode : AttachMode → GatewayCall
  write_server_error write_output_and_track_bytes : Text → GatewayCall
  flush_after_ready : Bool → GatewayCall
  write_exit : ℕ → ℕ → GatewayCall
  set_status_flag : Option ConnectionStatusFlag → GatewayCall

abbrev when : Bool → GatewayCall → List GatewayCall
when b c = if b then c ∷ [] else []

abbrev mode_calls : Option AttachMode → List GatewayCall
mode_calls none = []
mode_calls (some mode) = set_session_mode mode ∷ []

abbrev flag_calls : Option ConnectionStatusFlag → List GatewayCall
flag_calls none = []
flag_calls (some flag) = set_status_flag (some flag) ∷ []

unfoldable pub handle_server_error : Text → Option ServerErrorCode → Option Text → List GatewayCall
unfolding resolve_server_error_policy
handle_server_error text code raw =
    let policy = resolve_server_error_policy code raw in
    write_server_error text
      ∷ publish_notice (server_policy policy.notice)
      ∷ when policy.clear_missing_session clear_missing_session
    ++ mode_calls policy.next_attach_mode
    ++ flag_calls policy.status_flag
    ++ when policy.refresh_sessions request_transport_refresh

unfoldable pub on_protocol_failure : ProtocolFailure → List GatewayCall
on_protocol_failure wire_version_mismatch =
    publish_notice (protocol_failure wire_version_mismatch)
    ∷ set_status_flag (some protocol_incompatible)
    ∷ []
on_protocol_failure f = publish_notice (protocol_failure f) ∷ []

unfoldable pub on_message : ServerMessage → List GatewayCall
unfolding handle_server_error
on_message (ready id read_only version) =
    apply_ready_session id read_only
    ∷ set_status_flag none
    ∷ flush_after_ready read_only
    ∷ request_transport_refresh
    ∷ []
on_message (output data_) = write_output_and_track_bytes data_ ∷ []
on_message (exit code signal) = write_exit code signal ∷ set_status_flag (some remote_exit) ∷ []
on_message (ServerMessages.ServerMessage.error text code raw) = handle_server_error text code raw
on_message pong = mark_pong ∷ []

abbrev pub on_result : ParseResult → List GatewayCall
on_result (message m) = on_message m
on_result (failure f) = on_protocol_failure f

unfoldable pub handle_socket_message : (Text → Option Json) → Text → List GatewayCall
unfolding on_message on_protocol_failure
handle_socket_message parse_json [] = publish_notice empty_transport_message ∷ []
handle_socket_message parse_json (c ∷ s) =
    on_result (parse_server_message_with_reason parse_json (c ∷ s))
