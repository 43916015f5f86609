-- ===== src/Gateway/Messages.antt =====
-- Which message leads to which call.
use wootty.Base.{◌≡◌, ◌≢◌, refl, ap, Bool, [], ◌∷◌, Option, none, some, Text, All}
use wootty.Backpressure.{watch}
use wootty.Protocol.ServerMessages.{
  Json, ServerErrorCode, ServerMessage, ready, output, exit, pong, ProtocolFailure,
  wire_version_mismatch, ParseResult, message, failure, parse_server_message_with_reason,
}
use wootty.Protocol.ServerMessages
use wootty.Protocol.Reading.{IsRead, ready_read, parse-IsRead}
use wootty.Gateway.{
  GatewayCall, apply_ready_session, clear_missing_session, mark_pong, set_session_mode,
  set_status_flag, write_exit, handle_server_error, resolve_server_error_policy,
  on_protocol_failure, on_message, on_result, handle_socket_message,
}

abbrev pub IsErrorOf : ParseResult → ServerErrorCode → Type 0
IsErrorOf r code =
    (text : Text) × (raw : Option Text) × (r
      ≡ message (ServerMessages.ServerMessage.error text (some code) raw))

-- The message that a call needs.
abbrev pub IsCalledFor : ParseResult → GatewayCall → Type 0
IsCalledFor r (apply_ready_session id read_only) = (id ≢ []) × (r ≡ message (ready id read_only 1))
IsCalledFor r (set_status_flag none) =
    (id : Text) × (read_only : Bool) × (r ≡ message (ready id read_only 1))
IsCalledFor r clear_missing_session = IsErrorOf r ServerErrorCode.session_not_found
IsCalledFor r (set_session_mode mode) =
    (mode ≡ watch) × IsErrorOf r ServerErrorCode.attach_forbidden
IsCalledFor r (write_exit code signal) = r ≡ message (exit code signal)
IsCalledFor r mark_pong = r ≡ message pong
IsCalledFor r _ = Unit

error_calls :
    (text : Text) (code : Option ServerErrorCode) (raw : Option Text)
    → All
        (IsCalledFor (message (ServerMessages.ServerMessage.error text code raw)))
        (handle_server_error text code raw)
unfolding handle_server_error resolve_server_error_policy
error_calls text (some ServerErrorCode.session_not_found) raw =
    (tt, (tt, ((text, raw, refl), (tt, (tt, tt)))))
error_calls text (some ServerErrorCode.attach_forbidden) raw =
    (tt, (tt, ((refl, (text, raw, refl)), tt)))
error_calls text (some ServerErrorCode.incompatible_version) raw = (tt, (tt, (tt, tt)))
error_calls text (some ServerErrorCode.attach_required) raw = (tt, (tt, tt))
error_calls text (some ServerErrorCode.read_only_forbidden) raw = (tt, (tt, tt))
error_calls text (some ServerErrorCode.session_not_writable) raw = (tt, (tt, tt))
error_calls text (some ServerErrorCode.session_not_resizable) raw = (tt, (tt, tt))
error_calls text none (some (c ∷ s)) = (tt, (tt, tt))
error_calls text none (some []) = (tt, (tt, tt))
error_calls text none none = (tt, (tt, tt))

failure_calls : (f : ProtocolFailure) → All (IsCalledFor (failure f)) (on_protocol_failure f)
unfolding on_protocol_failure
failure_calls wire_version_mismatch = (tt, (tt, tt))
failure_calls (ServerMessages.ProtocolFailure.malformed_payload d) = (tt, tt)
failure_calls (ServerMessages.ProtocolFailure.unsupported_type t) = (tt, tt)

result_calls : (j : Option Json) (r : ParseResult) → IsRead j r → All (IsCalledFor r) (on_result r)
unfolding on_message
result_calls j (failure f) w = failure_calls f
result_calls j (message (ready id read_only version)) w =
    let (named, versioned) = ready_read j id read_only version w in
    let same = ap (λ v. message (ready id read_only v)) versioned in
    ((named, same), ((id, read_only, same), (tt, (tt, tt))))
result_calls j (message (output data_)) w = (tt, tt)
result_calls j (message (exit code signal)) w = (refl, (tt, tt))
result_calls j (message (ServerMessages.ServerMessage.error text code raw)) w =
    error_calls text code raw
result_calls j (message pong) w = (refl, tt)

-- Whatever a socket delivers and whatever `JSON.parse` makes of it: a session is applied only for
-- a ready message with its name, which is not empty, and in this version; only a ready message
-- clears the status flag; the missing session is cleared, and the mode turned to watching, only
-- for the error with that code; an exit or a pong is passed on only for its own message.
pub handle_socket_message-IsCalledFor :
    (parse_json : Text → Option Json) (raw : Text)
    → All
        (IsCalledFor (parse_server_message_with_reason parse_json raw))
        (handle_socket_message parse_json raw)
unfolding handle_socket_message
handle_socket_message-IsCalledFor parse_json [] = (tt, tt)
handle_socket_message-IsCalledFor parse_json (c ∷ s) =
    result_calls (parse_json (c ∷ s)) (parse_server_message_with_reason parse_json (c ∷ s))
      (parse-IsRead parse_json (c ∷ s))
