-- ===== src/UserNotice.antt =====
-- The notices that the user reads: notifications/user-notice.ts with its formatters, and the mappers
-- of protocol and storage failures (apps/web/src/features/terminal/notifications). The calls
-- `assertNever` cannot be reached and have no counterpart.
mod Secrecy
mod Examples
use wootty.Base.{
  ℕ, ◌+◌, ◌/◌, Bool, true, false, not, ◌&&◌, List, [], ◌∷◌, ◌++◌, Option, none, some, Text, codes,
  decimal, join, text_eq, ◌==◌, if◌then◌else◌,
}
use wootty.Sanitization.{UrlApi, Cause, undefined, text, normalize_cause_to_message}
use wootty.Transport.Contracts.{
  FailureSource, FailureCode, number, source_text, FailureReasonCode, send_failed,
  endpoint_unavailable, endpoint_invalid_format, endpoint_unsupported_protocol, bootstrap_failed,
  socket_failure,
}
use wootty.Transport.Contracts
use wootty.Endpoints.{
  BackendResolutionIssueCode, env_socket_url_invalid_format, env_socket_url_requires_window_host,
  env_socket_url_unsupported_protocol, env_socket_url_required, socket_url_invalid_format,
  socket_url_unsupported_protocol,
}
use wootty.Protocol.ServerMessages.{
  ServerErrorCode, session_not_found, attach_forbidden, attach_required, read_only_forbidden,
  session_not_writable, session_not_resizable, ProtocolFailureDetail, non_text_frame,
  json_parse_error, payload_not_object, invalid_message_type, missing_ready_session_id,
  invalid_ready_read_only, invalid_output_data, invalid_exit_payload, missing_error_message,
  ProtocolFailure, wire_version_mismatch,
}
use wootty.Protocol.ServerMessages
use wootty.Gateway.{ServerErrorNotice, known, raw_code, missing_code}
use wootty.Persistence.{
  StorageOperation, read, write, remove, parse, StorageFailureReason, schema_mismatch,
  invalid_value,
}

pub data NoticeReason : Type 0 where
  attach_handshake_send_failed : NoticeReason
  failure_reason : FailureReasonCode → NoticeReason

pub record TransportNotice : Type 0 where
  pub reason_code : NoticeReason
  pub source : Option FailureSource
  pub code : Option FailureCode
  pub debug_detail : Option Text
  pub notice_message : Option Text
  pub cause : Cause

pub data ProtocolNotice : Type 0 where
  unsupported_type : (raw_type : Option Text) → ProtocolNotice
  malformed_payload : (detail : Option ProtocolFailureDetail) → (cause : Cause) → ProtocolNotice
  empty_transport_message incompatible_version : ProtocolNotice
  malformed_transport_event : (details : Text) → ProtocolNotice

pub data SessionsRefreshNotice : Type 0 where
  generic invalid_payload missing_sessions_array : SessionsRefreshNotice
  request_timeout : (timeout_ms : ℕ) → SessionsRefreshNotice
  http : (status : ℕ) → SessionsRefreshNotice
  of_cause : Cause → SessionsRefreshNotice
  all_sessions_invalid invalid_entries refresh_paused_after_failures :
      (count : ℕ) → SessionsRefreshNotice
  too_many_invalid_sessions : (count total : ℕ) → SessionsRefreshNotice

pub data NoticeDetails : Type 0 where
  sessions_refresh : SessionsRefreshNotice → NoticeDetails
  storage : StorageOperation → (key : Text) → (reason : Option Text) → NoticeDetails
  fullscreen : Cause → NoticeDetails
  runtime : (reason : Option Text) → Cause → NoticeDetails
  protocol : ProtocolNotice → NoticeDetails
  transport : TransportNotice → NoticeDetails
  server : ServerErrorNotice → NoticeDetails
  bootstrap : (details : Text) → Option BackendResolutionIssueCode → NoticeDetails

-- `value ? … : …` on a string or nothing: a text that is not empty goes between two others.
abbrev pub around : Text → Option Text → Text → Text → Text
around before none after otherwise = otherwise
around before (some []) after otherwise = otherwise
around before (some (c ∷ s)) after otherwise = before ++ (c ∷ s) ++ after

issue_code_text : BackendResolutionIssueCode → Text
issue_code_text env_socket_url_invalid_format = codes "env_socket_url_invalid_format"
issue_code_text env_socket_url_requires_window_host = codes "env_socket_url_requires_window_host"
issue_code_text env_socket_url_unsupported_protocol = codes "env_socket_url_unsupported_protocol"
issue_code_text env_socket_url_required = codes "env_socket_url_required"
issue_code_text socket_url_invalid_format = codes "socket_url_invalid_format"
issue_code_text socket_url_unsupported_protocol = codes "socket_url_unsupported_protocol"

code_suffix : Option BackendResolutionIssueCode → Text
unfolding issue_code_text
code_suffix none = []
code_suffix (some code) = codes " [code=" ++ issue_code_text code ++ codes "]"

unfoldable pub to_bootstrap_notice : Text → Option BackendResolutionIssueCode → Text
unfolding code_suffix
to_bootstrap_notice details code =
    codes "Terminal bootstrap configuration error"
    ++ code_suffix code
    ++ codes " ("
    ++ details
    ++ codes ")."

unfoldable pub to_server_notice : ServerErrorNotice → Text
to_server_notice missing_code =
    codes "Server rejected request without an error code. Check server logs for details."
to_server_notice (raw_code code) =
    codes "Server rejected request with code '" ++ code ++ codes "'. Check server logs for details."
to_server_notice (known session_not_found) =
    codes "Selected session is no longer running on the server. Start a new session."
to_server_notice (known attach_forbidden) =
    codes "Server denied control attach. Switched to watch mode for safety."
to_server_notice (known ServerErrorCode.incompatible_version) =
    codes "Client/server protocol versions are incompatible. Refresh the page and retry."
to_server_notice (known attach_required) =
    codes "Server requires an active session attach before sending terminal input or resize events."
to_server_notice (known read_only_forbidden) =
    codes "Server denied the action because this session is read-only."
to_server_notice (known session_not_writable) =
    codes "Server reported the active session is not writable."
to_server_notice (known session_not_resizable) =
    codes "Server reported the active session is not resizable."

storage_operation_text : StorageOperation → Text
storage_operation_text read = codes "read"
storage_operation_text write = codes "write"
storage_operation_text remove = codes "remove"
storage_operation_text parse = codes "parse"

unfoldable pub to_storage_notice : StorageOperation → Text → Option Text → Text
unfolding storage_operation_text
to_storage_notice operation key reason =
    codes "Browser storage "
    ++ storage_operation_text operation
    ++ codes " failed for '"
    ++ key
    ++ codes "'"
    ++ around (codes " (") reason (codes ")") []
    ++ codes ". In-memory state remains active."

detail_text : ProtocolFailureDetail → Text
detail_text non_text_frame = codes "non_text_frame"
detail_text json_parse_error = codes "json_parse_error"
detail_text payload_not_object = codes "payload_not_object"
detail_text invalid_message_type = codes "invalid_message_type"
detail_text missing_ready_session_id = codes "missing_ready_session_id"
detail_text invalid_ready_read_only = codes "invalid_ready_read_only"
detail_text invalid_output_data = codes "invalid_output_data"
detail_text invalid_exit_payload = codes "invalid_exit_payload"
detail_text missing_error_message = codes "missing_error_message"

detail_suffix : Option ProtocolFailureDetail → Text
unfolding detail_text
detail_suffix none = []
detail_suffix (some detail) = codes " [detail=" ++ detail_text detail ++ codes "]"

transport_message : NoticeReason → Text
transport_message attach_handshake_send_failed = codes "Connection problem during attach handshake."
transport_message (failure_reason send_failed) =
    codes "Connection problem while sending terminal data."
transport_message (failure_reason endpoint_unavailable) =
    codes "Connection problem: websocket endpoint unavailable."
transport_message (failure_reason endpoint_invalid_format) =
    codes "Connection problem: websocket endpoint format is invalid."
transport_message (failure_reason endpoint_unsupported_protocol) =
    codes "Connection problem: websocket endpoint protocol is unsupported."
transport_message (failure_reason bootstrap_failed) =
    codes "Connection problem during transport bootstrap."
transport_message (failure_reason socket_failure) = codes "Connection problem (transport failure)."

abbrev code_part : Option FailureCode → List Text
code_part none = []
code_part (some (number n)) = (codes "code=" ++ decimal n) ∷ []
code_part (some (Contracts.FailureCode.text s)) = (codes "code=" ++ s) ∷ []

abbrev source_part : Option FailureSource → List Text
source_part none = []
source_part (some s) = source_text s ∷ []

abbrev pub some_text : Text → Option Text → List Text
some_text before none = []
some_text before (some []) = []
some_text before (some (c ∷ s)) = (before ++ c ∷ s) ∷ []

-- The cause is left out where the detail says the same.
abbrev pub cause_part : Option Text → Option Text → List Text
cause_part (some (d ∷ detail)) (some cause) =
    if text_eq (d ∷ detail) cause then [] else some_text (codes "cause=") (some cause)
cause_part _ cause = some_text (codes "cause=") cause

abbrev with_suffix : Text → Text → Text
with_suffix message [] = message
with_suffix message (c ∷ s) = message ++ codes " (" ++ (c ∷ s) ++ codes ")"

-- `noticeMessage ?? debugDetail`.
abbrev pub detail_cause : Option Text → Option Text → Cause
detail_cause none none = undefined
detail_cause none (some debug_detail) = text debug_detail
detail_cause (some notice_message) debug_detail = text notice_message

abbrev pub not_empty : Option Text → Option Text
not_empty none = none
not_empty (some []) = none
not_empty (some (c ∷ s)) = some (c ∷ s)

module _ {U : Type 0} (api : UrlApi U) where
  unfoldable pub to_fullscreen_notice : Cause → Text
  to_fullscreen_notice cause =
      around (codes "Unable to toggle fullscreen mode (") (normalize_cause_to_message api cause)
        (codes ").") (codes "Unable to toggle fullscreen mode.")

  abbrev runtime_cause : Cause → Text
  runtime_cause cause =
      around (codes "Unable to start terminal runtime (") (normalize_cause_to_message api cause)
        (codes ").") (codes "Unable to start terminal runtime.")

  unfoldable pub to_runtime_notice : Option Text → Cause → Text
  to_runtime_notice reason cause =
      around (codes "Unable to start terminal runtime (") reason (codes ").") (runtime_cause cause)

  unfoldable pub to_protocol_notice : ProtocolNotice → Text
  unfolding detail_suffix
  to_protocol_notice (unsupported_type raw_type) =
      codes "Received an unsupported server message type"
      ++ around (codes " (type=") raw_type (codes ")") []
      ++ codes "."
  to_protocol_notice (malformed_payload detail cause) =
      let start = codes "Received a malformed server payload" ++ detail_suffix detail in
      around (start ++ codes " (") (normalize_cause_to_message api cause) (codes ").")
        (start ++ codes ".")
  to_protocol_notice empty_transport_message =
      codes "Received an empty transport payload; expected a JSON server message."
  to_protocol_notice incompatible_version =
      codes
        "Server and client protocol versions are incompatible. Refresh to load the latest app version."
  to_protocol_notice (malformed_transport_event details) =
      codes "Received malformed transport event (" ++ details ++ codes ")."

  -- `Math.round(timeoutMs / 1000)`.
  abbrev rounded_seconds : ℕ → ℕ
  rounded_seconds ms = (ms + 500) / 1_000

  unfoldable pub to_session_refresh_notice : SessionsRefreshNotice → Text
  to_session_refresh_notice generic = codes "Unable to refresh live sessions."
  to_session_refresh_notice (request_timeout ms) =
      codes "Unable to refresh live sessions (request timed out after "
      ++ decimal (rounded_seconds ms)
      ++ codes "s)."
  to_session_refresh_notice (http status) =
      codes "Unable to refresh live sessions (HTTP " ++ decimal status ++ codes ")."
  to_session_refresh_notice (of_cause cause) =
      around (codes "Unable to refresh live sessions (") (normalize_cause_to_message api cause)
        (codes ").") (codes "Unable to refresh live sessions.")
  to_session_refresh_notice invalid_payload =
      codes "Session list response was malformed. Keeping the existing list until the next refresh."
  to_session_refresh_notice missing_sessions_array =
      codes "Session list response did not include a sessions array."
  to_session_refresh_notice (all_sessions_invalid count) =
      codes "Session list response contained only malformed entries ("
      ++ decimal count
      ++ codes ")."
  to_session_refresh_notice (too_many_invalid_sessions count total) =
      codes "Session list response contained too many malformed entries ("
      ++ decimal count
      ++ codes "/"
      ++ decimal total
      ++ codes ")."
  to_session_refresh_notice (invalid_entries count) =
      codes "Skipped "
      ++ decimal count
      ++ codes " malformed session entr"
      ++ (if count == 1 then codes "y" else codes "ies")
      ++ codes "."
  to_session_refresh_notice (refresh_paused_after_failures count) =
      codes "Automatic session refresh paused after "
      ++ decimal count
      ++ codes " consecutive failures. Retry by reopening the session menu."

  unfoldable pub transport_parts :
      Option FailureSource → Option FailureCode → Option Text → Option Text → List Text
  transport_parts source code detail cause =
      source_part source
      ++ code_part code
      ++ some_text (codes "detail=") detail
      ++ cause_part detail cause

  unfoldable pub to_transport_notice : TransportNotice → Text
  unfolding transport_message transport_parts
  to_transport_notice n =
      let detail = normalize_cause_to_message api (detail_cause n.notice_message n.debug_detail) in
      let parts = transport_parts n.source n.code detail (normalize_cause_to_message api n.cause) in
      with_suffix (transport_message n.reason_code) (join (codes " ") parts)

  unfoldable pub to_user_notice : NoticeDetails → Text
  to_user_notice (sessions_refresh n) = to_session_refresh_notice n
  to_user_notice (storage operation key reason) = to_storage_notice operation key reason
  to_user_notice (fullscreen cause) = to_fullscreen_notice cause
  to_user_notice (runtime reason cause) = to_runtime_notice reason cause
  to_user_notice (protocol n) = to_protocol_notice n
  to_user_notice (transport n) = to_transport_notice n
  to_user_notice (server n) = to_server_notice n
  to_user_notice (bootstrap details code) = to_bootstrap_notice details code

  -- `describeStorageFailureReason`.
  unfoldable pub describe_storage_failure_reason : Option StorageFailureReason → Cause → Option Text
  describe_storage_failure_reason (some schema_mismatch) cause =
      some (codes "stored value schema mismatch")
  describe_storage_failure_reason (some invalid_value) cause = some (codes "stored value invalid")
  describe_storage_failure_reason none cause = not_empty (normalize_cause_to_message api cause)

  unfoldable pub to_storage_failure_notice_details :
      StorageOperation → Text → Option StorageFailureReason → Cause → NoticeDetails
  unfolding describe_storage_failure_reason
  to_storage_failure_notice_details operation key reason cause =
      storage operation key (describe_storage_failure_reason reason cause)

-- The mapper of protocol failures; the cause is that of the failure.
unfoldable pub to_protocol_failure_notice : ProtocolFailure → Cause → ProtocolNotice
to_protocol_failure_notice (ProtocolFailure.unsupported_type raw_type) cause =
    unsupported_type raw_type
to_protocol_failure_notice (ProtocolFailure.malformed_payload detail) cause =
    malformed_payload (some detail) cause
to_protocol_failure_notice wire_version_mismatch cause = incompatible_version
