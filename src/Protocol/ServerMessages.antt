-- ===== src/Protocol/ServerMessages.antt =====
-- Messages of the server (apps/web/src/features/terminal/protocol/terminal-protocol.ts), with the
-- codes of protocol/server-error-codes.ts. `JSON.parse` is a parameter: it throws (`none`), or it
-- answers a value, of which the source asks whether it is an object and what its fields are. The
-- `cause` of a failure is passed on and never looked at; it is left out.
use wootty.Base.{
  ℕ, Bool, List, [], ◌∷◌, Option, none, some, Text, codes, text_eq, take, trim, Number, whole, ◌==◌,
  parse_non_negative_integer, if◌then◌else◌,
}
use wootty.Protocol.ClientMessages.{wire_contract_version}

-- A field of an object: what `typeof` tells apart, and its value.
pub data Value : Type 0 where
  undefined null nested : Value
  boolean : Bool → Value
  number : Number → Value
  string : Text → Value

pub data Json : Type 0 where
  no_object : Json
  object : (Text → Value) → Json

pub data ServerErrorCode : Type 0 where
  session_not_found attach_forbidden incompatible_version attach_required : ServerErrorCode
  read_only_forbidden session_not_writable session_not_resizable : ServerErrorCode

unfoldable pub error_code_text : ServerErrorCode → Text
error_code_text session_not_found = codes "session_not_found"
error_code_text attach_forbidden = codes "attach_forbidden"
error_code_text incompatible_version = codes "incompatible_version"
error_code_text attach_required = codes "attach_required"
error_code_text read_only_forbidden = codes "read_only_forbidden"
error_code_text session_not_writable = codes "session_not_writable"
error_code_text session_not_resizable = codes "session_not_resizable"

pub data ServerMessage : Type 0 where
  ready : (session_id : Text) → (read_only : Bool) → (version : ℕ) → ServerMessage
  output : Text → ServerMessage
  exit : (code signal : ℕ) → ServerMessage
  error :
      (message : Text) → (code : Option ServerErrorCode) → (raw_code : Option Text) → ServerMessage
  pong : ServerMessage

pub data ProtocolFailureDetail : Type 0 where
  non_text_frame json_parse_error payload_not_object invalid_message_type : ProtocolFailureDetail
  missing_ready_session_id invalid_ready_read_only invalid_output_data : ProtocolFailureDetail
  invalid_exit_payload missing_error_message : ProtocolFailureDetail

-- `TerminalProtocolFailure`: each reason with the details that it comes with.
pub data ProtocolFailure : Type 0 where
  malformed_payload : ProtocolFailureDetail → ProtocolFailure
  unsupported_type : (raw_type : Option Text) → ProtocolFailure
  wire_version_mismatch : ProtocolFailure

pub data ParseResult : Type 0 where
  message : ServerMessage → ParseResult
  failure : ProtocolFailure → ParseResult

-- `TERMINAL_SERVER_ERROR_CODES.includes`.
abbrev pub all_error_codes : List ServerErrorCode
all_error_codes =
    session_not_found ∷ attach_forbidden ∷ incompatible_version ∷ attach_required
    ∷ read_only_forbidden ∷ session_not_writable ∷ session_not_resizable ∷ []

unfoldable pub find_code : Text → List ServerErrorCode → Option ServerErrorCode
unfolding error_code_text
find_code value [] = none
find_code value (c ∷ cs) = if text_eq (error_code_text c) value then some c else find_code value cs

unfoldable pub error_code_of_text : Text → Option ServerErrorCode
unfolding find_code
error_code_of_text value = find_code value all_error_codes

abbrev pub raw_or_none : Text → Option Text
raw_or_none [] = none
raw_or_none (c ∷ s) = some (c ∷ s)

abbrev known_or_raw : Option ServerErrorCode → Text → Option ServerErrorCode × Option Text
known_or_raw (some c) value = (some c, none)
known_or_raw none value = (none, raw_or_none value)

unfoldable pub parse_server_error_code : Value → Option ServerErrorCode × Option Text
parse_server_error_code (string value) = known_or_raw (error_code_of_text value) value
parse_server_error_code _ = (none, none)

-- `message.version !== TERMINAL_WIRE_CONTRACT_VERSION`.
abbrev is_wire_version : Value → Bool
is_wire_version (number (whole n)) = n == wire_contract_version
is_wire_version _ = Bool.false

abbrev ready_with_mode : Text → Value → Value → ParseResult
ready_with_mode id (boolean read_only) version =
    if is_wire_version version
    then message (ready id read_only wire_contract_version)
    else failure wire_version_mismatch
ready_with_mode id _ version = failure (malformed_payload invalid_ready_read_only)

abbrev pub ready_of : Value → Value → Value → ParseResult
ready_of (string (c ∷ s)) read_only version = ready_with_mode (c ∷ s) read_only version
ready_of _ read_only version = failure (malformed_payload missing_ready_session_id)

abbrev pub output_of : Value → ParseResult
output_of (string data_) = message (output data_)
output_of _ = failure (malformed_payload invalid_output_data)

abbrev pub natural_of : Value → Option ℕ
natural_of (number n) = parse_non_negative_integer n
natural_of _ = none

abbrev pub exit_of : Option ℕ → Option ℕ → ParseResult
exit_of (some code) (some signal) = message (exit code signal)
exit_of _ _ = failure (malformed_payload invalid_exit_payload)

abbrev pub error_of : Value → Value → ParseResult
error_of (string text) code =
    let (known, raw) = parse_server_error_code code in message (error text known raw)
error_of _ code = failure (malformed_payload missing_error_message)

abbrev normalized_type : Text → Option Text
normalized_type [] = none
normalized_type (c ∷ s) = some (take 64 (c ∷ s))

unfoldable pub parse_typed : Text → (Text → Value) → ParseResult
unfolding parse_server_error_code
parse_typed type_ fields =
    if text_eq type_ (codes "ready")
    then ready_of (fields (codes "sessionId")) (fields (codes "readOnly"))
        (fields (codes "version"))
    else if text_eq type_ (codes "output")
    then output_of (fields (codes "data"))
    else if text_eq type_ (codes "exit")
    then exit_of (natural_of (fields (codes "code"))) (natural_of (fields (codes "signal")))
    else if text_eq type_ (codes "error")
    then error_of (fields (codes "message")) (fields (codes "code"))
    else if text_eq type_ (codes "pong")
    then message pong
    else failure (unsupported_type (normalized_type (trim type_)))

abbrev pub parse_by_type : Value → (Text → Value) → ParseResult
parse_by_type (string type_) fields = parse_typed type_ fields
parse_by_type _ fields = failure (malformed_payload invalid_message_type)

unfoldable pub parse_known_message : (Text → Value) → ParseResult
unfolding parse_typed
parse_known_message fields = parse_by_type (fields (codes "type")) fields

abbrev pub parse_value : Option Json → ParseResult
parse_value none = failure (malformed_payload json_parse_error)
parse_value (some no_object) = failure (malformed_payload payload_not_object)
parse_value (some (object fields)) = parse_known_message fields

-- On a text; the gateway hands over nothing else.
unfoldable pub parse_server_message_with_reason : (Text → Option Json) → Text → ParseResult
unfolding parse_known_message
parse_server_message_with_reason parse_json raw = parse_value (parse_json raw)
