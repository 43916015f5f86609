-- ===== src/Protocol/Parsing.antt =====
-- The parser of server messages against the messages themselves.
use wootty.Base.{
  ◌≡◌, ◌≢◌, refl, sym, ap, List, [], ◌∷◌, Option, none, some, Text, codes, text_eq, whole,
  if◌then◌else◌,
}
use wootty.Protocol.ClientMessages.{wire_contract_version}
use wootty.Protocol.ServerMessages.{
  Value, undefined, boolean, number, string, Json, object, ServerErrorCode, error_code_text,
  ServerMessage, ready, output, exit, error, pong, message, error_code_of_text,
  parse_server_error_code, parse_typed, parse_known_message, parse_server_message_with_reason,
}

-- A code that the client knows, another one that is not empty, or none.
abbrev pub IsCodePair : Option ServerErrorCode → Option Text → Type 0
IsCodePair (some c) raw = raw ≡ none
IsCodePair none none = Unit
IsCodePair none (some raw) = (raw ≢ []) × (error_code_of_text raw ≡ none)

-- The messages of the contract: a session has a name, and the version is this one.
abbrev pub IsWire : ServerMessage → Type 0
IsWire (ready id read_only version) = (id ≢ []) × (version ≡ wire_contract_version)
IsWire (error text code raw) = IsCodePair code raw
IsWire _ = Unit

-- The object that stands for a message, as a list of its fields.
abbrev pub field : List (Text × Value) → Text → Value
field [] name = undefined
field ((key, value) ∷ rest) name = if text_eq key name then value else field rest name

abbrev code_value : Option ServerErrorCode → Option Text → Value
code_value (some c) raw = string (error_code_text c)
code_value none (some raw) = string raw
code_value none none = undefined

abbrev pub entries : ServerMessage → List (Text × Value)
entries (ready id read_only version) =
    (codes "type", string (codes "ready"))
    ∷ (codes "sessionId", string id)
    ∷ (codes "readOnly", boolean read_only)
    ∷ (codes "version", number (whole version))
    ∷ []
entries (output data_) = (codes "type", string (codes "output")) ∷ (codes "data", string data_) ∷ []
entries (exit code signal) =
    (codes "type", string (codes "exit"))
    ∷ (codes "code", number (whole code))
    ∷ (codes "signal", number (whole signal))
    ∷ []
entries (error text code raw) =
    (codes "type", string (codes "error"))
    ∷ (codes "message", string text)
    ∷ (codes "code", code_value code raw)
    ∷ []
entries pong = (codes "type", string (codes "pong")) ∷ []

code_round_trip : (c : ServerErrorCode) → error_code_of_text (error_code_text c) ≡ some c
unfolding error_code_of_text error_code_text text_eq
code_round_trip ServerErrorCode.session_not_found = refl
code_round_trip ServerErrorCode.attach_forbidden = refl
code_round_trip ServerErrorCode.incompatible_version = refl
code_round_trip ServerErrorCode.attach_required = refl
code_round_trip ServerErrorCode.read_only_forbidden = refl
code_round_trip ServerErrorCode.session_not_writable = refl
code_round_trip ServerErrorCode.session_not_resizable = refl

entries_parse : (m : ServerMessage) → IsWire m → parse_known_message (field (entries m)) ≡ message m
unfolding parse_known_message parse_typed parse_server_error_code text_eq
entries_parse (ready [] read_only version) w = absurd (w.0 refl)
entries_parse (ready (c ∷ s) read_only version) w = rw w.1 refl
entries_parse (output data_) w = refl
entries_parse (exit code signal) w = refl
entries_parse (error text (some c) raw) w =
    rw (code_round_trip c) (ap (λ r. message (error text (some c) r)) (sym w))
entries_parse (error text none none) w = refl
entries_parse (error text none (some [])) w = absurd (w.0 refl)
entries_parse (error text none (some (c ∷ s))) w = rw w.1 refl
entries_parse pong w = refl

-- A text whose JSON has the fields of a message of the contract is parsed as that message.
pub parse-entries :
    (parse_json : Text → Option Json) (raw : Text) (m : ServerMessage)
    → IsWire m
    → parse_json raw ≡ some (object (field (entries m)))
    → parse_server_message_with_reason parse_json raw ≡ message m
unfolding parse_server_message_with_reason
parse-entries parse_json raw m w e = rw e (entries_parse m w)
