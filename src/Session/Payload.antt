-- ===== src/Session/Payload.antt =====
-- The list of sessions that the server answers (apps/web/src/features/terminal/session/protocol/
-- sessions-payload-parser.ts) and when it is good enough (sessions-parse-policy.ts). What
-- `JSON.parse` gave is a parameter as in Protocol/ServerMessages: a field that an object does not
-- own is `undefined`, and of the field `sessions` the source asks whether it is an array.
use wootty.Base.{
  ℕ, ◌+◌, ◌*◌, Bool, true, false, ◌&&◌, List, [], ◌∷◌, Option, none, some, Text, codes, ltb, leb,
  ◌==◌, if◌then◌else◌, length,
}
use wootty.Protocol.ServerMessages.{
  Value, undefined, boolean, string, Json, no_object, object, natural_of,
}
use wootty.Session.{SessionSnapshot}

pub data SessionsPayload : Type 0 where
  no_payload : SessionsPayload
  -- the field `sessions`, if it is an array
  envelope : Option (List Json) → SessionsPayload

pub data ParseFailure : Type 0 where
  invalid_payload missing_sessions_array : ParseFailure
  all_sessions_invalid too_many_invalid_sessions :
      (invalid_entries total_entries : ℕ) → ParseFailure

pub data SessionParseResult : Type 0 where
  parsed : (sessions : List SessionSnapshot) → (invalid_entries : ℕ) → SessionParseResult
  not_parsed : ParseFailure → SessionParseResult

-- `Object.hasOwn(record, field)`.
abbrev has_own : (Text → Value) → Text → Bool
has_own fields name = elim (fields name) [ undefined ↦ false | _ ↦ true ]

unfoldable pub has_required_session_fields : (Text → Value) → Bool
has_required_session_fields fields =
    has_own fields (codes "id")
    && has_own fields (codes "hasController")
    && has_own fields (codes "canControl")
    && has_own fields (codes "watchers")
    && has_own fields (codes "createdAtMs")
    && has_own fields (codes "lastActivityMs")

-- `typeof value === "string" && value.length > 0 ? value : null`.
abbrev pub text_or_null : Value → Option Text
text_or_null (string (c ∷ s)) = some (c ∷ s)
text_or_null _ = none

abbrev pub flag_of : Value → Option Bool
flag_of (boolean b) = some b
flag_of _ = none

-- The checks by their answers: name, two flags and three numbers.
abbrev pub checked_snapshot :
    Option Text
    → Option Bool
    → Option Bool
    → Option ℕ
    → Option ℕ
    → Option ℕ
    → Option Text
    → Option Text
    → Option SessionSnapshot
checked_snapshot (some id) (some controller) (some control) (some w) (some c) (some l) command
      name =
    some (record {
      id = id;
      has_controller = controller;
      can_control = control;
      watchers = w;
      created_at_ms = c;
      last_activity_ms = l;
      command = command;
      name = name;
    })
checked_snapshot _ _ _ _ _ _ command name = none

abbrev pub snapshot_of : (Text → Value) → Option SessionSnapshot
snapshot_of fields =
    checked_snapshot (text_or_null (fields (codes "id"))) (flag_of (fields (codes "hasController")))
      (flag_of (fields (codes "canControl"))) (natural_of (fields (codes "watchers")))
      (natural_of (fields (codes "createdAtMs"))) (natural_of (fields (codes "lastActivityMs")))
      (text_or_null (fields (codes "command"))) (text_or_null (fields (codes "name")))

unfoldable pub parse_session_snapshot : Json → Option SessionSnapshot
unfolding has_required_session_fields
parse_session_snapshot no_object = none
parse_session_snapshot (object fields) =
    if has_required_session_fields fields then snapshot_of fields else none

-- `map` and `filter` with their counter: the sessions, and how many entries are none.
abbrev pub with_entry : Option SessionSnapshot → List SessionSnapshot × ℕ → List SessionSnapshot × ℕ
with_entry (some s) (sessions, invalid) = (s ∷ sessions, invalid)
with_entry none (sessions, invalid) = (sessions, invalid + 1)

unfoldable pub parse_entries : List Json → List SessionSnapshot × ℕ
unfolding parse_session_snapshot
parse_entries [] = ([], 0)
parse_entries (e ∷ es) = with_entry (parse_session_snapshot e) (parse_entries es)

pub data SessionsParsePolicy : Type 0 where
  accepted all_invalid too_many_invalid : SessionsParsePolicy

-- `invalidEntries / totalEntries >= 0.5`, for a total that is not 0.
unfoldable pub evaluate_sessions_parse_policy : ℕ → ℕ → ℕ → SessionsParsePolicy
evaluate_sessions_parse_policy total_entries invalid_entries valid_entries =
    if ltb 0 invalid_entries && (valid_entries == 0)
    then all_invalid
    else if leb 4 total_entries && leb total_entries (2 * invalid_entries)
    then too_many_invalid
    else accepted

abbrev pub policy_result : SessionsParsePolicy → List SessionSnapshot → ℕ → ℕ → SessionParseResult
policy_result accepted sessions invalid total = parsed sessions invalid
policy_result all_invalid sessions invalid total = not_parsed (all_sessions_invalid invalid total)
policy_result too_many_invalid sessions invalid total =
    not_parsed (too_many_invalid_sessions invalid total)

unfoldable pub parse_sessions_response : SessionsPayload → SessionParseResult
unfolding parse_entries evaluate_sessions_parse_policy
parse_sessions_response no_payload = not_parsed invalid_payload
parse_sessions_response (envelope none) = not_parsed missing_sessions_array
parse_sessions_response (envelope (some entries)) =
    let (sessions, invalid) = parse_entries entries in
    policy_result (evaluate_sessions_parse_policy (length entries) invalid (length sessions))
      sessions invalid (length entries)
