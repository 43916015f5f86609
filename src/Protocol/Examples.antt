-- ===== src/Protocol/Examples.antt =====
-- Messages on concrete sizes and texts.
use wootty.Base.{◌≡◌, refl, none, some, codes, Text, Option}
use wootty.Protocol.ServerMessages.{
  Json, object, ServerMessage, error, session_not_found, message, parse_server_message_with_reason,
}
use wootty.Protocol.Parsing.{field, entries, parse-entries}
use wootty.Protocol.Reading.{IsRead, parse-IsRead}

-- Every text is this error message.
abbrev gone : ServerMessage
gone = error (codes "gone") (some session_not_found) none

abbrev gone_json : Text → Option Json
gone_json t = some (object (field (entries gone)))

parse-entries_example : parse_server_message_with_reason gone_json (codes "{}") ≡ message gone
parse-entries_example = parse-entries gone_json (codes "{}") gone refl refl

parse-IsRead_example :
    IsRead (gone_json (codes "{}")) (parse_server_message_with_reason gone_json (codes "{}"))
parse-IsRead_example = parse-IsRead gone_json (codes "{}")
