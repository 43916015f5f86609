-- ===== src/Client/Examples.antt =====
-- An answer with one entry, which is no session.
use wootty.Base.{codes, true, [], ◌∷◌, some, Text}
use wootty.Protocol.ServerMessages.{no_object}
use wootty.Session.Payload.{SessionsPayload, envelope}
use wootty.Persistence.{Tried, returned}
use wootty.Client.{Fetched, answered, fetch_sessions, IsAnswer, fetch_sessions-IsAnswer}

abbrev listing : Fetched
listing = answered true 200 (codes "{sessions: [null]}")

abbrev parse_listing : Text → Tried SessionsPayload
parse_listing body = returned (envelope (some (no_object ∷ [])))

fetch_sessions-IsAnswer_example :
    IsAnswer parse_listing listing (fetch_sessions parse_listing listing)
fetch_sessions-IsAnswer_example = fetch_sessions-IsAnswer parse_listing listing
