-- ===== src/Gateway/Examples.antt =====
-- The gateway and the status on concrete messages and events.
use wootty.Base.{
  ◌≡◌, ◌↔◌, refl, false, List, [], ◌∷◌, Option, none, some, Text, codes, text_eq, All,
}
use wootty.Transport.Contracts.{connected, closed}
use wootty.Protocol.ServerMessages.{
  Json, object, ready, parse_server_message_with_reason, parse_known_message, parse_typed,
}
use wootty.Protocol.Parsing.{field, entries}
use wootty.Gateway.{
  ConnectionStatusEvent, transport_status, status_flag, session_not_found,
  initial_connection_status_state, reduce_connection_status_state, handle_socket_message,
  on_message, apply_ready_session, set_status_flag, flush_after_ready, request_transport_refresh,
}
use wootty.Gateway.Status.{after_events, after_events-connected}
use wootty.Gateway.Messages.{IsCalledFor, handle_socket_message-IsCalledFor}

-- Every text is a ready message.
abbrev main_is_ready : Text → Option Json
main_is_ready t = some (object (field (entries (ready (codes "main") false 1))))

abbrev lost_session : List ConnectionStatusEvent
lost_session = transport_status connected ∷ status_flag (some session_not_found) ∷ []

lost_session_closes : (after_events lost_session initial_connection_status_state).status ≡ closed
unfolding after_events reduce_connection_status_state
lost_session_closes = refl

ready_calls :
    handle_socket_message main_is_ready (codes "{}")
    ≡ apply_ready_session (codes "main") false
      ∷ set_status_flag none
      ∷ flush_after_ready false
      ∷ request_transport_refresh
      ∷ []
unfolding handle_socket_message on_message parse_server_message_with_reason parse_known_message
    parse_typed text_eq
ready_calls = refl

after_events-connected_example :
    ((after_events lost_session initial_connection_status_state).status ≡ connected) ↔ (
      ((after_events lost_session initial_connection_status_state).transport_status ≡ connected)
      × ((after_events lost_session initial_connection_status_state).status_flag ≡ none))
after_events-connected_example = after_events-connected lost_session

handle_socket_message-IsCalledFor_example :
    All
      (IsCalledFor (parse_server_message_with_reason main_is_ready (codes "{}")))
      (handle_socket_message main_is_ready (codes "{}"))
handle_socket_message-IsCalledFor_example =
    handle_socket_message-IsCalledFor main_is_ready (codes "{}")
