-- ===== src/Coordinator/Heard.antt =====
-- Every event that the browser gives the transport is heard of.
use wootty.Base.{List, [], ◌∷◌, Option, none, some, Text}
use wootty.Adapters.Events.{RawEvent, MessageEvent, normalize_transport_message_event}
use wootty.Coordinator.{MessageEffect, notice, gateway, on_message}
use wootty.Gateway.{
  GatewayCall, handle_socket_message, on_result, on_protocol_failure, handle_server_error,
}
use wootty.Gateway
use wootty.Protocol.ServerMessages.{
  Json, ParseResult, message, failure, parse_server_message_with_reason, ProtocolFailure,
  ServerMessage, wire_version_mismatch, ready, output, exit, pong,
}
use wootty.Protocol.ServerMessages

-- Something is done about a message: a notice, or some call of the gateway.
abbrev pub IsHeard : MessageEffect → Type 0
IsHeard (notice n) = Unit
IsHeard (gateway []) = ⊥
IsHeard (gateway (c ∷ cs)) = Unit

gateway_message-IsHeard : (m : ServerMessage) → IsHeard (gateway (Gateway.on_message m))
unfolding Gateway.on_message handle_server_error
gateway_message-IsHeard (ready id read_only version) = tt
gateway_message-IsHeard (output d) = tt
gateway_message-IsHeard (exit code signal) = tt
gateway_message-IsHeard (ServerMessages.ServerMessage.error t code raw) = tt
gateway_message-IsHeard pong = tt

on_result-IsHeard : (r : ParseResult) → IsHeard (gateway (on_result r))
unfolding on_protocol_failure
on_result-IsHeard (message m) = gateway_message-IsHeard m
on_result-IsHeard (failure wire_version_mismatch) = tt
on_result-IsHeard (failure (ProtocolFailure.malformed_payload d)) = tt
on_result-IsHeard (failure (ProtocolFailure.unsupported_type t)) = tt

handle_socket_message-IsHeard :
    (parse_json : Text → Option Json) (data_ : Text)
    → IsHeard (gateway (handle_socket_message parse_json data_))
unfolding handle_socket_message
handle_socket_message-IsHeard parse_json [] = tt
handle_socket_message-IsHeard parse_json (c ∷ s) =
    on_result-IsHeard (parse_server_message_with_reason parse_json (c ∷ s))

on_event-IsHeard :
    (parse_json : Text → Option Json) (e : MessageEvent) → IsHeard (on_message parse_json e)
unfolding on_message
on_event-IsHeard parse_json e =
    elim e.malformed as (λ m. IsHeard (on_message parse_json (record e { malformed = m }))) [
      | none ↦ handle_socket_message-IsHeard parse_json e.data_
      | some [] ↦ handle_socket_message-IsHeard parse_json e.data_
      | some (c ∷ s) ↦ tt
    ]

-- Whatever the browser gives as a message event, and whatever `JSON.parse` makes of its text, a
-- notice of a malformed event is published or the gateway makes at least one call.
on_message-IsHeard :
    (sort_keys : List Text → List Text) (parse_json : Text → Option Json) (e : RawEvent)
    → IsHeard (on_message parse_json (normalize_transport_message_event sort_keys e))
on_message-IsHeard sort_keys parse_json e =
    on_event-IsHeard parse_json (normalize_transport_message_event sort_keys e)
