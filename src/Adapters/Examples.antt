-- ===== src/Adapters/Examples.antt =====
-- Runs of the browser's transport and of its events.
use wootty.Base.{
  join, ℕ, Bool, true, false, List, [], ◌∷◌, ◌++◌, some, Text, codes, ◌==◌, if◌then◌else◌, All, ◌≡◌,
  refl, ◌∙◌, whole, not_finite, text_eq,
}
use wootty.Adapters.{
  TransportEventType, open_type, message_type, close_type, SocketCall, add_event_listener,
  remove_event_listener, same_type, Wrapped,
}
use wootty.Adapters.Laws.{without_wrapper, listeners}
use wootty.Adapters.Dispatch.{
  EventTarget, ListenerCommand, add, remove, commands, subscribed, listening-subscribed,
}
use wootty.Adapters.Events.{
  summarize_shape, EventObject, object, plain, text, number, absent, FieldValue,
  normalize_transport_message_event, normalize_transport_close_event,
  normalize_transport_error_event,
}

has_wrapper : ℕ → List Wrapped → Bool
has_wrapper n [] = false
has_wrapper n (w ∷ ws) = if w.wrapper == n then true else has_wrapper n ws

heard_call : SocketCall → TransportEventType → List Wrapped → List Wrapped
unfolding has_wrapper without_wrapper
heard_call (add_event_listener t w) u ws =
    if same_type u t then (if has_wrapper w.wrapper ws then ws else ws ++ w ∷ []) else ws
heard_call (remove_event_listener t w) u ws =
    if same_type u t then without_wrapper w.wrapper ws else ws

heard : List SocketCall → TransportEventType → List Wrapped → List Wrapped
heard [] u ws = ws
heard (c ∷ cs) u ws = heard cs u (heard_call c u ws)

heard-append :
    (cs : List SocketCall) (c : SocketCall) (u : TransportEventType) (ws : List Wrapped)
    → heard (cs ++ c ∷ []) u ws ≡ heard_call c u (heard cs u ws)
unfolding heard
heard-append [] c u ws = refl
heard-append (d ∷ cs) c u ws = heard-append cs c u (heard_call d u ws)

no_wrapper :
    (n : ℕ) (ws : List Wrapped)
    → All (λ (w : Wrapped). (w.wrapper == n) ≡ false) ws
    → has_wrapper n ws ≡ false
unfolding has_wrapper
no_wrapper n [] h = refl
no_wrapper n (w ∷ ws) h = rw (h.0) (no_wrapper n ws h.1)

same_type_itself : (t : TransportEventType) → same_type t t ≡ true
same_type_itself open_type = refl
same_type_itself message_type = refl
same_type_itself close_type = refl
same_type_itself TransportEventType.error_type = refl

-- A socket that goes through its calls.
abbrev listening_socket : EventTarget
unfolding heard heard_call
listening_socket = record {
  listening = λ calls t. heard calls t [];
  at_first = λ t. refl;
  added = λ calls t w h.
      heard-append calls (add_event_listener t w) t []
      ∙ rw (same_type_itself t, no_wrapper w.wrapper (heard calls t []) h) refl;
  removed = λ calls t w.
      heard-append calls (remove_event_listener t w) t [] ∙ rw (same_type_itself t) refl;
  added_elsewhere = λ calls t u w e. heard-append calls (add_event_listener t w) u [] ∙ rw e refl;
  removed_elsewhere =
      λ calls t u w e. heard-append calls (remove_event_listener t w) u [] ∙ rw e refl;
}

abbrev some_commands : List ListenerCommand
some_commands =
    add message_type 5
    ∷ remove message_type 5
    ∷ add close_type 5
    ∷ add message_type 7
    ∷ add message_type 5
    ∷ add message_type 5
    ∷ []

message_listeners : subscribed some_commands message_type ≡ 7 ∷ 5 ∷ []
unfolding subscribed
message_listeners = refl

listening-subscribed_example :
    listeners (listening_socket.listening (commands some_commands).socket_calls message_type)
    ≡ subscribed some_commands message_type
listening-subscribed_example = listening-subscribed listening_socket some_commands message_type

abbrev one_field : Text → FieldValue → Text → FieldValue
one_field key value k = if text_eq k key then value else absent

abbrev plain_object : Text → FieldValue → EventObject
plain_object key value = record {
  class = plain;
  field = one_field key value;
  keys = key ∷ [];
  has_cause = false;
}

empty_data_is_malformed :
    (normalize_transport_message_event
      (λ ks. ks)
      (object (plain_object (codes "data") (text [])))).malformed
    ≡ some (codes "data")
unfolding normalize_transport_message_event text_eq join
empty_data_is_malformed = refl

close_without_code :
    (normalize_transport_close_event
      (object (plain_object (codes "code") (number not_finite)))).code
    ≡ number (whole 1006)
unfolding normalize_transport_close_event text_eq
close_without_code = refl

error_with_shape :
    (normalize_transport_error_event
      (λ ks. ks)
      (codes "transport error")
      (object (plain_object (codes "x") absent))).message
    ≡ codes "transport error (x)"
unfolding normalize_transport_error_event text_eq summarize_shape join
error_with_shape = refl
