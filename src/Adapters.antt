-- ===== src/Adapters.antt =====
-- The transport over a browser's WebSocket
-- (apps/web/src/features/terminal/adapters/browser-transport.ts): each listener is wrapped, so that
-- it hears of events in the transport's words (transport-event-normalizer.ts), and the wrapper is
-- kept for its removal.
pub mod Events
mod Laws
mod Dispatch
mod Examples
use wootty.Base.{
  ℕ, zero, suc, Bool, true, false, List, [], ◌∷◌, ◌++◌, Option, none, some, ◌==◌, if◌then◌else◌,
}

pub data TransportEventType : Type 0 where
  open_type message_type close_type error_type : TransportEventType

-- A wrapper, with its identity and the listener that it calls.
pub record Wrapped : Type 0 where
  pub wrapper : ℕ
  pub listener : ℕ

-- The maps from a type's listeners to their wrappers, in the order of insertion.
abbrev pub ListenerRegistry : Type 0
ListenerRegistry = TransportEventType → List Wrapped

pub data SocketCall : Type 0 where
  add_event_listener remove_event_listener : TransportEventType → Wrapped → SocketCall

pub record BrowserTransport : Type 0 where
  pub listener_registry : ListenerRegistry
  -- the identity of the next wrapper, a new function
  pub next_wrapper : ℕ
  -- what the socket was told, in order
  pub socket_calls : List SocketCall

abbrev pub same_type : TransportEventType → TransportEventType → Bool
same_type open_type open_type = true
same_type message_type message_type = true
same_type close_type close_type = true
same_type error_type error_type = true
same_type _ _ = false

abbrev pub put : TransportEventType → List Wrapped → ListenerRegistry → ListenerRegistry
put t entries registry = λ u. if same_type u t then entries else registry u

-- `entry.listeners.get(listener)`.
unfoldable pub find_wrapped : ℕ → List Wrapped → Option Wrapped
find_wrapped listener [] = none
find_wrapped listener (w ∷ ws) =
    let later = find_wrapped listener ws in if w.listener == listener then some w else later

-- `entry.listeners.delete(listener)`.
unfoldable pub delete_listener : ℕ → List Wrapped → List Wrapped
delete_listener listener [] = []
delete_listener listener (w ∷ ws) =
    let rest = delete_listener listener ws in if w.listener == listener then ws else w ∷ rest

abbrev pub create_browser_transport : BrowserTransport
create_browser_transport = record {
  listener_registry = λ _. [];
  next_wrapper = zero;
  socket_calls = [];
}

unfoldable pub add_if_missing :
    TransportEventType → ℕ → Option Wrapped → BrowserTransport → BrowserTransport
add_if_missing t listener (some w) b = b
add_if_missing t listener none b =
    let w : Wrapped = record { wrapper = b.next_wrapper; listener = listener } in
    record {
      listener_registry = put t (b.listener_registry t ++ w ∷ []) b.listener_registry;
      next_wrapper = suc b.next_wrapper;
      socket_calls = b.socket_calls ++ add_event_listener t w ∷ [];
    }

unfoldable pub add_socket_listener : TransportEventType → ℕ → BrowserTransport → BrowserTransport
unfolding find_wrapped add_if_missing
add_socket_listener t listener b =
    add_if_missing t listener (find_wrapped listener (b.listener_registry t)) b

unfoldable pub remove_if_found :
    TransportEventType → ℕ → Option Wrapped → BrowserTransport → BrowserTransport
unfolding delete_listener
remove_if_found t listener none b = b
remove_if_found t listener (some w) b = record b {
  listener_registry = put t (delete_listener listener (b.listener_registry t)) b.listener_registry;
  socket_calls = b.socket_calls ++ remove_event_listener t w ∷ [];
}

unfoldable pub remove_socket_listener : TransportEventType → ℕ → BrowserTransport → BrowserTransport
unfolding find_wrapped remove_if_found
remove_socket_listener t listener b =
    remove_if_found t listener (find_wrapped listener (b.listener_registry t)) b

-- The numbers are those of `TRANSPORT_READY_STATE`.
unfoldable pub to_transport_ready_state : ℕ → ℕ
to_transport_ready_state value =
    if value == 0 then 0 else if value == 1 then 1 else if value == 2 then 2 else 3
