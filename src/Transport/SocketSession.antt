-- ===== src/Transport/SocketSession.antt =====
-- The socket in use, its listeners and its generation (apps/web/src/features/terminal/app/engine/
-- transport/lifecycle/transport-socket-session.ts).
use wootty.Base.{
  ℕ, ◌+◌, Bool, true, false, not, ◌&&◌, ◌∷◌, Option, none, some, Text, leb, ◌==◌, keep,
  if◌then◌else◌,
}
use wootty.Transport.Browser.{Browser, ready_state_open, ready_state_closing}
use wootty.Transport.Contracts.{SocketCloseIntent, normal}
use wootty.Transport.Service.{Service}

abbrev pub holds : Option ℕ → ℕ → Bool
holds none k = false
holds (some j) k = j == k

abbrev pub same_listener : ℕ × ℕ → ℕ × ℕ → Bool
same_listener (j, i) (k, g) = (j == k) && (i == g)

module _ {N : Type 0} where
  unfoldable pub is_current : ℕ → ℕ → Service N → Bool
  is_current socket generation s = holds s.socket socket && (s.generation == generation)

  -- `this.detachListeners()`: the four `removeEventListener` calls.
  abbrev pub unlisten : Option (ℕ × ℕ) → Service N → Service N
  unlisten none s = s
  unlisten (some l) s = record s {
    listeners = keep (λ (k : ℕ × ℕ). not (same_listener k l)) s.listeners;
    detach_listeners = none;
  }

  unfoldable pub clear_session : Service N → Service N
  clear_session s = record (unlisten s.detach_listeners s) { socket = none; close_intent = normal }

  unfoldable pub attach : ℕ → Service N → Service N
  attach socket s =
      let t = clear_session s in
      let generation = t.generation + 1 in
      record t {
        generation = generation;
        socket = some socket;
        detach_listeners = some (socket, generation);
        listeners = (socket, generation) ∷ t.listeners;
      }

  unfoldable pub detach_for_socket_swap : Service N → Option ℕ × Service N
  detach_for_socket_swap s = (s.socket, clear_session s)

  -- `none` where the socket is not released.
  unfoldable pub release_if_current_with_intent :
      ℕ → ℕ → Service N → Option SocketCloseIntent × Service N
  release_if_current_with_intent socket generation s =
      if is_current socket generation s then (some s.close_intent, clear_session s) else (none, s)

  module _ (browser : Browser N) where
    abbrev pub active_when : Option ℕ → N → Bool
    active_when none net = false
    active_when (some socket) net = leb (browser.ready_state net socket) ready_state_open

    unfoldable pub has_active_connection : Service N → Bool
    has_active_connection s = active_when s.socket s.net

    abbrev pub close_when : Option ℕ → ℕ → Text → SocketCloseIntent → Service N → Bool × Service N
    close_when none code reason intent s = (false, s)
    close_when (some socket) code reason intent s =
        if leb ready_state_closing (browser.ready_state s.net socket) then (false, s) else (
          true,
          record s { close_intent = intent; net = browser.close socket code reason s.net },
        )

    unfoldable pub close_active : ℕ → Text → SocketCloseIntent → Service N → Bool × Service N
    close_active code reason intent s = close_when s.socket code reason intent s
