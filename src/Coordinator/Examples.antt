-- ===== src/Coordinator/Examples.antt =====
-- Runs of the coordinator.
use wootty.Base.{text_eq, ℕ, Bool, true, false, List, [], ◌∷◌, some, Text, codes, ◌≡◌, refl, whole}
use wootty.Backpressure.{watch}
use wootty.Protocol.ClientMessages.{create_attach_message, ClientMessage, attach}
use wootty.Transport.Contracts.{connecting}
use wootty.Gateway.{reduce_connection_status_state, initial_connection_status_state}
use wootty.Coordinator.{
  CoordinatorState, on_open, shown_status, handle_runtime_boot_error, reconnect_now,
  transport_status_effect,
}
use wootty.Coordinator.Effects.{
  Rendering, connect, dispose, reconnect_with_endpoint_change, renderings,
}
use wootty.Coordinator.Trace.{told_of, calls-renderings}

abbrev ready_at : Bool → Text → Rendering
ready_at b url = record { terminal_ready = b; transport_enabled = true; ws_url = some url }

abbrev later_renderings : List Rendering
later_renderings =
    ready_at false (codes "v") ∷ ready_at true (codes "v") ∷ ready_at true (codes "u") ∷ []

calls_of_renderings :
    (renderings (ready_at false (codes "u")) later_renderings).calls
    ≡ dispose ∷ reconnect_with_endpoint_change ∷ connect ∷ []
unfolding renderings text_eq
calls_of_renderings = refl

calls-renderings_example :
    (renderings (ready_at false (codes "u")) later_renderings).calls
    ≡ told_of (ready_at false (codes "u")) later_renderings
calls-renderings_example = calls-renderings (ready_at false (codes "u")) later_renderings

abbrev at_first : CoordinatorState
at_first = record { status_state = initial_connection_status_state; notices = [] }

-- A reconnect takes back the error of the runtime.
status_after_reconnect :
    shown_status false
      (reconnect_now
        (λ (n : ℕ). n)
        (λ (n : ℕ). n)
        (handle_runtime_boot_error (transport_status_effect connecting at_first), 0)).0
    ≡ connecting
unfolding shown_status reconnect_now reduce_connection_status_state
status_after_reconnect = refl

attach_refused :
    (on_open
      (λ (w : List ClientMessage) m. (false, m ∷ w))
      (some (codes "s"))
      watch
      (whole 80)
      (whole 24)
      []
      at_first).1
    ≡ attach 1 80 24 (some (codes "s")) (some true) ∷ []
unfolding on_open create_attach_message
attach_refused = refl
