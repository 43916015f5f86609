-- ===== src/Gateway/Status.antt =====
-- When the interface shows a connection as connected.
use wootty.Base.{◌≡◌, ◌↔◌, refl, sym, subst, List, [], ◌∷◌, Option, none, arith}
use wootty.Transport.Contracts.{ConnectionStatus, connected}
use wootty.Gateway.{
  ConnectionStatusFlag, ConnectionStatusState, ConnectionStatusEvent, transport_status, status_flag,
  initial_connection_status_state, project_status, reduce_connection_status_state,
}

-- The state after some events.
unfoldable pub after_events :
    List ConnectionStatusEvent → ConnectionStatusState → ConnectionStatusState
unfolding reduce_connection_status_state
after_events [] s = s
after_events (e ∷ es) s = after_events es (reduce_connection_status_state s e)

abbrev IsProjected : ConnectionStatusState → Type 0
IsProjected s = s.status ≡ project_status s.transport_status s.status_flag

reduce-IsProjected :
    (s : ConnectionStatusState) (e : ConnectionStatusEvent)
    → IsProjected (reduce_connection_status_state s e)
unfolding reduce_connection_status_state
reduce-IsProjected s (transport_status next) = refl
reduce-IsProjected s (status_flag next) = refl

after_events-IsProjected :
    (es : List ConnectionStatusEvent) (s : ConnectionStatusState)
    → IsProjected s
    → IsProjected (after_events es s)
unfolding after_events
after_events-IsProjected [] s v = v
after_events-IsProjected (e ∷ es) s v =
    after_events-IsProjected es (reduce_connection_status_state s e) (reduce-IsProjected s e)

abbrev IsShown : ConnectionStatus → Option ConnectionStatusFlag → Type 0
IsShown t f = (project_status t f ≡ connected) ↔ ((t ≡ connected) × (f ≡ none))

project-IsShown : (t : ConnectionStatus) (f : Option ConnectionStatusFlag) → IsShown t f
unfolding project_status
project-IsShown t f = ground arith

-- After any sequence of transport statuses and flags, the status shown is `connected` exactly when
-- the transport's status is `connected` and no status flag is set.
pub after_events-connected :
    (events : List ConnectionStatusEvent)
    → let s = after_events events initial_connection_status_state in
      (s.status ≡ connected) ↔ ((s.transport_status ≡ connected) × (s.status_flag ≡ none))
unfolding project_status
after_events-connected events =
    let s = after_events events initial_connection_status_state in
    subst (λ x. (x ≡ connected) ↔ ((s.transport_status ≡ connected) × (s.status_flag ≡ none)))
      (sym (after_events-IsProjected events initial_connection_status_state refl))
      (project-IsShown s.transport_status s.status_flag)
