-- ===== src/Coordinator/Effects.antt =====
-- The effects of the coordinator, which follow the renderings: connecting and disposing
-- (connection-coordinator.ts, 300-308), and the change of the endpoint (310-321). An effect runs
-- when a value it depends on has changed since the last rendering; its cleanup runs before.
use wootty.Base.{
  Bool, true, false, not, ◌&&◌, List, [], ◌∷◌, Option, none, some, Text, text_eq, if◌then◌else◌,
}

-- What the effects depend on in a rendering.
pub record Rendering : Type 0 where
  pub terminal_ready : Bool
  pub transport_enabled : Bool
  pub ws_url : Option Text

pub data LifecycleCall : Type 0 where
  connect dispose reconnect_with_endpoint_change : LifecycleCall

pub record EffectState : Type 0 where
  -- the last rendering, whose values the next is compared with
  pub rendered : Option Rendering
  -- whether the connecting effect has left a cleanup
  pub connected : Bool
  pub previous_ws_url : Option Text
  -- the latest first
  pub calls : List LifecycleCall

-- `===` on URLs.
abbrev pub same_url : Option Text → Option Text → Bool
same_url none none = true
same_url (some s) (some t) = text_eq s t
same_url _ _ = false

abbrev pub same_flag : Bool → Bool → Bool
same_flag true b = b
same_flag false b = not b

abbrev pub is_active : Rendering → Bool
is_active r = r.terminal_ready && r.transport_enabled

abbrev pub same_flags : Rendering → Rendering → Bool
same_flags r s =
    same_flag r.terminal_ready s.terminal_ready && same_flag r.transport_enabled s.transport_enabled

abbrev pub call : LifecycleCall → EffectState → EffectState
call c e = record e { calls = c ∷ e.calls }

abbrev pub run_cleanup : EffectState → EffectState
run_cleanup e = if e.connected then record (call dispose e) { connected = false } else e

abbrev pub connect_if_active : Rendering → EffectState → EffectState
connect_if_active r e = if is_active r then record (call connect e) { connected = true } else e

-- The connecting effect, when what it depends on has changed.
abbrev pub run_connecting : Rendering → EffectState → EffectState
run_connecting r e = connect_if_active r (run_cleanup e)

abbrev pub run_endpoint : Rendering → EffectState → EffectState
run_endpoint r e =
    let moved = record e { previous_ws_url = r.ws_url } in
    if is_active r
    then (if same_url e.previous_ws_url r.ws_url
        then e
        else call reconnect_with_endpoint_change moved)
    else moved

abbrev pub with_rendering : Rendering → EffectState → EffectState
with_rendering r e = record e { rendered = some r }

-- The first rendering: `previousWsUrlRef` begins with its URL, and every effect runs.
unfoldable pub mount : Rendering → EffectState
mount r =
    let first : EffectState = record {
      rendered = none;
      connected = false;
      previous_ws_url = r.ws_url;
      calls = [];
    } in
    with_rendering r (run_endpoint r (run_connecting r first))

abbrev pub effects : Rendering → Rendering → EffectState → EffectState
effects last r e =
    let connected = if same_flags last r then e else run_connecting r e in
    if same_flags last r && same_url last.ws_url r.ws_url
    then connected
    else run_endpoint r connected

unfoldable pub render_again : Rendering → EffectState → EffectState
render_again r e = elim e.rendered [ none ↦ e | some last ↦ with_rendering r (effects last r e) ]

-- Some renderings after the first, the latest first in the list.
unfoldable pub renderings : Rendering → List Rendering → EffectState
unfolding mount render_again
renderings first [] = mount first
renderings first (r ∷ rs) = render_again r (renderings first rs)

unfoldable pub take_down : EffectState → EffectState
take_down e = run_cleanup e
