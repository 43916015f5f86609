-- ===== src/Coordinator/Trace.antt =====
-- What the transport is told of the renderings: it depends on neighbouring renderings only.
use wootty.Base.{
  Bool, true, false, ◌&&◌, List, [], ◌∷◌, ◌++◌, Option, none, some, Text, text_eq_refl,
  text_eq_sound, if◌then◌else◌, ◌≡◌, refl, ap, ◌∙◌, append-nil, sym, subst, Bool-cases, inl, inr,
}
use wootty.Coordinator.Effects.{
  Rendering, LifecycleCall, connect, dispose, reconnect_with_endpoint_change, EffectState, same_url,
  is_active, mount, render_again, renderings, take_down,
}

-- The calls of a rendering after another, the latest first: a disposal when the connection is not
-- wanted any more, a connect when it is wanted now, and an endpoint change when it is wanted and
-- the URL is another one.
unfoldable pub told : Bool → Bool → Bool → List LifecycleCall
told true false same = dispose ∷ []
told false false same = []
told was true same =
    (if same then [] else reconnect_with_endpoint_change ∷ []) ++ (if was then [] else connect ∷ [])

-- The rendering that was last.
unfoldable pub latest : Rendering → List Rendering → Rendering
latest first [] = first
latest first (r ∷ rs) = r

unfoldable pub told_of : Rendering → List Rendering → List LifecycleCall
unfolding told latest
told_of first [] = told false (is_active first) true
told_of first (r ∷ rs) =
    let last = latest first rs in
    told (is_active last) (is_active r) (same_url last.ws_url r.ws_url) ++ told_of first rs

-- The state that a rendering leaves.
abbrev pub settled : Rendering → List LifecycleCall → EffectState
settled r calls = record {
  rendered = some r;
  connected = is_active r;
  previous_ws_url = r.ws_url;
  calls = calls;
}

same_url_sound : (s t : Option Text) → same_url s t ≡ true → s ≡ t
same_url_sound none none h = refl
same_url_sound none (some t) h = absurd (cc)
same_url_sound (some s) none h = absurd (cc)
same_url_sound (some s) (some t) h = ap some (text_eq_sound s t h)

same_url_refl : (s : Option Text) → same_url s s ≡ true
same_url_refl none = refl
same_url_refl (some s) = text_eq_refl s

rendering : Bool → Bool → Option Text → Rendering
rendering a b u = record { terminal_ready = a; transport_enabled = b; ws_url = u }

mount_settles :
    (a b : Bool) (u : Option Text)
    → mount (rendering a b u) ≡ settled (rendering a b u) (told false (a && b) true)
unfolding mount told rendering
mount_settles true true u = rw (same_url_refl u) refl
mount_settles true false u = refl
mount_settles false b u = refl

-- A rendering with the same URL.
again_same :
    (a b c d : Bool) (u : Option Text) (calls : List LifecycleCall)
    → render_again (rendering c d u) (settled (rendering a b u) calls)
      ≡ settled (rendering c d u) (told (a && b) (c && d) true ++ calls)
unfolding render_again told rendering
again_same true true true true u calls = rw (same_url_refl u) refl
again_same true true true false u calls = refl
again_same true true false true u calls = refl
again_same true true false false u calls = refl
again_same true false true true u calls = rw (same_url_refl u) refl
again_same true false true false u calls = rw (same_url_refl u) refl
again_same true false false true u calls = refl
again_same true false false false u calls = refl
again_same false true true true u calls = rw (same_url_refl u) refl
again_same false true true false u calls = refl
again_same false true false true u calls = rw (same_url_refl u) refl
again_same false true false false u calls = refl
again_same false false true true u calls = rw (same_url_refl u) refl
again_same false false true false u calls = refl
again_same false false false true u calls = refl
again_same false false false false u calls = rw (same_url_refl u) refl

-- A rendering with another URL.
again_moved :
    (a b c d : Bool) (u v : Option Text) (calls : List LifecycleCall)
    → same_url u v ≡ false
    → render_again (rendering c d v) (settled (rendering a b u) calls)
      ≡ settled (rendering c d v) (told (a && b) (c && d) false ++ calls)
unfolding render_again told rendering
again_moved true true true true u v calls e = rw e refl
again_moved true true true false u v calls e = refl
again_moved true true false true u v calls e = refl
again_moved true true false false u v calls e = refl
again_moved true false true true u v calls e = rw e refl
again_moved true false true false u v calls e = rw e refl
again_moved true false false true u v calls e = refl
again_moved true false false false u v calls e = refl
again_moved false true true true u v calls e = rw e refl
again_moved false true true false u v calls e = refl
again_moved false true false true u v calls e = rw e refl
again_moved false true false false u v calls e = refl
again_moved false false true true u v calls e = rw e refl
again_moved false false true false u v calls e = refl
again_moved false false false true u v calls e = refl
again_moved false false false false u v calls e = rw e refl

again_settles :
    (q r : Rendering) (calls : List LifecycleCall)
    → render_again r (settled q calls)
      ≡ settled r (told (is_active q) (is_active r) (same_url q.ws_url r.ws_url) ++ calls)
unfolding rendering
again_settles q r calls = elim (Bool-cases (same_url q.ws_url r.ws_url)) [
  | inl e ↦ rw e (
      subst
        (λ u.
          render_again r (settled (rendering q.terminal_ready q.transport_enabled u) calls)
          ≡ settled r (told (is_active q) (is_active r) true ++ calls))
        (sym (same_url_sound q.ws_url r.ws_url e))
        (again_same q.terminal_ready q.transport_enabled r.terminal_ready r.transport_enabled
          r.ws_url calls))
  | inr e ↦ rw e (
      again_moved q.terminal_ready q.transport_enabled r.terminal_ready r.transport_enabled q.ws_url
        r.ws_url calls e)
]

renderings_settle :
    (first : Rendering) (rs : List Rendering)
    → renderings first rs ≡ settled (latest first rs) (told_of first rs)
unfolding renderings told_of latest rendering
renderings_settle first [] = mount_settles first.terminal_ready first.transport_enabled first.ws_url
renderings_settle first (r ∷ rs) =
    ap (render_again r) (renderings_settle first rs)
    ∙ again_settles (latest first rs) r (told_of first rs)

-- After a first rendering and any others, the transport was told of each rendering, in order: to
-- connect when the terminal is ready and the transport enabled and they were not before, to dispose
-- when they were and are not any more, and, after that, of a change of the endpoint when they are
-- and the URL is not that of the rendering before.
pub calls-renderings :
    (first : Rendering) (rs : List Rendering) → (renderings first rs).calls ≡ told_of first rs
calls-renderings first rs = ap (λ (e : EffectState). e.calls) (renderings_settle first rs)

-- Connects and disposals alternate, changes of the endpoint stand between a connect and its
-- disposal, and at the end there is a connection or none.
abbrev pub Alternating : List LifecycleCall → Bool → Type 0
Alternating [] c = c ≡ false
Alternating (connect ∷ cs) c = (c ≡ true) × Alternating cs false
Alternating (dispose ∷ cs) c = (c ≡ false) × Alternating cs true
Alternating (reconnect_with_endpoint_change ∷ cs) c = (c ≡ true) × Alternating cs true

told-Alternating :
    (was now same : Bool) (cs : List LifecycleCall)
    → Alternating cs was
    → Alternating (told was now same ++ cs) now
unfolding told
told-Alternating true false same cs h = (refl, h)
told-Alternating false false same cs h = h
told-Alternating true true true cs h = h
told-Alternating true true false cs h = (refl, h)
told-Alternating false true true cs h = (refl, h)
told-Alternating false true false cs h = (refl, (refl, h))

told_of-Alternating :
    (first : Rendering) (rs : List Rendering)
    → Alternating (told_of first rs) (is_active (latest first rs))
unfolding told_of latest
told_of-Alternating first [] =
    subst (λ cs. Alternating cs (is_active first)) (append-nil _)
      (told-Alternating false (is_active first) true [] refl)
told_of-Alternating first (r ∷ rs) =
    told-Alternating (is_active (latest first rs)) (is_active r)
      (same_url (latest first rs).ws_url r.ws_url) (told_of first rs) (told_of-Alternating first rs)

-- When the view is taken down, after a first rendering and any others, connects and disposals have
-- alternated, beginning with a connect and ending with a disposal, and each change of the endpoint
-- came between a connect and its disposal.
take_down-Alternating :
    (first : Rendering) (rs : List Rendering)
    → Alternating (take_down (renderings first rs)).calls false
unfolding take_down
take_down-Alternating first rs =
    let last = latest first rs in
    let all = told_of-Alternating first rs in
    rw (renderings_settle first rs) (elim (Bool-cases (is_active last)) [
      | inl e ↦ rw e (refl, subst (Alternating (told_of first rs)) e all)
      | inr e ↦ rw e (subst (Alternating (told_of first rs)) e all)
    ])
