-- ===== src/Adapters/Dispatch.antt =====
-- An event of the socket reaches the listeners of its type that are subscribed, in order.
use wootty.Base.{
  ℕ, Bool, true, false, List, [], ◌∷◌, ◌++◌, Option, none, some, ◌==◌, if◌then◌else◌, All, ◌≡◌,
  refl, Bool-cases, inl, inr, ap, ◌∙◌, subst, sym,
}
use wootty.Adapters.{
  Wrapped, find_wrapped, TransportEventType, open_type, message_type, close_type, error_type,
  SocketCall, add_event_listener, remove_event_listener, BrowserTransport, same_type,
  create_browser_transport, add_if_missing, add_socket_listener, remove_if_found,
  remove_socket_listener,
}
use wootty.Adapters.Laws.{
  Ascending, without_wrapper, subscribe, unsubscribe, listeners, listed-none, listed-some,
  listeners-delete_listener, without_wrapper-delete_listener, delete_listener-Ascending,
  append-Ascending, later-Ascending, wrappers_are_new, listed, listeners-append,
}

-- What `EventTarget` does with the calls that a socket is given, in order: which wrappers it calls
-- for an event of a type.
pub record EventTarget : Type 0 where
  pub listening : List SocketCall → TransportEventType → List Wrapped
  pub at_first : (t : TransportEventType) → listening [] t ≡ []
  pub added :
      (calls : List SocketCall) (t : TransportEventType) (w : Wrapped)
      → All (λ (v : Wrapped). (v.wrapper == w.wrapper) ≡ false) (listening calls t)
      → listening (calls ++ add_event_listener t w ∷ []) t ≡ listening calls t ++ w ∷ []
  pub removed :
      (calls : List SocketCall) (t : TransportEventType) (w : Wrapped)
      → listening (calls ++ remove_event_listener t w ∷ []) t
        ≡ without_wrapper w.wrapper (listening calls t)
  pub added_elsewhere :
      (calls : List SocketCall) (t u : TransportEventType) (w : Wrapped)
      → same_type u t ≡ false
      → listening (calls ++ add_event_listener t w ∷ []) u ≡ listening calls u
  pub removed_elsewhere :
      (calls : List SocketCall) (t u : TransportEventType) (w : Wrapped)
      → same_type u t ≡ false
      → listening (calls ++ remove_event_listener t w ∷ []) u ≡ listening calls u

-- The calls of a transport's `addEventListener` and `removeEventListener`.
pub data ListenerCommand : Type 0 where
  add remove : TransportEventType → ℕ → ListenerCommand

abbrev pub command : ListenerCommand → BrowserTransport → BrowserTransport
command (add t l) b = add_socket_listener t l b
command (remove t l) b = remove_socket_listener t l b

-- The commands one after the other, the latest first in the list.
unfoldable pub commands : List ListenerCommand → BrowserTransport
commands [] = create_browser_transport
commands (c ∷ cs) = command c (commands cs)

-- The listeners of a type that are subscribed.
unfoldable pub subscribed : List ListenerCommand → TransportEventType → List ℕ
subscribed [] u = []
subscribed (add t l ∷ cs) u =
    let before = subscribed cs u in if same_type u t then subscribe l before else before
subscribed (remove t l ∷ cs) u =
    let before = subscribed cs u in if same_type u t then unsubscribe l before else before

same_type_equal : (u t : TransportEventType) → same_type u t ≡ true → u ≡ t
same_type_equal open_type open_type e = refl
same_type_equal open_type message_type e = absurd (cc)
same_type_equal open_type close_type e = absurd (cc)
same_type_equal open_type error_type e = absurd (cc)
same_type_equal message_type open_type e = absurd (cc)
same_type_equal message_type message_type e = refl
same_type_equal message_type close_type e = absurd (cc)
same_type_equal message_type error_type e = absurd (cc)
same_type_equal close_type open_type e = absurd (cc)
same_type_equal close_type message_type e = absurd (cc)
same_type_equal close_type close_type e = refl
same_type_equal close_type error_type e = absurd (cc)
same_type_equal error_type open_type e = absurd (cc)
same_type_equal error_type message_type e = absurd (cc)
same_type_equal error_type close_type e = absurd (cc)
same_type_equal error_type error_type e = refl

same_type_refl : (t : TransportEventType) → same_type t t ≡ true
same_type_refl open_type = refl
same_type_refl message_type = refl
same_type_refl close_type = refl
same_type_refl error_type = refl

unsubscribe_absent : (l : ℕ) (ls : List ℕ) → listed l ls ≡ false → unsubscribe l ls ≡ ls
unsubscribe_absent l [] h = refl
unsubscribe_absent l (k ∷ ks) h = elim (Bool-cases (k == l)) [
  | inl e ↦ absurd (cc (h, ap (λ (b : Bool). if b then true else listed l ks) e))
  | inr e ↦ rw e (
      ap (λ js. k ∷ js)
        (unsubscribe_absent l ks
          (subst (λ (b : Bool). (if b then true else listed l ks) ≡ false) e h)))
]

module _ (target : EventTarget) where
  -- For a type: the socket has the registry's wrappers, made in order, of the listeners.
  abbrev InStep : BrowserTransport → TransportEventType → List ℕ → Type 0
  InStep b u ls =
      (target.listening b.socket_calls u ≡ b.listener_registry u)
      × Ascending (b.listener_registry u) b.next_wrapper
      × (listeners (b.listener_registry u) ≡ ls)

  add_here :
      (b : BrowserTransport) (t : TransportEventType) (l : ℕ) (ls : List ℕ) (o : Option Wrapped)
      → find_wrapped l (b.listener_registry t) ≡ o
      → InStep b t ls
      → InStep (add_if_missing t l o b) t (subscribe l ls)
  unfolding add_if_missing
  add_here b t l ls (some w) f (same, order, view) =
      let there : listed l ls ≡ true =
        subst (λ ks. listed l ks ≡ true) view (listed-some l (b.listener_registry t) w f) in
      (same, order, rw there view)
  add_here b t l ls none f (same, order, view) =
      let ws = b.listener_registry t in
      let w : Wrapped = record { wrapper = b.next_wrapper; listener = l } in
      let fresh : listed l ls ≡ false =
        subst (λ ks. listed l ks ≡ false) view (listed-none l ws f) in
      rw (same_type_refl t, fresh)
        (
          target.added b.socket_calls t w (rw same (wrappers_are_new ws b.next_wrapper order))
              ∙ ap (λ us. us ++ w ∷ []) same,
          append-Ascending ws b.next_wrapper l order,
          listeners-append ws w ∙ ap (λ ks. ks ++ l ∷ []) view,
        )

  add_elsewhere :
      (b : BrowserTransport) (t u : TransportEventType) (l : ℕ) (ls : List ℕ) (o : Option Wrapped)
      → same_type u t ≡ false
      → InStep b u ls
      → InStep (add_if_missing t l o b) u ls
  unfolding add_if_missing
  add_elsewhere b t u l ls (some w) e h = h
  add_elsewhere b t u l ls none e (same, order, view) =
      let w : Wrapped = record { wrapper = b.next_wrapper; listener = l } in
      rw e (
        target.added_elsewhere b.socket_calls t u w e ∙ same,
        later-Ascending (b.listener_registry u) b.next_wrapper order,
        view,
      )

  remove_here :
      (b : BrowserTransport) (t : TransportEventType) (l : ℕ) (ls : List ℕ) (o : Option Wrapped)
      → find_wrapped l (b.listener_registry t) ≡ o
      → InStep b t ls
      → InStep (remove_if_found t l o b) t (unsubscribe l ls)
  unfolding remove_if_found
  remove_here b t l ls none f (same, order, view) =
      let fresh : listed l ls ≡ false =
        subst (λ ks. listed l ks ≡ false) view (listed-none l (b.listener_registry t) f) in
      (same, order, view ∙ sym (unsubscribe_absent l ls fresh))
  remove_here b t l ls (some w) f (same, order, view) =
      let ws = b.listener_registry t in
      rw (same_type_refl t) (
        target.removed b.socket_calls t w
            ∙ ap (without_wrapper w.wrapper) same
            ∙ without_wrapper-delete_listener l ws w b.next_wrapper order f,
        delete_listener-Ascending l ws b.next_wrapper order,
        listeners-delete_listener l ws ∙ ap (unsubscribe l) view,
      )

  remove_elsewhere :
      (b : BrowserTransport) (t u : TransportEventType) (l : ℕ) (ls : List ℕ) (o : Option Wrapped)
      → same_type u t ≡ false
      → InStep b u ls
      → InStep (remove_if_found t l o b) u ls
  unfolding remove_if_found
  remove_elsewhere b t u l ls none e h = h
  remove_elsewhere b t u l ls (some w) e (same, order, view) =
      rw e (target.removed_elsewhere b.socket_calls t u w e ∙ same, order, view)

  commands-InStep :
      (cs : List ListenerCommand) (u : TransportEventType)
      → InStep (commands cs) u (subscribed cs u)
  unfolding commands subscribed add_socket_listener remove_socket_listener
  commands-InStep [] u = (target.at_first u, tt, refl)
  commands-InStep (add t l ∷ cs) u =
      let b = commands cs in
      let found = find_wrapped l (b.listener_registry t) in
      elim (Bool-cases (same_type u t)) [
        | inl e ↦
            rw (e, same_type_equal u t e)
              (add_here b t l (subscribed cs t) found refl (commands-InStep cs t))
        | inr e ↦ rw e (add_elsewhere b t u l (subscribed cs u) found e (commands-InStep cs u))
      ]
  commands-InStep (remove t l ∷ cs) u =
      let b = commands cs in
      let found = find_wrapped l (b.listener_registry t) in
      elim (Bool-cases (same_type u t)) [
        | inl e ↦
            rw (e, same_type_equal u t e)
              (remove_here b t l (subscribed cs t) found refl (commands-InStep cs t))
        | inr e ↦ rw e (remove_elsewhere b t u l (subscribed cs u) found e (commands-InStep cs u))
      ]

  -- For a socket that calls the listeners it was given and did not lose: after any commands, the
  -- listeners that the socket's wrappers call for an event of a type are
  -- those that are subscribed to it: a listener is added at the end unless it is there, and leaves
  -- when it is removed.
  pub listening-subscribed :
      (cs : List ListenerCommand) (u : TransportEventType)
      → listeners (target.listening (commands cs).socket_calls u) ≡ subscribed cs u
  listening-subscribed cs u =
      let (same, order, view) = commands-InStep cs u in ap listeners same ∙ view
