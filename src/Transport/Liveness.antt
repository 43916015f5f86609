-- ===== src/Transport/Liveness.antt =====
-- The heartbeat finds a connection that answers no more, and reports come once.
use wootty.Base.{
  ℕ, ◌<◌, ◌≡◌, refl, sym, subst, ap, ◌∙◌, true, false, Option, none, some, Text, codes, leb,
  Bool-cases, inl, inr, Listed, arith,
}
use wootty.Sanitization.{UrlApi}
use wootty.Transport.Browser.{Browser, ready_state_closing}
use wootty.Transport.Contracts.{normal}
use wootty.Transport.Policy.{is_recoverable_transport_close, max_attempts}
use wootty.Transport.Service.{Service, pong_timeout, clear_timer}
use wootty.Transport.SocketSession.{close_active, close_when}
use wootty.Transport.Lifecycle.{fire_task, on_socket_close}
use wootty.Transport.Frames.{close_active-Quiet}
use wootty.Transport.Invariant.{IsSound}
use wootty.Transport.Reachable.{fire_task-IsSound}
use wootty.Transport.Dropped.{IsWaiting, on_socket_close-IsWaiting}

module _ {N U : Type 0} (browser : Browser N) (api : UrlApi U) where
  close_active_intent :
      (c : ℕ) (r : Text) (s : Service N)
      → s.close_intent ≡ normal
      → (close_active browser c r normal s).1.close_intent ≡ normal
  unfolding close_active
  close_active_intent c r s e = go s.socket
    where
      go : (o : Option ℕ) → (close_when browser o c r normal s).1.close_intent ≡ normal
      go none = e
      go (some k) = elim (Bool-cases (leb 2 (browser.ready_state s.net k))) [
        | inl gone ↦ rw gone e
        | inr here ↦ rw here refl
      ]

  -- What the fired timeout does to the sockets.
  fired_net :
      (k handle : ℕ) (s : Service N)
      → s.socket ≡ some k
      → browser.ready_state s.net k < ready_state_closing
      → (fire_task browser api pong_timeout handle s).net
        ≡ browser.close k 4_103 (codes "pong timeout") s.net
  unfolding fire_task clear_timer close_active
  fired_net k handle s e live =
      let here : leb ready_state_closing (browser.ready_state s.net k) ≡ false =
        ground (arith, live) in
      ap
        (λ o.
          (close_when browser o 4_103 (codes "pong timeout") normal (clear_timer handle s)).1.net)
        e
      ∙ rw here refl

  socket_of_listener :
      (k g : ℕ) (s : Service N) → IsSound s → Listed (k, g) s.listeners → s.socket ≡ some k
  socket_of_listener k g s v m = elim v.bound [
    | inl (a, b, c) ↦ absurd (subst (Listed (k, g)) c m)
    | inr (j, a, b, c) ↦ elim (subst (Listed (k, g)) c m) [
      | inl e ↦ a ∙ ap (λ (l : ℕ × ℕ). some l.0) (sym e)
      | inr h ↦ absurd h
    ]
  ]

  -- The close of the socket after the fired timeout, with a code that is recoverable.
  closed_after_timeout :
      (k g handle code : ℕ) (reason : Text) (s : Service N)
      → IsSound s
      → s.pong_timer ≡ some handle
      → Listed (k, g) s.listeners
      → s.close_intent ≡ normal
      → s.state.reconnect_attempt < max_attempts
      → is_recoverable_transport_close code ≡ true
      → IsWaiting s.state.reconnect_attempt (
          on_socket_close browser api k g code reason (fire_task browser api pong_timeout handle s))
  unfolding fire_task clear_timer
  closed_after_timeout k g handle code reason s v e m i lt recoverable =
      let t = fire_task browser api pong_timeout handle s in
      let q =
        close_active-Quiet browser 4_103 (codes "pong timeout") normal (clear_timer handle s) in
      subst (λ n. IsWaiting n (on_socket_close browser api k g code reason t)) q.attempt
        (on_socket_close-IsWaiting browser api k g code reason t
          (fire_task-IsSound browser api pong_timeout handle s e v)
          (subst (λ f. Listed (k, g) f.listeners) (sym q.session) m)
          (close_active_intent 4_103 (codes "pong timeout") (clear_timer handle s) i) recoverable
          (omega (arith, q.attempt, lt)))

  -- When the pong's timeout fires while the socket with the listeners is not closing, the socket is
  -- closed with code 4103. If nothing of the program had closed it before and fewer than 8 attempts
  -- are counted, then the transport waits for a delayed reconnect once the socket reports its close,
  -- with that code or, if the other side does not answer, with 1006.
  pub pong_timeout-IsWaiting :
      (k g handle : ℕ) (reason : Text) (s : Service N)
      → IsSound s
      → s.pong_timer ≡ some handle
      → Listed (k, g) s.listeners
      → browser.ready_state s.net k < ready_state_closing
      → s.close_intent ≡ normal
      → s.state.reconnect_attempt < max_attempts
      → let t = fire_task browser api pong_timeout handle s in
        (t.net ≡ browser.close k 4_103 (codes "pong timeout") s.net)
        × IsWaiting s.state.reconnect_attempt (on_socket_close browser api k g 4_103 reason t)
        × IsWaiting s.state.reconnect_attempt (on_socket_close browser api k g 1006 reason t)
  unfolding is_recoverable_transport_close
  pong_timeout-IsWaiting k g handle reason s v e m live i lt = (
    fired_net k handle s (socket_of_listener k g s v m) live,
    closed_after_timeout k g handle 4_103 reason s v e m i lt refl,
    closed_after_timeout k g handle 1006 reason s v e m i lt refl,
  )
