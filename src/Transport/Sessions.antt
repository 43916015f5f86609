-- ===== src/Transport/Sessions.antt =====
-- At most one socket has listeners, and it is the socket in use with the current generation.
use wootty.Base.{
  ℕ, ◌+◌, ◌≡◌, ◌⊎◌, inl, inr, refl, sym, subst, ap, true, [], ◌∷◌, Option, none, some, Bool-cases,
  Listed, arith,
}
use wootty.Sanitization.{UrlApi}
use wootty.Transport.Browser.{Browser}
use wootty.Transport.Bootstrap.{BootstrapResult, ok, failed, create_socket}
use wootty.Transport.State.{reduce_transport_state, set_connecting}
use wootty.Transport.Service.{Service, dispatch_event}
use wootty.Transport.SocketSession.{
  clear_session, unlisten, attach, has_active_connection, is_current,
}
use wootty.Transport.Lifecycle.{connect, open_connection, bootstrapped}
use wootty.Transport.Frames.{
  SessionFields, session_of, timers_of, Quiet, report_bootstrap_failure-Quiet,
}

abbrev pub IsUnbound : SessionFields → Type 0
IsUnbound f = (f.socket ≡ none) × (f.detach_listeners ≡ none) × (f.listeners ≡ [])

abbrev pub IsAttached : SessionFields → Type 0
IsAttached f =
    (k : ℕ) × (f.socket ≡ some k)
    × (f.detach_listeners ≡ some (k, f.generation))
    × (f.listeners ≡ (k, f.generation) ∷ [])

abbrev pub IsBound : SessionFields → Type 0
IsBound f = IsUnbound f ⊎ IsAttached f

module _ {N : Type 0} where
  pub clear_session-IsUnbound :
      (s : Service N) → IsBound (session_of s) → IsUnbound (session_of (clear_session s))
  unfolding clear_session
  clear_session-IsUnbound s (inl (a, b, c)) = ground arith
  clear_session-IsUnbound s (inr (k, a, b, c)) = ground arith

  pub attach-IsAttached :
      (k : ℕ) (s : Service N) → IsBound (session_of s) → IsAttached (session_of (attach k s))
  unfolding attach
  attach-IsAttached k s v = (k, refl, refl, ground (arith, clear_session-IsUnbound s v))

  -- Attaching and detaching leave the timers and the attempts alone.
  pub clear_session-rest :
      (s : Service N)
      → (timers_of (clear_session s) ≡ timers_of s)
        × ((clear_session s).state ≡ s.state)
        × ((clear_session s).generation ≡ s.generation)
  unfolding clear_session
  clear_session-rest s = go s.detach_listeners
    where
      go :
          (l : Option (ℕ × ℕ))
          → (timers_of (unlisten l s) ≡ timers_of s)
            × ((unlisten l s).state ≡ s.state)
            × ((unlisten l s).generation ≡ s.generation)
      go none = (refl, refl, refl)
      go (some l) = (refl, refl, refl)

  pub attach-rest :
      (k : ℕ) (s : Service N)
      → (timers_of (attach k s) ≡ timers_of s)
        × ((attach k s).state ≡ s.state)
        × ((attach k s).generation ≡ s.generation + 1)
  unfolding attach
  attach-rest k s = let (a, b, c) = clear_session-rest s in (a, b, ap (λ n. n + 1) c)

  -- A listener is that of the socket in use, so that its guard lets its event through.
  pub listener-is_current :
      (k g : ℕ) (s : Service N)
      → IsBound (session_of s)
      → Listed (k, g) s.listeners
      → is_current k g s ≡ true
  unfolding is_current
  listener-is_current k g s (inl (a, b, c)) m = absurd (subst (Listed (k, g)) c m)
  listener-is_current k g s (inr (j, a, b, c)) m = elim (subst (Listed (k, g)) c m) [
    | inl e ↦ ground (arith, e, a)
    | inr h ↦ absurd h
  ]

-- What `connect` leaves alone.
pub record Connects {N : Type 0} (s t : Service N) : Type 0 where
  pub timers : timers_of t ≡ timers_of s
  pub attempt : t.state.reconnect_attempt ≡ s.state.reconnect_attempt
  pub bound : IsBound (session_of s) → IsBound (session_of t)

Quiet-Connects : {N : Type 0} {s t : Service N} → Quiet s t → Connects s t
Quiet-Connects q = record {
  timers = q.timers;
  attempt = q.attempt;
  bound = λ v. subst IsBound (sym q.session) v;
}

module _ {N U : Type 0} (browser : Browser N) (api : UrlApi U) where
  bootstrapped-Connects :
      (r : BootstrapResult) (s : Service N) → Connects s (bootstrapped browser api r s)
  bootstrapped-Connects (ok k) s =
      let (a, b, c) = attach-rest k s in
      record {
        timers = a;
        attempt = ap (λ x. x.reconnect_attempt) b;
        bound = λ v. inr (attach-IsAttached k s v);
      }
  bootstrapped-Connects (failed c d) s =
      Quiet-Connects (report_bootstrap_failure-Quiet browser c d s)

  open_connection-Connects : (s : Service N) → Connects s (open_connection browser api s)
  unfolding open_connection dispatch_event reduce_transport_state
  open_connection-Connects s =
      let t = dispatch_event (set_connecting s.has_session_context) s in
      let (result, net) = create_socket browser api t.ws_url t.net in
      let q = bootstrapped-Connects result (record t { net = net }) in
      record { timers = q.timers; attempt = q.attempt; bound = q.bound }

  pub connect-Connects : (s : Service N) → Connects s (connect browser api s)
  unfolding connect
  connect-Connects s = elim (Bool-cases (has_active_connection browser s)) [
    | inl active ↦ rw active (record { timers = refl; attempt = refl; bound = λ v. v })
    | inr idle ↦ rw idle (open_connection-Connects s)
  ]
