-- ===== src/Transport/Replacement.antt =====
-- Events of sockets that are no longer in use, and the reports about the socket that is.
use wootty.Base.{
  ℕ, ◌≤◌, ◌<◌, ◌≡◌, ◌⊎◌, refl, sym, subst, ap, ◌∙◌, true, false, Option, none, some, Text, codes,
  ltb, if◌then◌else◌, Bool-cases, inl, inr, arith,
}
use wootty.Sanitization.{UrlApi}
use wootty.Transport.Browser.{Browser}
use wootty.Transport.Bootstrap.{BootstrapResult, ok, failed, create_socket}
use wootty.Transport.State.{set_connecting}
use wootty.Transport.Service.{Service, dispatch_event, MessageEvent}
use wootty.Transport.SocketSession.{
  is_current, clear_session, active_when, has_active_connection, detach_for_socket_swap,
  release_if_current_with_intent,
}
use wootty.Transport.Reliability.{ErrorEvent}
use wootty.Transport.Lifecycle.{
  connect, open_connection, bootstrapped, lifecycle_command, swap_socket,
  reconnect_with_endpoint_change, on_socket_open, on_socket_message, on_socket_error,
  on_socket_close,
}
use wootty.Transport.Frames.{report_bootstrap_failure-Quiet}
use wootty.Transport.Sessions.{clear_session-rest, attach-rest}
use wootty.Transport.Commands.{prepared, prepared-session}

-- No event of generation `g` or before is let through.
abbrev IsPast : {N : Type 0} → ℕ → Service N → Type 0
IsPast g s = (s.socket ≡ none) ⊎ (g < s.generation)

-- What the four listeners of a socket do is nothing.
pub record IsIgnored {N U : Type 0} (browser : Browser N) (api : UrlApi U) (k g : ℕ) (s : Service N)
    : Type 0 where
  pub opens : on_socket_open browser api k g s ≡ s
  pub messages : (event : MessageEvent) → on_socket_message browser api k g event s ≡ s
  pub errors : (event : ErrorEvent) → on_socket_error browser api k g event s ≡ s
  pub closes : (code : ℕ) (reason : Text) → on_socket_close browser api k g code reason s ≡ s

module _ {N : Type 0} where
  past-is_current : (k g : ℕ) (s : Service N) → IsPast g s → is_current k g s ≡ false
  unfolding is_current
  past-is_current k g s (inl e) = ground (arith, e)
  past-is_current k g s (inr lt) = ground (arith, lt)

  clear_session_socket : (s : Service N) → (clear_session s).socket ≡ none
  unfolding clear_session
  clear_session_socket s = refl

module _ {N U : Type 0} (browser : Browser N) (api : UrlApi U) where
  past-IsIgnored : (k g : ℕ) (s : Service N) → IsPast g s → IsIgnored browser api k g s
  unfolding on_socket_open on_socket_message on_socket_error on_socket_close
      release_if_current_with_intent
  past-IsIgnored k g s p =
      let stale = past-is_current k g s p in
      record {
        opens = rw stale refl;
        messages = λ e. rw stale refl;
        errors = λ e. rw stale refl;
        closes = λ c r. rw stale refl;
      }

  -- A new connection is of a later generation.
  bootstrapped-IsPast :
      (r : BootstrapResult) (g : ℕ) (s : Service N)
      → s.socket ≡ none
      → g ≤ s.generation
      → IsPast g (bootstrapped browser api r s)
  bootstrapped-IsPast (ok k) g s e le = inr (omega (arith, (attach-rest k s).2, le))
  bootstrapped-IsPast (failed c d) g s e le =
      inl (ap (λ f. f.socket) (report_bootstrap_failure-Quiet browser c d s).session ∙ e)

  connect-IsPast :
      (g : ℕ) (s : Service N)
      → s.socket ≡ none
      → g ≤ s.generation
      → IsPast g (connect browser api s)
  unfolding connect open_connection has_active_connection dispatch_event
  connect-IsPast g s e le =
      let t = dispatch_event (set_connecting s.has_session_context) s in
      let (result, net) = create_socket browser api t.ws_url t.net in
      subst
        (λ o. IsPast g (if active_when browser o s.net then s else open_connection browser api s))
        (sym e) (bootstrapped-IsPast result g (record t { net = net }) e le)

  swap-IsPast :
      (o : Option ℕ) (g : ℕ) (s : Service N)
      → s.socket ≡ none
      → g ≤ s.generation
      → let (done, t) = swap_socket browser api o s in
        IsPast g (if done then t else connect browser api t)
  unfolding swap_socket
  swap-IsPast none g s e le = connect-IsPast g s e le
  swap-IsPast (some k) g s e le = elim (Bool-cases (ltb (browser.ready_state s.net k) 2)) [
    | inl live ↦ rw live (
        connect-IsPast g (record s { net = browser.close k 4101 (codes "endpoint changed") s.net })
          e le)
    | inr gone ↦ rw gone (connect-IsPast g s e le)
  ]

  -- Once the endpoint has changed, whatever a socket of the generation before does is ignored: its
  -- open, message, error and close events leave the state as it is.
  pub endpoint_change-IsIgnored :
      (k : ℕ) (s : Service N)
      → IsIgnored browser api k s.generation (reconnect_with_endpoint_change browser api s)
  unfolding reconnect_with_endpoint_change lifecycle_command detach_for_socket_swap
  endpoint_change-IsIgnored k s =
      let u = prepared true s in
      past-IsIgnored k s.generation (reconnect_with_endpoint_change browser api s) (
        swap-IsPast u.socket s.generation (clear_session u) (clear_session_socket u) (
          omega
            (arith, (clear_session-rest u).2, ap (λ f. f.generation) (prepared-session true s))))
