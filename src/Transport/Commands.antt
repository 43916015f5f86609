-- ===== src/Transport/Commands.antt =====
-- What the commands of the lifecycle leave behind.
use wootty.Base.{
  ℕ, ◌≡◌, ◌⊎◌, refl, sym, subst, ap, ◌∙◌, Bool, true, false, [], Option, none, some, Text, ltb,
  if◌then◌else◌, Bool-cases, inl, inr, arith,
}
use wootty.Sanitization.{UrlApi}
use wootty.Transport.Browser.{Browser}
use wootty.Transport.Contracts.{SocketCloseIntent, fresh, manual, dispose}
use wootty.Transport.State.{clear_reconnect_attempts, socket_closed}
use wootty.Transport.Service.{Service, dispatch_event}
use wootty.Transport.Heartbeat.{stop_heartbeat}
use wootty.Transport.SocketSession.{clear_session, close_active, detach_for_socket_swap}
use wootty.Transport.Lifecycle.{
  connect, lifecycle_command, clear_reconnect_timer, reconnect_now, schedule_fresh_connection,
  reconnect_with_endpoint_change, dispose_service, swap_socket,
}
use wootty.Transport.Frames.{TimerFields, timers_of, session_of, close_active-Quiet}
use wootty.Transport.Timers.{IsHeld, eq-nil_of_IsHeld}
use wootty.Transport.TimerOps.{
  clear_reconnect_timer-Clears, clear_reconnect_timer_field, stop_heartbeat-Clears,
  stop_heartbeat_fields,
}
use wootty.Transport.Sessions.{clear_session-rest, connect-Connects}

abbrev pub IsIdle : TimerFields → Type 0
IsIdle f = (f.pending ≡ []) × (f.ping ≡ none) × (f.pong ≡ none) × (f.reconnect ≡ none)

abbrev KeepsTimers : {N : Type 0} → (Service N → Service N) → Type 0
KeepsTimers {N} f = (s : Service N) → timers_of (f s) ≡ timers_of s

module _ {N : Type 0} where
  -- The state that a command hands to its closing part.
  abbrev pub prepared : Bool → Service N → Service N
  prepared c s =
      let t = clear_reconnect_timer s in
      stop_heartbeat (if c then dispatch_event clear_reconnect_attempts t else t)

  pub prepared-session : (c : Bool) (s : Service N) → session_of (prepared c s) ≡ session_of s
  unfolding dispatch_event
  prepared-session true s =
      (stop_heartbeat-Clears _).session ∙ (clear_reconnect_timer-Clears s).session
  prepared-session false s =
      (stop_heartbeat-Clears _).session ∙ (clear_reconnect_timer-Clears s).session

  prepared-IsIdle :
      (c : Bool) (s : Service N) → IsHeld (timers_of s) → IsIdle (timers_of (prepared c s))
  unfolding dispatch_event
  prepared-IsIdle c s v = idle (Bool-cases c)
    where
      t : Service N
      t = clear_reconnect_timer s

      u : Service N
      u = if c then dispatch_event clear_reconnect_attempts t else t

      same : (timers_of u ≡ timers_of t)
      same = ground arith

      idle : (c ≡ true) ⊎ (c ≡ false) → IsIdle (timers_of (stop_heartbeat u))
      idle _ =
          let (a, b, r) = stop_heartbeat_fields u in
          let e = r ∙ ap (λ f. f.reconnect) same ∙ clear_reconnect_timer_field s in
          let held =
            (stop_heartbeat-Clears u).held
              (subst IsHeld (sym same) ((clear_reconnect_timer-Clears s).held v)) in
          (eq-nil_of_IsHeld _ held a b e, a, b, e)

  lifecycle_command-IsIdle :
      (c : Bool) (try_close : Service N → Bool × Service N) (fallback : Service N → Service N)
      → KeepsTimers (λ s. (try_close s).1)
      → KeepsTimers fallback
      → (s : Service N) → IsHeld (timers_of s)
      → IsIdle (timers_of (lifecycle_command c try_close fallback s))
  unfolding lifecycle_command
  lifecycle_command-IsIdle c try_close fallback p q s v =
      elim (Bool-cases (try_close (prepared c s)).0) [
        | inl done ↦ rw done (subst IsIdle (sym (p (prepared c s))) (prepared-IsIdle c s v))
        | inr missed ↦ rw missed (
            subst IsIdle (sym (q (try_close (prepared c s)).1 ∙ p (prepared c s)))
              (prepared-IsIdle c s v))
      ]

module _ {N U : Type 0} (browser : Browser N) (api : UrlApi U) where
  connect-KeepsTimers : KeepsTimers (connect browser api)
  connect-KeepsTimers s = (connect-Connects browser api s).timers

  close-KeepsTimers :
      (c : ℕ) (r : Text) (i : SocketCloseIntent)
      → KeepsTimers (λ (s : Service N). (close_active browser c r i s).1)
  close-KeepsTimers c r i s = (close_active-Quiet browser c r i s).timers

  swap-KeepsTimers :
      (o : Option ℕ) → KeepsTimers (λ (s : Service N). (swap_socket browser api o s).1)
  unfolding swap_socket
  swap-KeepsTimers none s = refl
  swap-KeepsTimers (some k) s = elim (Bool-cases (ltb (browser.ready_state s.net k) 2)) [
    | inl live ↦ rw live (connect-KeepsTimers _)
    | inr gone ↦ rw gone refl
  ]

  -- After each command of the lifecycle, no timer is pending and the three fields that hold
  -- handles are empty, in whatever order the timers were set before.
  pub lifecycle_commands-IsIdle :
      (s : Service N)
      → IsHeld (timers_of s)
      → IsIdle (timers_of (reconnect_now browser api s))
        × IsIdle (timers_of (schedule_fresh_connection browser api s))
        × IsIdle (timers_of (reconnect_with_endpoint_change browser api s))
        × IsIdle (timers_of (dispose_service browser api s))
  unfolding reconnect_now schedule_fresh_connection reconnect_with_endpoint_change
      detach_for_socket_swap dispose_service dispatch_event
  lifecycle_commands-IsIdle s v = (
    lifecycle_command-IsIdle true _ _ (close-KeepsTimers _ _ manual) connect-KeepsTimers s v,
    lifecycle_command-IsIdle true _ _ (close-KeepsTimers _ _ fresh) connect-KeepsTimers s v,
    lifecycle_command-IsIdle true _ _
        (λ t. swap-KeepsTimers t.socket (clear_session t) ∙ (clear_session-rest t).0)
        connect-KeepsTimers s v,
    lifecycle_command-IsIdle false _ (λ t. dispatch_event socket_closed (clear_session t))
        (close-KeepsTimers _ _ dispose) (λ t. (clear_session-rest t).0) s v,
  )
