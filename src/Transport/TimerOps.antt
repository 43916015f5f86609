-- ===== src/Transport/TimerOps.antt =====
-- What each operation does to the timers.
use wootty.Base.{ℕ, ◌≡◌, refl, ◌∙◌, Option, none, some}
use wootty.Transport.Service.{
  Service, Timer, Task, ping_tick, pong_timeout, set_timer, clear_timer, dispatch_event,
}
use wootty.Transport.Service
use wootty.Transport.Heartbeat.{
  clear_pong_timeout, cleared_pong, cleared_ping, stop_heartbeat, start_heartbeat,
}
use wootty.Transport.Lifecycle.{clear_reconnect_timer, cleared_reconnect, schedule_reconnect}
use wootty.Transport.Frames.{timers_of, session_of}
use wootty.Transport.Timers.{IsHeld, clear_field-IsHeld, set_field-IsHeld}

module _ {N : Type 0} where
  abbrev pub HoldsTimers : Service N → Type 0
  HoldsTimers s = IsHeld (timers_of s)

  -- An operation on timers that empties some fields.
  pub record Clears (s t : Service N) : Type 0 where
    pub held : HoldsTimers s → HoldsTimers t
    pub session : session_of t ≡ session_of s
    pub state : t.state ≡ s.state

  cleared_pong-Clears :
      (o : Option ℕ) (s : Service N) → s.pong_timer ≡ o → Clears s (cleared_pong o s)
  unfolding clear_timer
  cleared_pong-Clears none s e = record { held = λ v. v; session = refl; state = refl }
  cleared_pong-Clears (some h) s e = record {
    held = λ v. clear_field-IsHeld (timers_of s) pong_timeout h e v;
    session = refl;
    state = refl;
  }

  cleared_ping-Clears :
      (o : Option ℕ) (s : Service N) → s.ping_timer ≡ o → Clears s (cleared_ping o s)
  unfolding clear_timer
  cleared_ping-Clears none s e = record { held = λ v. v; session = refl; state = refl }
  cleared_ping-Clears (some h) s e = record {
    held = λ v. clear_field-IsHeld (timers_of s) ping_tick h e v;
    session = refl;
    state = refl;
  }

  cleared_reconnect-Clears :
      (o : Option ℕ) (s : Service N) → s.reconnect_timer ≡ o → Clears s (cleared_reconnect o s)
  unfolding clear_timer
  cleared_reconnect-Clears none s e = record { held = λ v. v; session = refl; state = refl }
  cleared_reconnect-Clears (some h) s e = record {
    held = λ v. clear_field-IsHeld (timers_of s) Service.Task.reconnect h e v;
    session = refl;
    state = refl;
  }

  pub clear_pong_timeout-Clears : (s : Service N) → Clears s (clear_pong_timeout s)
  unfolding clear_pong_timeout
  clear_pong_timeout-Clears s = cleared_pong-Clears s.pong_timer s refl

  pub clear_reconnect_timer-Clears : (s : Service N) → Clears s (clear_reconnect_timer s)
  unfolding clear_reconnect_timer
  clear_reconnect_timer-Clears s = cleared_reconnect-Clears s.reconnect_timer s refl

  -- Which fields are empty after the operations.
  pub clear_pong_timeout_fields :
      (s : Service N)
      → let t = clear_pong_timeout s in
        (t.pong_timer ≡ none)
        × (t.ping_timer ≡ s.ping_timer)
        × (t.reconnect_timer ≡ s.reconnect_timer)
  unfolding clear_pong_timeout clear_timer
  clear_pong_timeout_fields s = go s.pong_timer refl
    where
      go :
          (o : Option ℕ)
          → s.pong_timer ≡ o
          → let t = cleared_pong o s in
            (t.pong_timer ≡ none)
            × (t.ping_timer ≡ s.ping_timer)
            × (t.reconnect_timer ≡ s.reconnect_timer)
      go none e = (e, refl, refl)
      go (some h) e = (refl, refl, refl)

  cleared_ping_fields :
      (o : Option ℕ) (s : Service N)
      → s.ping_timer ≡ o
      → let t = cleared_ping o s in (t.ping_timer ≡ none) × (t.reconnect_timer ≡ s.reconnect_timer)
  unfolding clear_timer
  cleared_ping_fields none s e = (e, refl)
  cleared_ping_fields (some h) s e = (refl, refl)

  pub clear_reconnect_timer_field :
      (s : Service N) → (clear_reconnect_timer s).reconnect_timer ≡ none
  unfolding clear_reconnect_timer clear_timer
  clear_reconnect_timer_field s = go s.reconnect_timer refl
    where
      go : (o : Option ℕ) → s.reconnect_timer ≡ o → (cleared_reconnect o s).reconnect_timer ≡ none
      go none e = e
      go (some h) e = refl

  pub clear_reconnect_timer_rest :
      (s : Service N)
      → ((clear_reconnect_timer s).ping_timer ≡ s.ping_timer)
        × ((clear_reconnect_timer s).pong_timer ≡ s.pong_timer)
  unfolding clear_reconnect_timer clear_timer
  clear_reconnect_timer_rest s = go s.reconnect_timer
    where
      go :
          (o : Option ℕ)
          → ((cleared_reconnect o s).ping_timer ≡ s.ping_timer)
            × ((cleared_reconnect o s).pong_timer ≡ s.pong_timer)
      go none = (refl, refl)
      go (some h) = (refl, refl)

  pub Clears-trans : {s t u : Service N} → Clears s t → Clears t u → Clears s u
  Clears-trans p q = record {
    held = λ v. q.held (p.held v);
    session = q.session ∙ p.session;
    state = q.state ∙ p.state;
  }

  pub stop_heartbeat-Clears : (s : Service N) → Clears s (stop_heartbeat s)
  unfolding stop_heartbeat
  stop_heartbeat-Clears s =
      Clears-trans (cleared_ping-Clears s.ping_timer s refl) (clear_pong_timeout-Clears _)

  pub stop_heartbeat_fields :
      (s : Service N)
      → let t = stop_heartbeat s in
        (t.ping_timer ≡ none) × (t.pong_timer ≡ none) × (t.reconnect_timer ≡ s.reconnect_timer)
  unfolding stop_heartbeat
  stop_heartbeat_fields s =
      let (p, r) = cleared_ping_fields s.ping_timer s refl in
      let (a, b, c) = clear_pong_timeout_fields (cleared_ping s.ping_timer s) in (b ∙ p, a, c ∙ r)

  pub start_heartbeat-Clears : (s : Service N) → Clears s (start_heartbeat s)
  unfolding start_heartbeat set_timer
  start_heartbeat-Clears s =
      let c = stop_heartbeat-Clears s in
      record {
        held = λ v.
            set_field-IsHeld (timers_of (stop_heartbeat s)) ping_tick 12_000
              (stop_heartbeat_fields s).0 (c.held v);
        session = c.session;
        state = c.state;
      }

  pub schedule_reconnect-Clears : (d : ℕ) (s : Service N) → Clears s (schedule_reconnect d s)
  unfolding schedule_reconnect set_timer
  schedule_reconnect-Clears d s =
      let c = clear_reconnect_timer-Clears s in
      record {
        held = λ v.
            set_field-IsHeld (timers_of (clear_reconnect_timer s)) Service.Task.reconnect d
              (clear_reconnect_timer_field s) (c.held v);
        session = c.session;
        state = c.state;
      }
