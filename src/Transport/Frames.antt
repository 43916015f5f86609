-- ===== src/Transport/Frames.antt =====
-- The parts of the transport's state that invariants speak of, and the operations that leave them
-- alone.
use wootty.Base.{ℕ, ◌≡◌, refl, ◌∙◌, List, Option, none, some, Text, leb, ◌==◌, Bool-cases, inl, inr}
use wootty.Protocol.ClientMessages.{ClientMessage}
use wootty.Sanitization.{UrlApi}
use wootty.Transport.Browser.{Browser, Thrown}
use wootty.Transport.Contracts.{SocketCloseIntent, FailureReasonCode, TransportFailure}
use wootty.Transport.State.{reduce_transport_state, socket_error, socket_failure}
use wootty.Transport.Service.{Service, Timer, dispatch_event, call}
use wootty.Transport.Reporter.{report, announced, to_failure_context}
use wootty.Transport.SocketSession.{close_active, close_when}
use wootty.Transport.Reliability.{
  ErrorEvent, handle_socket_error, report_send_failure, report_close_failure,
  report_bootstrap_failure,
}
use wootty.Transport.Lifecycle.{send_payload, send_when, sent}

pub record TimerFields : Type 0 where
  pub ping : Option ℕ
  pub pong : Option ℕ
  pub reconnect : Option ℕ
  pub pending : List Timer
  pub next_handle : ℕ

pub record SessionFields : Type 0 where
  pub socket : Option ℕ
  pub detach_listeners : Option (ℕ × ℕ)
  pub generation : ℕ
  pub listeners : List (ℕ × ℕ)

module _ {N : Type 0} where
  abbrev pub timers_of : Service N → TimerFields
  timers_of s = record {
    ping = s.ping_timer;
    pong = s.pong_timer;
    reconnect = s.reconnect_timer;
    pending = s.pending;
    next_handle = s.next_handle;
  }

  abbrev pub session_of : Service N → SessionFields
  session_of s = record {
    socket = s.socket;
    detach_listeners = s.detach_listeners;
    generation = s.generation;
    listeners = s.listeners;
  }

  -- Neither timers, nor the socket with its listeners, nor the count of attempts changes.
  pub record Quiet (s t : Service N) : Type 0 where
    pub timers : timers_of t ≡ timers_of s
    pub session : session_of t ≡ session_of s
    pub attempt : t.state.reconnect_attempt ≡ s.state.reconnect_attempt

  abbrev pub Quiet-refl : (s : Service N) → Quiet s s
  Quiet-refl s = record { timers = refl; session = refl; attempt = refl }

  pub Quiet-trans : {s t u : Service N} → Quiet s t → Quiet t u → Quiet s u
  Quiet-trans p q = record {
    timers = q.timers ∙ p.timers;
    session = q.session ∙ p.session;
    attempt = q.attempt ∙ p.attempt;
  }

  announced-Quiet :
      (f : TransportFailure) (m : Option Text) (s : Service N) → Quiet s (announced f m s)
  unfolding call
  announced-Quiet f none s = Quiet-refl s
  announced-Quiet f (some m) s = record { timers = refl; session = refl; attempt = refl }

  dispatch_error-Quiet : (s : Service N) → Quiet s (dispatch_event socket_error s)
  unfolding dispatch_event reduce_transport_state
  dispatch_error-Quiet s = record { timers = refl; session = refl; attempt = refl }

module _ {N : Type 0} (browser : Browser N) where
  pub report-Quiet : (f : TransportFailure) (s : Service N) → Quiet s (report browser f s)
  unfolding report dispatch_event reduce_transport_state
  report-Quiet f s =
      let t = dispatch_event (socket_failure (to_failure_context f)) s in
      let q = announced-Quiet f _ t in
      record { timers = q.timers; session = q.session; attempt = q.attempt }

  then_error : {s : Service N} (t : Service N) → Quiet s t → Quiet s (dispatch_event socket_error t)
  then_error t q = Quiet-trans q (dispatch_error-Quiet t)

  report_send_failure-Quiet :
      (e : Thrown) (s : Service N) → Quiet s (report_send_failure browser e s)
  unfolding report_send_failure
  report_send_failure-Quiet e s = then_error _ (report-Quiet _ s)

  pub handle_socket_error-Quiet :
      (g : ℕ) (e : ErrorEvent) (s : Service N) → Quiet s (handle_socket_error browser g e s)
  unfolding handle_socket_error
  handle_socket_error-Quiet g e s =
      let t = record s { socket_error_generation = some g } in
      let start : Quiet s t = record { timers = refl; session = refl; attempt = refl } in
      then_error _ (Quiet-trans start (report-Quiet _ t))

  pub report_close_failure-Quiet :
      (c : ℕ) (r : Text) (s : Service N) → Quiet s (report_close_failure browser c r s)
  unfolding report_close_failure
  report_close_failure-Quiet c r s = report-Quiet _ s

  pub report_bootstrap_failure-Quiet :
      (c : FailureReasonCode) (d : Text) (s : Service N)
      → Quiet s (report_bootstrap_failure browser c d s)
  unfolding report_bootstrap_failure
  report_bootstrap_failure-Quiet c d s = then_error _ (report-Quiet _ s)

  close_when-Quiet :
      (k : Option ℕ) (c : ℕ) (r : Text) (i : SocketCloseIntent) (s : Service N)
      → Quiet s (close_when browser k c r i s).1
  close_when-Quiet none c r i s = Quiet-refl s
  close_when-Quiet (some k) c r i s = elim (Bool-cases (leb 2 (browser.ready_state s.net k))) [
    | inl gone ↦ rw gone (Quiet-refl s)
    | inr here ↦ rw here (record { timers = refl; session = refl; attempt = refl })
  ]

  pub close_active-Quiet :
      (c : ℕ) (r : Text) (i : SocketCloseIntent) (s : Service N)
      → Quiet s (close_active browser c r i s).1
  unfolding close_active
  close_active-Quiet c r i s = close_when-Quiet s.socket c r i s

module _ {N U : Type 0} (browser : Browser N) (api : UrlApi U) where
  sent-Quiet : (a : Option Thrown) (s : Service N) → Quiet s (sent browser api a s).1
  sent-Quiet none s = Quiet-refl s
  sent-Quiet (some e) s = report_send_failure-Quiet browser e s

  send_when-Quiet :
      (k : Option ℕ) (m : ClientMessage) (s : Service N) → Quiet s (send_when browser api k m s).1
  send_when-Quiet none m s = Quiet-refl s
  send_when-Quiet (some k) m s = elim (Bool-cases (browser.ready_state s.net k == 1)) [
    | inl is_open ↦ rw is_open (
        let v = record s { net = (browser.send k m s.net).1 } in
        let q = sent-Quiet (browser.send k m s.net).0 v in
        record { timers = q.timers; session = q.session; attempt = q.attempt })
    | inr shut ↦ rw shut (Quiet-refl s)
  ]

  pub send_payload-Quiet :
      (m : ClientMessage) (s : Service N) → Quiet s (send_payload browser api m s).1
  unfolding send_payload
  send_payload-Quiet m s = send_when-Quiet s.socket m s
