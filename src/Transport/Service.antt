-- ===== src/Transport/Service.antt =====
-- The state of the transport: the fields of the classes below transport/ and of the ref that the
-- coordinator keeps (apps/web/src/features/terminal/app/engine/connection-coordinator.ts), with the
-- timers that the scheduler (platform/scheduler.ts) holds for it. A closure that a timer or a
-- socket holds is named by a constructor; a call of the coordinator's handlers is put on `calls`,
-- the latest first.
use wootty.Base.{ℕ, suc, not, Bool, List, ◌∷◌, Option, Text, ◌==◌, keep}
use wootty.Throttle.{FailureNoticeState}
use wootty.Transport.Contracts.{SocketCloseIntent, TransportFailure}
use wootty.Transport.State.{TransportState, TransportEvent, reduce_transport_state}

-- The tasks: the heartbeat's interval, its timeout, and the delayed `connect`.
pub data Task : Type 0 where
  ping_tick pong_timeout reconnect : Task

pub record Timer : Type 0 where
  pub handle : ℕ
  pub task : Task
  pub delay_ms : ℕ

-- `TerminalTransportMessageEvent`.
pub record MessageEvent : Type 0 where
  pub data_ : Text
  pub malformed : Option Text

pub data Call : Type 0 where
  on_open : Call
  on_message : MessageEvent → Call
  on_socket_failure : TransportFailure → Call

pub record Service (N : Type 0) : Type 0 where
  -- TransportSocketSession; listeners are known by their socket and their generation
  pub socket : Option ℕ
  pub detach_listeners : Option (ℕ × ℕ)
  pub generation : ℕ
  pub close_intent : SocketCloseIntent
  -- TransportHeartbeatMonitor
  pub ping_timer : Option ℕ
  pub pong_timer : Option ℕ
  pub ping_sent_at : Option ℕ
  -- TransportFailureReporter
  pub socket_failure_notice : FailureNoticeState
  -- TransportSocketReliabilityCoordinator
  pub socket_error_generation : Option ℕ
  -- TransportLifecycleService
  pub reconnect_timer : Option ℕ
  pub ws_url : Option Text
  pub has_session_context : Bool
  -- `transportStateRef`
  pub state : TransportState
  -- the scheduler and its clock
  pub next_handle : ℕ
  pub pending : List Timer
  pub now : ℕ
  -- listeners that sockets hold, and the sockets themselves
  pub listeners : List (ℕ × ℕ)
  pub net : N
  pub calls : List Call

module _ {N : Type 0} where
  -- `dispatchTransportEvent`.
  unfoldable pub dispatch_event : TransportEvent → Service N → Service N
  dispatch_event e s = record s { state = reduce_transport_state s.state e }

  unfoldable pub call : Call → Service N → Service N
  call c s = record s { calls = c ∷ s.calls }

  -- `setTimeout` and `setInterval`; the handle is `s.next_handle`.
  unfoldable pub set_timer : Task → ℕ → Service N → Service N
  set_timer task delay_ms s = record s {
    pending = record { handle = s.next_handle; task = task; delay_ms = delay_ms } ∷ s.pending;
    next_handle = suc s.next_handle;
  }

  -- `clearTimeout` and `clearInterval`.
  unfoldable pub clear_timer : ℕ → Service N → Service N
  clear_timer handle s = record s {
    pending = keep (λ (t : Timer). not (t.handle == handle)) s.pending;
  }
