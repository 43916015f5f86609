-- ===== src/Transport/Reliability.antt =====
-- The heartbeat and the failure reports of a connection (apps/web/src/features/terminal/app/engine/
-- transport/reliability/transport-socket-reliability-coordinator.ts).
use wootty.Base.{ℕ, Bool, not, Option, none, some, Text, codes}
use wootty.Transport.Browser.{Browser, Thrown}
use wootty.Transport.Bootstrap.{thrown_message}
use wootty.Transport.Contracts.{
  FailureCode, number, FailureReasonCode, send_failed, socket_failure, TransportFailure, close,
}
use wootty.Transport.Contracts
use wootty.Transport.State.{socket_error}
use wootty.Transport.Service.{Service, dispatch_event}
use wootty.Transport.Heartbeat.{start_heartbeat, stop_heartbeat}
use wootty.Transport.Reporter.{report}
use wootty.Transport.SocketSession.{holds}

-- `TerminalTransportErrorEvent`.
pub record ErrorEvent : Type 0 where
  pub message : Text
  pub code : Option FailureCode

abbrev pub error_failure : FailureReasonCode → Option FailureCode → Text → TransportFailure
error_failure reason code detail = record {
  source = Contracts.FailureSource.error;
  reason_code = some reason;
  code = code;
  technical_detail = some detail;
  notice_message = none;
}

module _ {N : Type 0} where
  unfoldable pub on_connected : Service N → Service N
  on_connected s =
      start_heartbeat (record s { socket_error_generation = none; socket_failure_notice = none })

  -- Whether the close is to be reported: not if an error of this socket was.
  unfoldable pub handle_socket_close : ℕ → Service N → Bool × Service N
  handle_socket_close generation s =
      let t = stop_heartbeat s in
      (
        not (holds t.socket_error_generation generation),
        record t { socket_error_generation = none },
      )

  module _ (browser : Browser N) where
    unfoldable pub report_send_failure : Thrown → Service N → Service N
    report_send_failure thrown s = dispatch_event socket_error (
        report browser
          (error_failure send_failed none (thrown_message thrown (codes "transport send failed")))
          s)

    unfoldable pub handle_socket_error : ℕ → ErrorEvent → Service N → Service N
    handle_socket_error generation event s = dispatch_event socket_error (
        report browser (error_failure socket_failure event.code event.message)
          (record s { socket_error_generation = some generation }))

    unfoldable pub report_close_failure : ℕ → Text → Service N → Service N
    report_close_failure close_code close_reason s =
        report browser
          (record {
            source = close;
            reason_code = some socket_failure;
            code = some (number close_code);
            technical_detail = some close_reason;
            notice_message = none;
          })
          s

    unfoldable pub report_bootstrap_failure : FailureReasonCode → Text → Service N → Service N
    report_bootstrap_failure reason_code debug_detail s =
        dispatch_event socket_error (report browser (error_failure reason_code none debug_detail) s)
