-- ===== src/Transport/Reporter.antt =====
-- Failures go to the state and, throttled, to the user (apps/web/src/features/terminal/app/engine/
-- transport/reliability/transport-failure-reporter.ts).
use wootty.Base.{ℕ, [], ◌∷◌, Option, none, some, Text, codes, decimal, trim, join, take}
use wootty.Throttle.{notify_with_failure_throttle, default_repeated_message}
use wootty.Transport.Browser.{Browser}
use wootty.Transport.Contracts.{
  FailureCode, number, text, FailureReasonCode, TransportFailure, TransportFailureContext,
  source_text, reason_text,
}
use wootty.Transport.State.{socket_failure}
use wootty.Transport.Service.{Service, on_socket_failure, call, dispatch_event}

abbrev pub notice_cooldown_ms : ℕ
notice_cooldown_ms = 15_000

abbrev pub to_failure_context : TransportFailure → TransportFailureContext
to_failure_context f = record {
  source = f.source;
  reason_code = f.reason_code;
  code = f.code;
  technical_detail = f.technical_detail;
}

-- `failure.reasonCode ?? fallback`.
unfoldable pub reason_or : Option FailureReasonCode → Text → Text
reason_or none fallback = fallback
reason_or (some r) fallback = reason_text r

unfoldable pub base_reason : Option Text → Option FailureReasonCode → Text
unfolding reason_or
base_reason (some (c ∷ s)) reason = c ∷ s
base_reason _ reason = reason_or reason (codes "transport failure")

module _ {N : Type 0} where
  abbrev pub announced : TransportFailure → Option Text → Service N → Service N
  announced f none s = s
  announced f (some message) s =
      call (on_socket_failure (record f { notice_message = some message })) s

module _ {N : Type 0} (browser : Browser N) where
  unfoldable pub stable_failure_code : Option FailureCode → Text
  stable_failure_code none = []
  stable_failure_code (some (number n)) = decimal n
  stable_failure_code (some (text t)) = take 64 (browser.to_lower_case (trim t))

  unfoldable pub notice_key : TransportFailure → Text
  notice_key f = join (codes "|") (
      source_text f.source
      ∷ reason_or f.reason_code (codes "socket_failure")
      ∷ stable_failure_code f.code
      ∷ [])

  unfoldable pub report : TransportFailure → Service N → Service N
  report f s =
      let t = dispatch_event (socket_failure (to_failure_context f)) s in
      let (next, message) =
        notify_with_failure_throttle default_repeated_message t.socket_failure_notice (notice_key f)
          t.now notice_cooldown_ms (base_reason f.technical_detail f.reason_code) in
      record (announced f message t) { socket_failure_notice = next }
