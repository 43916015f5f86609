-- ===== src/Transport/ClosePlan.antt =====
-- What is done when a socket closes
-- (apps/web/src/features/terminal/app/engine/transport/lifecycle/transport-close-plan-executor.ts).
-- The executor's calls of its dependencies are the list `PlanAction`, in the order of the calls.
use wootty.Base.{
  ℕ, ◌+◌, Bool, not, none, some, List, [], ◌∷◌, ◌++◌, leb, if◌then◌else◌, codes, decimal,
}
use wootty.Transport.Contracts.{
  SocketCloseIntent, normal, fresh, manual, dispose, close, TransportFailureContext,
}
use wootty.Transport.Contracts
use wootty.Transport.State.{
  TransportEvent, set_connecting, socket_closed, socket_error, socket_failure,
}
use wootty.Transport.Policy.{is_recoverable_transport_close, reconnect_delay_ms, max_attempts}

pub data TransportClosePlan : Type 0 where
  disposed reconnect_immediate nonrecoverable : TransportClosePlan
  reconnect_exhausted : (attempt : ℕ) → TransportClosePlan
  schedule_reconnect : (next_attempt delay_ms : ℕ) → TransportClosePlan

-- The branches below `closeIntent === "manual"`.
resolve_normal_close : ℕ → ℕ → TransportClosePlan
resolve_normal_close close_code reconnect_attempt =
    if not (is_recoverable_transport_close close_code)
    then nonrecoverable
    else if leb max_attempts reconnect_attempt
    then reconnect_exhausted reconnect_attempt
    else schedule_reconnect (reconnect_attempt + 1) (reconnect_delay_ms reconnect_attempt)

unfoldable pub resolve_transport_close_plan : SocketCloseIntent → ℕ → ℕ → TransportClosePlan
unfolding resolve_normal_close
resolve_transport_close_plan dispose close_code reconnect_attempt = disposed
resolve_transport_close_plan fresh close_code reconnect_attempt = reconnect_immediate
resolve_transport_close_plan manual close_code reconnect_attempt = reconnect_immediate
resolve_transport_close_plan normal close_code reconnect_attempt =
    resolve_normal_close close_code reconnect_attempt

pub data PlanAction : Type 0 where
  dispatch_event : TransportEvent → PlanAction
  connect report_close_failure : PlanAction
  -- `scheduleReconnect(delayMs, connect)`
  schedule : (delay_ms : ℕ) → PlanAction

abbrev pub exhausted_context : ℕ → TransportFailureContext
exhausted_context attempt = record {
  source = close;
  reason_code = some Contracts.FailureReasonCode.socket_failure;
  code = none;
  technical_detail = some (codes "reconnect exhausted attempts=" ++ decimal attempt);
}

-- `if (shouldReportCloseFailure) deps.reportCloseFailure()`.
abbrev pub reported : Bool → List PlanAction → List PlanAction
reported should_report rest = (if should_report then report_close_failure ∷ [] else []) ++ rest

execute_plan : TransportClosePlan → Bool → List PlanAction
execute_plan disposed should_report = dispatch_event socket_closed ∷ []
execute_plan reconnect_immediate should_report =
    dispatch_event (set_connecting Bool.false) ∷ connect ∷ []
execute_plan nonrecoverable should_report =
    reported should_report (dispatch_event socket_error ∷ [])
execute_plan (reconnect_exhausted attempt) should_report =
    reported should_report (
      dispatch_event (socket_failure (exhausted_context attempt))
      ∷ dispatch_event socket_error
      ∷ [])
execute_plan (schedule_reconnect next_attempt delay_ms) should_report =
    reported should_report
      (dispatch_event (TransportEvent.schedule_reconnect next_attempt) ∷ schedule delay_ms ∷ [])

unfoldable pub execute_transport_close_plan : SocketCloseIntent → ℕ → ℕ → Bool → List PlanAction
unfolding execute_plan
execute_transport_close_plan close_intent close_code reconnect_attempt should_report =
    execute_plan (resolve_transport_close_plan close_intent close_code reconnect_attempt)
      should_report
