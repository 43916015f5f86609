-- ===== src/Transport/Contracts.antt =====
-- Words that the parts of the transport share: contracts/connection.ts,
-- contracts/transport/failure-reason.ts, transport/contracts/transport-failure-contract.ts and the
-- types of state/transport-state-machine.ts, all under apps/web/src/features/terminal. The opaque
-- `cause` of a failure is passed on and never looked at; it is left out. A numeric failure code is
-- a whole number, as close codes are.
use wootty.Base.{ℕ, Option, Text, codes}

pub data ConnectionStatus : Type 0 where
  connecting connected reconnecting closed error : ConnectionStatus

pub data SocketCloseIntent : Type 0 where
  normal fresh manual dispose : SocketCloseIntent

-- `SocketFailureSource`.
pub data FailureSource : Type 0 where
  error close : FailureSource

pub data FailureReasonCode : Type 0 where
  send_failed endpoint_unavailable endpoint_invalid_format : FailureReasonCode
  endpoint_unsupported_protocol bootstrap_failed socket_failure : FailureReasonCode

pub data FailureCode : Type 0 where
  number : ℕ → FailureCode
  text : Text → FailureCode

pub record TransportFailure : Type 0 where
  pub source : FailureSource
  pub reason_code : Option FailureReasonCode
  pub code : Option FailureCode
  pub technical_detail : Option Text
  pub notice_message : Option Text

pub record TransportFailureContext : Type 0 where
  pub source : FailureSource
  pub reason_code : Option FailureReasonCode
  pub code : Option FailureCode
  pub technical_detail : Option Text

unfoldable pub source_text : FailureSource → Text
source_text FailureSource.error = codes "error"
source_text close = codes "close"

unfoldable pub reason_text : FailureReasonCode → Text
reason_text send_failed = codes "send_failed"
reason_text endpoint_unavailable = codes "endpoint_unavailable"
reason_text endpoint_invalid_format = codes "endpoint_invalid_format"
reason_text endpoint_unsupported_protocol = codes "endpoint_unsupported_protocol"
reason_text bootstrap_failed = codes "bootstrap_failed"
reason_text socket_failure = codes "socket_failure"
