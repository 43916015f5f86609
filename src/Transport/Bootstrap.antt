-- ===== src/Transport/Bootstrap.antt =====
-- Opening a socket (apps/web/src/features/terminal/app/engine/transport/
-- transport-connection-bootstrap.ts) at a checked endpoint (validation/websocket-endpoint.ts).
use wootty.Base.{
  ℕ, ◌||◌, [], ◌∷◌, ◌++◌, Option, none, some, Text, codes, text_eq, trim, if◌then◌else◌,
}
use wootty.Sanitization.{UrlApi, redact_token_in_url_for_notice}
use wootty.Transport.Browser.{Browser, Thrown, Created, socket, threw}
use wootty.Transport.Contracts.{
  FailureReasonCode, endpoint_unavailable, endpoint_invalid_format, endpoint_unsupported_protocol,
  bootstrap_failed,
}

pub data EndpointValidation : Type 0 where
  valid : (endpoint : Text) → EndpointValidation
  unavailable invalid_format : EndpointValidation
  unsupported_protocol : (protocol : Text) → EndpointValidation

pub data BootstrapResult : Type 0 where
  ok : (socket : ℕ) → BootstrapResult
  failed : (reason_code : FailureReasonCode) → (debug_detail : Text) → BootstrapResult

-- `error instanceof Error && error.message.length > 0 ? error.message : …`.
abbrev pub thrown_message : Thrown → Text → Text
thrown_message none fallback = fallback
thrown_message (some []) fallback = fallback
thrown_message (some (c ∷ s)) fallback = c ∷ s

module _ {U : Type 0} (api : UrlApi U) where
  unfoldable pub validate_normalized : Text → EndpointValidation
  validate_normalized [] = unavailable
  validate_normalized (c ∷ s) = elim (api.parse (c ∷ s)) [
    | none ↦ invalid_format
    | some parsed ↦
        if text_eq (api.protocol parsed) (codes "ws:")
          || text_eq (api.protocol parsed) (codes "wss:")
        then valid (c ∷ s)
        else unsupported_protocol (api.protocol parsed)
  ]

  unfoldable pub validate_websocket_endpoint : Option Text → EndpointValidation
  unfolding validate_normalized
  validate_websocket_endpoint none = unavailable
  validate_websocket_endpoint (some endpoint) = validate_normalized (trim endpoint)

module _ {N U : Type 0} (browser : Browser N) (api : UrlApi U) where
  -- The detail of an invalid format: the endpoint as it was given, if it has a character.
  invalid_format_detail : Option Text → Text
  invalid_format_detail none = codes "invalid websocket endpoint format"
  invalid_format_detail (some []) = codes "invalid websocket endpoint format"
  invalid_format_detail (some (c ∷ s)) =
      codes "invalid websocket endpoint '"
      ++ redact_token_in_url_for_notice api (c ∷ s)
      ++ codes "'"

  endpoint_failure : Option Text → EndpointValidation → BootstrapResult
  unfolding invalid_format_detail
  endpoint_failure endpoint unavailable =
      failed endpoint_unavailable (codes "websocket endpoint unavailable")
  endpoint_failure endpoint (unsupported_protocol protocol) =
      failed endpoint_unsupported_protocol
        (codes "invalid websocket endpoint protocol '" ++ protocol ++ codes "'")
  endpoint_failure endpoint _ = failed endpoint_invalid_format (invalid_format_detail endpoint)

  attempted : Created → BootstrapResult
  attempted (socket s) = ok s
  attempted (threw e) =
      failed bootstrap_failed
        (redact_token_in_url_for_notice api (thrown_message e (codes "transport bootstrap failed")))

  try_create : EndpointValidation → Option Text → N → BootstrapResult × N
  unfolding attempted endpoint_failure
  try_create (valid url) endpoint n =
      let (created, n') = browser.create_transport url n in (attempted created, n')
  try_create v endpoint n = (endpoint_failure endpoint v, n)

  unfoldable pub create_socket : Option Text → N → BootstrapResult × N
  unfolding try_create validate_websocket_endpoint
  create_socket endpoint n = try_create (validate_websocket_endpoint api endpoint) endpoint n
