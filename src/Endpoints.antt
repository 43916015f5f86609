-- ===== src/Endpoints.antt =====
-- The addresses of the server (apps/web/src/features/terminal/bootstrap): the socket's URL from
-- the configuration or the page (url/socket-url-resolution.ts), the sessions' URL beside it
-- (backend-endpoint-resolver.ts).
pub mod Auth
mod Security
mod Paths
mod AuthLaws
mod Examples
use wootty.Base.{
  ℕ, Bool, true, false, ◌&&◌, ◌||◌, [], ◌∷◌, ◌++◌, Option, none, some, Text, codes, length, ltb,
  text_eq, trim, if◌then◌else◌, starts_with, ends_with, includes, slice_end,
}
use wootty.Sanitization.{UrlApi, redact_token_in_url_for_notice}
use wootty.Transport.Bootstrap.{
  EndpointValidation, valid, unsupported_protocol, validate_websocket_endpoint,
}

-- What the source uses of `URL` besides `UrlApi`.
pub record UrlParts (U : Type 0) : Type 0 where
  -- `new URL(path, base)`: `none` where it throws
  pub parse_relative : Text → Text → Option U
  pub host : U → Text
  pub pathname : U → Text
  pub search : U → Text
  pub set_pathname : U → Text → U
  pub set_search : U → Text → U
  pub set_hash : U → Text → U

-- `window.location`.
pub record Window : Type 0 where
  pub protocol : Text
  pub host : Text
  pub pathname : Text
  pub search : Text
  pub hash : Text

abbrev pub sessions_http : Text
sessions_http = codes "/api/sessions"

abbrev pub terminal_ws : Text
terminal_ws = codes "/api/terminal"

pub data BackendResolutionIssueCode : Type 0 where
  env_socket_url_invalid_format env_socket_url_requires_window_host
        env_socket_url_unsupported_protocol env_socket_url_required socket_url_invalid_format
        socket_url_unsupported_protocol :
      BackendResolutionIssueCode

pub record BackendResolutionIssue : Type 0 where
  pub code : BackendResolutionIssueCode
  pub details : Text

pub data UrlResolution : Type 0 where
  resolved : (url : Text) → UrlResolution
  refused : BackendResolutionIssue → UrlResolution

pub record TerminalBackendEndpoints : Type 0 where
  pub sessions_http_url : Text
  pub terminal_ws_url : Text

pub data TerminalBackendResolution : Type 0 where
  endpoints : TerminalBackendEndpoints → TerminalBackendResolution
  issue : BackendResolutionIssue → TerminalBackendResolution

abbrev pub create_backend_resolution_issue :
    BackendResolutionIssueCode → Text → BackendResolutionIssue
create_backend_resolution_issue code details = record { code = code; details = details }

unfoldable pub without_last_slash : Text → Text
without_last_slash pathname =
    if ltb 1 (length pathname) && ends_with pathname (codes "/")
    then slice_end 1 pathname
    else pathname

unfoldable pub terminal_path_of : Text → Text
terminal_path_of path =
    if ends_with path terminal_ws
    then path
    else if ends_with path sessions_http
    then slice_end (length sessions_http) path ++ terminal_ws
    else if text_eq path (codes "/")
    then terminal_ws
    else path ++ terminal_ws

unfoldable pub derive_terminal_path_from_http_url : Text → Text
unfolding without_last_slash terminal_path_of
derive_terminal_path_from_http_url pathname = terminal_path_of (without_last_slash pathname)

unfoldable pub derive_sessions_path : Text → Text
derive_sessions_path socket_pathname =
    if ends_with socket_pathname terminal_ws
    then slice_end (length terminal_ws) socket_pathname ++ sessions_http
    else sessions_http

abbrev pub ws_protocol : Text → Text
ws_protocol protocol = if text_eq protocol (codes "https:") then codes "wss:" else codes "ws:"

unfoldable pub default_socket_url : Option Window → UrlResolution
default_socket_url none = refused (
    create_backend_resolution_issue env_socket_url_required (
      codes
        "Socket URL must be explicitly configured in non-browser environments. Set VITE_WOOTTY_WS_URL or provide an injected endpoint."))
default_socket_url (some window) =
    resolved (ws_protocol window.protocol ++ codes "//" ++ window.host ++ terminal_ws)

module _ {U : Type 0} (api : UrlApi U) where
  abbrev pub unsupported_protocol_issue : Text → BackendResolutionIssue
  unsupported_protocol_issue configured =
      create_backend_resolution_issue env_socket_url_unsupported_protocol (
        codes "VITE_WOOTTY_WS_URL uses an unsupported protocol: "
        ++ redact_token_in_url_for_notice api configured)

  abbrev pub invalid_format_issue : Text → BackendResolutionIssue
  invalid_format_issue configured = create_backend_resolution_issue env_socket_url_invalid_format (
      codes "VITE_WOOTTY_WS_URL is not a valid URL: "
      ++ redact_token_in_url_for_notice api configured)

  abbrev pub of_validation : Text → EndpointValidation → UrlResolution
  of_validation configured (valid endpoint) = resolved endpoint
  of_validation configured (unsupported_protocol p) =
      refused (unsupported_protocol_issue configured)
  of_validation configured _ = refused (invalid_format_issue configured)

  unfoldable pub resolve_absolute_ws_socket_url : Text → UrlResolution
  resolve_absolute_ws_socket_url configured =
      of_validation configured (validate_websocket_endpoint api (some configured))

  module _ (parts : UrlParts U) where
    unfoldable pub resolve_absolute_http_socket_url : Text → UrlResolution
    unfolding derive_terminal_path_from_http_url
    resolve_absolute_http_socket_url configured = elim (api.parse configured) [
      | none ↦ refused (invalid_format_issue configured)
      | some parsed ↦
          let path = derive_terminal_path_from_http_url (parts.pathname parsed) in
          resolved (
            ws_protocol (api.protocol parsed)
            ++ codes "//"
            ++ parts.host parsed
            ++ path
            ++ parts.search parsed)
    ]

    unfoldable pub resolve_relative_socket_url : Option Window → Text → UrlResolution
    unfolding derive_terminal_path_from_http_url
    resolve_relative_socket_url none configured = refused (
        create_backend_resolution_issue env_socket_url_requires_window_host
          (codes "VITE_WOOTTY_WS_URL requires a browser host to resolve relative path values."))
    resolve_relative_socket_url (some window) configured =
        let candidate =
          if starts_with configured (codes "/") then configured else b'/' ∷ configured in
        elim (parts.parse_relative candidate (window.protocol ++ codes "//" ++ window.host)) [
          | none ↦ refused (invalid_format_issue configured)
          | some parsed ↦
              let path = derive_terminal_path_from_http_url (parts.pathname parsed) in
              resolved (
                ws_protocol window.protocol
                ++ codes "//"
                ++ window.host
                ++ path
                ++ parts.search parsed)
        ]

    unfoldable pub resolve_configured : Option Window → Text → UrlResolution
    unfolding default_socket_url
    resolve_configured window [] = default_socket_url window
    resolve_configured window (c ∷ s) =
        if starts_with (c ∷ s) (codes "ws://") || starts_with (c ∷ s) (codes "wss://")
        then resolve_absolute_ws_socket_url (c ∷ s)
        else if starts_with (c ∷ s) (codes "http://") || starts_with (c ∷ s) (codes "https://")
        then resolve_absolute_http_socket_url (c ∷ s)
        else if includes (c ∷ s) (codes "://")
        then refused (unsupported_protocol_issue (c ∷ s))
        else resolve_relative_socket_url window (c ∷ s)

    unfoldable pub resolve_socket_url : Option Window → Option Text → UrlResolution
    unfolding resolve_configured
    resolve_socket_url window none = default_socket_url window
    resolve_socket_url window (some env_url) = resolve_configured window (trim env_url)

    -- `resolved` has the URL of the sessions.
    unfoldable pub resolve_session_url_from_socket : Text → UrlResolution
    unfolding derive_sessions_path
    resolve_session_url_from_socket socket_url = elim (api.parse socket_url) [
      | none ↦ refused (
          create_backend_resolution_issue socket_url_invalid_format
            (codes "invalid websocket URL format"))
      | some parsed ↦
          if text_eq (api.protocol parsed) (codes "ws:")
            || text_eq (api.protocol parsed) (codes "wss:")
          then resolved (
              (if text_eq (api.protocol parsed) (codes "wss:")
                then codes "https:"
                else codes "http:")
              ++ codes "//"
              ++ parts.host parsed
              ++ derive_sessions_path (parts.pathname parsed))
          else refused (
              create_backend_resolution_issue socket_url_unsupported_protocol
                (codes "unsupported websocket protocol (" ++ api.protocol parsed ++ codes ")"))
    ]

    unfoldable pub beside_socket : Text → UrlResolution → TerminalBackendResolution
    beside_socket terminal (resolved sessions) =
        endpoints (record { sessions_http_url = sessions; terminal_ws_url = terminal })
    beside_socket terminal (refused i) = issue (
        create_backend_resolution_issue i.code (
          codes "Derived websocket endpoint is invalid: "
          ++ redact_token_in_url_for_notice api terminal
          ++ codes " ("
          ++ i.details
          ++ codes ")"))

    unfoldable pub with_sessions : UrlResolution → TerminalBackendResolution
    unfolding beside_socket
    with_sessions (resolved terminal) =
        beside_socket terminal (resolve_session_url_from_socket terminal)
    with_sessions (refused i) = issue i

    unfoldable pub resolve_terminal_backend_endpoints :
        Option Window → Option Text → TerminalBackendResolution
    unfolding with_sessions
    resolve_terminal_backend_endpoints window env_socket_url =
        with_sessions (resolve_socket_url window env_socket_url)

-- `resolveConfiguredSocketUrl` (terminal-environment.ts): an option, or else what the build has.
unfoldable pub resolve_configured_socket_url : Option Text → Option Text → Option Text
resolve_configured_socket_url none none = none
resolve_configured_socket_url none (some candidate) = elim (trim candidate) [
  | [] ↦ none
  | c ∷ s ↦ some (c ∷ s)
]
resolve_configured_socket_url (some candidate) env = elim (trim candidate) [
  | [] ↦ none
  | c ∷ s ↦ some (c ∷ s)
]
