-- ===== src/Endpoints/Auth.antt =====
-- The exchange of the token in the page's address for a cookie
-- (apps/web/src/features/terminal/bootstrap/auth-bootstrap.ts), over `URLSearchParams` and `fetch`
-- as parameters.
use wootty.Base.{
  ℕ, Bool, true, false, [], ◌∷◌, ◌++◌, List, Option, none, some, Text, codes, length, trim, decimal,
  if◌then◌else◌, starts_with, ends_with, slice_end, drop,
}
use wootty.Sanitization.{UrlApi}
use wootty.Endpoints.{
  UrlParts, Window, sessions_http, resolve_terminal_backend_endpoints, TerminalBackendResolution,
  endpoints, issue,
}

pub record SearchParams (P : Type 0) : Type 0 where
  -- `new URLSearchParams(text)`
  pub read : Text → P
  pub get : P → Text → Option Text
  pub has : P → Text → Bool
  pub delete : P → Text → P
  pub to_text : P → Text

-- The POST with the header `Authorization: Bearer ${token}`.
pub record AuthRequest : Type 0 where
  pub url : Text
  pub token : Text

pub data AuthAnswer : Type 0 where
  rejected : AuthAnswer
  answered : (ok : Bool) → (status : ℕ) → AuthAnswer

pub data AuthOutcome : Type 0 where
  done : AuthOutcome
  -- an `Error` of the source with its message
  failed : Text → AuthOutcome
  -- what `new URL` or `fetch` throws
  threw : AuthOutcome

pub record AuthRun : Type 0 where
  pub outcome : AuthOutcome
  pub requests : List AuthRequest
  -- the URL that `history.replaceState` is called with
  pub replaced_with : Option Text

abbrev pub token_key : Text
token_key = codes "token"

unfoldable pub normalize_auth_token : Option Text → Option Text
normalize_auth_token none = none
normalize_auth_token (some token) = elim (trim token) [ [] ↦ none | c ∷ s ↦ some (c ∷ s) ]

unfoldable pub raw_hash : Window → Text
raw_hash window = if starts_with window.hash (codes "#") then drop 1 window.hash else window.hash

module _ {P : Type 0} (params : SearchParams P) where
  unfoldable pub token_in : Text → Option Text
  unfolding normalize_auth_token
  token_in [] = none
  token_in (c ∷ s) = normalize_auth_token (params.get (params.read (c ∷ s)) token_key)

  unfoldable pub read_auth_token_from_window_hash : Option Window → Option Text
  unfolding token_in raw_hash
  read_auth_token_from_window_hash none = none
  read_auth_token_from_window_hash (some window) = token_in (raw_hash window)

  abbrev hash_part : Text → Text
  hash_part [] = []
  hash_part (c ∷ s) = b'#' ∷ c ∷ s

  unfoldable pub stripped_url : Window → P → Text
  stripped_url window kept = window.pathname ++ window.search ++ hash_part (params.to_text kept)

  unfoldable pub strip_from : Window → Text → Option Text
  unfolding stripped_url
  strip_from window [] = none
  strip_from window (c ∷ s) =
      let p = params.read (c ∷ s) in
      if params.has p token_key
      then some (stripped_url window (params.delete p token_key))
      else none

  -- `none` where the history is left alone.
  unfoldable pub strip_auth_token_from_window_hash : Window → Option Text
  unfolding strip_from raw_hash
  strip_auth_token_from_window_hash window = strip_from window (raw_hash window)

abbrev pub auth_bootstrap_http_route : Text
auth_bootstrap_http_route = codes "/api/auth/bootstrap"

unfoldable pub auth_path : Text → Text
auth_path pathname =
    if ends_with pathname sessions_http
    then slice_end (length sessions_http) pathname ++ auth_bootstrap_http_route
    else auth_bootstrap_http_route

module _ {U : Type 0} (api : UrlApi U) (parts : UrlParts U) where
  -- `none` where `new URL` throws.
  unfoldable pub derive_auth_bootstrap_url_from_sessions : Text → Option Text
  unfolding auth_path
  derive_auth_bootstrap_url_from_sessions sessions = elim (api.parse sessions) [
    | none ↦ none
    | some parsed ↦
        let moved = parts.set_pathname parsed (auth_path (parts.pathname parsed)) in
        some (api.to_text (parts.set_hash (parts.set_search moved []) []))
  ]

  module _ {P : Type 0} (params : SearchParams P) (fetch : AuthRequest → AuthAnswer) where
    unfoldable pub after_answer : Window → AuthRequest → AuthAnswer → AuthRun
    unfolding strip_auth_token_from_window_hash
    after_answer window request rejected = record {
      outcome = threw;
      requests = request ∷ [];
      replaced_with = none;
    }
    after_answer window request (answered true status) = record {
      outcome = done;
      requests = request ∷ [];
      replaced_with = strip_auth_token_from_window_hash params window;
    }
    after_answer window request (answered false status) = record {
      outcome = failed (codes "terminal auth bootstrap failed with status " ++ decimal status);
      requests = request ∷ [];
      replaced_with = none;
    }

    abbrev pub without_request : AuthOutcome → AuthRun
    without_request outcome = record { outcome = outcome; requests = []; replaced_with = none }

    unfoldable pub send_token : Window → Text → Option Text → AuthRun
    unfolding after_answer
    send_token window token none = without_request threw
    send_token window token (some url) =
        let request : AuthRequest = record { url = url; token = token } in
        after_answer window request (fetch request)

    unfoldable pub exchange_token : Window → Text → TerminalBackendResolution → AuthRun
    unfolding send_token derive_auth_bootstrap_url_from_sessions
    exchange_token window token (issue i) =
        without_request (failed (codes "terminal auth bootstrap failed: " ++ i.details))
    exchange_token window token (endpoints e) =
        send_token window token (derive_auth_bootstrap_url_from_sessions e.sessions_http_url)

    unfoldable pub bootstrap_with : Option Window → Option Text → Option Text → AuthRun
    unfolding exchange_token
    bootstrap_with none env_socket_url token = without_request done
    bootstrap_with (some window) env_socket_url none = without_request done
    bootstrap_with (some window) env_socket_url (some token) =
        exchange_token window token
          (resolve_terminal_backend_endpoints api parts (some window) env_socket_url)

    unfoldable pub bootstrap_browser_auth : Option Window → Option Text → AuthRun
    unfolding bootstrap_with read_auth_token_from_window_hash
    bootstrap_browser_auth window env_socket_url =
        bootstrap_with window env_socket_url (read_auth_token_from_window_hash params window)
