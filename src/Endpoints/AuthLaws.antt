-- ===== src/Endpoints/AuthLaws.antt =====
-- The token leaves the page's address exactly when the server has taken it.
use wootty.Base.{
  ℕ, true, false, [], ◌∷◌, Option, none, some, Text, ◌≡◌, refl, ap, Option-cases, inl, inr,
}
use wootty.Sanitization.{UrlApi}
use wootty.Endpoints.{
  UrlParts, Window, resolve_terminal_backend_endpoints, TerminalBackendResolution, endpoints, issue,
}
use wootty.Endpoints.Auth.{
  SearchParams, AuthRequest, AuthAnswer, rejected, answered, done, AuthRun, token_key,
  normalize_auth_token, raw_hash, token_in, read_auth_token_from_window_hash, stripped_url,
  strip_from, strip_auth_token_from_window_hash, derive_auth_bootstrap_url_from_sessions,
  after_answer, send_token, exchange_token, bootstrap_with, bootstrap_browser_auth,
}

-- What `URLSearchParams` does with a key that is deleted, and one that is found.
pub record KeepsKeys {P : Type 0} (params : SearchParams P) : Type 0 where
  pub deleted :
      (p : P) (key : Text)
      → params.has (params.read (params.to_text (params.delete p key))) key ≡ false
  pub found : (p : P) (key value : Text) → params.get p key ≡ some value → params.has p key ≡ true

module _ {P : Type 0} (params : SearchParams P) where
  -- An address without the token: the page's path and query, and a hash that has no token.
  abbrev pub IsStripped : Window → Text → Type 0
  IsStripped window url =
      (kept : P) × (url ≡ stripped_url params window kept)
      × (params.has (params.read (params.to_text kept)) token_key ≡ false)

  module _ (law : KeepsKeys params) where
    -- A hash with a token to read is stripped.
    token_in-strip_from :
        (window : Window) (hash token : Text)
        → token_in params hash ≡ some token
        → (url : Text) × (strip_from params window hash ≡ some url)
    unfolding strip_from token_in normalize_auth_token
    token_in-strip_from window [] token h = absurd (cc)
    token_in-strip_from window (c ∷ s) token h =
        let p = params.read (c ∷ s) in
        elim (Option-cases (params.get p token_key)) [
          | inl e ↦ absurd (cc (h, ap normalize_auth_token e))
          | inr (v, e) ↦ (
            stripped_url params window (params.delete p token_key),
            rw (law.found p token_key v e) refl,
          )
        ]

module _ {U P : Type 0} (api : UrlApi U) (parts : UrlParts U) (params : SearchParams P)
    (fetch : AuthRequest → AuthAnswer) where
  -- One request with the token was sent and accepted, and the page's address has lost the token.
  abbrev pub IsAccepted : Window → Text → Text → AuthRun → Type 0
  IsAccepted window token url run =
      (request : AuthRequest) × (status : ℕ) × (request.token ≡ token)
      × (run.requests ≡ request ∷ [])
      × (fetch request ≡ answered true status)
      × (run.outcome ≡ done)
      × IsStripped params window url

  abbrev after : Window → AuthRequest → AuthAnswer → AuthRun
  after window request a = after_answer api parts params fetch window request a

  module _ (law : KeepsKeys params) where
    after_answer_strips :
        (window : Window) (request : AuthRequest) (a : AuthAnswer)
        → token_in params (raw_hash window) ≡ some request.token
        → (after window request a).outcome ≡ done
        → (url : Text) × ((after window request a).replaced_with ≡ some url)
    unfolding after_answer strip_auth_token_from_window_hash
    after_answer_strips window request rejected f h = absurd (cc)
    after_answer_strips window request (answered true status) f h =
        token_in-strip_from params law window (raw_hash window) request.token f
    after_answer_strips window request (answered false status) f h = absurd (cc)

    send_token_strips :
        (window : Window) (token : Text) (target : Option Text)
        → token_in params (raw_hash window) ≡ some token
        → (send_token api parts params fetch window token target).outcome ≡ done
        → (url : Text) × ((send_token api parts params fetch window token target).replaced_with
            ≡ some url)
    unfolding send_token
    send_token_strips window token none f h = absurd (cc)
    send_token_strips window token (some target) f h =
        let request : AuthRequest = record { url = target; token = token } in
        after_answer_strips window request (fetch request) f h

    exchange_token_strips :
        (window : Window) (token : Text) (r : TerminalBackendResolution)
        → token_in params (raw_hash window) ≡ some token
        → (exchange_token api parts params fetch window token r).outcome ≡ done
        → (url : Text) × ((exchange_token api parts params fetch window token r).replaced_with
            ≡ some url)
    unfolding exchange_token
    exchange_token_strips window token (issue i) f h = absurd (cc)
    exchange_token_strips window token (endpoints e) f h =
        send_token_strips window token
          (derive_auth_bootstrap_url_from_sessions api parts e.sessions_http_url) f h

    bootstrap_with_strips :
        (window : Window) (env : Option Text) (token : Text) (t : Option Text)
        → token_in params (raw_hash window) ≡ t
        → t ≡ some token
        → (bootstrap_with api parts params fetch (some window) env t).outcome ≡ done
        → (url : Text) × ((bootstrap_with api parts params fetch (some window) env t).replaced_with
            ≡ some url)
    unfolding bootstrap_with
    bootstrap_with_strips window env token none e f h = absurd (cc)
    bootstrap_with_strips window env token (some t) e f h =
        exchange_token_strips window t
          (resolve_terminal_backend_endpoints api parts (some window) env) e h

    -- For such parameters, when the hash has a token and the exchange is done, the page's address is replaced.
    pub bootstrap_browser_auth_strips :
        (window : Window) (env : Option Text) (token : Text)
        → read_auth_token_from_window_hash params (some window) ≡ some token
        → (bootstrap_browser_auth api parts params fetch (some window) env).outcome ≡ done
        → (url : Text) × ((bootstrap_browser_auth api parts params fetch
              (some window)
              env).replaced_with
            ≡ some url)
    unfolding bootstrap_browser_auth read_auth_token_from_window_hash
    bootstrap_browser_auth_strips window env token f h =
        bootstrap_with_strips window env token (token_in params (raw_hash window)) refl f h
