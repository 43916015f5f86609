-- ===== src/Endpoints/Security.antt =====
-- An encrypted page or address leads to encrypted endpoints only, and a plain one to plain ones.
use wootty.Base.{
  ℕ, Bool, true, false, ◌||◌, [], ◌∷◌, ◌++◌, Option, none, some, Text, codes, text_eq, ◌≡◌, refl,
  sym, ap, Bool-cases, Option-cases, inl, inr, if◌then◌else◌, starts_with, starts_with-append,
  starts_with-split, ◌∙◌, trim, trim-Solid, trim_end, trim_start, ◌≢◌, subst, Solid, append_assoc,
  includes,
}
use mathlib.Core.List.{cons≢nil}
use wootty.Sanitization.{UrlApi}
use wootty.Transport.Bootstrap.{validate_websocket_endpoint, validate_normalized}
use wootty.Endpoints.{
  UrlParts, Window, terminal_ws, UrlResolution, resolved, refused, TerminalBackendResolution,
  endpoints, issue, BackendResolutionIssue, derive_sessions_path, socket_url_unsupported_protocol,
  ws_protocol, default_socket_url, resolve_absolute_ws_socket_url, of_validation,
  derive_terminal_path_from_http_url, resolve_absolute_http_socket_url, resolve_relative_socket_url,
  resolve_configured, resolve_socket_url, beside_socket, with_sessions,
  resolve_session_url_from_socket, resolve_terminal_backend_endpoints,
}

abbrev pub ws_name : Bool → Text
ws_name true = codes "wss:"
ws_name false = codes "ws:"

abbrev pub http_name : Bool → Text
http_name true = codes "https:"
http_name false = codes "http:"

abbrev pub page_security : Option Window → Bool
page_security none = false
page_security (some window) = text_eq window.protocol (codes "https:")

-- Whether the endpoints are meant to be encrypted: as the address says, or else as the page is.
abbrev pub address_security : Option Window → Text → Bool
address_security window s =
    if starts_with s (codes "wss://") || starts_with s (codes "https://")
    then true
    else if starts_with s (codes "ws://") || starts_with s (codes "http://")
    then false
    else page_security window

abbrev pub is_secure : Option Window → Option Text → Bool
is_secure window none = page_security window
is_secure window (some env_url) = address_security window (trim env_url)

-- What the parser of URLs says of the schemes of addresses that it accepts.
pub record ReadsSchemes {U : Type 0} (api : UrlApi U) : Type 0 where
  pub ws :
      (secure : Bool) (s : Text) (u : U)
      → starts_with s (ws_name secure ++ codes "//") ≡ true
      → api.parse s ≡ some u
      → api.protocol u ≡ ws_name secure
  pub http :
      (secure : Bool) (s : Text) (u : U)
      → starts_with s (http_name secure ++ codes "//") ≡ true
      → api.parse s ≡ some u
      → api.protocol u ≡ http_name secure

-- A resolved address has the scheme; a refusal is not for the scheme of a derived one.
abbrev Begins : Text → UrlResolution → Type 0
Begins scheme (resolved url) = starts_with url (scheme ++ codes "//") ≡ true
Begins scheme (refused i) = i.code ≢ socket_url_unsupported_protocol

abbrev pub IsSecured : Bool → TerminalBackendResolution → Type 0
IsSecured secure (endpoints e) =
    (starts_with e.terminal_ws_url (ws_name secure ++ codes "//") ≡ true)
    × (starts_with e.sessions_http_url (http_name secure ++ codes "//") ≡ true)
IsSecured secure (issue i) = i.code ≢ socket_url_unsupported_protocol

ws_protocol_name :
    (protocol : Text) → ws_protocol protocol ≡ ws_name (text_eq protocol (codes "https:"))
ws_protocol_name protocol = elim (Bool-cases (text_eq protocol (codes "https:"))) [
  | inl e ↦ rw e refl
  | inr e ↦ rw e refl
]

scheme_first :
    (protocol tail : Text)
    → starts_with
        ((ws_protocol protocol ++ codes "//") ++ tail)
        (ws_name (text_eq protocol (codes "https:")) ++ codes "//")
      ≡ true
scheme_first protocol tail =
    rw (← (ws_protocol_name protocol))
      (starts_with-append (ws_protocol protocol ++ codes "//") tail)

ws_protocol-Begins :
    (protocol host x y : Text)
    → Begins
        (ws_name (text_eq protocol (codes "https:")))
        (resolved (ws_protocol protocol ++ codes "//" ++ host ++ x ++ y))
ws_protocol-Begins protocol host x y =
    let n = ws_protocol protocol ++ codes "//" in
    rw (append_assoc (n ++ host) x y, append_assoc n host (x ++ y))
      (scheme_first protocol (host ++ (x ++ y)))

default_socket_url-Begins :
    (window : Option Window) → Begins (ws_name (page_security window)) (default_socket_url window)
unfolding default_socket_url
default_socket_url-Begins none = λ e. absurd (cc)
default_socket_url-Begins (some window) =
    rw (append_assoc (ws_protocol window.protocol ++ codes "//") window.host terminal_ws)
      (scheme_first window.protocol (window.host ++ terminal_ws))

scheme-Solid : (secure : Bool) → Solid (ws_name secure ++ codes "//")
scheme-Solid true = (λ e. cons≢nil e, (refl, (refl, (refl, (refl, (refl, (refl, tt)))))))
scheme-Solid false = (λ e. cons≢nil e, (refl, (refl, (refl, (refl, (refl, tt))))))

trim_scheme :
    (secure : Bool) (s rest : Text)
    → s ≡ (ws_name secure ++ codes "//") ++ rest
    → trim s ≡ (ws_name secure ++ codes "//") ++ trim_end rest
unfolding trim_start
trim_scheme secure s rest e =
    ap trim e ∙ trim-Solid [] (ws_name secure ++ codes "//") rest (scheme-Solid secure)

-- A text has one scheme.
ws_only :
    (s : Text) → starts_with s (codes "ws://") ≡ true → starts_with s (codes "https://") ≡ false
unfolding starts_with
ws_only s h =
    let (rest, e) = starts_with-split s (codes "ws://") h in
    subst (λ t. starts_with t (codes "https://") ≡ false) (sym e) refl

ws_not_wss :
    (s : Text) → starts_with s (codes "ws://") ≡ true → starts_with s (codes "wss://") ≡ false
unfolding starts_with
ws_not_wss s h =
    let (rest, e) = starts_with-split s (codes "ws://") h in
    subst (λ t. starts_with t (codes "wss://") ≡ false) (sym e) refl

https_not_http :
    (s : Text) → starts_with s (codes "https://") ≡ true → starts_with s (codes "http://") ≡ false
unfolding starts_with
https_not_http s h =
    let (rest, e) = starts_with-split s (codes "https://") h in
    subst (λ t. starts_with t (codes "http://") ≡ false) (sym e) refl

session_scheme :
    (secure : Bool) (host path : Text) (i : BackendResolutionIssue)
    → Begins (http_name secure) (
        if text_eq (ws_name secure) (codes "ws:") || text_eq (ws_name secure) (codes "wss:")
        then resolved (
            (if text_eq (ws_name secure) (codes "wss:") then codes "https:" else codes "http:")
            ++ codes "//"
            ++ host
            ++ path)
        else refused i)
unfolding text_eq starts_with
session_scheme true host path i = refl
session_scheme false host path i = refl

module _ {U : Type 0} (api : UrlApi U) where
  -- An endpoint that is accepted is the text that was checked.
  of_validation-Begins :
      (secure : Bool) (configured t : Text)
      → starts_with t (ws_name secure ++ codes "//") ≡ true
      → Begins (ws_name secure) (of_validation api configured (validate_normalized api t))
  unfolding validate_normalized
  of_validation-Begins secure configured [] h = λ e. absurd (cc)
  of_validation-Begins secure configured (c ∷ s) h = elim (Option-cases (api.parse (c ∷ s))) [
    | inl e ↦ rw (Begins, of_validation, validate_normalized, e) (λ e. absurd (cc))
    | inr (u, e) ↦
        rw (Begins, of_validation, validate_normalized, e)
          (elim (Bool-cases
            (text_eq (api.protocol u) (codes "ws:") || text_eq (api.protocol u) (codes "wss:"))) [
              | inl e' ↦ rw e' h
              | inr e' ↦ rw e' (λ e. absurd (cc))
            ])
  ]

  resolve_absolute_ws_socket_url-Begins :
      (secure : Bool) (configured : Text)
      → starts_with configured (ws_name secure ++ codes "//") ≡ true
      → Begins (ws_name secure) (resolve_absolute_ws_socket_url api configured)
  unfolding resolve_absolute_ws_socket_url validate_websocket_endpoint
  resolve_absolute_ws_socket_url-Begins secure configured h =
      let (rest, e) = starts_with-split configured (ws_name secure ++ codes "//") h in
      of_validation-Begins secure configured (trim configured) (
        rw (trim_scheme secure configured rest e)
          (starts_with-append (ws_name secure ++ codes "//") (trim_end rest)))

  module _ (parts : UrlParts U) (law : ReadsSchemes api) where
    http_protocol_security : (secure : Bool) → text_eq (http_name secure) (codes "https:") ≡ secure
    unfolding text_eq
    http_protocol_security true = refl
    http_protocol_security false = refl

    resolve_absolute_http_socket_url-Begins :
        (secure : Bool) (configured : Text)
        → starts_with configured (http_name secure ++ codes "//") ≡ true
        → Begins (ws_name secure) (resolve_absolute_http_socket_url api parts configured)
    unfolding resolve_absolute_http_socket_url
    resolve_absolute_http_socket_url-Begins secure configured h =
        elim (Option-cases (api.parse configured)) [
          | inl e ↦ rw (Begins, e) (λ e. absurd (cc))
          | inr (u, e) ↦
              let same : text_eq (api.protocol u) (codes "https:") ≡ secure =
                ap (λ p. text_eq p (codes "https:")) (law.http secure configured u h e)
                ∙ http_protocol_security secure in
              rw (Begins, e)
                (subst
                  (λ b. Begins (ws_name b) (
                    resolved (
                      ws_protocol (api.protocol u)
                      ++ codes "//"
                      ++ parts.host u
                      ++ derive_terminal_path_from_http_url (parts.pathname u)
                      ++ parts.search u)))
                  same
                  (ws_protocol-Begins (api.protocol u) (parts.host u)
                    (derive_terminal_path_from_http_url (parts.pathname u)) (parts.search u)))
        ]

    resolve_relative_socket_url-Begins :
        (window : Option Window) (configured : Text)
        → Begins
            (ws_name (page_security window))
            (resolve_relative_socket_url api parts window configured)
    unfolding resolve_relative_socket_url
    resolve_relative_socket_url-Begins none configured = λ e. absurd (cc)
    resolve_relative_socket_url-Begins (some window) configured =
        elim (Option-cases (
          parts.parse_relative
            (if starts_with configured (codes "/") then configured else b'/' ∷ configured)
            (window.protocol ++ codes "//" ++ window.host))) [
              | inl e ↦ rw (Begins, e) (λ e. absurd (cc))
              | inr (u, e) ↦
                  rw (Begins, e)
                    (ws_protocol-Begins window.protocol window.host
                      (derive_terminal_path_from_http_url (parts.pathname u)) (parts.search u))
            ]

    -- The code's choice by the scheme and the choice of the security agree.
    configured-Begins :
        (window : Option Window) (c : ℕ) (t : Text)
        → Begins
            (ws_name (address_security window (c ∷ t)))
            (resolve_configured api parts window (c ∷ t))
    unfolding resolve_configured
    configured-Begins window c t =
        let s = c ∷ t in
        let meant =
          λ (b : Bool) (e : address_security window s ≡ b)
              (h : Begins (ws_name b) (resolve_configured api parts window s)).
            subst (λ b. Begins (ws_name b) (resolve_configured api parts window s)) (sym e) h in
        elim (Bool-cases (starts_with s (codes "wss://"))) [
          | inl wss ↦
              let w : starts_with s (codes "ws://") ≡ false =
                elim (Bool-cases (starts_with s (codes "ws://"))) [
                  | inl w ↦ absurd (cc (wss, ws_not_wss s w))
                  | inr w ↦ w
                ] in
              meant true (rw wss refl)
                (rw (Begins, wss, w) (resolve_absolute_ws_socket_url-Begins true s wss))
          | inr wss ↦ elim (Bool-cases (starts_with s (codes "ws://"))) [
            | inl w ↦
                meant false (rw (wss, w, ws_only s w) refl)
                  (rw (Begins, wss, w) (resolve_absolute_ws_socket_url-Begins false s w))
            | inr w ↦ elim (Bool-cases (starts_with s (codes "https://"))) [
              | inl https ↦ meant true (rw (wss, https) refl) (
                  rw (Begins, wss, w, https, https_not_http s https)
                    (resolve_absolute_http_socket_url-Begins true s https))
              | inr https ↦ elim (Bool-cases (starts_with s (codes "http://"))) [
                | inl http ↦ meant false (rw (wss, https, w, http) refl) (
                    rw (Begins, wss, w, https, http)
                      (resolve_absolute_http_socket_url-Begins false s http))
                | inr http ↦
                    meant (page_security window) (rw (wss, https, w, http) refl)
                      (elim (Bool-cases (includes s (codes "://"))) [
                        | inl odd ↦ rw (Begins, wss, w, https, http, odd) (λ e. absurd (cc))
                        | inr odd ↦
                            rw (Begins, wss, w, https, http, odd)
                              (resolve_relative_socket_url-Begins window s)
                      ])
              ]
            ]
          ]
        ]

    resolve_configured-Begins :
        (window : Option Window) (s : Text)
        → Begins (ws_name (address_security window s)) (resolve_configured api parts window s)
    unfolding resolve_configured starts_with
    resolve_configured-Begins window [] = default_socket_url-Begins window
    resolve_configured-Begins window (c ∷ t) = configured-Begins window c t

    resolve_socket_url-Begins :
        (window : Option Window) (env_url : Option Text)
        → Begins (ws_name (is_secure window env_url)) (resolve_socket_url api parts window env_url)
    unfolding resolve_socket_url
    resolve_socket_url-Begins window none = default_socket_url-Begins window
    resolve_socket_url-Begins window (some env_url) =
        resolve_configured-Begins window (trim env_url)

    -- The URL of the sessions beside a socket's URL.
    resolve_session_url_from_socket-Begins :
        (secure : Bool) (url : Text)
        → starts_with url (ws_name secure ++ codes "//") ≡ true
        → Begins (http_name secure) (resolve_session_url_from_socket api parts url)
    unfolding resolve_session_url_from_socket
    resolve_session_url_from_socket-Begins secure url h = elim (Option-cases (api.parse url)) [
      | inl e ↦ rw (Begins, e) (λ e. absurd (cc))
      | inr (u, e) ↦
          rw (Begins, e, law.ws secure url u h e)
            (session_scheme secure (parts.host u) (derive_sessions_path (parts.pathname u)) _)
    ]

    beside :
        (secure : Bool) (url : Text) (r : UrlResolution)
        → starts_with url (ws_name secure ++ codes "//") ≡ true
        → Begins (http_name secure) r
        → IsSecured secure (beside_socket api parts url r)
    unfolding beside_socket
    beside secure url (resolved sessions) h k = (h, k)
    beside secure url (refused i) h k = k

    of_socket :
        (secure : Bool) (r : UrlResolution)
        → Begins (ws_name secure) r
        → IsSecured secure (with_sessions api parts r)
    unfolding with_sessions
    of_socket secure (resolved url) h =
        beside secure url (resolve_session_url_from_socket api parts url) h
          (resolve_session_url_from_socket-Begins secure url h)
    of_socket secure (refused i) h = h

    -- For a parser of URLs that finds the scheme which a text begins with: when the endpoints are
    -- found, the socket's URL has the scheme "wss:" and the sessions' URL
    -- "https:" if the trimmed configuration begins with "wss://" or "https://", or else, if it does
    -- not begin with "ws://" or "http://" either, the page has the protocol "https:"; in all other
    -- cases they have "ws:" and "http:". A failure is never that the protocol of the socket's URL
    -- which is derived is not supported.
    pub resolve_terminal_backend_endpoints-IsSecured :
        (window : Option Window) (env_url : Option Text)
        → IsSecured
            (is_secure window env_url)
            (resolve_terminal_backend_endpoints api parts window env_url)
    unfolding resolve_terminal_backend_endpoints with_sessions
    resolve_terminal_backend_endpoints-IsSecured window env_url =
        of_socket (is_secure window env_url) (resolve_socket_url api parts window env_url)
          (resolve_socket_url-Begins window env_url)
