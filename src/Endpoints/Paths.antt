-- ===== src/Endpoints/Paths.antt =====
-- The paths of the two endpoints.
use wootty.Base.{
  true, false, [], ◌++◌, Text, codes, length, ltb, text_eq, ◌≡◌, refl, sym, ap, Bool-cases, inl,
  inr, ends_with, slice_end, ends_with-append, slice_end-append, slice_end-ends_with,
  ends_with-last, arith, ◌≤◌, ◌∙◌, length-append,
}
use wootty.Endpoints.{
  sessions_http, terminal_ws, terminal_path_of, derive_terminal_path_from_http_url,
  without_last_slash, derive_sessions_path,
}

derive_sessions_path-append :
    (base : Text) → derive_sessions_path (base ++ terminal_ws) ≡ base ++ sessions_http
unfolding derive_sessions_path
derive_sessions_path-append base =
    rw (ends_with-append base terminal_ws, slice_end-append base terminal_ws) refl

-- A path that is the terminal's beside some base.
abbrev HasBase : Text → Text → Type 0
HasBase path base = path ≡ base ++ terminal_ws

base_of : (path : Text) → (base : Text) × HasBase (terminal_path_of path) base
unfolding terminal_path_of
base_of path = elim (Bool-cases (ends_with path terminal_ws)) [
  | inl e ↦
      (slice_end (length terminal_ws) path, rw e (sym (slice_end-ends_with path terminal_ws e)))
  | inr e ↦ elim (Bool-cases (ends_with path sessions_http)) [
    | inl e' ↦ (slice_end (length sessions_http) path, rw (e, e') refl)
    | inr e' ↦ elim (Bool-cases (text_eq path (codes "/"))) [
      | inl r ↦ ([], rw (e, e', r) refl)
      | inr r ↦ (path, rw (e, e', r) refl)
    ]
  ]
]

-- Whatever path is configured, the terminal's path is some base with "/api/terminal" after it, and
-- the sessions' path that is derived from it is the same base with "/api/sessions" after it.
pub derived_paths_are_siblings :
    (pathname : Text)
    → (base : Text) × (derive_terminal_path_from_http_url pathname ≡ base ++ terminal_ws)
      × (derive_sessions_path (derive_terminal_path_from_http_url pathname) ≡ base ++ sessions_http)
unfolding derive_terminal_path_from_http_url
derived_paths_are_siblings pathname =
    let (base, e) = base_of (without_last_slash pathname) in
    (base, e, ap derive_sessions_path e ∙ derive_sessions_path-append base)

terminal_path_of-terminal :
    (base : Text) → terminal_path_of (base ++ terminal_ws) ≡ base ++ terminal_ws
unfolding terminal_path_of
terminal_path_of-terminal base = rw (ends_with-append base terminal_ws) refl

sessions_end_elsewhere : ends_with sessions_http terminal_ws ≡ false
unfolding ends_with text_eq
sessions_end_elsewhere = refl

terminal_path_of-sessions :
    (base : Text) → terminal_path_of (base ++ sessions_http) ≡ base ++ terminal_ws
unfolding terminal_path_of
terminal_path_of-sessions base =
    rw
      (
        ends_with-last base sessions_http terminal_ws (ground arith),
        sessions_end_elsewhere,
        ends_with-append base sessions_http,
        slice_end-append base sessions_http,
      )
      refl

-- A route, which is not empty and has no slash at its end.
abbrev IsRoute : Text → Type 0
IsRoute route = (1 ≤ length route) × (ends_with route (codes "/") ≡ false)

without_last_slash-route :
    (base route : Text) → IsRoute route → without_last_slash (base ++ route) ≡ base ++ route
unfolding without_last_slash
without_last_slash-route base route (some_, plain) =
    rw (ends_with-last base route (codes "/") some_, plain)
      (elim (Bool-cases (ltb 1 (length (base ++ route)))) [ inl e ↦ rw e refl | inr e ↦ rw e refl ])

without_last_slash-slash :
    (base route : Text)
    → IsRoute route
    → without_last_slash ((base ++ route) ++ codes "/") ≡ base ++ route
unfolding without_last_slash
without_last_slash-slash base route (some_, plain) =
    let long : ltb 1 (length ((base ++ route) ++ codes "/")) ≡ true =
      ground (arith, some_, length-append base route, length-append (base ++ route) (codes "/")) in
    rw
      (
        long,
        ends_with-append (base ++ route) (codes "/"),
        slice_end-append (base ++ route) (codes "/"),
      )
      refl

terminal-IsRoute : IsRoute terminal_ws
unfolding ends_with text_eq
terminal-IsRoute = (ground arith, refl)

sessions-IsRoute : IsRoute sessions_http
unfolding ends_with text_eq
sessions-IsRoute = (ground arith, refl)

-- The terminal's path that is derived of a path is the base's, and the sessions' path that is
-- derived of that one is the base's, too.
abbrev pub Derives : (path base : Text) → Type 0
Derives path base =
    (derive_terminal_path_from_http_url path ≡ base ++ terminal_ws)
    × (derive_sessions_path (derive_terminal_path_from_http_url path) ≡ base ++ sessions_http)

derived :
    (path base : Text)
    → derive_terminal_path_from_http_url path ≡ base ++ terminal_ws
    → Derives path base
derived path base e = (e, ap derive_sessions_path e ∙ derive_sessions_path-append base)

-- Whether the path of a configured http address, or of one that is relative to the page, is that of
-- the terminal or of the sessions of a base, with or without a slash after it: the terminal's path
-- that is derived is the base's, and so is the sessions' path that is derived of it.
pub derived_paths_keep_base :
    (base : Text)
    → Derives (base ++ terminal_ws) base
      × Derives ((base ++ terminal_ws) ++ codes "/") base
      × Derives (base ++ sessions_http) base
      × Derives ((base ++ sessions_http) ++ codes "/") base
unfolding derive_terminal_path_from_http_url
derived_paths_keep_base base = (
  derived (base ++ terminal_ws) base (
      ap terminal_path_of (without_last_slash-route base terminal_ws terminal-IsRoute)
      ∙ terminal_path_of-terminal base),
  derived ((base ++ terminal_ws) ++ codes "/") base (
      ap terminal_path_of (without_last_slash-slash base terminal_ws terminal-IsRoute)
      ∙ terminal_path_of-terminal base),
  derived (base ++ sessions_http) base (
      ap terminal_path_of (without_last_slash-route base sessions_http sessions-IsRoute)
      ∙ terminal_path_of-sessions base),
  derived ((base ++ sessions_http) ++ codes "/") base (
      ap terminal_path_of (without_last_slash-slash base sessions_http sessions-IsRoute)
      ∙ terminal_path_of-sessions base),
)
