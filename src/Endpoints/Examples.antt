-- ===== src/Endpoints/Examples.antt =====
-- Runs on concrete addresses, with parsers that tell schemes apart and find one parameter.
use wootty.Base.{
  slice_end, ends_with, Bool, true, false, ◌&&◌, [], ◌∷◌, ◌++◌, Option, none, some, Text, codes,
  text_eq, ◌≡◌, refl, starts_with, starts_with-split, drop, if◌then◌else◌, ◌==◌, Bool-cases, inl,
  inr, arith, trim,
}
use wootty.Sanitization.{UrlApi}
use wootty.Endpoints.{
  resolve_socket_url, resolve_session_url_from_socket, resolve_absolute_http_socket_url, UrlParts,
  Window, resolve_terminal_backend_endpoints, derive_sessions_path, endpoints,
}
use wootty.Endpoints.Auth.{
  SearchParams, AuthRequest, AuthAnswer, answered, bootstrap_browser_auth,
  read_auth_token_from_window_hash, token_key,
}
use wootty.Endpoints.AuthLaws.{KeepsKeys, bootstrap_browser_auth_strips}
use wootty.Endpoints.Security.{
  ReadsSchemes, ws_name, http_name, IsSecured, is_secure,
  resolve_terminal_backend_endpoints-IsSecured,
}
use wootty.Endpoints.Paths.{Derives, derived_paths_keep_base}

scheme_of : Text → Text
scheme_of [] = []
scheme_of (c ∷ s) = if c == b':' then c ∷ [] else c ∷ scheme_of s

abbrev after_slashes : Text → Text
after_slashes [] = []
after_slashes (c ∷ s) = if c == b'/' then drop 1 s else after_slashes s

host_of : Text → Text
host_of [] = []
host_of (c ∷ s) = if c == b'/' then [] else c ∷ host_of s

path_of : Text → Text
path_of [] = []
path_of (c ∷ s) = if c == b'/' then c ∷ s else path_of s

abbrev urls : UrlApi Text
urls = record {
  parse = λ s. some s;
  protocol = scheme_of;
  has_token = λ _. false;
  set_token = λ u t. u;
  to_text = λ u. u;
}

abbrev url_parts : UrlParts Text
url_parts = record {
  parse_relative = λ p b. some (b ++ p);
  host = λ u. host_of (after_slashes u);
  pathname = λ u. path_of (after_slashes u);
  search = λ _. [];
  set_pathname = λ u p. scheme_of u ++ codes "//" ++ host_of (after_slashes u) ++ p;
  set_search = λ u _. u;
  set_hash = λ u _. u;
}

scheme_found :
    (name s u rest : Text)
    → s ≡ name ++ codes "//" ++ rest
    → some s ≡ some u
    → scheme_of (name ++ codes "//" ++ rest) ≡ name
    → scheme_of u ≡ name
scheme_found name s u rest e p h = ground (arith, e, p, h)

ws_scheme : (b : Bool) (rest : Text) → scheme_of (ws_name b ++ codes "//" ++ rest) ≡ ws_name b
unfolding scheme_of
ws_scheme true rest = refl
ws_scheme false rest = refl

http_scheme : (b : Bool) (rest : Text) → scheme_of (http_name b ++ codes "//" ++ rest) ≡ http_name b
unfolding scheme_of
http_scheme true rest = refl
http_scheme false rest = refl

urls_read_schemes : ReadsSchemes urls
unfolding scheme_of
urls_read_schemes = record {
  ws = λ b s u h p.
      let (rest, e) = starts_with-split s (ws_name b ++ codes "//") h in
      scheme_found (ws_name b) s u rest e p (ws_scheme b rest);
  http = λ b s u h p.
      let (rest, e) = starts_with-split s (http_name b ++ codes "//") h in
      scheme_found (http_name b) s u rest e p (http_scheme b rest);
}

abbrev page : Window
page = record {
  protocol = codes "https:";
  host = codes "h:1";
  pathname = codes "/ui";
  search = codes "?x";
  hash = codes "#token= s3 ";
}

resolve_terminal_backend_endpoints-IsSecured_example :
    IsSecured (is_secure (some page) (some (codes "http://a/b/api/sessions/"))) (
      resolve_terminal_backend_endpoints urls url_parts
        (some page)
        (some (codes "http://a/b/api/sessions/")))
resolve_terminal_backend_endpoints-IsSecured_example =
    resolve_terminal_backend_endpoints-IsSecured urls url_parts urls_read_schemes (some page)
      (some (codes "http://a/b/api/sessions/"))

derived_paths_keep_base_example :
    Derives (codes "/b/api/terminal") (codes "/b")
    × Derives (codes "/b/api/terminal/") (codes "/b")
    × Derives (codes "/b/api/sessions") (codes "/b")
    × Derives (codes "/b/api/sessions/") (codes "/b")
derived_paths_keep_base_example = derived_paths_keep_base (codes "/b")

-- A path of a terminal that is taken as it is, with a slash, loses its base.
slash_loses_base : derive_sessions_path (codes "/b/api/terminal/") ≡ codes "/api/sessions"
unfolding derive_sessions_path ends_with text_eq
slash_loses_base = refl

-- One parameter, which may be the token.
is_some : Option Text → Bool
is_some none = false
is_some (some t) = true

abbrev one_param : SearchParams (Option Text)
unfolding is_some
one_param = record {
  read = λ t. if starts_with t (codes "token=") then some (drop 6 t) else none;
  get = λ p key. if text_eq key token_key then p else none;
  has = λ p key. text_eq key token_key && is_some p;
  delete = λ p key. if text_eq key token_key then none else p;
  to_text = λ p. elim p [ none ↦ [] | some t ↦ codes "token=" ++ t ];
}

one_param-KeepsKeys : KeepsKeys one_param
unfolding starts_with is_some
one_param-KeepsKeys = record {
  deleted =
      λ p key. elim (Bool-cases (text_eq key token_key)) [ inl e ↦ rw e refl | inr e ↦ rw e refl ];
  found = λ p key value h. elim (Bool-cases (text_eq key token_key)) [
    | inl e ↦ let same : p ≡ some value = ground (arith, e, h) in rw (e, same) refl
    | inr e ↦ ground (arith, e, h)
  ];
}

-- A server that takes the token of the page.
abbrev accepts : AuthRequest → AuthAnswer
accepts r = answered (text_eq r.token (codes "s3")) 204

bootstrap_browser_auth_strips_example :
    (url : Text) × ((bootstrap_browser_auth urls url_parts one_param accepts
        (some page)
        none).replaced_with
      ≡ some url)
unfolding bootstrap_browser_auth read_auth_token_from_window_hash starts_with one_param text_eq trim
    resolve_terminal_backend_endpoints resolve_socket_url resolve_session_url_from_socket scheme_of
bootstrap_browser_auth_strips_example =
    bootstrap_browser_auth_strips urls url_parts one_param accepts one_param-KeepsKeys page none
      (codes "s3") refl refl

endpoints_of_a_base :
    resolve_terminal_backend_endpoints urls url_parts none
      (some (codes " https://a/b/api/sessions/"))
    ≡ endpoints (record {
      terminal_ws_url = codes "wss://a/b/api/terminal";
      sessions_http_url = codes "https://a/b/api/sessions";
    })
unfolding resolve_terminal_backend_endpoints resolve_socket_url trim starts_with
    resolve_absolute_http_socket_url resolve_session_url_from_socket text_eq scheme_of host_of
    ends_with path_of slice_end
endpoints_of_a_base = refl
