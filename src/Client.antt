-- ===== src/Client.antt =====
-- The request for the sessions (apps/web/src/features/terminal/bootstrap/sessions-client.ts).
-- `fetch` and `JSON.parse` are parameters, given by what they answer.
mod Examples
use wootty.Base.{
  ℕ, Bool, true, false, List, [], ◌∷◌, Option, none, some, Text, trim, ◌≡◌, ◌≢◌, refl, ◌⊎◌, ◌∙◌,
  sym, inl, inr,
}
use wootty.Protocol.ServerMessages.{Json}
use wootty.Session.Payload.{SessionsPayload, no_payload, envelope, parse_sessions_response}
use wootty.Session.PayloadLaws.{IsAccounted, parse_sessions_response-IsAccounted}
use wootty.Refresh.{
  FetchResult, fetched, not_fetched, RefreshFailure, http_error, json_parse_error, network_error,
  request_aborted,
}
use wootty.Persistence.{Tried, threw, returned}

-- What `fetch` and `text` settle with: a refused answer is read no further.
pub data Fetched : Type 0 where
  answered : (ok : Bool) (status : ℕ) (body : Text) → Fetched
  rejected : (abort_error : Bool) → Fetched

abbrev pub of_envelope : Tried SessionsPayload → FetchResult SessionsPayload
of_envelope threw = not_fetched json_parse_error
of_envelope (returned no_payload) = not_fetched json_parse_error
of_envelope (returned (envelope none)) = not_fetched json_parse_error
of_envelope (returned (envelope (some entries))) = fetched (envelope (some entries))

abbrev pub of_body : (Text → Tried SessionsPayload) → Text → Text → FetchResult SessionsPayload
of_body json_parse [] body = fetched (envelope (some []))
of_body json_parse (c ∷ trimmed) body = of_envelope (json_parse body)

unfoldable pub fetch_sessions :
    (Text → Tried SessionsPayload) → Fetched → FetchResult SessionsPayload
unfolding trim
fetch_sessions json_parse (answered true status body) = of_body json_parse (trim body) body
fetch_sessions json_parse (answered false status body) = not_fetched (http_error status)
fetch_sessions json_parse (rejected true) = not_fetched request_aborted
fetch_sessions json_parse (rejected false) = not_fetched network_error

-- When a body is an array of entries: a blank one stands for none.
abbrev pub HasEntries : (Text → Tried SessionsPayload) → Text → List Json → Type 0
HasEntries json_parse body entries =
    ((trim body ≡ []) × (entries ≡ []))
    ⊎ ((trim body ≢ []) × (json_parse body ≡ returned (envelope (some entries))))

-- What a request may end with: the entries of an accepted body, of which the parser makes their
-- sessions, or the failure that names what went wrong.
abbrev pub IsAnswer :
    (Text → Tried SessionsPayload) → Fetched → FetchResult SessionsPayload → Type 0
IsAnswer json_parse (answered true status body) (fetched payload) =
    (entries : List Json) × (payload ≡ envelope (some entries))
    × HasEntries json_parse body entries
    × IsAccounted entries (parse_sessions_response payload)
IsAnswer json_parse (answered true status body) (not_fetched failure) =
    (failure ≡ json_parse_error) × ((entries : List Json) → ¬ HasEntries json_parse body entries)
IsAnswer json_parse (answered false status body) r = r ≡ not_fetched (http_error status)
IsAnswer json_parse (rejected true) r = r ≡ not_fetched request_aborted
IsAnswer json_parse (rejected false) r = r ≡ not_fetched network_error

no_entries :
    (json_parse : Text → Tried SessionsPayload) (body : Text) (r : Tried SessionsPayload)
    → trim body ≢ []
    → json_parse body ≡ r
    → ((entries : List Json) → r ≢ returned (envelope (some entries)))
    → (entries : List Json) → ¬ HasEntries json_parse body entries
no_entries json_parse body r n e other entries (inl h) = n h.0
no_entries json_parse body r n e other entries (inr h) = other entries (sym e ∙ h.1)

envelope-IsAnswer :
    (json_parse : Text → Tried SessionsPayload) (status : ℕ) (body : Text)
    (r : Tried SessionsPayload)
    → trim body ≢ []
    → json_parse body ≡ r
    → IsAnswer json_parse (answered true status body) (of_envelope r)
envelope-IsAnswer json_parse status body threw n e =
    (refl, no_entries json_parse body threw n e (λ es h. cc h))
envelope-IsAnswer json_parse status body (returned no_payload) n e =
    (refl, no_entries json_parse body (returned no_payload) n e (λ es h. cc h))
envelope-IsAnswer json_parse status body (returned (envelope none)) n e =
    (refl, no_entries json_parse body (returned (envelope none)) n e (λ es h. cc h))
envelope-IsAnswer json_parse status body (returned (envelope (some entries))) n e =
    (entries, refl, inr (n, e), parse_sessions_response-IsAccounted entries)

-- Whatever `fetch` and `JSON.parse` answer: a body that was accepted and is blank, or that
-- `JSON.parse` reads as an object with an array of sessions, is fetched as exactly those entries,
-- and the parser accounts for them; any other accepted body is a parse failure, a refused one
-- fails with its status, and a rejection is an abort or a network error.
pub fetch_sessions-IsAnswer :
    (json_parse : Text → Tried SessionsPayload) (f : Fetched)
    → IsAnswer json_parse f (fetch_sessions json_parse f)
unfolding fetch_sessions
fetch_sessions-IsAnswer json_parse (answered true status body) = go (trim body) refl
  where
    go :
        (trimmed : Text)
        → trim body ≡ trimmed
        → IsAnswer json_parse (answered true status body) (of_body json_parse trimmed body)
    go [] e = ([], refl, inl (e, refl), parse_sessions_response-IsAccounted [])
    go (c ∷ trimmed) e =
        envelope-IsAnswer json_parse status body (json_parse body) (λ h. cc (h, e)) refl
fetch_sessions-IsAnswer json_parse (answered false status body) = refl
fetch_sessions-IsAnswer json_parse (rejected true) = refl
fetch_sessions-IsAnswer json_parse (rejected false) = refl
