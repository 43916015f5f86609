-- ===== src/Refresh/Order.antt =====
-- The steps of overlapping requests, and what the calls of the handlers tell of their order.
use wootty.Base.{ℕ, ◌<◌, ◌≡◌, Bool, List, [], ◌∷◌, Option, All}
use wootty.Session.{SessionSnapshot}
use wootty.Session.Payload.{SessionParseResult}
use wootty.Refresh.{
  Trigger, FetchResult, response, rejected, RefreshCall, on_refresh_failure, on_refresh_success,
  on_invalid_entries, Coordinator, initial_coordinator, refresh, outer_abort, fetch_settles,
  timeout_fires, continue_request, finish_request, unmount,
}

abbrev pub caller : RefreshCall → ℕ
caller (on_refresh_failure k f) = k
caller (on_refresh_success k sessions) = k
caller (on_invalid_entries k count) = k

abbrev pub AllBefore : ℕ → List RefreshCall → Type 0
AllBefore k = All (λ c. caller c < k)

-- A request's outcome comes after those of earlier requests only, and a count of invalid entries
-- directly after the sessions of the same request.
abbrev pub Follows : RefreshCall → List RefreshCall → Type 0
Follows (on_invalid_entries k count) earlier =
    (sessions : List SessionSnapshot) × (rest : List RefreshCall) × (earlier
      ≡ on_refresh_success k sessions ∷ rest)
Follows c earlier = AllBefore (caller c) earlier

abbrev pub IsOrdered : List RefreshCall → Type 0
IsOrdered [] = Unit
IsOrdered (c ∷ earlier) = Follows c earlier × IsOrdered earlier

module _ {P : Type 0} (parse : P → Option SessionParseResult) where
  pub data Step (s : Coordinator P) : Coordinator P → Type 0 where
    refreshes :
        (trigger : Trigger) (outer_aborted : Bool) → Step s (refresh trigger outer_aborted s)
    aborts : (k : ℕ) → Step s (outer_abort k s)
    answers : (k : ℕ) (r : FetchResult P) → Step s (fetch_settles k (response r) s)
    rejects : (k : ℕ) (abort_error : Bool) → Step s (fetch_settles k (rejected abort_error) s)
    times_out : (k : ℕ) → Step s (timeout_fires k s)
    continues : (k : ℕ) → Step s (continue_request parse k s)
    finishes : (k : ℕ) → Step s (finish_request k s)
    unmounts : Step s (unmount s)

  pub data Reach : Coordinator P → Type 0 where
    start : Reach (initial_coordinator P)
    next : {s t : Coordinator P} → Reach s → Step s t → Reach t
