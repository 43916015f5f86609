-- ===== src/Refresh.antt =====
-- Requests for the list of sessions (apps/web/src/features/terminal/session/application/
-- session-refresh-coordinator.ts), which overlap: the refs of the hook with the requests that run.
-- A request waits for a race (`racing`), then its continuation runs (`concluded`), and then its
-- `finally` (`finished`); between any two of them other code may run. What a caller is answered
-- stays in the request. Requests are numbered by `requestId`, which also names their controller.
pub mod Order
pub mod Invariant
pub mod Quiet
pub mod Begin
pub mod Conclude
pub mod Finish
pub mod Guarantees
mod Examples
use wootty.Base.{
  ℕ, suc, ◌+◌, Bool, true, false, not, ◌&&◌, ◌||◌, List, [], ◌∷◌, Option, none, some, ltb, ◌==◌,
  if◌then◌else◌,
}
use wootty.Session.{SessionSnapshot}
use wootty.Session.Payload.{ParseFailure, SessionParseResult, parsed, not_parsed}

pub data Trigger : Type 0 where
  poll transport_event manual : Trigger

-- `SessionRefreshFailure`; the causes and issues that are passed on are left out.
pub data RefreshFailure : Type 0 where
  http_error : (status : ℕ) → RefreshFailure
  bootstrap_error json_parse_error network_error : RefreshFailure
  parse_failure : ParseFailure → RefreshFailure
  request_timeout : (timeout_ms : ℕ) → RefreshFailure
  request_aborted request_superseded refresh_pipeline_error : RefreshFailure

-- `SessionsFetchResult`, over what is parsed.
pub data FetchResult (P : Type 0) : Type 0 where
  fetched : P → FetchResult P
  not_fetched : RefreshFailure → FetchResult P

-- What the race settles with: the answer, one of the two tokens, or a rejection, of which the
-- source asks whether it is an `AbortError`.
pub data Outcome (P : Type 0) : Type 0 where
  response : FetchResult P → Outcome P
  aborted_token timeout_token : Outcome P
  rejected : (abort_error : Bool) → Outcome P

-- `none` stands for `{ ok: true }`.
abbrev pub RefreshResult : Type 0
RefreshResult = Option RefreshFailure

pub data Phase (P : Type 0) : Type 0 where
  unused racing : Phase P
  raced : Outcome P → Phase P
  concluded finished : RefreshResult → Phase P

pub record Request (P : Type 0) : Type 0 where
  pub phase : Phase P
  -- `refreshController.signal.aborted` and `timedOut`
  pub aborted : Bool
  pub timed_out : Bool

pub record PendingRefresh : Type 0 where
  pub trigger : Trigger
  pub queued_for : ℕ

-- The calls of the hook's handlers, each by the request that makes it.
pub data RefreshCall : Type 0 where
  on_refresh_failure : ℕ → RefreshFailure → RefreshCall
  on_refresh_success : ℕ → List SessionSnapshot → RefreshCall
  on_invalid_entries : ℕ → (count : ℕ) → RefreshCall

pub record Coordinator (P : Type 0) : Type 0 where
  pub latest_id : ℕ
  pub active : Option ℕ
  pub pending : Option PendingRefresh
  pub requests : ℕ → Request P
  -- the latest first
  pub calls : List RefreshCall

abbrev pub call_timeout_ms : ℕ
call_timeout_ms = 15_000

abbrev pub fresh_request : (P : Type 0) → Request P
fresh_request P = record { phase = unused; aborted = false; timed_out = false }

unfoldable pub initial_coordinator : (P : Type 0) → Coordinator P
initial_coordinator P = record {
  latest_id = 0;
  active = none;
  pending = none;
  requests = λ k. fresh_request P;
  calls = [];
}

abbrev is_manual : Trigger → Bool
is_manual manual = true
is_manual _ = false

abbrev is_silent : RefreshFailure → Bool
is_silent request_aborted = true
is_silent request_superseded = true
is_silent _ = false

unfoldable pub should_notify_refresh_failure : RefreshFailure → Bool
should_notify_refresh_failure f = not (is_silent f)

unfoldable pub coalesce_refresh_trigger : Option Trigger → Trigger → Trigger
coalesce_refresh_trigger current manual = manual
coalesce_refresh_trigger (some manual) next = manual
coalesce_refresh_trigger current transport_event = transport_event
coalesce_refresh_trigger (some transport_event) poll = transport_event
coalesce_refresh_trigger _ poll = poll

-- The trigger of what is pending for a request.
abbrev pub pending_for : Option PendingRefresh → ℕ → Option Trigger
pending_for none k = none
pending_for (some p) k = if p.queued_for == k then some p.trigger else none

abbrev pub kept_pending : Option PendingRefresh → ℕ → Option PendingRefresh
kept_pending none k = none
kept_pending (some p) k = if p.queued_for == k then some p else none

abbrev pub is_busy : Option ℕ → Trigger → Bool
is_busy none trigger = false
is_busy (some k) trigger = not (is_manual trigger)

abbrev pub released : ℕ → Option ℕ → Option ℕ
released k none = none
released k (some j) = if j == k then none else some j

module _ {P : Type 0} where
  abbrev pub put : ℕ → Request P → Coordinator P → Coordinator P
  put k r s = record s { requests = λ j. if j == k then r else s.requests j }

  -- The abort listener of the race; a controller has listeners only while its request runs.
  abbrev pub lose_race : Phase P → Phase P
  lose_race racing = raced aborted_token
  lose_race p = p

  unfoldable pub abort_request : ℕ → Coordinator P → Coordinator P
  abort_request k s =
      let r = s.requests k in put k (record r { phase = lose_race r.phase; aborted = true }) s

  abbrev pub abort_active : Option ℕ → Coordinator P → Coordinator P
  abort_active none s = s
  abort_active (some k) s = abort_request k s

  abbrev pub queue : Trigger → Coordinator P → Coordinator P
  queue trigger s = record s {
    pending = some (record {
      trigger = coalesce_refresh_trigger (pending_for s.pending s.latest_id) trigger;
      queued_for = s.latest_id;
    });
  }

  -- A request whose outer signal has been aborted ends before its race.
  abbrev pub started : Bool → Request P
  started true = record {
    phase = concluded (some request_aborted);
    aborted = true;
    timed_out = false;
  }
  started false = record { phase = racing; aborted = false; timed_out = false }

  abbrev pub begin_request : Bool → Coordinator P → Coordinator P
  begin_request outer_aborted s =
      let id = suc s.latest_id in
      let t =
        abort_active s.active (record s { latest_id = id; pending = kept_pending s.pending id }) in
      record (put id (started outer_aborted) t) { active = some id }

  -- `requestSessionRefresh`: a caller that is turned away is answered `request_superseded`.
  unfoldable pub refresh : Trigger → Bool → Coordinator P → Coordinator P
  unfolding coalesce_refresh_trigger abort_request
  refresh trigger outer_aborted s =
      if is_busy s.active trigger then queue trigger s else begin_request outer_aborted s

  -- The outer signal is aborted while the request listens to it.
  abbrev pub listens : Phase P → Bool
  listens racing = true
  listens (raced o) = true
  listens _ = false

  unfoldable pub outer_abort : ℕ → Coordinator P → Coordinator P
  unfolding abort_request
  outer_abort k s = if listens (s.requests k).phase then abort_request k s else s

  -- `fetchSessions` settles; the race takes what comes first.
  abbrev pub settle_race : Outcome P → Phase P → Phase P
  settle_race o racing = raced o
  settle_race o p = p

  unfoldable pub fetch_settles : ℕ → Outcome P → Coordinator P → Coordinator P
  fetch_settles k o s = let r = s.requests k in put k (record r { phase = settle_race o r.phase }) s

  -- The timer of a request fires while it is set; the abort resolves the race before the timeout.
  unfoldable pub timeout_fires : ℕ → Coordinator P → Coordinator P
  unfolding abort_request
  timeout_fires k s =
      let r = s.requests k in
      if listens r.phase then abort_request k (put k (record r { timed_out = true }) s) else s

  abbrev pub conclude : ℕ → RefreshResult → List RefreshCall → Coordinator P → Coordinator P
  conclude k result calls s =
      let r = s.requests k in
      record (put k (record r { phase = concluded result }) s) { calls = calls }

  abbrev pub fail_silently : ℕ → RefreshFailure → Coordinator P → Coordinator P
  fail_silently k f s = conclude k (some f) s.calls s

  abbrev pub fail_loudly : ℕ → RefreshFailure → Coordinator P → Coordinator P
  fail_loudly k f s = conclude k (some f) (on_refresh_failure k f ∷ s.calls) s

  unfoldable pub fail : ℕ → RefreshFailure → Coordinator P → Coordinator P
  unfolding should_notify_refresh_failure
  fail k f s = if should_notify_refresh_failure f then fail_loudly k f s else fail_silently k f s

  abbrev pub succeed : ℕ → List SessionSnapshot → ℕ → Coordinator P → Coordinator P
  succeed k sessions invalid s =
      let calls = on_refresh_success k sessions ∷ s.calls in
      conclude k none (if ltb 0 invalid then on_invalid_entries k invalid ∷ calls else calls) s

  -- `parseSessionsResponse`, `none` where it throws.
  abbrev pub apply_parsed : ℕ → Option SessionParseResult → Coordinator P → Coordinator P
  apply_parsed k none s = fail k refresh_pipeline_error s
  apply_parsed k (some (not_parsed f)) s = fail k (parse_failure f) s
  apply_parsed k (some (parsed sessions invalid)) s = succeed k sessions invalid s

  module _ (parse : P → Option SessionParseResult) where
    -- Past the checks of the tokens.
    abbrev pub answered : ℕ → FetchResult P → Coordinator P → Coordinator P
    answered k (not_fetched f) s = fail k f s
    answered k (fetched payload) s = apply_parsed k (parse payload) s

    -- The continuation of a request that is not stale.
    abbrev pub continue_current : ℕ → Outcome P → Bool → Bool → Coordinator P → Coordinator P
    continue_current k o true aborted s = fail_loudly k (request_timeout call_timeout_ms) s
    continue_current k timeout_token false aborted s =
        fail_loudly k (request_timeout call_timeout_ms) s
    continue_current k aborted_token false aborted s = fail_silently k request_aborted s
    continue_current k (rejected abort_error) false aborted s =
        if aborted || abort_error
        then fail_silently k request_aborted s
        else fail_loudly k network_error s
    continue_current k (response r) false aborted s =
        if aborted then fail_silently k request_aborted s else answered k r s

    abbrev pub continue_phase : ℕ → Phase P → Coordinator P → Coordinator P
    continue_phase k (raced o) s =
        if s.latest_id == k
        then continue_current k o (s.requests k).timed_out (s.requests k).aborted s
        else fail_silently k request_superseded s
    continue_phase k _ s = s

    -- The part of a request from its race to its answer, which nothing interrupts.
    unfoldable pub continue_request : ℕ → Coordinator P → Coordinator P
    unfolding fail
    continue_request k s = continue_phase k (s.requests k).phase s

  abbrev pub next_refresh : ℕ → Option PendingRefresh → Coordinator P → Coordinator P
  next_refresh k none s = s
  next_refresh k (some p) s =
      if (s.latest_id == k) && (p.queued_for == k)
      then refresh p.trigger false (record s { pending = none })
      else s

  abbrev pub finish_phase : ℕ → Phase P → Coordinator P → Coordinator P
  finish_phase k (concluded result) s =
      let r = s.requests k in
      let t = record (put k (record r { phase = finished result }) s) {
        active = released k s.active;
      } in
      next_refresh k t.pending t
  finish_phase k _ s = s

  -- `finally`.
  unfoldable pub finish_request : ℕ → Coordinator P → Coordinator P
  unfolding refresh
  finish_request k s = finish_phase k (s.requests k).phase s

  -- The cleanup of the hook.
  unfoldable pub unmount : Coordinator P → Coordinator P
  unfolding abort_request
  unmount s =
      record (abort_active s.active (record s { latest_id = suc s.latest_id; pending = none })) {
        active = none;
      }
