-- ===== src/Refresh/Examples.antt =====
-- Overlapping requests for the list of sessions, run.
use wootty.Base.{◌≡◌, refl, suc, false, Option, none, some, []}
use wootty.Session.Payload.{SessionsPayload, envelope, SessionParseResult, parse_sessions_response}
use wootty.Refresh.{
  poll, transport_event, fetched, response, racing, concluded, PendingRefresh, Coordinator,
  initial_coordinator, refresh, fetch_settles, continue_request, finish_request,
}
use wootty.Refresh.Order.{IsOrdered, Reach, start, next, refreshes, answers, continues}
use wootty.Refresh.Invariant.{phase_of}
use wootty.Refresh.Guarantees.{Reach-IsOrdered, finish_request_serves}

abbrev parse : SessionsPayload → Option SessionParseResult
parse p = some (parse_sessions_response p)

abbrev State : Type 0
State = Coordinator SessionsPayload

abbrev begun : State
begun = refresh poll false (initial_coordinator SessionsPayload)

-- Two more asked for it meanwhile.
abbrev queued : State
queued = refresh poll false (refresh transport_event false begun)

abbrev waiting : PendingRefresh
waiting = record { trigger = transport_event; queued_for = 1 }

abbrev answered_to : State
answered_to = fetch_settles 1 (response (fetched (envelope (some [])))) queued

abbrev reported : State
reported = continue_request parse 1 answered_to

queued-Reach : Reach parse queued
queued-Reach =
    next (next (next start (refreshes poll false)) (refreshes transport_event false))
      (refreshes poll false)

reported-Reach : Reach parse reported
reported-Reach = next (next queued-Reach (answers 1 (fetched (envelope (some []))))) (continues 1)

reported_pending : reported.pending ≡ some waiting
unfolding refresh initial_coordinator fetch_settles continue_request parse_sessions_response
reported_pending = refl

reported_concluded : phase_of reported reported.latest_id ≡ concluded none
unfolding refresh initial_coordinator fetch_settles continue_request parse_sessions_response
reported_concluded = refl

Reach-IsOrdered_example : IsOrdered reported.calls
Reach-IsOrdered_example = Reach-IsOrdered parse reported reported-Reach

finish_request_serves_example :
    let t = finish_request reported.latest_id reported in
    (t.latest_id ≡ suc reported.latest_id)
    × (t.active ≡ some (suc reported.latest_id))
    × (t.pending ≡ none)
    × (phase_of t (suc reported.latest_id) ≡ racing)
finish_request_serves_example =
    finish_request_serves parse reported waiting none reported-Reach reported_pending
      reported_concluded

begun_phase : phase_of begun begun.latest_id ≡ racing
unfolding refresh initial_coordinator
begun_phase = refl
