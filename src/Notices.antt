-- ===== src/Notices.antt =====
-- Notices about the sessions: the mapping of refresh failures
-- (apps/web/src/features/terminal/notifications/mappers/session-refresh-failure-notice.ts) and the
-- channel that shows a notice for four seconds (session/application/session-notice-channel.ts).
pub mod Shown
mod Examples
use wootty.Base.{
  ℕ, suc, ◌+◌, Bool, true, false, List, [], ◌∷◌, ◌++◌, Option, none, some, Text, codes, decimal,
  leb, ◌==◌, if◌then◌else◌, keep, not,
}
use wootty.Session.Payload.{
  ParseFailure, invalid_payload, missing_sessions_array, all_sessions_invalid,
  too_many_invalid_sessions,
}
use wootty.Refresh.{
  RefreshFailure, http_error, bootstrap_error, json_parse_error, network_error, parse_failure,
  request_timeout, request_aborted, request_superseded, refresh_pipeline_error,
}
use wootty.Throttle.{FailureNoticeState, default_repeated_message, notify_with_failure_throttle}

-- `SessionsRefreshNotice` and the notice of a failed bootstrap; causes are left out.
pub data RefreshNotice : Type 0 where
  http_status : ℕ → RefreshNotice
  timed_out_after : (timeout_ms : ℕ) → RefreshNotice
  cause payload_invalid sessions_missing backend_resolution_failed : RefreshNotice
  all_invalid : (count : ℕ) → RefreshNotice
  too_many_invalid : (count total : ℕ) → RefreshNotice

-- `kind: "ignore"` is `none`; a throttled notice has its key.
abbrev pub FailureNoticeResult : Type 0
FailureNoticeResult = Option (Text × RefreshNotice)

abbrev pub to_parse_failure_notice : ParseFailure → Text × RefreshNotice
to_parse_failure_notice invalid_payload = (codes "payload:invalid_payload", payload_invalid)
to_parse_failure_notice missing_sessions_array =
    (codes "payload:missing_sessions_array", sessions_missing)
to_parse_failure_notice (all_sessions_invalid invalid total) =
    (codes "payload:all_sessions_invalid", all_invalid invalid)
to_parse_failure_notice (too_many_invalid_sessions invalid total) =
    (codes "payload:too_many_invalid_sessions", too_many_invalid invalid total)

unfoldable pub to_session_refresh_failure_notice : RefreshFailure → FailureNoticeResult
unfolding decimal
to_session_refresh_failure_notice (parse_failure f) = some (to_parse_failure_notice f)
to_session_refresh_failure_notice (http_error status) =
    some (codes "http:" ++ decimal status, http_status status)
to_session_refresh_failure_notice bootstrap_error =
    some (codes "bootstrap:backend_resolution_failed", backend_resolution_failed)
to_session_refresh_failure_notice json_parse_error = some (codes "json_parse_error", cause)
to_session_refresh_failure_notice network_error = some (codes "network_error", cause)
to_session_refresh_failure_notice request_aborted = none
to_session_refresh_failure_notice request_superseded = none
to_session_refresh_failure_notice (request_timeout ms) =
    some (codes "request_timeout", timed_out_after ms)
to_session_refresh_failure_notice refresh_pipeline_error =
    some (codes "refresh_pipeline_error", cause)

-- A timer of the channel. That of the notice that the page begins with leaves the handle in place.
pub record NoticeTimer : Type 0 where
  pub handle : ℕ
  pub due_at : ℕ
  pub initial : Bool

pub record NoticeChannel : Type 0 where
  pub session_notice : Text
  pub timer_ref : Option ℕ
  -- the scheduler's, with the next handle
  pub timers : List NoticeTimer
  pub next_handle : ℕ

abbrev pub notice_ms : ℕ
notice_ms = 4_000

abbrev pub without_timer : ℕ → List NoticeTimer → List NoticeTimer
without_timer h [] = []
without_timer h (t ∷ ts) = let rest = without_timer h ts in if t.handle == h then rest else t ∷ rest

abbrev pub clear_notice_timer : Option ℕ → NoticeChannel → NoticeChannel
clear_notice_timer none c = c
clear_notice_timer (some h) c = record c { timers = without_timer h c.timers }

abbrev pub set_notice_timer : Bool → ℕ → NoticeChannel → NoticeChannel
set_notice_timer initial now c = record c {
  timer_ref = some c.next_handle;
  next_handle = suc c.next_handle;
  timers =
      record { handle = c.next_handle; due_at = now + notice_ms; initial = initial } ∷ c.timers;
}

abbrev pub quiet_channel : Text → NoticeChannel
quiet_channel notice = record {
  session_notice = notice;
  timer_ref = none;
  timers = [];
  next_handle = 0;
}

-- The effect of the notice that the page begins with.
abbrev pub begin_channel : Text → ℕ → NoticeChannel → NoticeChannel
begin_channel [] now c = c
begin_channel (u ∷ notice) now c = set_notice_timer true now c

-- The hook after its first effect, when nothing was published before.
unfoldable pub initial_notice_channel : Text → ℕ → NoticeChannel
initial_notice_channel notice now = begin_channel notice now (quiet_channel notice)

unfoldable pub clear_session_notice : NoticeChannel → NoticeChannel
clear_session_notice c = record (clear_notice_timer c.timer_ref c) {
  timer_ref = none;
  session_notice = [];
}

unfoldable pub publish_session_notice : Text → ℕ → NoticeChannel → NoticeChannel
publish_session_notice message now c =
    set_notice_timer false now
      (clear_notice_timer c.timer_ref (record c { session_notice = message }))

abbrev pub publish_if : Option Text → ℕ → NoticeChannel → NoticeChannel
publish_if none now c = c
publish_if (some message) now c = publish_session_notice message now c

unfoldable pub publish_throttled_session_notice :
    FailureNoticeState → Text → Text → ℕ → ℕ → NoticeChannel → FailureNoticeState × NoticeChannel
unfolding publish_session_notice notify_with_failure_throttle default_repeated_message
publish_throttled_session_notice state key message cooldown_ms now c =
    let (state', told) =
      notify_with_failure_throttle default_repeated_message state key now cooldown_ms message in
    (state', publish_if told now c)

abbrev pub find_due : ℕ → ℕ → List NoticeTimer → Option NoticeTimer
find_due h now [] = none
find_due h now (t ∷ ts) =
    let rest = find_due h now ts in
    if t.handle == h then (if leb t.due_at now then some t else none) else rest

abbrev pub end_notice : Option NoticeTimer → NoticeChannel → NoticeChannel
end_notice none c = c
end_notice (some t) c = record c {
  session_notice = [];
  timers = without_timer t.handle c.timers;
  timer_ref = if t.initial then c.timer_ref else none;
}

-- A timer fires once it is due.
unfoldable pub notice_timer_fires : ℕ → ℕ → NoticeChannel → NoticeChannel
notice_timer_fires h now c = end_notice (find_due h now c.timers) c

-- The cleanup of the first notice's effect clears that effect's own timer.
abbrev pub clear_initial_timer : NoticeChannel → NoticeChannel
clear_initial_timer c = record c { timers = keep (λ (t : NoticeTimer). not t.initial) c.timers }

-- The two cleanups, in the order of their effects.
unfoldable pub unmount_notice_channel : NoticeChannel → NoticeChannel
unmount_notice_channel c =
    let d = clear_initial_timer c in record (clear_notice_timer d.timer_ref d) { timer_ref = none }
