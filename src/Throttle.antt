-- ===== src/Throttle.antt =====
-- Repeated failures are announced once in a while
-- (apps/web/src/features/terminal/shared/reliability/failure-notice-throttle.ts). Times are whole
-- milliseconds; `nowMs - lastNoticeAt < cooldownMs` is written with a sum, since the clock may step
-- back.
pub mod Spacing
mod Examples
use wootty.Base.{
  ℕ, ◌+◌, ◌≡◌, Bool, true, false, not, ◌&&◌, ◌++◌, Option, none, some, Text, codes, text_eq, ltb,
  if◌then◌else◌, decimal,
}

pub record FailureNotice : Type 0 where
  pub key : Text
  pub count : ℕ
  pub last_notice_at : ℕ

-- `null` before the first failure.
abbrev pub FailureNoticeState : Type 0
FailureNoticeState = Option FailureNotice

pub record RegisterFailureNoticeResult : Type 0 where
  pub next : FailureNoticeState
  pub should_notify : Bool
  pub count : ℕ

-- `current?.key === key`.
abbrev pub is_repeated : FailureNoticeState → Text → Bool
is_repeated none key = false
is_repeated (some n) key = text_eq n.key key

abbrev count_of : FailureNoticeState → ℕ
count_of none = 0
count_of (some n) = n.count

abbrev pub last_notice_of : FailureNoticeState → ℕ
last_notice_of none = 0
last_notice_of (some n) = n.last_notice_at

unfoldable pub register_failure_notice :
    FailureNoticeState → Text → ℕ → ℕ → RegisterFailureNoticeResult
register_failure_notice current key now_ms cooldown_ms =
    let repeated_failure = is_repeated current key in
    let count = if repeated_failure then count_of current + 1 else 1 in
    let last_notice_at = if repeated_failure then last_notice_of current else 0 in
    let should_notify = not (repeated_failure && ltb now_ms (last_notice_at + cooldown_ms)) in
    record {
      next = some (record {
        key = key;
        count = count;
        last_notice_at = if should_notify then now_ms else last_notice_at;
      });
      should_notify = should_notify;
      count = count;
    }

unfoldable pub default_repeated_message : Text → ℕ → Text
default_repeated_message base_message count =
    base_message ++ codes " (repeated " ++ decimal count ++ codes " times)"

-- The next state, and the message that `notify` is called with, if it is called.
unfoldable pub notify_with_failure_throttle :
    (Text → ℕ → Text) → FailureNoticeState → Text → ℕ → ℕ → Text → FailureNoticeState × Option Text
unfolding register_failure_notice
notify_with_failure_throttle repeated_message current key now_ms cooldown_ms base_message =
    let notice = register_failure_notice current key now_ms cooldown_ms in
    (
      notice.next,
      if notice.should_notify
          then some (
              if ltb 1 notice.count
              then repeated_message base_message notice.count
              else base_message)
          else none,
    )
