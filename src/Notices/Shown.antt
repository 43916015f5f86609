-- ===== src/Notices/Shown.antt =====
-- How long a notice is shown.
use wootty.Base.{ℕ, suc, ◌+◌, ◌<◌, false, List, [], ◌∷◌, Option, some, Text}
use wootty.Notices.{
  NoticeTimer, NoticeChannel, clear_session_notice, publish_session_notice, notice_timer_fires,
  unmount_notice_channel,
}

-- One moment of the channel: what happens, at a time.
pub data Move : Type 0 where
  clears unmounts : Move
  publishes : Text → Move
  fires : (handle : ℕ) → Move

abbrev pub move : Move → ℕ → NoticeChannel → NoticeChannel
move clears now c = clear_session_notice c
move unmounts now c = unmount_notice_channel c
move (publishes message) now c = publish_session_notice message now c
move (fires h) now c = notice_timer_fires h now c

abbrev pub moves : List (Move × ℕ) → NoticeChannel → NoticeChannel
moves [] c = c
moves ((m, now) ∷ ms) c = moves ms (move m now c)

-- Any timer that is set is the one that is held.
pub data IsTidy : NoticeChannel → Type 0 where
  calm :
      (notice : Text) (held : Option ℕ) (next : ℕ)
      → IsTidy
          (record { session_notice = notice; timer_ref = held; timers = []; next_handle = next })
  showing :
      (notice : Text) (t : NoticeTimer) (next : ℕ)
      → IsTidy (record {
        session_notice = notice;
        timer_ref = some t.handle;
        timers = t ∷ [];
        next_handle = next;
      })

abbrev shown_at : Text → ℕ → ℕ → NoticeChannel
shown_at message now handle = record {
  session_notice = message;
  timer_ref = some handle;
  timers = record { handle = handle; due_at = now + 4_000; initial = false } ∷ [];
  next_handle = suc handle;
}

abbrev pub fire_each : List (ℕ × ℕ) → NoticeChannel → NoticeChannel
fire_each [] c = c
fire_each ((h, now) ∷ fs) c = fire_each fs (notice_timer_fires h now c)

-- Every moment lies before a time.
abbrev pub AllEarlier : ℕ → List (ℕ × ℕ) → Type 0
AllEarlier due [] = Unit
AllEarlier due ((h, now) ∷ fs) = (now < due) × AllEarlier due fs
