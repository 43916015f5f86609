-- ===== src/Notices/Examples.antt =====
-- A notice that replaces the one that the page begins with.
use wootty.Base.{◌≡◌, [], ◌∷◌, codes, map, refl}
use wootty.Notices.{NoticeTimer, quiet_channel, begin_channel, publish_session_notice}

-- A failure that is reported before the effect of the first notice leaves a timer that is not held.
two_timers :
    map
      (λ (t : NoticeTimer). t.handle)
      (begin_channel
        (codes "Hello")
        2
        (publish_session_notice (codes "Full") 1 (quiet_channel (codes "Hello")))).timers
    ≡ 1 ∷ 0 ∷ []
unfolding publish_session_notice
two_timers = refl
