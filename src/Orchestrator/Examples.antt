-- ===== src/Orchestrator/Examples.antt =====
-- The orchestrator on a page whose tab had a session before.
use wootty.Base.{
  ℕ, ◌≡◌, refl, true, List, [], ◌∷◌, ◌++◌, Option, none, some, Text, codes, decimal, text_eq,
}
use wootty.Backpressure.{control, watch}
use wootty.Persistence.{active_session_key, StorageFailure, StorageAccess}
use wootty.Notices.{RefreshNotice}
use wootty.Orchestrator.{
  Orchestrator, initial_transport_refresh, request_transport_refresh, trailing_fires,
  schedule_trailing_transport_refresh, initial_orchestrator, apply_ready_session,
  clear_missing_session, transition_session_context,
}
use wootty.Orchestrator.Rate.{Event, requests, fires, run, AnyThreeSpaced, run-AnyThreeSpaced}
use wootty.Orchestrator.Context.{IsKept, session_changes_reload}
use wootty.Persistence.Shelf.{Shelf, shelf_api, shelf-IsLawful, shelf_removed}

abbrev say_storage : StorageFailure → Text
say_storage f = codes "Storage failed: " ++ f.key

abbrev say_refresh : RefreshNotice → Text
say_refresh n = codes "Unable to refresh."

abbrev say_invalid : ℕ → Text
say_invalid count = decimal count

-- The session of the tab is remembered, and nothing of others is.
abbrev kept_access : StorageAccess Shelf
kept_access = record { storage = some ((active_session_key, codes "s0") ∷ []); error = none }

abbrev page : Orchestrator Shelf
page =
    initial_orchestrator shelf_api say_storage say_refresh say_invalid [] 0 kept_access kept_access

page_storage : page.persistence.session_storage.storage ≡ kept_access.storage
unfolding initial_orchestrator text_eq
page_storage = refl

session_changes_reload_example :
    let ready =
      apply_ready_session shelf_api say_storage say_refresh say_invalid 9 (codes "s1") true page in
    let missing = clear_missing_session shelf_api say_storage say_refresh say_invalid 9 page in
    let moved = λ (next : Option Text).
      transition_session_context shelf_api say_storage say_refresh say_invalid 9 next watch page in
    IsKept shelf_api say_storage say_refresh say_invalid ready (some (codes "s1")) watch
    × IsKept shelf_api say_storage say_refresh say_invalid
        (moved (some (codes "s1")))
        (some (codes "s1"))
        watch
    × IsKept shelf_api say_storage say_refresh say_invalid missing none control
    × IsKept shelf_api say_storage say_refresh say_invalid (moved none) none watch
unfolding text_eq
session_changes_reload_example =
    session_changes_reload shelf_api say_storage say_refresh say_invalid shelf-IsLawful
      (record { gone = shelf_removed }) 9 (codes "s1") true watch page
      ((active_session_key, codes "s0") ∷ [])
      ((active_session_key, codes "s1") ∷ (active_session_key, codes "s0") ∷ []) [] (λ e. cc e)
      page_storage refl refl

-- The trailing refresh is late: a direct one comes before it, at the same time.
abbrev late_timer : List (ℕ × Event)
late_timer =
    (0, requests)
    ∷ (300, requests)
    ∷ (460, requests)
    ∷ (0, fires)
    ∷ (700, requests)
    ∷ (60, fires)
    ∷ []

run-AnyThreeSpaced_example :
    AnyThreeSpaced (run late_timer 1_000 initial_transport_refresh).requested_at
run-AnyThreeSpaced_example = run-AnyThreeSpaced late_timer 1_000

-- Two of the requests do come within 750 ms.
late_timer_requests :
    (run late_timer 1_000 initial_transport_refresh).requested_at
    ≡ 2_520 ∷ 1_760 ∷ 1_760 ∷ 1_000 ∷ []
unfolding request_transport_refresh trailing_fires schedule_trailing_transport_refresh
late_timer_requests = refl
