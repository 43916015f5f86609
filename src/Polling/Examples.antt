-- ===== src/Polling/Examples.antt =====
-- Polling, run.
use wootty.Base.{List, [], ◌∷◌, some}
use wootty.Refresh.{RefreshResult, http_error, network_error}
use wootty.Polling.{Polling, start_polling, refresh_settles, refresh_finishes, dispose_polling}
use wootty.Polling.Shape.{Reach, start, next, settles, finishes, disposes}
use wootty.Polling.Guarantees.{IsAlive, Reach-IsAlive}

abbrev unavailable : RefreshResult
unavailable = some (http_error 503)

-- Disposed of after a failure.
abbrev left : Polling
left = dispose_polling (refresh_finishes (refresh_settles unavailable start_polling))

left-Reach : Reach left
left-Reach = next (next (next start (settles unavailable)) finishes) disposes

Reach-IsAlive_example : IsAlive left
Reach-IsAlive_example = Reach-IsAlive left left-Reach

abbrev five_failures : List RefreshResult
five_failures = unavailable ∷ unavailable ∷ some network_error ∷ unavailable ∷ unavailable ∷ []
