-- ===== src/Session/Examples.antt =====
-- Candidates from three live sessions, one of them the current one, and a history.
use wootty.Base.{ℕ, ◌≡◌, refl, true, false, [], ◌∷◌, ◌++◌, none, some, Text, codes, text_eq}
use wootty.Session.{SessionSnapshot, SessionCandidateInput, derive_session_candidates}
use wootty.Session.History.{IsDistinct}
use wootty.Session.Candidates.{ids, IsNew, derive_session_candidates-IsNew}

abbrev snapshot : Text → ℕ → SessionSnapshot
snapshot id at = record {
  id = id;
  has_controller = false;
  can_control = true;
  watchers = 0;
  created_at_ms = 0;
  last_activity_ms = at;
  command = none;
  name = none;
}

abbrev three_sessions : SessionCandidateInput
three_sessions = record {
  live_sessions = snapshot (codes "a") 10 ∷ snapshot (codes "b") 30 ∷ snapshot (codes "c") 20 ∷ [];
  current_session_id = some (codes "c");
  session_history_ids = codes "b" ∷ codes "old" ∷ codes "old" ∷ [];
  last_session_id = none;
}

recent_first :
    ids (derive_session_candidates three_sessions).live_session_candidates
    ≡ codes "b" ∷ codes "a" ∷ []
unfolding derive_session_candidates text_eq
recent_first = refl

history_once :
    (derive_session_candidates three_sessions).history_session_candidates ≡ codes "old" ∷ []
unfolding derive_session_candidates text_eq
history_once = refl

derive_session_candidates-IsNew_example : IsNew (some (codes "c")) [] (
    ids (derive_session_candidates three_sessions).live_session_candidates
    ++ (derive_session_candidates three_sessions).history_session_candidates)
derive_session_candidates-IsNew_example = derive_session_candidates-IsNew three_sessions

two_names-IsDistinct : IsDistinct (codes "a" ∷ codes "b" ∷ [])
unfolding text_eq
two_names-IsDistinct = (refl, (refl, tt))
