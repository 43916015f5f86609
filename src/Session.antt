-- ===== src/Session.antt =====
-- The sessions that the user can attach to
-- (apps/web/src/features/terminal/session/domain/session-candidates.ts).
mod Examples
mod PayloadExamples
pub mod Candidates
pub mod History
pub mod Payload
pub mod PayloadLaws
use wootty.Base.{
  ℕ, Bool, true, false, ◌||◌, List, [], ◌∷◌, Option, none, some, Text, ltb, text_eq, has,
  if◌then◌else◌,
}
use wootty.Backpressure.{AttachMode, control, watch}

pub record SessionSnapshot : Type 0 where
  pub id : Text
  pub has_controller : Bool
  pub can_control : Bool
  pub watchers : ℕ
  pub created_at_ms : ℕ
  pub last_activity_ms : ℕ
  pub command : Option Text
  pub name : Option Text

pub record SessionCandidate : Type 0 where
  pub id : Text
  pub mode : AttachMode
  pub command : Option Text
  pub name : Option Text
  pub watchers : ℕ
  pub last_activity_ms : ℕ

pub record SessionCandidateInput : Type 0 where
  pub live_sessions : List SessionSnapshot
  pub current_session_id : Option Text
  pub session_history_ids : List Text
  pub last_session_id : Option Text

pub record SessionCandidateSets : Type 0 where
  pub live_session_candidates : List SessionCandidate
  pub history_session_candidates : List Text

-- `sort` is stable: a session goes before the first one that is less recent.
unfoldable pub insert_recent : SessionSnapshot → List SessionSnapshot → List SessionSnapshot
insert_recent s [] = s ∷ []
insert_recent s (t ∷ ts) =
    let rest = insert_recent s ts in
    if ltb t.last_activity_ms s.last_activity_ms then s ∷ t ∷ ts else t ∷ rest

unfoldable pub sort_recent : List SessionSnapshot → List SessionSnapshot → List SessionSnapshot
unfolding insert_recent
sort_recent sorted [] = sorted
sort_recent sorted (s ∷ ss) = sort_recent (insert_recent s sorted) ss

-- `id === input.currentSessionId`.
abbrev pub is_session : Text → Option Text → Bool
is_session id none = false
is_session id (some current) = text_eq id current

abbrev pub to_candidate : SessionSnapshot → SessionCandidate
to_candidate s = record {
  id = s.id;
  mode = if s.can_control then control else watch;
  command = s.command;
  name = s.name;
  watchers = s.watchers;
  last_activity_ms = s.last_activity_ms;
}

-- The two loops, each with `seenSessionIds` as it finds it; the first answers it, too.
unfoldable pub live_loop :
    Option Text → List Text → List SessionSnapshot → List SessionCandidate × List Text
live_loop current seen [] = ([], seen)
live_loop current seen (s ∷ ss) =
    let skipped = live_loop current seen ss in
    let (rest, seen') = live_loop current (s.id ∷ seen) ss in
    if is_session s.id current || has s.id seen then skipped else (to_candidate s ∷ rest, seen')

abbrev pub is_empty : Text → Bool
is_empty [] = true
is_empty (c ∷ s) = false

unfoldable pub history_loop : Option Text → List Text → List Text → List Text
history_loop current seen [] = []
history_loop current seen (h ∷ hs) =
    let skipped = history_loop current seen hs in
    let rest = history_loop current (h ∷ seen) hs in
    if is_empty h || is_session h current || has h seen then skipped else h ∷ rest

abbrev pub last_only : Option Text → List Text
last_only none = []
last_only (some id) = if is_empty id then [] else id ∷ []

unfoldable pub fallback_history : SessionCandidateInput → List Text
fallback_history input = elim input.session_history_ids [
  | [] ↦ last_only input.last_session_id
  | h ∷ hs ↦ h ∷ hs
]

unfoldable pub derive_session_candidates : SessionCandidateInput → SessionCandidateSets
unfolding sort_recent live_loop history_loop fallback_history
derive_session_candidates input =
    let (live, seen) = live_loop input.current_session_id [] (sort_recent [] input.live_sessions) in
    record {
      live_session_candidates = live;
      history_session_candidates =
          history_loop input.current_session_id seen (fallback_history input);
    }
