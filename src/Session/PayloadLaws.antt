-- ===== src/Session/PayloadLaws.antt =====
-- What is accepted of the server's list of sessions.
use wootty.Base.{
  ℕ, suc, ◌+◌, ◌*◌, ◌≤◌, ◌<◌, ◌≡◌, ◌≢◌, ◌⊎◌, refl, sym, subst, ap, ◌∙◌, List, [], ◌∷◌, Option, none,
  some, Text, codes, text_eq, length, All, whole, arith,
}
use wootty.Protocol.ServerMessages.{Value, undefined, boolean, number, string, Json, object}
use wootty.Protocol.Parsing.{field}
use wootty.Session.{SessionSnapshot}
use wootty.Session.Payload.{
  envelope, all_sessions_invalid, too_many_invalid_sessions, SessionParseResult, parsed, not_parsed,
  checked_snapshot, text_or_null, parse_session_snapshot, has_required_session_fields, with_entry,
  parse_entries, evaluate_sessions_parse_policy, policy_result, parse_sessions_response,
}

-- Texts that are there are not empty.
abbrev pub IsNamed : Option Text → Type 0
IsNamed none = Unit
IsNamed (some t) = t ≢ []

abbrev pub IsWellNamed : SessionSnapshot → Type 0
IsWellNamed s = (s.id ≢ []) × IsNamed s.command × IsNamed s.name

-- The sessions that the entries stand for, in their order, and how many entries stand for none.
abbrev pub and_session : Option SessionSnapshot → List SessionSnapshot → List SessionSnapshot
and_session none found = found
and_session (some s) found = s ∷ found

abbrev pub and_broken : Option SessionSnapshot → ℕ → ℕ
and_broken none broken = suc broken
and_broken (some s) broken = broken

abbrev pub sessions_in : List Json → List SessionSnapshot
sessions_in [] = []
sessions_in (e ∷ es) = and_session (parse_session_snapshot e) (sessions_in es)

abbrev pub broken_in : List Json → ℕ
broken_in [] = 0
broken_in (e ∷ es) = and_broken (parse_session_snapshot e) (broken_in es)

with_entry_lem :
    (o : Option SessionSnapshot) (found : List SessionSnapshot) (broken : ℕ)
    → with_entry o (found, broken) ≡ (and_session o found, and_broken o broken)
with_entry_lem none found broken = ap (λ (n : ℕ). (found, n)) (omega arith)
with_entry_lem (some s) found broken = refl

parse_entries_lem :
    (entries : List Json) → parse_entries entries ≡ (sessions_in entries, broken_in entries)
unfolding parse_entries
parse_entries_lem [] = refl
parse_entries_lem (e ∷ es) =
    ap (with_entry (parse_session_snapshot e)) (parse_entries_lem es)
    ∙ with_entry_lem (parse_session_snapshot e) (sessions_in es) (broken_in es)

one_or_other :
    (o : Option SessionSnapshot) (found : List SessionSnapshot) (broken : ℕ)
    → length (and_session o found) + and_broken o broken ≡ suc (length found + broken)
one_or_other none found broken = omega arith
one_or_other (some s) found broken = omega arith

sessions_and_broken :
    (entries : List Json) → length (sessions_in entries) + broken_in entries ≡ length entries
sessions_and_broken [] = refl
sessions_and_broken (e ∷ es) =
    one_or_other (parse_session_snapshot e) (sessions_in es) (broken_in es)
    ∙ ap suc (sessions_and_broken es)

-- What a result says, when the entries stand for these sessions, that many of them are broken, and
-- there are so many in total.
abbrev IsAccountedBy : List SessionSnapshot → ℕ → ℕ → SessionParseResult → Type 0
IsAccountedBy found broken total (parsed sessions invalid) =
    (sessions ≡ found)
    × (invalid ≡ broken)
    × (length sessions + invalid ≡ total)
    × ((invalid ≡ 0) ⊎ (0 < length sessions))
    × ((total < 4) ⊎ (2 * invalid < total))
IsAccountedBy found broken total (not_parsed (all_sessions_invalid invalid t)) =
    (t ≡ total) × (invalid ≡ broken) × (broken ≡ total) × (0 < total)
IsAccountedBy found broken total (not_parsed (too_many_invalid_sessions invalid t)) =
    (t ≡ total) × (invalid ≡ broken) × (4 ≤ total) × (total ≤ 2 * broken) × (broken < total)
IsAccountedBy found broken total (not_parsed _) = ⊥

abbrev pub IsAccounted : List Json → SessionParseResult → Type 0
IsAccounted entries r = IsAccountedBy (sessions_in entries) (broken_in entries) (length entries) r

policy-IsAccounted :
    (sessions : List SessionSnapshot) (invalid total : ℕ)
    → length sessions + invalid ≡ total
    → IsAccountedBy sessions invalid total (
        policy_result
          (evaluate_sessions_parse_policy total invalid (length sessions))
          sessions
          invalid
          total)
unfolding evaluate_sessions_parse_policy
policy-IsAccounted sessions invalid total e = ground arith

-- For every array of entries: an accepted result has the sessions that the entries stand for, in
-- their order, and the number of the other entries; there is a session unless no entry is invalid,
-- and the invalid entries are fewer than half, unless there are fewer than 4 entries. A refusal has
-- the number of the entries and of those that stand for no session, and names the policy's reason:
-- either all are invalid, and there is one, or at least half of 4 or more are, not all.
pub parse_sessions_response-IsAccounted :
    (entries : List Json) → IsAccounted entries (parse_sessions_response (envelope (some entries)))
unfolding parse_sessions_response
parse_sessions_response-IsAccounted entries =
    let total = length entries in
    subst
      (λ (r : List SessionSnapshot × ℕ).
        IsAccounted entries
          (policy_result (evaluate_sessions_parse_policy total r.1 (length r.0)) r.0 r.1 total))
      (sym (parse_entries_lem entries))
      (policy-IsAccounted (sessions_in entries) (broken_in entries) total
        (sessions_and_broken entries))

abbrev optional : Option Text → Value
optional none = undefined
optional (some t) = string t

-- The object that stands for a session.
abbrev pub snapshot_entry : SessionSnapshot → Json
snapshot_entry s = object (
    field (
      (codes "id", string s.id)
      ∷ (codes "hasController", boolean s.has_controller)
      ∷ (codes "canControl", boolean s.can_control)
      ∷ (codes "watchers", number (whole s.watchers))
      ∷ (codes "createdAtMs", number (whole s.created_at_ms))
      ∷ (codes "lastActivityMs", number (whole s.last_activity_ms))
      ∷ (codes "command", optional s.command)
      ∷ (codes "name", optional s.name)
      ∷ []))

optional_back : (o : Option Text) → IsNamed o → text_or_null (optional o) ≡ o
optional_back none h = refl
optional_back (some []) h = absurd (h refl)
optional_back (some (c ∷ t)) h = refl

snapshot_back :
    (s : SessionSnapshot) → IsWellNamed s → parse_session_snapshot (snapshot_entry s) ≡ some s
unfolding parse_session_snapshot has_required_session_fields text_eq
snapshot_back s w = go s.id (optional_back (some s.id) w.0)
  where
    go :
        (id : Text)
        → text_or_null (string id) ≡ some s.id
        → checked_snapshot
            (text_or_null (string id))
            (some s.has_controller)
            (some s.can_control)
            (some s.watchers)
            (some s.created_at_ms)
            (some s.last_activity_ms)
            (text_or_null (optional s.command))
            (text_or_null (optional s.name))
          ≡ some s
    go id e = rw (e, optional_back s.command w.1, optional_back s.name w.2) refl

abbrev pub snapshot_entries : List SessionSnapshot → List Json
snapshot_entries [] = []
snapshot_entries (s ∷ ss) = snapshot_entry s ∷ snapshot_entries ss

entries_back :
    (ss : List SessionSnapshot) → All IsWellNamed ss → parse_entries (snapshot_entries ss) ≡ (ss, 0)
unfolding parse_entries
entries_back [] h = refl
entries_back (s ∷ ss) h =
    ap (λ o. with_entry o (parse_entries (snapshot_entries ss))) (snapshot_back s h.0)
    ∙ ap (with_entry (some s)) (entries_back ss h.1)

none_invalid :
    (ss : List SessionSnapshot) (total : ℕ)
    → policy_result (evaluate_sessions_parse_policy total 0 (length ss)) ss 0 total ≡ parsed ss 0
unfolding evaluate_sessions_parse_policy
none_invalid ss total = ground arith

-- A list of sessions with names, as the server writes it, is read back as it was, with no entry
-- counted as invalid.
pub parse-snapshot_entries :
    (ss : List SessionSnapshot)
    → All IsWellNamed ss
    → parse_sessions_response (envelope (some (snapshot_entries ss))) ≡ parsed ss 0
unfolding parse_sessions_response
parse-snapshot_entries ss h =
    let total = length (snapshot_entries ss) in
    ap
      (λ (r : List SessionSnapshot × ℕ).
        policy_result (evaluate_sessions_parse_policy total r.1 (length r.0)) r.0 r.1 total)
      (entries_back ss h)
    ∙ none_invalid ss total
