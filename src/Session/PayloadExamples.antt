-- ===== src/Session/PayloadExamples.antt =====
-- Lists of sessions as a server answers them.
use wootty.Base.{◌≡◌, true, false, List, [], ◌∷◌, none, some, codes}
use wootty.Protocol.ServerMessages.{Json, no_object}
use wootty.Session.{SessionSnapshot}
use wootty.Session.Payload.{envelope, parsed, parse_sessions_response}
use wootty.Session.PayloadLaws.{
  IsAccounted, IsWellNamed, parse_sessions_response-IsAccounted, snapshot_entries,
  parse-snapshot_entries,
}

abbrev shell : SessionSnapshot
shell = record {
  id = codes "s1";
  has_controller = true;
  can_control = false;
  watchers = 2;
  created_at_ms = 5;
  last_activity_ms = 9;
  command = some (codes "bash");
  name = none;
}

shell-IsWellNamed : IsWellNamed shell
shell-IsWellNamed = (λ e. cc e, λ e. cc e, tt)

-- One of five entries is a session.
abbrev mostly_broken : List Json
mostly_broken = no_object ∷ no_object ∷ no_object ∷ no_object ∷ snapshot_entries (shell ∷ [])

parse_sessions_response-IsAccounted_example :
    IsAccounted mostly_broken (parse_sessions_response (envelope (some mostly_broken)))
parse_sessions_response-IsAccounted_example = parse_sessions_response-IsAccounted mostly_broken

parse-snapshot_entries_example :
    parse_sessions_response (envelope (some (snapshot_entries (shell ∷ shell ∷ []))))
    ≡ parsed (shell ∷ shell ∷ []) 0
parse-snapshot_entries_example =
    parse-snapshot_entries (shell ∷ shell ∷ []) (shell-IsWellNamed, (shell-IsWellNamed, tt))
