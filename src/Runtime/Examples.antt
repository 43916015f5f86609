-- ===== src/Runtime/Examples.antt =====
-- The terminal, booted and read.
use wootty.Base.{◌≡◌, refl, [], ◌∷◌, some, codes, join}
use wootty.Runtime.{
  Runtime, initial_runtime, succeeds, boot, load_settles, clean_up, dispose_runtime,
  read_transcript,
}
use wootty.Runtime.Transcript.{screen_rows, expected_lines, read_transcript-lines}
use wootty.Runtime.Steps.{Reach, start, next, boots, settles, cleans_up, IsSettled}
use wootty.Runtime.Boot.{Reach-IsSettled}

-- The load of a run that was cleaned up ends after that of the run that replaced it.
abbrev rebooted : Runtime
rebooted =
    load_settles succeeds 0 (load_settles succeeds 1 (boot (clean_up (boot initial_runtime))))

rebooted-Reach : Reach rebooted
rebooted-Reach =
    next (next (next (next (next start boots) cleans_up) boots) (settles succeeds 1))
      (settles succeeds 0)

Reach-IsSettled_example : IsSettled rebooted
Reach-IsSettled_example = Reach-IsSettled rebooted rebooted-Reach

-- It has the terminal of the second run.
rebooted_terminals : rebooted.live_terminals ≡ 1 ∷ []
unfolding boot clean_up load_settles dispose_runtime
rebooted_terminals = refl

read_transcript-lines_example :
    read_transcript (
      some (
        screen_rows
          ((codes "$ ls", []) ∷ (codes "a very ", codes "long line" ∷ []) ∷ ([], []) ∷ [])))
    ≡ join (10 ∷ []) (
        expected_lines
          ((codes "$ ls", []) ∷ (codes "a very ", codes "long line" ∷ []) ∷ ([], []) ∷ []))
read_transcript-lines_example =
    read_transcript-lines (codes "$ ls", [])
      ((codes "a very ", codes "long line" ∷ []) ∷ ([], []) ∷ [])
