-- ===== src/Runtime.antt =====
-- The terminal of the page (apps/web/src/features/terminal/app/engine/runtime/
-- runtime-orchestrator.ts): how it boots and is disposed of, and what is written to it and read from
-- it. The terminal itself is xterm's; here it is known by the run of the effect that created it, and
-- by the rows of its buffer.
pub mod Transcript
pub mod Steps
pub mod Boot
mod Examples
use wootty.Base.{
  ℕ, zero, suc, ◌+◌, Bool, true, false, not, ◌&&◌, List, [], ◌∷◌, ◌++◌, Option, none, some, Text,
  codes, decimal, reverse, join, ◌==◌, if◌then◌else◌,
}
use wootty.Outbox.{utf8_byte_length}

-- A row of the buffer: `translateToString(true)`, and whether it goes on with the row before.
pub record Row : Type 0 where
  pub text : Text
  pub is_wrapped : Bool

abbrev is_first : ℕ → Bool
is_first zero = true
is_first (suc n) = false

-- A line that begins ends the one before, but for the first row of the buffer.
abbrev begin_line : Bool → Text → List Text → List Text
begin_line true current lines = lines
begin_line false current lines = current ∷ lines

-- One round of the loop over the rows; a row that `getLine` does not give is `none`. The lines that
-- are pushed stand with the latest first.
abbrev pub read_row : ℕ → Option Row → Text × List Text → Text × List Text
read_row index none (current, lines) = (current, lines)
read_row index (some row) (current, lines) =
    if row.is_wrapped
    then (current ++ row.text, lines)
    else (row.text, begin_line (is_first index) current lines)

abbrev pub read_rows : ℕ → List (Option Row) → Text × List Text → Text × List Text
read_rows index [] read = read
read_rows index (row ∷ rows) read = read_rows (suc index) rows (read_row index row read)

abbrev is_empty : Text → Bool
is_empty [] = true
is_empty (c ∷ t) = false

-- The loop of `lines.pop()`, where the last line stands first.
abbrev pub drop_empty : List Text → List Text
drop_empty [] = []
drop_empty (line ∷ []) = line ∷ []
drop_empty (line ∷ next ∷ lines) =
    let rest = drop_empty (next ∷ lines) in if is_empty line then rest else line ∷ next ∷ lines

-- What is joined, in the order of the screen.
unfoldable pub transcript_lines : List (Option Row) → List Text
transcript_lines rows =
    let (current, lines) = read_rows 0 rows ([], []) in reverse (drop_empty (current ∷ lines))

-- `none` where there is no terminal.
unfoldable pub read_transcript : Option (List (Option Row)) → Text
unfolding transcript_lines join
read_transcript none = []
read_transcript (some rows) = join (10 ∷ []) (transcript_lines rows)

-- What is written to the terminal, and the bytes that are counted.
unfoldable pub write_output : Bool → Text → List Text × ℕ
unfolding utf8_byte_length
write_output false data_ = ([], 0)
write_output true data_ = (data_ ∷ [], utf8_byte_length data_)

abbrev pub exit_text : ℕ → ℕ → Text
exit_text code signal =
    13 ∷ 10 ∷ 27 ∷ codes "[33m[session ended: code="
    ++ decimal code
    ++ codes " signal="
    ++ decimal signal
    ++ codes "]"
    ++ (27 ∷ codes "[0m")

abbrev pub server_error_text : Text → Text
server_error_text message =
    13 ∷ 10 ∷ 27 ∷ codes "[31m[server error] " ++ message ++ (27 ∷ codes "[0m")

-- Each run of the effect has its own `cancelled` and `terminal`, and loads the runtime once.
pub record EffectRun : Type 0 where
  pub cancelled : Bool
  pub has_terminal : Bool
  pub loading : Bool

pub record Runtime : Type 0 where
  -- the run whose cleanup is still to come
  pub current : Option ℕ
  pub next_run : ℕ
  pub runs : ℕ → EffectRun
  -- `termRef`, by the run that set it
  pub term_ref : Option ℕ
  pub terminal_ready : Bool
  -- terminals that are not disposed of
  pub live_terminals : List ℕ
  -- `onBootError`, the latest first
  pub boot_errors : List ℕ

-- How `setup` ends: it throws before it has a terminal or with one, or it does not throw.
pub data SetupResult : Type 0 where
  fails_early fails_late succeeds : SetupResult

abbrev pub initial_runtime : Runtime
initial_runtime = record {
  current = none;
  next_run = 0;
  runs = λ k. record { cancelled = false; has_terminal = false; loading = false };
  term_ref = none;
  terminal_ready = false;
  live_terminals = [];
  boot_errors = [];
}

abbrev pub put_run : ℕ → EffectRun → Runtime → Runtime
put_run k r s = record s { runs = λ j. if j == k then r else s.runs j }

abbrev pub without_terminal : ℕ → List ℕ → List ℕ
without_terminal k [] = []
without_terminal k (t ∷ ts) = let rest = without_terminal k ts in if t == k then rest else t ∷ rest

unfoldable pub dispose_runtime : ℕ → Runtime → Runtime
dispose_runtime k s =
    let r = s.runs k in
    record (put_run k (record r { has_terminal = false }) s) {
      live_terminals =
          if r.has_terminal then without_terminal k s.live_terminals else s.live_terminals;
      term_ref = none;
    }

-- The effect runs, after the cleanup of the run before.
abbrev begin_run : Option ℕ → Runtime → Runtime
begin_run (some k) s = s
begin_run none s =
    record (put_run s.next_run (record { cancelled = false; has_terminal = false; loading = true })
      s) { current = some s.next_run; next_run = suc s.next_run }

unfoldable pub boot : Runtime → Runtime
boot s = begin_run s.current s

abbrev pub new_terminal : ℕ → Runtime → Runtime
new_terminal k s = record (put_run k (record (s.runs k) { has_terminal = true }) s) {
  live_terminals = k ∷ s.live_terminals;
}

abbrev pub fail_setup : ℕ → Runtime → Runtime
fail_setup k s = record (dispose_runtime k s) {
  boot_errors = k ∷ s.boot_errors;
  terminal_ready = false;
}

abbrev pub finish_setup : SetupResult → ℕ → Runtime → Runtime
finish_setup fails_early k s = fail_setup k s
finish_setup fails_late k s = fail_setup k (new_terminal k s)
finish_setup succeeds k s = record (new_terminal k s) { term_ref = some k; terminal_ready = true }

-- `loadRuntime` settles for a run, and the rest of `setup` follows at once.
unfoldable pub load_settles : SetupResult → ℕ → Runtime → Runtime
unfolding dispose_runtime
load_settles result k s =
    let r = s.runs k in
    let t = put_run k (record r { loading = false }) s in
    if r.loading then (if r.cancelled then t else finish_setup result k t) else s

abbrev end_run : Option ℕ → Runtime → Runtime
end_run none s = s
end_run (some k) s =
    let t = put_run k (record (s.runs k) { cancelled = true }) s in
    record (dispose_runtime k (record t { terminal_ready = false })) { current = none }

unfoldable pub clean_up : Runtime → Runtime
unfolding dispose_runtime
clean_up s = end_run s.current s
