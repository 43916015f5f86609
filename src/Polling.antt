-- ===== src/Polling.antt =====
-- Polling for the sessions while their menu is open (apps/web/src/features/terminal/session/
-- application/bindings/session-refresh-binding.ts, session/application/session-refresh-policy.ts
-- and session-refresh-result.ts): the variables of the effect, the scheduler's pending timers, and
-- where the one request that runs has got to.
pub mod Shape
pub mod Preservation
pub mod Guarantees
mod Examples
use wootty.Base.{
  ℕ, suc, ◌+◌, Bool, true, false, not, ◌&&◌, ◌||◌, List, [], ◌∷◌, Option, none, some, leb, ◌==◌,
  if◌then◌else◌,
}
use wootty.Session.History.{next_session_refresh_delay_ms}
use wootty.Refresh.{
  RefreshFailure, bootstrap_error, request_aborted, request_superseded, RefreshResult,
}

pub data PollingResult : Type 0 where
  success ignored_failure bootstrap_retry counted_failure : PollingResult

unfoldable pub classify_polling_refresh_result : RefreshResult → PollingResult
classify_polling_refresh_result none = success
classify_polling_refresh_result (some request_aborted) = ignored_failure
classify_polling_refresh_result (some request_superseded) = ignored_failure
classify_polling_refresh_result (some bootstrap_error) = bootstrap_retry
classify_polling_refresh_result (some _) = counted_failure

abbrev pub failure_limit : ℕ
failure_limit = 6

abbrev pub cooldown_ms : ℕ
cooldown_ms = 60_000

abbrev pub bootstrap_retry_ms : ℕ
bootstrap_retry_ms = 30_000

-- The closures that timers hold.
pub data PollingTask : Type 0 where
  run_again close_circuit : PollingTask

pub record Timer : Type 0 where
  pub handle : ℕ
  pub task : PollingTask
  pub delay_ms : ℕ

-- A request waits for its result, then its `then` has run, then its `finally`.
pub data Run : Type 0 where
  no_run : Run
  waiting handled : (controller : ℕ) → Run

pub data PollingCall : Type 0 where
  request_refresh : (controller : ℕ) → PollingCall
  abort_refresh : (controller : ℕ) → PollingCall
  on_refresh_circuit_open : (failures : ℕ) → PollingCall

pub record Polling : Type 0 where
  pub refresh_in_flight : Bool
  pub disposed : Bool
  pub refresh_timer : Option ℕ
  pub consecutive_failures : ℕ
  pub circuit_open : Bool
  pub active_controller : Option ℕ
  pub run : Run
  -- the next handle and the next controller
  pub next_id : ℕ
  pub timers : List Timer
  -- the latest first
  pub calls : List PollingCall

abbrev pub set_poll_timer : PollingTask → ℕ → Polling → Polling
set_poll_timer task delay_ms s = record s {
  refresh_timer = some s.next_id;
  next_id = suc s.next_id;
  timers = record { handle = s.next_id; task = task; delay_ms = delay_ms } ∷ s.timers;
}

abbrev pub schedule_next : Polling → Polling
schedule_next s =
    if s.disposed
    then s
    else set_poll_timer run_again (next_session_refresh_delay_ms s.consecutive_failures) s

abbrev pub schedule_bootstrap_recovery_retry : Polling → Polling
schedule_bootstrap_recovery_retry s =
    if s.disposed then s else set_poll_timer run_again bootstrap_retry_ms s

abbrev pub open_circuit_breaker : Polling → Polling
open_circuit_breaker s =
    if s.disposed || s.circuit_open
    then s
    else set_poll_timer close_circuit cooldown_ms (record s {
      circuit_open = true;
      calls = on_refresh_circuit_open s.consecutive_failures ∷ s.calls;
    })

abbrev pub abort_active_refresh : Option ℕ → Polling → Polling
abort_active_refresh none s = s
abort_active_refresh (some c) s = record s {
  active_controller = none;
  calls = abort_refresh c ∷ s.calls;
}

abbrev pub run_refresh_loop : Polling → Polling
run_refresh_loop s = if s.disposed || s.refresh_in_flight || s.circuit_open then s else record s {
  refresh_in_flight = true;
  active_controller = some s.next_id;
  run = waiting s.next_id;
  next_id = suc s.next_id;
  calls = request_refresh s.next_id ∷ s.calls;
}

abbrev pub fresh_polling : Polling
fresh_polling = record {
  refresh_in_flight = false;
  disposed = false;
  refresh_timer = none;
  consecutive_failures = 0;
  circuit_open = false;
  active_controller = none;
  run = no_run;
  next_id = 0;
  timers = [];
  calls = [];
}

-- The effect begins with a request.
unfoldable pub start_polling : Polling
start_polling = run_refresh_loop fresh_polling

abbrev pub count_failure : Polling → Polling
count_failure s =
    let t = record s { consecutive_failures = s.consecutive_failures + 1 } in
    if leb failure_limit t.consecutive_failures then open_circuit_breaker t else t

abbrev pub on_polling_result : PollingResult → Polling → Polling
on_polling_result success s = record s { consecutive_failures = 0 }
on_polling_result ignored_failure s = s
on_polling_result bootstrap_retry s =
    schedule_bootstrap_recovery_retry (record s { consecutive_failures = 0 })
on_polling_result counted_failure s = count_failure s

abbrev settle_run : Run → RefreshResult → Polling → Polling
settle_run (waiting c) result s =
    on_polling_result (classify_polling_refresh_result result) (record s { run = handled c })
settle_run _ result s = s

-- `then`.
unfoldable pub refresh_settles : RefreshResult → Polling → Polling
unfolding classify_polling_refresh_result next_session_refresh_delay_ms
refresh_settles result s = settle_run s.run result s

abbrev reject_run : Run → Polling → Polling
reject_run (waiting c) s = record s { run = handled c }
reject_run _ s = s

-- A rejected request goes past `then`.
unfoldable pub refresh_rejects : Polling → Polling
refresh_rejects s = reject_run s.run s

abbrev controller_after : ℕ → Option ℕ → Option ℕ
controller_after c none = none
controller_after c (some a) = if a == c then none else some a

abbrev no_timer : Option ℕ → Bool
no_timer none = true
no_timer (some h) = false

abbrev finish_run : Run → Polling → Polling
finish_run (handled c) s =
    let t = record s {
      active_controller = controller_after c s.active_controller;
      refresh_in_flight = false;
      run = no_run;
    } in
    if not t.circuit_open && no_timer t.refresh_timer then schedule_next t else t
finish_run _ s = s

-- `finally`.
unfoldable pub refresh_finishes : Polling → Polling
unfolding next_session_refresh_delay_ms
refresh_finishes s = finish_run s.run s

abbrev find_timer : ℕ → List Timer → Option PollingTask
find_timer h [] = none
find_timer h (t ∷ ts) = let rest = find_timer h ts in if t.handle == h then some t.task else rest

abbrev drop_timer : ℕ → List Timer → List Timer
drop_timer h [] = []
drop_timer h (t ∷ ts) = let rest = drop_timer h ts in if t.handle == h then rest else t ∷ rest

abbrev run_task : PollingTask → Polling → Polling
run_task run_again s = run_refresh_loop s
run_task close_circuit s =
    if s.disposed
    then s
    else run_refresh_loop (record s { circuit_open = false; consecutive_failures = 0 })

abbrev fire_pending : Option PollingTask → ℕ → Polling → Polling
fire_pending none h s = s
fire_pending (some task) h s =
    run_task task (record s { refresh_timer = none; timers = drop_timer h s.timers })

unfoldable pub timer_fires : ℕ → Polling → Polling
timer_fires h s = fire_pending (find_timer h s.timers) h s

abbrev clear_poll_timer : Option ℕ → Polling → Polling
clear_poll_timer none s = s
clear_poll_timer (some h) s = record s { timers = drop_timer h s.timers }

-- The cleanup of the effect; `refreshTimer` keeps its handle.
unfoldable pub dispose_polling : Polling → Polling
dispose_polling s =
    let t = abort_active_refresh s.active_controller (record s { disposed = true }) in
    clear_poll_timer t.refresh_timer t
