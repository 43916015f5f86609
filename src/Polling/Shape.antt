-- ===== src/Polling/Shape.antt =====
-- The steps of polling, and the states that it can be in.
use wootty.Base.{ℕ, ◌≤◌, Bool, true, false, List, [], ◌∷◌, Option, none, some}
use wootty.Refresh.{RefreshResult}
use wootty.Polling.{
  run_again, close_circuit, Run, no_run, waiting, handled, PollingCall, Polling, start_polling,
  refresh_settles, refresh_rejects, refresh_finishes, timer_fires, dispose_polling,
}

pub data Step (s : Polling) : Polling → Type 0 where
  settles : (result : RefreshResult) → Step s (refresh_settles result s)
  rejects : Step s (refresh_rejects s)
  finishes : Step s (refresh_finishes s)
  fires : (h : ℕ) → Step s (timer_fires h s)
  disposes : Step s (dispose_polling s)

pub data Reach : Polling → Type 0 where
  start : Reach start_polling
  next : {s t : Polling} → Reach s → Step s t → Reach t

-- While polling goes on: the request runs and is held, the circuit is closed after fewer than 6
-- counted failures or was opened at the sixth, and the timers are the one that `refreshTimer`
-- holds, if any. Between requests there is exactly one timer.
pub data Shape : Polling → Type 0 where
  asking :
      (c failures id : ℕ) (calls : List PollingCall)
      → failures ≤ 5
      → Shape (record {
        refresh_in_flight = true;
        disposed = false;
        refresh_timer = none;
        consecutive_failures = failures;
        circuit_open = false;
        active_controller = some c;
        run = waiting c;
        next_id = id;
        timers = [];
        calls = calls;
      })
  told :
      (c failures id : ℕ) (calls : List PollingCall)
      → failures ≤ 5
      → Shape (record {
        refresh_in_flight = true;
        disposed = false;
        refresh_timer = none;
        consecutive_failures = failures;
        circuit_open = false;
        active_controller = some c;
        run = handled c;
        next_id = id;
        timers = [];
        calls = calls;
      })
  told_to_retry :
      (c h id : ℕ) (calls : List PollingCall)
      → Shape (record {
        refresh_in_flight = true;
        disposed = false;
        refresh_timer = some h;
        consecutive_failures = 0;
        circuit_open = false;
        active_controller = some c;
        run = handled c;
        next_id = id;
        timers = record { handle = h; task = run_again; delay_ms = 30_000 } ∷ [];
        calls = calls;
      })
  broken :
      (c h id : ℕ) (calls : List PollingCall)
      → Shape (record {
        refresh_in_flight = true;
        disposed = false;
        refresh_timer = some h;
        consecutive_failures = 6;
        circuit_open = true;
        active_controller = some c;
        run = handled c;
        next_id = id;
        timers = record { handle = h; task = close_circuit; delay_ms = 60_000 } ∷ [];
        calls = calls;
      })
  resting :
      (h failures delay_ms id : ℕ) (calls : List PollingCall)
      → failures ≤ 5
      → Shape (record {
        refresh_in_flight = false;
        disposed = false;
        refresh_timer = some h;
        consecutive_failures = failures;
        circuit_open = false;
        active_controller = none;
        run = no_run;
        next_id = id;
        timers = record { handle = h; task = run_again; delay_ms = delay_ms } ∷ [];
        calls = calls;
      })
  cooling :
      (h id : ℕ) (calls : List PollingCall)
      → Shape (record {
        refresh_in_flight = false;
        disposed = false;
        refresh_timer = some h;
        consecutive_failures = 6;
        circuit_open = true;
        active_controller = none;
        run = no_run;
        next_id = id;
        timers = record { handle = h; task = close_circuit; delay_ms = 60_000 } ∷ [];
        calls = calls;
      })
  ended :
      (timer : Option ℕ) (flight broke : Bool) (failures : ℕ) (run : Run) (id : ℕ)
      (calls : List PollingCall)
      → Shape (record {
        refresh_in_flight = flight;
        disposed = true;
        refresh_timer = timer;
        consecutive_failures = failures;
        circuit_open = broke;
        active_controller = none;
        run = run;
        next_id = id;
        timers = [];
        calls = calls;
      })
