-- ===== src/Polling/Guarantees.antt =====
-- What polling guarantees in every state, and through an outage.
use wootty.Base.{
  ℕ, suc, ◌≤◌, ◌≡◌, ◌⊎◌, refl, true, false, List, [], ◌∷◌, Option, none, some, inl, inr, arith,
}
use wootty.Session.History.{next_session_refresh_delay_ms}
use wootty.Refresh.{RefreshResult}
use wootty.Polling.{
  counted_failure, classify_polling_refresh_result, run_again, close_circuit, Timer, no_run,
  waiting, handled, PollingCall, on_refresh_circuit_open, Polling, refresh_settles,
  refresh_finishes, timer_fires,
}
use wootty.Polling.Shape.{
  Reach, Shape, asking, told, told_to_retry, broken, resting, cooling, ended,
}
use wootty.Polling.Preservation.{Reach-Shape}

abbrev pub IsAlone : List Timer → Option ℕ → Type 0
IsAlone timers held = (t : Timer) × (timers ≡ t ∷ []) × (held ≡ some t.handle)

-- A request runs: its result or its end is still to come, it is the one that is held, and no other
-- one starts beside it.
abbrev pub IsAsking : Polling → Type 0
IsAsking s =
    (c : ℕ) × ((s.run ≡ waiting c) ⊎ (s.run ≡ handled c))
    × (s.active_controller ≡ some c)
    × (s.refresh_in_flight ≡ true)

-- No request runs, the next one may start, and one timer is set, which is the one that is held.
abbrev pub IsResting : Polling → Type 0
IsResting s = (s.run ≡ no_run) × (s.refresh_in_flight ≡ false) × IsAlone s.timers s.refresh_timer

pub record IsAlive (s : Polling) : Type 0 where
  -- polling does not stop by itself
  pub goes_on : s.disposed ≡ false → IsAsking s ⊎ IsResting s
  -- no timer is set that is not held
  pub held : (s.timers ≡ []) ⊎ IsAlone s.timers s.refresh_timer
  -- the circuit is open after the sixth counted failure and not before
  pub opened : s.disposed ≡ false → s.circuit_open ≡ true → s.consecutive_failures ≡ 6
  pub closed : s.disposed ≡ false → s.circuit_open ≡ false → s.consecutive_failures ≤ 5
  -- nothing is set or held after the end
  pub over : s.disposed ≡ true → (s.timers ≡ []) × (s.active_controller ≡ none)

Shape-IsAlive : {s : Polling} → Shape s → IsAlive s
Shape-IsAlive (asking c failures id calls le) = record {
  goes_on = λ e. inl (c, inl refl, refl, refl);
  held = inl refl;
  opened = λ _ e. absurd (cc e);
  closed = λ _ e. le;
  over = λ e. absurd (cc e);
}
Shape-IsAlive (told c failures id calls le) = record {
  goes_on = λ e. inl (c, inr refl, refl, refl);
  held = inl refl;
  opened = λ _ e. absurd (cc e);
  closed = λ _ e. le;
  over = λ e. absurd (cc e);
}
Shape-IsAlive (told_to_retry c h id calls) = record {
  goes_on = λ e. inl (c, inr refl, refl, refl);
  held = inr (_, refl, refl);
  opened = λ _ e. absurd (cc e);
  closed = λ _ e. omega arith;
  over = λ e. absurd (cc e);
}
Shape-IsAlive (broken c h id calls) = record {
  goes_on = λ e. inl (c, inr refl, refl, refl);
  held = inr (_, refl, refl);
  opened = λ _ e. refl;
  closed = λ _ e. absurd (cc e);
  over = λ e. absurd (cc e);
}
Shape-IsAlive (resting h failures d id calls le) = record {
  goes_on = λ e. inr (refl, refl, (_, refl, refl));
  held = inr (_, refl, refl);
  opened = λ _ e. absurd (cc e);
  closed = λ _ e. le;
  over = λ e. absurd (cc e);
}
Shape-IsAlive (cooling h id calls) = record {
  goes_on = λ e. inr (refl, refl, (_, refl, refl));
  held = inr (_, refl, refl);
  opened = λ _ e. refl;
  closed = λ _ e. absurd (cc e);
  over = λ e. absurd (cc e);
}
Shape-IsAlive (ended timer flight broke failures run id calls) = record {
  goes_on = λ e. absurd (cc e);
  held = inl refl;
  opened = λ e _. absurd (cc e);
  closed = λ e _. absurd (cc e);
  over = λ e. (refl, refl);
}

-- In every state that polling reaches: until it is disposed of, either a request has its result or
-- its end still to come and is held, or none runs, the next one is not kept from starting, and
-- exactly one timer is set; a timer that is set is the one that is held; the circuit is open only
-- after 6 counted failures and closed only with at most 5; and after the disposal no timer and no
-- controller is left.
pub Reach-IsAlive : (s : Polling) → Reach s → IsAlive s
Reach-IsAlive s r = Shape-IsAlive (Reach-Shape s r)

abbrev pub IsCounted : RefreshResult → Type 0
IsCounted r = classify_polling_refresh_result r ≡ counted_failure

abbrev fire_held : Option ℕ → Polling → Polling
fire_held none s = s
fire_held (some h) s = timer_fires h s

-- The result of a request, its end, and the timer that this leaves.
abbrev pub poll_round : RefreshResult → Polling → Polling
poll_round r s = let t = refresh_finishes (refresh_settles r s) in fire_held t.refresh_timer t

abbrev pub outage : List RefreshResult → Polling → Polling
outage [] s = s
outage (r ∷ rs) s = outage rs (poll_round r s)

abbrev asked : ℕ → ℕ → ℕ → List PollingCall → Polling
asked c failures id calls = record {
  refresh_in_flight = true;
  disposed = false;
  refresh_timer = none;
  consecutive_failures = failures;
  circuit_open = false;
  active_controller = some c;
  run = waiting c;
  next_id = id;
  timers = [];
  calls = calls;
}

abbrev rested : ℕ → ℕ → List PollingCall → Polling
rested failures id calls = record {
  refresh_in_flight = false;
  disposed = false;
  refresh_timer = some id;
  consecutive_failures = failures;
  circuit_open = false;
  active_controller = none;
  run = no_run;
  next_id = suc id;
  timers =
      record { handle = id; task = run_again; delay_ms = next_session_refresh_delay_ms failures }
      ∷ [];
  calls = calls;
}

abbrev cooled : ℕ → List PollingCall → Polling
cooled id calls = record {
  refresh_in_flight = false;
  disposed = false;
  refresh_timer = some id;
  consecutive_failures = 6;
  circuit_open = true;
  active_controller = none;
  run = no_run;
  next_id = suc id;
  timers = record { handle = id; task = close_circuit; delay_ms = 60_000 } ∷ [];
  calls = on_refresh_circuit_open 6 ∷ calls;
}
