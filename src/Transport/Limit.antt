-- ===== src/Transport/Limit.antt =====
-- The number of reconnects in an outage, and their delays.
use wootty.Base.{ℕ, ◌+◌, ◌-◌, ◌≤◌, ◌<◌, Below, Below-lt, arith}
use wootty.Sanitization.{UrlApi}
use wootty.Transport.Browser.{Browser}
use wootty.Transport.Policy.{reconnect_delay_ms, max_attempts}
use wootty.Transport.Service.{Service}
use wootty.Transport.Steps.{Step, Reach, next}
use wootty.Transport.Soundness.{Reach-IsSound}
use wootty.Transport.Still.{held, Pays}
use wootty.Transport.Outage.{IsOfOutage, fired_by, Step-Pays}

module _ {N U : Type 0} (browser : Browser N) (api : UrlApi U) where
  pub data Outage (s : Service N) : Service N → Type 0 where
    begins : Outage s s
    goes_on :
        {t u : Service N}
        → Outage s t
        → (step : Step browser api t u) → IsOfOutage browser api step
        → Outage s u

  -- How many delayed reconnects fire.
  abbrev pub reconnects_in : {s t : Service N} → Outage s t → ℕ
  reconnects_in begins = 0
  reconnects_in (goes_on o step h) = reconnects_in o + fired_by browser api step

  outage-Reach : {s t : Service N} → Reach browser api s → Outage s t → Reach browser api t
  outage-Reach r begins = r
  outage-Reach r (goes_on o step h) = next (outage-Reach r o) step

  outage-Pays :
      {s t : Service N} → Reach browser api s → (o : Outage s t) → Pays (reconnects_in o) s t
  outage-Pays r begins = record { paid = omega arith }
  outage-Pays r (goes_on {t = t} o step h) =
      let p = outage-Pays r o in
      let q = Step-Pays browser api step h (Reach-IsSound browser api t (outage-Reach r o)) in
      record { paid = omega (arith, p.paid, q.paid) }

  -- From a state that is reached, as long as no socket opens and no command is given but `connect`
  -- and `send`, whatever sockets close or fail, with whatever codes, and whichever timers fire: the
  -- delayed reconnects that fire, and the one that may then be set, are no more than what is left of
  -- the 8 attempts and the one that was set before.
  pub outage_gives_up :
      {s t : Service N} (r : Reach browser api s) (o : Outage s t)
      → reconnects_in o + held t.reconnect_timer
        ≤ (max_attempts - s.state.reconnect_attempt) + held s.reconnect_timer
  outage_gives_up {s} {t} r o =
      let p = outage-Pays r o in
      let v = Reach-IsSound browser api t (outage-Reach r o) in omega (arith, p.paid, v.attempts)

IsFair : ℕ → Type 0
IsFair n =
    (300 ≤ reconnect_delay_ms n)
    × (reconnect_delay_ms n ≤ 5_000)
    × (reconnect_delay_ms n ≤ reconnect_delay_ms (n + 1))

IsFair-delays : Below IsFair max_attempts
unfolding IsFair reconnect_delay_ms
IsFair-delays = omega arith

-- The delay of an attempt that can be scheduled: at least 300 ms, at most 5 s, and never less than
-- the one before.
reconnect_delay_ms_bounds :
    (attempt : ℕ)
    → attempt < max_attempts
    → (300 ≤ reconnect_delay_ms attempt)
      × (reconnect_delay_ms attempt ≤ 5_000)
      × (reconnect_delay_ms attempt ≤ reconnect_delay_ms (attempt + 1))
unfolding IsFair
reconnect_delay_ms_bounds n lt = Below-lt IsFair max_attempts n IsFair-delays lt
