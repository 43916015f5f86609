-- ===== src/Orchestrator/Rate.antt =====
-- How often transport events lead to a refresh.
use wootty.Base.{
  ℕ, ◌+◌, ◌≤◌, ◌≡◌, ◌⊎◌, inl, inr, refl, sym, subst, ap, ◌∙◌, true, false, List, [], ◌∷◌, Option,
  none, some, leb, Bool-cases, arith,
}
use wootty.Orchestrator.{
  TransportRefresh, initial_transport_refresh, is_too_soon, trailing_due, request_transport_refresh,
  trailing_fires, cancel_trailing, schedule_if_none, fire_if_due,
}

pub data Event : Type 0 where
  requests fires cancels : Event

abbrev pub handle_event : Event → ℕ → TransportRefresh → TransportRefresh
handle_event requests now r = request_transport_refresh now r
handle_event fires now r = trailing_fires now r
handle_event cancels now r = cancel_trailing r

-- Events in their order, each so many milliseconds after the one before.
abbrev pub run : List (ℕ × Event) → ℕ → TransportRefresh → TransportRefresh
run [] now r = r
run ((wait, e) ∷ es) now r = run es (now + wait) (handle_event e (now + wait) r)

-- Of three requests in a row the last comes at least 750 ms after the first; the latest stands
-- first.
abbrev pub AnyThreeSpaced : List ℕ → Type 0
AnyThreeSpaced (c ∷ b ∷ a ∷ earlier) = (a + 750 ≤ c) × AnyThreeSpaced (b ∷ a ∷ earlier)
AnyThreeSpaced _ = Unit

abbrev LatestSpaced : List ℕ → Type 0
LatestSpaced (b ∷ a ∷ earlier) = a + 750 ≤ b
LatestSpaced _ = Unit

-- The requests up to a time, with the earlier ones no later.
abbrev AllUntil : ℕ → List ℕ → Type 0
AllUntil now [] = Unit
AllUntil now (t ∷ ts) = (t ≤ now) × AllUntil t ts

abbrev latest : List ℕ → Option ℕ
latest [] = none
latest (t ∷ ts) = some t

-- A timer that is set is due 750 ms after the latest request, or was overtaken by one that came so
-- long after the one before.
abbrev PendingSpaced : Option ℕ → List ℕ → Type 0
PendingSpaced none ts = Unit
PendingSpaced (some due) [] = ⊥
PendingSpaced (some due) (t ∷ ts) = (t + 750 ≤ due) ⊎ LatestSpaced (t ∷ ts)

record IsRated (now : ℕ) (r : TransportRefresh) : Type 0 where
  last : r.last_at ≡ latest r.requested_at
  until : AllUntil now r.requested_at
  pending : PendingSpaced r.pending_due r.requested_at
  spaced : AnyThreeSpaced r.requested_at

later : (now wait : ℕ) (ts : List ℕ) → AllUntil now ts → AllUntil (now + wait) ts
later now wait [] h = tt
later now wait (t ∷ ts) h = (omega (arith, h.0), h.1)

waited : (now wait : ℕ) (r : TransportRefresh) → IsRated now r → IsRated (now + wait) r
waited now wait r v = record {
  last = v.last;
  until = later now wait r.requested_at v.until;
  pending = v.pending;
  spaced = v.spaced;
}

-- A request 750 ms after the latest.
direct :
    (now : ℕ) (ts : List ℕ)
    → is_too_soon now (latest ts) ≡ false
    → AllUntil now ts
    → AnyThreeSpaced ts
    → AnyThreeSpaced (now ∷ ts) × LatestSpaced (now ∷ ts)
direct now [] late u v = (tt, tt)
direct now (b ∷ []) late u v = (tt, ground (arith, late))
direct now (b ∷ a ∷ ts) late u v = ((ground (arith, late, u.1.0), v), ground (arith, late))

trailing :
    (now due : ℕ) (ts : List ℕ)
    → due ≤ now
    → PendingSpaced (some due) ts
    → AllUntil now ts
    → AnyThreeSpaced ts
    → AnyThreeSpaced (now ∷ ts)
trailing now due [] late p u v = tt
trailing now due (b ∷ []) late p u v = tt
trailing now due (b ∷ a ∷ ts) late (inl far) u v = (omega (arith, far, late, u.1.0), v)
trailing now due (b ∷ a ∷ ts) late (inr far) u v = (omega (arith, far, u.0), v)

overtaken :
    (o : Option ℕ) (now : ℕ) (ts : List ℕ) → LatestSpaced (now ∷ ts) → PendingSpaced o (now ∷ ts)
overtaken none now ts h = tt
overtaken (some due) now ts h = inr h

schedules :
    (now : ℕ) (o : Option ℕ) (r : TransportRefresh)
    → r.pending_due ≡ o
    → is_too_soon now r.last_at ≡ true
    → IsRated now r
    → IsRated now (schedule_if_none now o r)
schedules now (some due) r e soon v = v
schedules now none r e soon v = record {
  last = v.last;
  until = v.until;
  pending = go r.requested_at v.last v.until;
  spaced = v.spaced;
}
  where
    go :
        (ts : List ℕ)
        → r.last_at ≡ latest ts
        → AllUntil now ts
        → PendingSpaced (some (trailing_due now r.last_at)) ts
    go [] f u = absurd (ground (arith, soon, f))
    go (t ∷ ts) f u = inl (rw f (omega (arith, u.0)))

requests-IsRated :
    (now : ℕ) (r : TransportRefresh) → IsRated now r → IsRated now (request_transport_refresh now r)
unfolding request_transport_refresh
requests-IsRated now r v = elim (Bool-cases (is_too_soon now r.last_at)) [
  | inl soon ↦ rw soon (schedules now r.pending_due r refl soon v)
  | inr late ↦
      let (three, two) =
        direct now r.requested_at (ap (is_too_soon now) (sym v.last) ∙ late) v.until v.spaced in
      rw late (record {
        last = refl;
        until = (omega arith, v.until);
        pending = overtaken r.pending_due now r.requested_at two;
        spaced = three;
      })
]

fires-IsRated :
    (now : ℕ) (r : TransportRefresh) → IsRated now r → IsRated now (trailing_fires now r)
unfolding trailing_fires
fires-IsRated now r v = go r.pending_due refl
  where
    go : (o : Option ℕ) → r.pending_due ≡ o → IsRated now (fire_if_due now o r)
    go none e = v
    go (some due) e = elim (Bool-cases (leb due now)) [
      | inl late ↦ rw late (record {
        last = refl;
        until = (omega arith, v.until);
        pending = tt;
        spaced =
            trailing now due r.requested_at (ground (arith, late))
              (subst (λ o. PendingSpaced o r.requested_at) e v.pending) v.until v.spaced;
      })
      | inr early ↦ rw early v
    ]

event-IsRated :
    (e : Event) (now : ℕ) (r : TransportRefresh)
    → IsRated now r
    → IsRated now (handle_event e now r)
event-IsRated requests now r v = requests-IsRated now r v
event-IsRated fires now r v = fires-IsRated now r v
event-IsRated cancels now r v = record {
  last = v.last;
  until = v.until;
  pending = tt;
  spaced = v.spaced;
}

run-AnyThreeSpaced_from :
    (es : List (ℕ × Event)) (now : ℕ) (r : TransportRefresh)
    → IsRated now r
    → AnyThreeSpaced (run es now r).requested_at
run-AnyThreeSpaced_from [] now r v = v.spaced
run-AnyThreeSpaced_from ((wait, e) ∷ es) now r v =
    run-AnyThreeSpaced_from es (now + wait) (handle_event e (now + wait) r)
      (event-IsRated e (now + wait) r (waited now wait r v))

-- However transport events, trailing timers and cancellations follow each other on a clock that does
-- not step back: of any three requests for a refresh in a row, the third comes at least 750 ms after
-- the first.
pub run-AnyThreeSpaced :
    (es : List (ℕ × Event)) (start : ℕ)
    → AnyThreeSpaced (run es start initial_transport_refresh).requested_at
run-AnyThreeSpaced es start =
    run-AnyThreeSpaced_from es start initial_transport_refresh
      (record { last = refl; until = tt; pending = tt; spaced = tt })
