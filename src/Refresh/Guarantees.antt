-- ===== src/Refresh/Guarantees.antt =====
-- What overlapping requests for the sessions guarantee.
use wootty.Base.{
  ℕ, suc, ◌≡◌, ◌≢◌, refl, ap, ◌∙◌, true, false, ◌∷◌, Option, none, some, ◌==◌, if◌then◌else◌, arith,
}
use wootty.Session.Payload.{SessionParseResult}
use wootty.Refresh.{
  request_superseded, request_timeout, Outcome, RefreshResult, racing, raced, concluded,
  PendingRefresh, on_refresh_failure, Coordinator, Request, put, begin_request, started,
  abort_active, kept_pending, continue_phase, continue_request, released, next_refresh,
  finish_phase, finish_request, refresh, call_timeout_ms, timeout_fires, fetch_settles,
  abort_request, fail_silently, fail_loudly, continue_current, aborted_token, listens, lose_race,
  settle_race,
}
use wootty.Refresh.Order.{IsOrdered, Reach}
use wootty.Refresh.Invariant.{is_running, phase_of, put_here}
use wootty.Refresh.Quiet.{abort_active-Same}
use wootty.Refresh.Finish.{finishing, Reach-IsSound}

module _ {P : Type 0} (parse : P → Option SessionParseResult) where
  -- Whatever overlaps, is aborted, times out or fails: the handlers hear of each request once at
  -- most, never of one after a later one, and of invalid entries directly after their sessions.
  -- So a list of sessions is not replaced by that of an earlier request.
  pub Reach-IsOrdered : (s : Coordinator P) → Reach parse s → IsOrdered s.calls
  Reach-IsOrdered s r = (Reach-IsSound parse s r).ordered

  -- While a refresh is pending, the latest request is active and has not finished.
  pending_is_awaited :
      (s : Coordinator P) (p : PendingRefresh)
      → Reach parse s
      → s.pending ≡ some p
      → (p.queued_for ≡ s.latest_id)
        × (s.active ≡ some s.latest_id)
        × (is_running (phase_of s s.latest_id) ≡ true)
  pending_is_awaited s p r e =
      let v = Reach-IsSound parse s r in
      let (queued, active) = v.pending_waits p e in
      (queued, active, (v.active_runs s.latest_id active).1)

  finish_with_pending :
      (s : Coordinator P) (p : PendingRefresh) (r : RefreshResult)
      → s.pending ≡ some p
      → s.active ≡ some s.latest_id
      → p.queued_for ≡ s.latest_id
      → phase_of s s.latest_id ≡ concluded r
      → finish_request s.latest_id s ≡ begin_request false (finishing s.latest_id r none s)
  unfolding finish_request refresh
  finish_with_pending s p r e a q c =
      let k = s.latest_id in
      let here : (k == k) ≡ true = ground arith in
      let queued : (p.queued_for == k) ≡ true = ground (arith, q) in
      let gone : released k s.active ≡ none = ap (released k) a ∙ ground (arith, here) in
      ap (λ x. finish_phase k x s) c
      ∙ ap (λ o. next_refresh k o (finishing k r s.pending s)) e
      ∙ rw (here, queued, gone) refl

  begin_request_fields : (s : Coordinator P) → (begin_request false s).latest_id ≡ suc s.latest_id
  begin_request_fields s =
      (abort_active-Same s.active (record s {
        latest_id = suc s.latest_id;
        pending = kept_pending s.pending (suc s.latest_id);
      })).latest

  -- When the latest request of a state that is reached ends while a refresh is pending, the next
  -- request starts at once: it is the active one and waits for its race, and nothing is pending any
  -- longer.
  pub finish_request_serves :
      (s : Coordinator P) (p : PendingRefresh) (r : RefreshResult)
      → Reach parse s
      → s.pending ≡ some p
      → phase_of s s.latest_id ≡ concluded r
      → let t = finish_request s.latest_id s in
        (t.latest_id ≡ suc s.latest_id)
        × (t.active ≡ some (suc s.latest_id))
        × (t.pending ≡ none)
        × (phase_of t (suc s.latest_id) ≡ racing)
  finish_request_serves s p r reach e c =
      let (q, a, _) = pending_is_awaited s p reach e in
      let u = finishing s.latest_id r none s in
      let u' : Coordinator P = record u { latest_id = suc s.latest_id } in
      let same = abort_active-Same u.active u' in
      let t = finish_with_pending s p r e a q c in
      (
        ap (λ x. x.latest_id) t ∙ same.latest,
        ap (λ x. x.active) t,
        ap (λ x. x.pending) t ∙ same.pending,
        ap (λ x. phase_of x (suc s.latest_id)) t
            ∙ put_here (suc s.latest_id) (started false) (abort_active u.active u'),
      )

  -- A request that is not the latest any more calls no handler, whatever it was answered, and is
  -- concluded as superseded.
  superseded_is_silent :
      (s : Coordinator P) (k : ℕ) (o : Outcome P)
      → phase_of s k ≡ raced o
      → s.latest_id ≢ k
      → let t = continue_request parse k s in
        (t.calls ≡ s.calls)
        × (phase_of t k ≡ concluded (some request_superseded))
        × (t.active ≡ s.active)
        × (t.pending ≡ s.pending)
  unfolding continue_request
  superseded_is_silent s k o e other =
      let stale : (s.latest_id == k) ≡ false = ground (arith, other) in
      rw (e, stale)
        (
          refl,
          put_here k (record (s.requests k) { phase = concluded (some request_superseded) }) s,
          refl,
          refl,
        )

  request_here : (k : ℕ) (r : Request P) (s : Coordinator P) → (put k r s).requests k ≡ r
  request_here k r s = let same : (k == k) ≡ true = ground arith in rw same refl

  -- The request of a timer that fired has lost its race.
  abbrev timed_out_request : Request P
  timed_out_request = record { phase = raced aborted_token; aborted = true; timed_out = true }

  timeout_fires_here :
      (s : Coordinator P) (k : ℕ)
      → phase_of s k ≡ racing
      → timeout_fires k s
        ≡ put k timed_out_request (put k (record (s.requests k) { timed_out = true }) s)
  unfolding timeout_fires
  timeout_fires_here s k e =
      let r : Request P = record (s.requests k) { timed_out = true } in
      ap (λ p. if listens p then abort_request k (put k r s) else s) e
      ∙ ap (λ x. put k (record x { phase = lose_race x.phase; aborted = true }) (put k r s))
          (request_here k r s)
      ∙ ap
          (λ p.
            put k (record { phase = lose_race p; aborted = true; timed_out = true }) (put k r s))
          e

  fetch_settles_late :
      (s : Coordinator P) (k : ℕ) (o : Outcome P)
      → fetch_settles k o (put k timed_out_request s)
        ≡ put k timed_out_request (put k timed_out_request s)
  unfolding fetch_settles
  fetch_settles_late s k o =
      ap (λ x. put k (record x { phase = settle_race o x.phase }) (put k timed_out_request s))
        (request_here k timed_out_request s)

  continue_timed_out :
      (s : Coordinator P)
      → let k = s.latest_id in
        continue_request parse k (put k timed_out_request s)
        ≡ fail_loudly k (request_timeout call_timeout_ms) (put k timed_out_request s)
  unfolding continue_request
  continue_timed_out s =
      let k = s.latest_id in
      let same : (k == k) ≡ true = ground arith in
      let s' = put k timed_out_request s in
      ap (λ x. continue_phase parse k x.phase s') (request_here k timed_out_request s)
      ∙ ap
          (λ b.
            if b
            then continue_current parse k aborted_token (s'.requests k).timed_out
                (s'.requests k).aborted s'
            else fail_silently k request_superseded s')
          same
      ∙ ap (λ x. continue_current parse k aborted_token x.timed_out x.aborted s')
          (request_here k timed_out_request s)

  -- When the timer of the latest request fires during its race, then whatever the fetch still
  -- answers, the request reports a timeout of fifteen seconds and is concluded with it.
  timeout_is_reported :
      (s : Coordinator P) (o : Outcome P)
      → phase_of s s.latest_id ≡ racing
      → let k = s.latest_id in
        let t = continue_request parse k (fetch_settles k o (timeout_fires k s)) in
        (t.calls ≡ on_refresh_failure k (request_timeout 15_000) ∷ s.calls)
        × (phase_of t k ≡ concluded (some (request_timeout 15_000)))
  timeout_is_reported s o e =
      let k = s.latest_id in
      let u : Coordinator P = put k (record (s.requests k) { timed_out = true }) s in
      let t =
        ap (λ x. continue_request parse k (fetch_settles k o x)) (timeout_fires_here s k e)
        ∙ ap (λ x. continue_request parse k x) (fetch_settles_late u k o)
        ∙ continue_timed_out (put k timed_out_request u) in
      let v = put k timed_out_request (put k timed_out_request u) in
      (
        ap (λ x. x.calls) t,
        ap (λ x. phase_of x k) t
            ∙ put_here k
                (record (v.requests k) { phase = concluded (some (request_timeout 15_000)) }) v,
      )
