-- ===== src/Refresh/Finish.antt =====
-- The end of a request, and what holds in every state of the coordinator.
use wootty.Base.{
  ℕ, ◌≡◌, inl, inr, refl, sym, subst, ap, ◌∙◌, true, false, Option, none, some, Bool-cases, ◌==◌,
  arith,
}
use wootty.Session.Payload.{SessionParseResult}
use wootty.Refresh.{
  RefreshResult, Phase, unused, racing, raced, concluded, finished, PendingRefresh, Coordinator,
  Request, put, released, next_refresh, finish_phase, finish_request,
}
use wootty.Refresh.Order.{
  AllBefore, Step, refreshes, aborts, answers, rejects, times_out, continues, finishes, unmounts,
  Reach, start, next,
}
use wootty.Refresh.Invariant.{
  is_open, is_running, phase_of, put_here, put_there, IsSound, Same-IsSound,
}
use wootty.Refresh.Quiet.{outer_abort-Same, fetch_settles-Same, timeout_fires-Same}
use wootty.Refresh.Begin.{initial-IsSound, refresh-IsSound, unmount-IsSound}
use wootty.Refresh.Conclude.{continue_request-IsSound}

released_inv : (k j : ℕ) (o : Option ℕ) → released k o ≡ some j → (o ≡ some j) × ((j == k) ≡ false)
released_inv k j none e = absurd (cc e)
released_inv k j (some a) e = ground (arith, e)

module _ {P : Type 0} where
  abbrev pub finishing : ℕ → RefreshResult → Option PendingRefresh → Coordinator P → Coordinator P
  finishing k r q s = record (put k (record (s.requests k) { phase = finished r }) s) {
    active = released k s.active;
    pending = q;
  }

  finishing-IsSound :
      (k : ℕ) (r : RefreshResult) (q : Option PendingRefresh) (s : Coordinator P)
      → ((p : PendingRefresh)
          → q ≡ some p
          → (p.queued_for ≡ s.latest_id) × (released k s.active ≡ some s.latest_id))
      → IsSound s
      → IsSound (finishing k r q s)
  finishing-IsSound k r q s waits v = record {
    active_runs = λ j e.
        let (a, other) = released_inv k j s.active e in
        let (b, c) = v.active_runs j a in (b, ap is_running (put_there k j r' s other) ∙ c);
    pending_waits = waits;
    calls_known = v.calls_known;
    calls_before = before;
    ordered = v.ordered;
  }
    where
      r' : Request P
      r' = record (s.requests k) { phase = finished r }

      before : is_open (phase_of (put k r' s) s.latest_id) ≡ true → AllBefore s.latest_id s.calls
      before h = elim (Bool-cases (s.latest_id == k)) [
        | inl same ↦
            let e : k ≡ s.latest_id = ground (arith, same) in
            absurd (
              cc (
                h,
                subst (λ n. is_open (phase_of (put k r' s) n) ≡ false) e
                    (ap is_open (put_here k r' s)),
              ))
        | inr other ↦ v.calls_before (sym (ap is_open (put_there k s.latest_id r' s other)) ∙ h)
      ]

  finish_concluded :
      (k : ℕ) (r : RefreshResult) (o : Option PendingRefresh) (s : Coordinator P)
      → s.pending ≡ o
      → IsSound s
      → IsSound (next_refresh k o (finishing k r s.pending s))
  finish_concluded k r none s e v = finishing-IsSound k r s.pending s (λ p h. absurd (cc (e, h))) v
  finish_concluded k r (some p) s e v =
      let (queued, active) = v.pending_waits p e in
      elim (Bool-cases (s.latest_id == k)) [
        | inl here ↦
            let both : (p.queued_for == k) ≡ true = ground (arith, here, queued) in
            rw (here, both)
              (refresh-IsSound p.trigger false (finishing k r none s)
                (finishing-IsSound k r none s (λ p' h. absurd (cc h)) v))
        | inr other ↦ rw other (
            finishing-IsSound k r s.pending s
              (λ p' h.
                let (q', _) = v.pending_waits p' h in
                (q', ap (released k) active ∙ ground (arith, other)))
              v)
      ]

  pub finish_request-IsSound :
      (k : ℕ) (s : Coordinator P) → IsSound s → IsSound (finish_request k s)
  unfolding finish_request
  finish_request-IsSound k s v = go (phase_of s k)
    where
      go : (p : Phase P) → IsSound (finish_phase k p s)
      go unused = v
      go racing = v
      go (raced o) = v
      go (finished r) = v
      go (concluded r) = finish_concluded k r s.pending s refl v

  module _ (parse : P → Option SessionParseResult) where
    Step-IsSound : {s t : Coordinator P} → Step parse s t → IsSound s → IsSound t
    Step-IsSound {s} (refreshes trigger b) v = refresh-IsSound trigger b s v
    Step-IsSound {s} (aborts k) v = Same-IsSound (outer_abort-Same k s) v
    Step-IsSound {s} (answers k r) v = Same-IsSound (fetch_settles-Same k _ s) v
    Step-IsSound {s} (rejects k b) v = Same-IsSound (fetch_settles-Same k _ s) v
    Step-IsSound {s} (times_out k) v = Same-IsSound (timeout_fires-Same k s) v
    Step-IsSound {s} (continues k) v = continue_request-IsSound parse k s v
    Step-IsSound {s} (finishes k) v = finish_request-IsSound k s v
    Step-IsSound {s} unmounts v = unmount-IsSound s v

    pub Reach-IsSound : (s : Coordinator P) → Reach parse s → IsSound s
    Reach-IsSound s start = initial-IsSound
    Reach-IsSound s (next {s = u} r step) = Step-IsSound step (Reach-IsSound u r)
