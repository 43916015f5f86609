-- ===== src/Refresh/Begin.antt =====
-- A request that begins, or is queued, and the end of the hook.
use wootty.Base.{
  ℕ, suc, ◌≡◌, inl, inr, refl, sym, subst, ap, ◌∙◌, Bool, true, false, Option, none, some, All-map,
  Bool-cases, List, arith,
}
use wootty.Refresh.{
  Trigger, PendingRefresh, RefreshCall, Coordinator, Request, started, abort_active, kept_pending,
  queue, begin_request, is_busy, refresh, unmount, initial_coordinator,
}
use wootty.Refresh.Order.{AllBefore, IsOrdered}
use wootty.Refresh.Invariant.{is_running, phase_of, put_here, AllUpTo, IsSound}
use wootty.Refresh.Quiet.{abort_active-Same}

later : (n : ℕ) (calls : List RefreshCall) → AllUpTo n calls → AllBefore (suc n) calls
later n calls h = All-map (λ c le. omega (arith, le)) calls h

up_to : (n : ℕ) (calls : List RefreshCall) → AllBefore n calls → AllUpTo n calls
up_to n calls h = All-map (λ c lt. omega (arith, lt)) calls h

abbrev queued_of : Option PendingRefresh → ℕ
queued_of none = 0
queued_of (some p) = p.queued_for

module _ {P : Type 0} where
  pub initial-IsSound : IsSound (initial_coordinator P)
  unfolding initial_coordinator
  initial-IsSound = record {
    active_runs = λ k. cc;
    pending_waits = λ p. cc;
    calls_known = tt;
    calls_before = λ e. tt;
    ordered = tt;
  }

  no_pending : (s : Coordinator P) → IsSound s → kept_pending s.pending (suc s.latest_id) ≡ none
  no_pending s v = go s.pending refl
    where
      go : (o : Option PendingRefresh) → s.pending ≡ o → kept_pending o (suc s.latest_id) ≡ none
      go none e = refl
      go (some p) e = let (q, _) = v.pending_waits p e in ground (arith, q)

  started_runs : (b : Bool) (r : Request P) → r ≡ started b → is_running r.phase ≡ true
  started_runs true r e = ap (λ x. is_running x.phase) e
  started_runs false r e = ap (λ x. is_running x.phase) e

  pub begin_request-IsSound :
      (b : Bool) (s : Coordinator P) → IsSound s → IsSound (begin_request b s)
  begin_request-IsSound b s v =
      let id = suc s.latest_id in
      let s' : Coordinator P = record s { latest_id = id; pending = kept_pending s.pending id } in
      let c = abort_active-Same s.active s' in
      let t = abort_active s.active s' in
      let earlier : AllBefore id t.calls =
        subst (AllBefore id) (sym c.calls) (later s.latest_id s.calls v.calls_known) in
      record {
        active_runs = λ k e.
            subst (λ j. (j ≡ t.latest_id) × (is_running (phase_of (begin_request b s) j) ≡ true))
              (ground (arith, e))
              (
                sym c.latest,
                ap is_running (put_here id (started b) t) ∙ started_runs b (started b) refl,
              );
        pending_waits = λ p e. absurd (cc (c.pending, no_pending s v, e));
        calls_known = subst (λ n. AllUpTo n t.calls) (sym c.latest) (up_to id t.calls earlier);
        calls_before = λ e. subst (λ n. AllBefore n t.calls) (sym c.latest) earlier;
        ordered = subst IsOrdered (sym c.calls) v.ordered;
      }

  queue-IsSound :
      (trigger : Trigger) (k : ℕ) (s : Coordinator P)
      → s.active ≡ some k
      → IsSound s
      → IsSound (queue trigger s)
  queue-IsSound trigger k s e v =
      let (same, _) = v.active_runs k e in
      record {
        active_runs = v.active_runs;
        pending_waits = λ p h. (sym (ap queued_of h), e ∙ ap (λ n. some n) same);
        calls_known = v.calls_known;
        calls_before = v.calls_before;
        ordered = v.ordered;
      }

  pub refresh-IsSound :
      (trigger : Trigger) (b : Bool) (s : Coordinator P) → IsSound s → IsSound (refresh trigger b s)
  unfolding refresh
  refresh-IsSound trigger b s v = elim (Bool-cases (is_busy s.active trigger)) [
    | inl busy ↦ rw busy (queued s.active refl busy)
    | inr free ↦ rw free (begin_request-IsSound b s v)
  ]
    where
      queued :
          (o : Option ℕ)
          → s.active ≡ o
          → is_busy s.active trigger ≡ true
          → IsSound (queue trigger s)
      queued none e busy = absurd (ground (arith, e, busy))
      queued (some k) e busy = queue-IsSound trigger k s e v

  pub unmount-IsSound : (s : Coordinator P) → IsSound s → IsSound (unmount s)
  unfolding unmount
  unmount-IsSound s v =
      let id = suc s.latest_id in
      let c = abort_active-Same s.active (record s { latest_id = id; pending = none }) in
      let t = abort_active s.active (record s { latest_id = id; pending = none }) in
      let earlier : AllBefore id t.calls =
        subst (AllBefore id) (sym c.calls) (later s.latest_id s.calls v.calls_known) in
      record {
        active_runs = λ k e. absurd (cc e);
        pending_waits = λ p e. absurd (cc (c.pending, e));
        calls_known = subst (λ n. AllUpTo n t.calls) (sym c.latest) (up_to id t.calls earlier);
        calls_before = λ e. subst (λ n. AllBefore n t.calls) (sym c.latest) earlier;
        ordered = subst IsOrdered (sym c.calls) v.ordered;
      }
