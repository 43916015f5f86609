-- ===== src/Refresh/Conclude.antt =====
-- What a request does after its race.
use wootty.Base.{
  ℕ, ◌≡◌, ◌⊎◌, inl, inr, refl, sym, subst, ap, ◌∙◌, Bool, true, false, List, ◌∷◌, Option, none,
  some, Bool-cases, ◌==◌, ltb, if◌then◌else◌, arith,
}
use wootty.Session.{SessionSnapshot}
use wootty.Session.Payload.{SessionParseResult, parsed, not_parsed}
use wootty.Refresh.{
  RefreshFailure, request_aborted, request_superseded, refresh_pipeline_error, parse_failure,
  FetchResult, fetched, not_fetched, Outcome, response, aborted_token, timeout_token, rejected,
  RefreshResult, Phase, unused, racing, raced, concluded, finished, RefreshCall, on_refresh_failure,
  on_refresh_success, on_invalid_entries, Coordinator, Request, conclude, fail, fail_loudly,
  fail_silently, apply_parsed, answered, continue_current, continue_phase, continue_request,
  should_notify_refresh_failure,
}
use wootty.Refresh.Order.{AllBefore, IsOrdered}
use wootty.Refresh.Invariant.{is_open, is_running, phase_of, put_here, put_there, AllUpTo, IsSound}

-- The calls that a request may add.
record IsReport {P : Type 0} (k : ℕ) (s : Coordinator P) (calls : List RefreshCall) : Type 0 where
  known : AllUpTo s.latest_id calls
  ordered : IsOrdered calls
  by_latest : (k ≡ s.latest_id) ⊎ (calls ≡ s.calls)

module _ {P : Type 0} where
  conclude-IsSound :
      (k : ℕ) (result : RefreshResult) (calls : List RefreshCall) (s : Coordinator P)
      → IsReport k s calls
      → is_open (phase_of s k) ≡ true
      → IsSound s
      → IsSound (conclude k result calls s)
  conclude-IsSound k result calls s r o v = record {
    active_runs = λ j e. let (a, b) = v.active_runs j e in (a, running j b);
    pending_waits = v.pending_waits;
    calls_known = r.known;
    calls_before = λ e. before r.by_latest e;
    ordered = r.ordered;
  }
    where
      t : Coordinator P
      t = conclude k result calls s

      r' : Request P
      r' = record (s.requests k) { phase = concluded result }

      running : (j : ℕ) → is_running (phase_of s j) ≡ true → is_running (phase_of t j) ≡ true
      running j b = elim (Bool-cases (j == k)) [
        | inl same ↦ rw (phase_of, same) refl
        | inr other ↦ ap is_running (put_there k j r' s other) ∙ b
      ]

      here : k ≡ s.latest_id → is_open (phase_of t s.latest_id) ≡ true → ⊥
      here e h =
          cc (h, subst (λ n. is_open (phase_of t n) ≡ false) e (ap is_open (put_here k r' s)))

      before :
          (k ≡ s.latest_id) ⊎ (calls ≡ s.calls)
          → is_open (phase_of t s.latest_id) ≡ true
          → AllBefore s.latest_id calls
      before (inl e) h = absurd (here e h)
      before (inr e) h = elim (Bool-cases (s.latest_id == k)) [
        | inl same ↦ absurd (here (ground (arith, same)) h)
        | inr other ↦
            subst (AllBefore s.latest_id) (sym e)
              (v.calls_before (sym (ap is_open (put_there k s.latest_id r' s other)) ∙ h))
      ]

  silent-IsReport : (k : ℕ) (s : Coordinator P) → IsSound s → IsReport k s s.calls
  silent-IsReport k s v = record {
    known = v.calls_known;
    ordered = v.ordered;
    by_latest = inr refl;
  }

  failure-IsReport :
      (k : ℕ) (f : RefreshFailure) (s : Coordinator P)
      → k ≡ s.latest_id
      → is_open (phase_of s k) ≡ true
      → IsSound s
      → IsReport k s (on_refresh_failure k f ∷ s.calls)
  failure-IsReport k f s e o v = record {
    known = (omega (arith, e), v.calls_known);
    ordered = (before, v.ordered);
    by_latest = inl e;
  }
    where
      before : AllBefore k s.calls
      before =
          subst (λ n. AllBefore n s.calls) (sym e)
            (v.calls_before (subst (λ n. is_open (phase_of s n) ≡ true) e o))

  fail_silently-IsSound :
      (k : ℕ) (f : RefreshFailure) (s : Coordinator P)
      → is_open (phase_of s k) ≡ true
      → IsSound s
      → IsSound (fail_silently k f s)
  fail_silently-IsSound k f s o v =
      conclude-IsSound k (some f) s.calls s (silent-IsReport k s v) o v

  fail_loudly-IsSound :
      (k : ℕ) (f : RefreshFailure) (s : Coordinator P)
      → k ≡ s.latest_id
      → is_open (phase_of s k) ≡ true
      → IsSound s
      → IsSound (fail_loudly k f s)
  fail_loudly-IsSound k f s e o v =
      conclude-IsSound k (some f) (on_refresh_failure k f ∷ s.calls) s
        (failure-IsReport k f s e o v) o v

  fail-IsSound :
      (k : ℕ) (f : RefreshFailure) (s : Coordinator P)
      → k ≡ s.latest_id
      → is_open (phase_of s k) ≡ true
      → IsSound s
      → IsSound (fail k f s)
  unfolding fail
  fail-IsSound k f s e o v = elim (Bool-cases (should_notify_refresh_failure f)) [
    | inl loud ↦ rw loud (fail_loudly-IsSound k f s e o v)
    | inr silent ↦ rw silent (fail_silently-IsSound k f s o v)
  ]

  success-IsReport :
      (k : ℕ) (sessions : List SessionSnapshot) (invalid : ℕ) (s : Coordinator P)
      → k ≡ s.latest_id
      → is_open (phase_of s k) ≡ true
      → IsSound s
      → (b : Bool)
      → let calls = on_refresh_success k sessions ∷ s.calls in
        IsReport k s (if b then on_invalid_entries k invalid ∷ calls else calls)
  success-IsReport k sessions invalid s e o v b = with_invalid b
    where
      r : IsReport k s (on_refresh_failure k request_aborted ∷ s.calls)
      r = failure-IsReport k request_aborted s e o v

      with_invalid :
          (x : Bool)
          → IsReport k s (
              if x
              then on_invalid_entries k invalid ∷ on_refresh_success k sessions ∷ s.calls
              else on_refresh_success k sessions ∷ s.calls)
      with_invalid true = record {
        known = (r.known.0, (r.known.0, r.known.1));
        ordered = ((sessions, s.calls, refl), (r.ordered.0, r.ordered.1));
        by_latest = inl e;
      }
      with_invalid false = record {
        known = (r.known.0, r.known.1);
        ordered = (r.ordered.0, r.ordered.1);
        by_latest = inl e;
      }

  apply_parsed-IsSound :
      (k : ℕ) (p : Option SessionParseResult) (s : Coordinator P)
      → k ≡ s.latest_id
      → is_open (phase_of s k) ≡ true
      → IsSound s
      → IsSound (apply_parsed k p s)
  apply_parsed-IsSound k none s e o v = fail-IsSound k refresh_pipeline_error s e o v
  apply_parsed-IsSound k (some (not_parsed f)) s e o v = fail-IsSound k (parse_failure f) s e o v
  apply_parsed-IsSound k (some (parsed sessions invalid)) s e o v =
      conclude-IsSound k none _ s (success-IsReport k sessions invalid s e o v (ltb 0 invalid)) o v

  module _ (parse : P → Option SessionParseResult) where
    answered-IsSound :
        (k : ℕ) (r : FetchResult P) (s : Coordinator P)
        → k ≡ s.latest_id
        → is_open (phase_of s k) ≡ true
        → IsSound s
        → IsSound (answered parse k r s)
    answered-IsSound k (not_fetched f) s e o v = fail-IsSound k f s e o v
    answered-IsSound k (fetched payload) s e o v = apply_parsed-IsSound k (parse payload) s e o v

    continue_current-IsSound :
        (k : ℕ) (x : Outcome P) (timed_out aborted : Bool) (s : Coordinator P)
        → k ≡ s.latest_id
        → is_open (phase_of s k) ≡ true
        → IsSound s
        → IsSound (continue_current parse k x timed_out aborted s)
    continue_current-IsSound k x true aborted s e o v = fail_loudly-IsSound k _ s e o v
    continue_current-IsSound k timeout_token false aborted s e o v = fail_loudly-IsSound k _ s e o v
    continue_current-IsSound k aborted_token false aborted s e o v = fail_silently-IsSound k _ s o v
    continue_current-IsSound k (rejected b) false true s e o v = fail_silently-IsSound k _ s o v
    continue_current-IsSound k (rejected true) false false s e o v = fail_silently-IsSound k _ s o v
    continue_current-IsSound k (rejected false) false false s e o v =
        fail_loudly-IsSound k _ s e o v
    continue_current-IsSound k (response r) false true s e o v = fail_silently-IsSound k _ s o v
    continue_current-IsSound k (response r) false false s e o v = answered-IsSound k r s e o v

    pub continue_request-IsSound :
        (k : ℕ) (s : Coordinator P) → IsSound s → IsSound (continue_request parse k s)
    unfolding continue_request
    continue_request-IsSound k s v = go (phase_of s k) refl
      where
        go : (p : Phase P) → phase_of s k ≡ p → IsSound (continue_phase parse k p s)
        go unused e = v
        go racing e = v
        go (concluded r) e = v
        go (finished r) e = v
        go (raced x) e = elim (Bool-cases (s.latest_id == k)) [
          | inl here ↦ rw here (
              continue_current-IsSound k x (s.requests k).timed_out (s.requests k).aborted s
                (ground (arith, here)) (ap is_open e) v)
          | inr stale ↦ rw stale (fail_silently-IsSound k request_superseded s (ap is_open e) v)
        ]
