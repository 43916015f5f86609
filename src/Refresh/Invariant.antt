-- ===== src/Refresh/Invariant.antt =====
-- Overlapping requests report in their order, and none that is queued is forgotten.
use wootty.Base.{
  ℕ, ◌≤◌, ◌≡◌, inl, inr, refl, sym, subst, ap, ◌∙◌, Bool, true, false, List, some, All, Bool-cases,
  ◌==◌, arith,
}
use wootty.Refresh.{
  Phase, racing, raced, concluded, Request, PendingRefresh, RefreshCall, Coordinator, put,
}
use wootty.Refresh.Order.{caller, AllBefore, IsOrdered}

abbrev pub is_open : {P : Type 0} → Phase P → Bool
is_open racing = true
is_open (raced o) = true
is_open _ = false

abbrev pub is_running : {P : Type 0} → Phase P → Bool
is_running (concluded r) = true
is_running p = is_open p

abbrev pub AllUpTo : ℕ → List RefreshCall → Type 0
AllUpTo k = All (λ c. caller c ≤ k)

module _ {P : Type 0} where
  abbrev pub phase_of : Coordinator P → ℕ → Phase P
  phase_of s k = (s.requests k).phase

  pub record IsSound (s : Coordinator P) : Type 0 where
    -- the active controller is that of the latest request, which runs
    pub active_runs :
        (k : ℕ) → s.active ≡ some k → (k ≡ s.latest_id) × (is_running (phase_of s k) ≡ true)
    -- what is pending waits for the active request
    pub pending_waits :
        (p : PendingRefresh)
        → s.pending ≡ some p
        → (p.queued_for ≡ s.latest_id) × (s.active ≡ some s.latest_id)
    pub calls_known : AllUpTo s.latest_id s.calls
    -- the latest request has not reported while it is open
    pub calls_before : is_open (phase_of s s.latest_id) ≡ true → AllBefore s.latest_id s.calls
    pub ordered : IsOrdered s.calls

  -- What changes no number, no call, and no request's class.
  pub record Same (s t : Coordinator P) : Type 0 where
    pub latest : t.latest_id ≡ s.latest_id
    pub active : t.active ≡ s.active
    pub pending : t.pending ≡ s.pending
    pub calls : t.calls ≡ s.calls
    pub opens : (j : ℕ) → is_open (phase_of t j) ≡ is_open (phase_of s j)
    pub runs : (j : ℕ) → is_running (phase_of t j) ≡ is_running (phase_of s j)

  pub Same-refl : (s : Coordinator P) → Same s s
  Same-refl s = record {
    latest = refl;
    active = refl;
    pending = refl;
    calls = refl;
    opens = λ j. refl;
    runs = λ j. refl;
  }

  pub Same-trans : {s t u : Coordinator P} → Same s t → Same t u → Same s u
  Same-trans p q = record {
    latest = q.latest ∙ p.latest;
    active = q.active ∙ p.active;
    pending = q.pending ∙ p.pending;
    calls = q.calls ∙ p.calls;
    opens = λ j. q.opens j ∙ p.opens j;
    runs = λ j. q.runs j ∙ p.runs j;
  }

  pub Same-IsSound : {s t : Coordinator P} → Same s t → IsSound s → IsSound t
  Same-IsSound {s} {t} c v = record {
    active_runs =
        λ k e. let (a, b) = v.active_runs k (sym c.active ∙ e) in (a ∙ sym c.latest, c.runs k ∙ b);
    pending_waits = λ p e.
        let (a, b) = v.pending_waits p (sym c.pending ∙ e) in
        (a ∙ sym c.latest, c.active ∙ b ∙ ap (λ n. some n) (sym c.latest));
    calls_known =
        subst (λ n. AllUpTo n t.calls) (sym c.latest)
          (subst (AllUpTo s.latest_id) (sym c.calls) v.calls_known);
    calls_before = λ e.
        subst (λ n. AllBefore n t.calls) (sym c.latest)
          (subst (AllBefore s.latest_id) (sym c.calls) (
            v.calls_before
              (sym (c.opens s.latest_id) ∙ subst (λ n. is_open (phase_of t n) ≡ true) c.latest e)));
    ordered = subst IsOrdered (sym c.calls) v.ordered;
  }

  pub put_here : (k : ℕ) (r : Request P) (s : Coordinator P) → phase_of (put k r s) k ≡ r.phase
  put_here k r s = let same : (k == k) ≡ true = ground arith in rw (phase_of, same) refl

  pub put_there :
      (k j : ℕ) (r : Request P) (s : Coordinator P)
      → (j == k) ≡ false
      → phase_of (put k r s) j ≡ phase_of s j
  put_there k j r s other = rw (phase_of, other) refl

  -- A request's record changes within its class.
  pub put-Same :
      (k : ℕ) (r : Request P) (s : Coordinator P)
      → is_open r.phase ≡ is_open (phase_of s k)
      → is_running r.phase ≡ is_running (phase_of s k)
      → Same s (put k r s)
  put-Same k r s e f = record {
    latest = refl;
    active = refl;
    pending = refl;
    calls = refl;
    opens = λ j. at j is_open e;
    runs = λ j. at j is_running f;
  }
    where
      at :
          (j : ℕ) (class : Phase P → Bool)
          → class r.phase ≡ class (phase_of s k)
          → class (phase_of (put k r s) j) ≡ class (phase_of s j)
      at j class g = elim (Bool-cases (j == k)) [
        | inl same ↦
            rw (same, phase_of) (g ∙ ap (λ n. class (phase_of s n)) (sym (ground (arith, same))))
        | inr other ↦ rw (other, phase_of) refl
      ]
