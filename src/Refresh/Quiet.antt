-- ===== src/Refresh/Quiet.antt =====
-- Aborts, answers and timeouts change no more than how a race ends.
use wootty.Base.{ℕ, ◌≡◌, refl, Option, none, some, Bool-cases, inl, inr}
use wootty.Refresh.{
  Outcome, Phase, unused, racing, raced, concluded, finished, Coordinator, lose_race, listens,
  settle_race, abort_request, abort_active, outer_abort, fetch_settles, timeout_fires,
}
use wootty.Refresh.Invariant.{is_open, is_running, phase_of, Same, Same-refl, Same-trans, put-Same}

module _ {P : Type 0} where
  lose_race_class :
      (p : Phase P)
      → (is_open (lose_race p) ≡ is_open p) × (is_running (lose_race p) ≡ is_running p)
  lose_race_class unused = (refl, refl)
  lose_race_class racing = (refl, refl)
  lose_race_class (raced o) = (refl, refl)
  lose_race_class (concluded r) = (refl, refl)
  lose_race_class (finished r) = (refl, refl)

  settle_race_class :
      (o : Outcome P) (p : Phase P)
      → (is_open (settle_race o p) ≡ is_open p) × (is_running (settle_race o p) ≡ is_running p)
  settle_race_class o unused = (refl, refl)
  settle_race_class o racing = (refl, refl)
  settle_race_class o (raced x) = (refl, refl)
  settle_race_class o (concluded r) = (refl, refl)
  settle_race_class o (finished r) = (refl, refl)

  abort_request-Same : (k : ℕ) (s : Coordinator P) → Same s (abort_request k s)
  unfolding abort_request
  abort_request-Same k s = let (a, b) = lose_race_class (phase_of s k) in put-Same k _ s a b

  pub abort_active-Same : (o : Option ℕ) (s : Coordinator P) → Same s (abort_active o s)
  abort_active-Same none s = Same-refl s
  abort_active-Same (some k) s = abort_request-Same k s

  pub outer_abort-Same : (k : ℕ) (s : Coordinator P) → Same s (outer_abort k s)
  unfolding outer_abort
  outer_abort-Same k s = elim (Bool-cases (listens (phase_of s k))) [
    | inl here ↦ rw here (abort_request-Same k s)
    | inr gone ↦ rw gone (Same-refl s)
  ]

  pub fetch_settles-Same :
      (k : ℕ) (o : Outcome P) (s : Coordinator P) → Same s (fetch_settles k o s)
  unfolding fetch_settles
  fetch_settles-Same k o s = let (a, b) = settle_race_class o (phase_of s k) in put-Same k _ s a b

  pub timeout_fires-Same : (k : ℕ) (s : Coordinator P) → Same s (timeout_fires k s)
  unfolding timeout_fires
  timeout_fires-Same k s = elim (Bool-cases (listens (phase_of s k))) [
    | inl here ↦ rw here (Same-trans (put-Same k _ s refl refl) (abort_request-Same k _))
    | inr gone ↦ rw gone (Same-refl s)
  ]
