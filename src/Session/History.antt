-- ===== src/Session/History.antt =====
-- The names of former sessions (`pushSessionHistory` of
-- apps/web/src/features/terminal/session/persistence/session-storage.ts), and the delay between
-- refreshes (session/application/session-refresh-policy.ts).
use wootty.Base.{
  ℕ, zero, suc, ◌*◌, ◌^◌, ◌≤◌, ◌≡◌, inl, inr, min, refl, Bool, true, false, not, List, [], ◌∷◌,
  Text, text_eq, text_eq_refl, has, keep, take, length, Bool-cases, arith,
}

unfoldable pub push_session_history : List Text → Text → ℕ → List Text
push_session_history sessions session_id max_entries =
    take max_entries (session_id ∷ keep (λ value. not (text_eq value session_id)) sessions)

abbrev interval_ms : ℕ
interval_ms = 4_000

-- A failure count is a natural number.
unfoldable pub next_session_refresh_delay_ms : ℕ → ℕ
next_session_refresh_delay_ms zero = interval_ms
next_session_refresh_delay_ms (suc n) = min 32_000 (interval_ms * 2 ^ min n 3)

-- No name stands twice.
abbrev pub IsDistinct : List Text → Type 0
IsDistinct [] = Unit
IsDistinct (x ∷ xs) = (has x xs ≡ false) × IsDistinct xs

keep-has :
    (p : Text → Bool) (x : Text) (xs : List Text) → has x xs ≡ false → has x (keep p xs) ≡ false
keep-has p x [] h = refl
keep-has p x (y ∷ ys) h = elim (Bool-cases (p y)) [
  | inl kept ↦ rw kept (ground (arith, keep-has p x ys, h))
  | inr gone ↦ rw gone (keep-has p x ys (ground (arith, h)))
]

keep-IsDistinct : (p : Text → Bool) (xs : List Text) → IsDistinct xs → IsDistinct (keep p xs)
keep-IsDistinct p [] v = tt
keep-IsDistinct p (x ∷ xs) v = elim (Bool-cases (p x)) [
  | inl kept ↦ rw kept (keep-has p x xs v.0, keep-IsDistinct p xs v.1)
  | inr gone ↦ rw gone (keep-IsDistinct p xs v.1)
]

kept_others : (x : Text) (xs : List Text) → has x (keep (λ value. not (text_eq value x)) xs) ≡ false
kept_others x [] = refl
kept_others x (y ∷ ys) = elim (Bool-cases (text_eq y x)) [
  | inl same ↦ rw same (kept_others x ys)
  | inr other ↦ rw (other, other) (kept_others x ys)
]

take-has : (n : ℕ) (x : Text) (xs : List Text) → has x xs ≡ false → has x (take n xs) ≡ false
take-has zero x xs h = refl
take-has (suc n) x [] h = refl
take-has (suc n) x (y ∷ ys) h = ground (arith, take-has n x ys, h)

take-IsDistinct : (n : ℕ) (xs : List Text) → IsDistinct xs → IsDistinct (take n xs)
take-IsDistinct zero xs v = tt
take-IsDistinct (suc n) [] v = tt
take-IsDistinct (suc n) (x ∷ xs) v = (take-has n x xs v.0, take-IsDistinct n xs v.1)

length-take : (n : ℕ) (xs : List Text) → length (take n xs) ≤ n
length-take zero xs = omega arith
length-take (suc n) [] = omega arith
length-take (suc n) (x ∷ xs) = omega (arith, length-take n xs)

-- Pushed on a history without repetitions, a session gives one without repetitions, of no more
-- entries than allowed, that holds this session.
push_session_history-IsDistinct :
    (sessions : List Text) (id : Text) (n : ℕ)
    → IsDistinct sessions
    → IsDistinct (push_session_history sessions id (suc n))
      × (length (push_session_history sessions id (suc n)) ≤ suc n)
      × (has id (push_session_history sessions id (suc n)) ≡ true)
unfolding push_session_history
push_session_history-IsDistinct sessions id n v =
    let others = keep (λ value. not (text_eq value id)) sessions in
    (
      take-IsDistinct (suc n) (id ∷ others)
          (kept_others id sessions, keep-IsDistinct (λ value. not (text_eq value id)) sessions v),
      length-take (suc n) (id ∷ others),
      rw (text_eq_refl id) refl,
    )

capped : (n : ℕ) → 3 ≤ n → 2 ^ min n 3 ≡ 8
capped n h = let e : min n 3 ≡ 3 = omega (arith, h) in rw e refl

-- Between two refreshes lie at least 4 s and at most 32 s, and no less after one more failure.
next_session_refresh_delay_ms_bounds :
    (failures : ℕ)
    → (4_000 ≤ next_session_refresh_delay_ms failures)
      × (next_session_refresh_delay_ms failures ≤ 32_000)
      × (next_session_refresh_delay_ms failures ≤ next_session_refresh_delay_ms (suc failures))
unfolding next_session_refresh_delay_ms
next_session_refresh_delay_ms_bounds zero = omega arith
next_session_refresh_delay_ms_bounds (suc zero) = omega arith
next_session_refresh_delay_ms_bounds (suc (suc zero)) = omega arith
next_session_refresh_delay_ms_bounds (suc (suc (suc zero))) = omega arith
next_session_refresh_delay_ms_bounds (suc (suc (suc (suc n)))) = omega (
  arith,
  capped (suc (suc (suc n))) (omega arith),
  capped (suc (suc (suc (suc n)))) (omega arith),
)
