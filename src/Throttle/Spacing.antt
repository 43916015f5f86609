-- ===== src/Throttle/Spacing.antt =====
-- How often a failure is announced, and with which count.
use wootty.Base.{
  ℕ, ◌+◌, ◌≤◌, ◌≡◌, inl, inr, refl, List, [], ◌∷◌, none, some, Text, text_eq, text_eq_iff, arith,
  ltb, if◌then◌else◌, Bool-cases,
}
use wootty.Throttle.{FailureNotice, FailureNoticeState, register_failure_notice}

module _ (key : Text) (cooldown_ms : ℕ) where
  -- The state after failures with one key at the given times.
  unfoldable pub after_failures : FailureNoticeState → List ℕ → FailureNoticeState
  after_failures s [] = s
  after_failures s (t ∷ ts) = after_failures (register_failure_notice s key t cooldown_ms).next ts

  -- The times of those failures that are announced.
  unfoldable pub notified : FailureNoticeState → List ℕ → List ℕ
  notified s [] = []
  notified s (t ∷ ts) =
      let r = register_failure_notice s key t cooldown_ms in
      let later = notified r.next ts in if r.should_notify then t ∷ later else later

  -- Each time lies a cooldown after the one before it.
  abbrev pub SpacedAfter : ℕ → List ℕ → Type 0
  SpacedAfter last [] = Unit
  SpacedAfter last (t ∷ ts) = (last + cooldown_ms ≤ t) × SpacedAfter t ts

  abbrev pub Spaced : List ℕ → Type 0
  Spaced [] = Unit
  Spaced (t ∷ ts) = SpacedAfter t ts

  SpacedAfter-Spaced : (last : ℕ) (ts : List ℕ) → SpacedAfter last ts → Spaced ts
  SpacedAfter-Spaced last [] h = tt
  SpacedAfter-Spaced last (t ∷ ts) h = h.1

  notified-SpacedAfter :
      (n : FailureNotice) (ts : List ℕ)
      → n.key ≡ key
      → SpacedAfter n.last_notice_at (notified (some n) ts)
  unfolding notified register_failure_notice
  notified-SpacedAfter n [] e = tt
  notified-SpacedAfter n (t ∷ ts) e =
      let same = (text_eq_iff n.key key).1 e in
      elim (Bool-cases (ltb t (n.last_notice_at + cooldown_ms))) [
        | inl quiet ↦ rw (same) (
            rw quiet (
              notified-SpacedAfter
                (record { key = key; count = n.count + 1; last_notice_at = n.last_notice_at }) ts
                refl))
        | inr due ↦ rw (same) (
            rw due (
              ground arith,
              notified-SpacedAfter (record { key = key; count = n.count + 1; last_notice_at = t })
                  ts refl,
            ))
      ]

  -- However often a failure comes, and whatever the clock does, two announcements of it with no
  -- other failure in between are at least the cooldown apart.
  pub notified-Spaced : (s : FailureNoticeState) (ts : List ℕ) → Spaced (notified s ts)
  unfolding notified register_failure_notice
  notified-Spaced s [] = tt
  notified-Spaced none (t ∷ ts) =
      notified-SpacedAfter (record { key = key; count = 1; last_notice_at = t }) ts refl
  notified-Spaced (some n) (t ∷ ts) = elim (Bool-cases (text_eq n.key key)) [
    | inl same ↦
        SpacedAfter-Spaced n.last_notice_at (notified (some n) (t ∷ ts))
          (notified-SpacedAfter n (t ∷ ts) ((text_eq_iff n.key key).0 same))
    | inr other ↦
        rw other
          (notified-SpacedAfter (record { key = key; count = 1; last_notice_at = t }) ts refl)
  ]
