-- ===== src/Sanitization/Copying.antt =====
-- The scanner of the two redactions, where a match begins and ends.
use wootty.Base.{
  ℕ, zero, suc, Bool, true, false, [], ◌∷◌, ◌++◌, Text, codes, ◌==◌, All, ◌≡◌, ◌⊎◌, inl, inr, arith,
  refl, ◌≤◌, sym, ◌∙◌, ap, subst, Bool-cases,
}
use wootty.Sanitization.{
  lower, Mode, scan, skip, copy, continues, starts_match, next_mode, emit, redact_from,
}

-- What a token consists of.
abbrev pub Replaced : (ℕ → Bool) → Text → Type 0
Replaced stops s = All (λ c. stops c ≡ false) s

-- The separators in front of a parameter's name.
abbrev pub Separator : ℕ → Type 0
Separator c = (c ≡ b'?') ⊎ (c ≡ b'&')

module _ (stops : ℕ → Bool) where
  -- A separator is no letter of a name, so the matcher sees no further than it.
  pub continues-Separator :
      (word a : Text) (c : ℕ) (x y : Text)
      → All (λ d. (lower c == d) ≡ false) word
      → continues stops word (a ++ c ∷ x) ≡ continues stops word (a ++ c ∷ y)
  unfolding continues
  continues-Separator [] [] c x y h = refl
  continues-Separator [] (e ∷ a) c x y h = refl
  continues-Separator (d ∷ word) [] c x y h = ground (arith, h.0)
  continues-Separator (d ∷ word) (e ∷ a) c x y h = rw (continues-Separator word a c x y h.1) refl

  pub redact_from-skip :
      (v b : Text) → Replaced stops v → redact_from stops skip (v ++ b) ≡ redact_from stops skip b
  unfolding redact_from emit next_mode
  redact_from-skip [] b h = refl
  redact_from-skip (c ∷ v) b h = rw (h.0, redact_from-skip v b h.1) refl

-- No more is copied than the name of the parameter has.
abbrev pub Bounded : Mode → Type 0
Bounded (copy n) = n ≤ 5
Bounded _ = Unit

-- What the scanner asks of the characters that end a token.
pub record Stops (stops : ℕ → Bool) : Type 0 where
  pub question : stops b'?' ≡ false
  pub ampersand : stops b'&' ≡ true
  pub name : Replaced stops (codes "token=")

module _ (stops : ℕ → Bool) where
  pub next_mode-Bounded :
      (m : Mode) (c : ℕ) (s : Text) → Bounded m → Bounded (next_mode stops m c s)
  unfolding next_mode
  next_mode-Bounded scan c s h = elim (Bool-cases (starts_match stops c s)) [
    | inl e ↦ rw e (ground arith)
    | inr e ↦ rw e tt
  ]
  next_mode-Bounded skip c s h = elim (Bool-cases (stops c)) [
    | inl e ↦ rw e (elim (Bool-cases (starts_match stops c s)) [
      | inl e' ↦ rw e' (ground arith)
      | inr e' ↦ rw e' tt
    ])
    | inr e ↦ rw e tt
  ]
  next_mode-Bounded (copy zero) c s h = tt
  next_mode-Bounded (copy (suc n)) c s h = omega (arith, h)

  -- What comes out from a separator on.
  module _ (law : Stops stops) where
    abbrev pub out : Mode → ℕ → Text → Text
    out m c value = redact_from stops m (c ∷ (codes "token=" ++ value))

    -- A token leaves no trace in any mode: the rest is the same.
    abbrev pub Same : Mode → ℕ → Text → Text → Text → Type 0
    Same m c v w b = out m c (v ++ b) ≡ out m c (w ++ b)

    module _ (d e : ℕ) (v w b : Text) (hv : Replaced stops (d ∷ v))
        (hw : Replaced stops (e ∷ w)) where
      skips : redact_from stops skip ((d ∷ v) ++ b) ≡ redact_from stops skip ((e ∷ w) ++ b)
      skips = redact_from-skip stops (d ∷ v) b hv ∙ sym (redact_from-skip stops (e ∷ w) b hw)

      after_question : (m : Mode) → Bounded m → Same m b'?' (d ∷ v) (e ∷ w) b
      unfolding redact_from emit next_mode starts_match continues
      after_question scan h = rw (hv.0, hw.0) (ap (λ s. codes "?token=[redacted]" ++ s) skips)
      after_question skip h =
          let l = law.name in
          rw (law.question, l.0, l.1.0, l.1.1.0, l.1.1.1.0, l.1.1.1.1.0, l.1.1.1.1.1.0) skips
      after_question (copy zero) h =
          let l = law.name in
          rw (l.0, l.1.0, l.1.1.0, l.1.1.1.0, l.1.1.1.1.0, l.1.1.1.1.1.0)
            (ap (λ s. codes "?[redacted]" ++ s) skips)
      after_question (copy (suc zero)) h =
          let l = law.name in
          rw (l.1.0, l.1.1.0, l.1.1.1.0, l.1.1.1.1.0, l.1.1.1.1.1.0)
            (ap (λ s. codes "?t[redacted]" ++ s) skips)
      after_question (copy (suc (suc zero))) h =
          let l = law.name in
          rw (l.1.1.0, l.1.1.1.0, l.1.1.1.1.0, l.1.1.1.1.1.0)
            (ap (λ s. codes "?to[redacted]" ++ s) skips)
      after_question (copy (suc (suc (suc zero)))) h =
          let l = law.name in
          rw (l.1.1.1.0, l.1.1.1.1.0, l.1.1.1.1.1.0) (ap (λ s. codes "?tok[redacted]" ++ s) skips)
      after_question (copy (suc (suc (suc (suc zero))))) h =
          let l = law.name in
          rw (l.1.1.1.1.0, l.1.1.1.1.1.0) (ap (λ s. codes "?toke[redacted]" ++ s) skips)
      after_question (copy (suc (suc (suc (suc (suc zero)))))) h =
          let l = law.name in rw (l.1.1.1.1.1.0) (ap (λ s. codes "?token[redacted]" ++ s) skips)
      after_question (copy (suc (suc (suc (suc (suc (suc n))))))) h = absurd (omega (arith, h))

      after_ampersand : (m : Mode) → Bounded m → Same m b'&' (d ∷ v) (e ∷ w) b
      unfolding redact_from emit next_mode starts_match continues
      after_ampersand scan h = rw (hv.0, hw.0) (ap (λ s. codes "&token=[redacted]" ++ s) skips)
      after_ampersand skip h =
          rw (law.ampersand, hv.0, hw.0) (ap (λ s. codes "&token=[redacted]" ++ s) skips)
      after_ampersand (copy zero) h =
          let l = law.name in
          rw (l.0, l.1.0, l.1.1.0, l.1.1.1.0, l.1.1.1.1.0, l.1.1.1.1.1.0)
            (ap (λ s. codes "&[redacted]" ++ s) skips)
      after_ampersand (copy (suc zero)) h =
          let l = law.name in
          rw (l.1.0, l.1.1.0, l.1.1.1.0, l.1.1.1.1.0, l.1.1.1.1.1.0)
            (ap (λ s. codes "&t[redacted]" ++ s) skips)
      after_ampersand (copy (suc (suc zero))) h =
          let l = law.name in
          rw (l.1.1.0, l.1.1.1.0, l.1.1.1.1.0, l.1.1.1.1.1.0)
            (ap (λ s. codes "&to[redacted]" ++ s) skips)
      after_ampersand (copy (suc (suc (suc zero)))) h =
          let l = law.name in
          rw (l.1.1.1.0, l.1.1.1.1.0, l.1.1.1.1.1.0) (ap (λ s. codes "&tok[redacted]" ++ s) skips)
      after_ampersand (copy (suc (suc (suc (suc zero))))) h =
          let l = law.name in
          rw (l.1.1.1.1.0, l.1.1.1.1.1.0) (ap (λ s. codes "&toke[redacted]" ++ s) skips)
      after_ampersand (copy (suc (suc (suc (suc (suc zero)))))) h =
          let l = law.name in rw (l.1.1.1.1.1.0) (ap (λ s. codes "&token[redacted]" ++ s) skips)
      after_ampersand (copy (suc (suc (suc (suc (suc (suc n))))))) h = absurd (omega (arith, h))

      pub secret_at : (c : ℕ) → Separator c → (m : Mode) → Bounded m → Same m c (d ∷ v) (e ∷ w) b
      secret_at c (inl q) m h = subst (λ c. Same m c (d ∷ v) (e ∷ w) b) (sym q) (after_question m h)
      secret_at c (inr q) m h =
          subst (λ c. Same m c (d ∷ v) (e ∷ w) b) (sym q) (after_ampersand m h)
