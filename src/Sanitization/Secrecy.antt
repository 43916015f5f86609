-- ===== src/Sanitization/Secrecy.antt =====
-- Nothing of a token is left in a redacted text: the text is the same whatever the token is.
use wootty.Base.{
  ℕ, zero, suc, Bool, true, false, ◌||◌, [], ◌∷◌, ◌++◌, Text, codes, ◌==◌, All, ◌≡◌, inl, inr, refl,
  append_assoc, sym, ◌∙◌, ap, subst, All-append, All-map, trim_start, trim_end, trim-Solid, Solid,
  trim, is_space, some,
}
use mathlib.Core.List.{cons≢nil}
use wootty.Sanitization.{
  lower, Mode, scan, skip, copy, starts_match, next_mode, emit, redact_from, is_ampersand,
  ends_cause, redact_text, redact_cause_message, normalize_text, truncate_cause_message,
  restore_marker, redact_token_in_url_for_notice, normalize_cause_to_message, UrlApi, text, thrown,
  object,
}
use wootty.Sanitization.Copying.{
  Replaced, Separator, Stops, Bounded, secret_at, continues-Separator, next_mode-Bounded,
}

letters_differ : (c : ℕ) → Separator c → All (λ d. (lower c == d) ≡ false) (codes "token=")
letters_differ c (inl q) =
    subst (λ c. All (λ d. (lower c == d) ≡ false) (codes "token=")) (sym q)
      (refl, (refl, (refl, (refl, (refl, (refl, tt))))))
letters_differ c (inr q) =
    subst (λ c. All (λ d. (lower c == d) ≡ false) (codes "token=")) (sym q)
      (refl, (refl, (refl, (refl, (refl, (refl, tt))))))

letters_stay : All (λ c. is_space c ≡ false) (codes "token=")
letters_stay = (refl, (refl, (refl, (refl, (refl, (refl, tt))))))

right_false : (p q : Bool) → (p || q) ≡ false → q ≡ false
right_false true q h = absurd (cc)
right_false false q h = h

module _ (stops : ℕ → Bool) where
  starts_match-Separator :
      (c : ℕ)
      → Separator c
      → (x : ℕ) (a s t : Text)
      → starts_match stops x (a ++ c ∷ s) ≡ starts_match stops x (a ++ c ∷ t)
  unfolding starts_match
  starts_match-Separator c sep x a s t =
      rw (continues-Separator stops (codes "token=") a c s t (letters_differ c sep)) refl

  next_mode-Separator :
      (c : ℕ)
      → Separator c
      → (m : Mode) (x : ℕ) (a s t : Text)
      → next_mode stops m x (a ++ c ∷ s) ≡ next_mode stops m x (a ++ c ∷ t)
  unfolding next_mode
  next_mode-Separator c sep scan x a s t = rw (starts_match-Separator c sep x a s t) refl
  next_mode-Separator c sep skip x a s t = rw (starts_match-Separator c sep x a s t) refl
  next_mode-Separator c sep (copy zero) x a s t = refl
  next_mode-Separator c sep (copy (suc n)) x a s t = refl

  module _ (law : Stops stops) (c : ℕ) (sep : Separator c) (d e : ℕ) (v w b : Text)
      (hv : Replaced stops (d ∷ v)) (hw : Replaced stops (e ∷ w)) where
    redact_from_secret :
        (a : Text) (m : Mode)
        → Bounded m
        → redact_from stops m (a ++ c ∷ (codes "token=" ++ ((d ∷ v) ++ b)))
          ≡ redact_from stops m (a ++ c ∷ (codes "token=" ++ ((e ∷ w) ++ b)))
    unfolding redact_from
    redact_from_secret [] m h = secret_at stops law d e v w b hv hw c sep m h
    redact_from_secret (x ∷ a) m h =
        let s = codes "token=" ++ ((d ∷ v) ++ b) in
        let t = codes "token=" ++ ((e ∷ w) ++ b) in
        rw (next_mode-Separator c sep m x a s t) (
          ap (λ rest. emit stops m x ++ rest)
            (redact_from_secret a (next_mode stops m x (a ++ c ∷ t))
              (next_mode-Bounded stops m x (a ++ c ∷ t) h)))

ends_cause-Stops : Stops ends_cause
ends_cause-Stops = record {
  question = refl;
  ampersand = refl;
  name = (refl, (refl, (refl, (refl, (refl, (refl, tt))))));
}

is_ampersand-Stops : Stops is_ampersand
is_ampersand-Stops = record {
  question = refl;
  ampersand = refl;
  name = (refl, (refl, (refl, (refl, (refl, (refl, tt))))));
}

-- A text with a token in it, between what stands before and after it.
unfoldable pub with_token : Text → ℕ → Text → Text → Text
with_token a c token b = a ++ c ∷ (codes "token=" ++ (token ++ b))

pub redact_text_secret :
    (a : Text) (c : ℕ) (d e : ℕ) (v w b : Text)
    → Separator c
    → Replaced is_ampersand (d ∷ v)
    → Replaced is_ampersand (e ∷ w)
    → redact_text (with_token a c (d ∷ v) b) ≡ redact_text (with_token a c (e ∷ w) b)
unfolding redact_text with_token
redact_text_secret a c d e v w b sep hv hw =
    redact_from_secret is_ampersand is_ampersand-Stops c sep d e v w b hv hw a scan tt

-- What a cause's message may hold.
cause_secret :
    (a : Text) (c : ℕ) (d e : ℕ) (v w b : Text)
    → Separator c
    → Replaced ends_cause (d ∷ v)
    → Replaced ends_cause (e ∷ w)
    → redact_cause_message (with_token a c (d ∷ v) b)
      ≡ redact_cause_message (with_token a c (e ∷ w) b)
unfolding redact_cause_message with_token
cause_secret a c d e v w b sep hv hw =
    redact_from_secret ends_cause ends_cause-Stops c sep d e v w b hv hw a scan tt

no_space_before : (c : ℕ) → Separator c → is_space c ≡ false
no_space_before c (inl q) = subst (λ c. is_space c ≡ false) (sym q) refl
no_space_before c (inr q) = subst (λ c. is_space c ≡ false) (sym q) refl

no_space_inside : (s : Text) → Replaced ends_cause s → All (λ c. is_space c ≡ false) s
no_space_inside s h = All-map (λ c e. right_false (c == b'&') (is_space c) e) s h

trim-with_token :
    (a : Text) (c d : ℕ) (v b : Text)
    → Separator c
    → Replaced ends_cause (d ∷ v)
    → trim (with_token a c (d ∷ v) b) ≡ with_token (trim_start a) c (d ∷ v) (trim_end b)
unfolding with_token
trim-with_token a c d v b sep h =
    let block = c ∷ (codes "token=" ++ (d ∷ v)) in
    let solid : Solid block = (
      λ e. cons≢nil e,
      (
        no_space_before c sep,
        All-append (λ c. is_space c ≡ false) (codes "token=") (d ∷ v) letters_stay
            (no_space_inside (d ∷ v) h),
      ),
    ) in
    ap trim (sym (append_assoc a block b)) ∙ trim-Solid a block b solid

module _ {U : Type 0} (api : UrlApi U) where
  -- A text with something left after `trim` goes through the redactions.
  redacts_trimmed :
      (value : Text) (x : ℕ) (s : Text)
      → trim value ≡ x ∷ s
      → normalize_text api value
        ≡ some (
            truncate_cause_message (
              restore_marker zero
                (redact_token_in_url_for_notice api (redact_cause_message (x ∷ s)))))
  unfolding normalize_text
  redacts_trimmed value x s e = rw (normalize_text, e) refl

  -- The same, in the words of the redaction of a cause.
  shows_redacted :
      (value a : Text) (c : ℕ) (s b : Text)
      → trim value ≡ with_token a c s b
      → normalize_text api value
        ≡ some (
            truncate_cause_message (
              restore_marker zero
                (redact_token_in_url_for_notice api (redact_cause_message (with_token a c s b)))))
  unfolding with_token
  shows_redacted value [] c s b e = redacts_trimmed value c (codes "token=" ++ (s ++ b)) e
  shows_redacted value (x ∷ a) c s b e =
      redacts_trimmed value x (a ++ c ∷ (codes "token=" ++ (s ++ b))) e

  -- The message for a failure does not depend on the token in the text of its cause: with another
  -- token of one or more characters, none of them "&" or a space, between the same texts, after
  -- "?token=" or "&token=", the message is the same, for a string, an error, and an object as its
  -- JSON shows it.
  pub normalize_cause_to_message_secret :
      (a : Text) (c d e : ℕ) (v w b : Text)
      → Separator c
      → Replaced ends_cause (d ∷ v)
      → Replaced ends_cause (e ∷ w)
      → (normalize_cause_to_message api (text (with_token a c (d ∷ v) b))
          ≡ normalize_cause_to_message api (text (with_token a c (e ∷ w) b)))
        × (normalize_cause_to_message api (thrown (with_token a c (d ∷ v) b))
            ≡ normalize_cause_to_message api (thrown (with_token a c (e ∷ w) b)))
        × (normalize_cause_to_message api (object (some (with_token a c (d ∷ v) b)))
            ≡ normalize_cause_to_message api (object (some (with_token a c (e ∷ w) b))))
  unfolding normalize_cause_to_message
  normalize_cause_to_message_secret a c d e v w b sep hv hw =
      let x = with_token a c (d ∷ v) b in
      let y = with_token a c (e ∷ w) b in
      let same : normalize_text api x ≡ normalize_text api y =
        shows_redacted x (trim_start a) c (d ∷ v) (trim_end b) (trim-with_token a c d v b sep hv)
        ∙ ap
            (λ s.
              some (
                truncate_cause_message
                  (restore_marker zero (redact_token_in_url_for_notice api s))))
            (cause_secret (trim_start a) c d e v w (trim_end b) sep hv hw)
        ∙ sym (
            shows_redacted y (trim_start a) c (e ∷ w) (trim_end b)
              (trim-with_token a c e w b sep hw)) in
      (same, same, same)
