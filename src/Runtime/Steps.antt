-- ===== src/Runtime/Steps.antt =====
-- The steps of the effect that boots the terminal, and what holds between them.
use wootty.Base.{
  ℕ, ◌≡◌, ◌⊎◌, inl, inr, refl, sym, subst, ap, ◌∙◌, true, false, [], ◌∷◌, Option, none, some,
  Bool-cases, ◌==◌, arith,
}
use wootty.Runtime.{Runtime, SetupResult, initial_runtime, boot, begin_run, load_settles, clean_up}

pub data Step (s : Runtime) : Runtime → Type 0 where
  boots : Step s (boot s)
  settles : (result : SetupResult) (k : ℕ) → Step s (load_settles result k s)
  cleans_up : Step s (clean_up s)

pub data Reach : Runtime → Type 0 where
  start : Reach initial_runtime
  next : {s t : Runtime} → Reach s → Step s t → Reach t

-- No terminal is there, or that of the current run is installed and ready.
abbrev pub IsSettled : Runtime → Type 0
IsSettled s =
    ((s.term_ref ≡ none) × (s.live_terminals ≡ []) × (s.terminal_ready ≡ false))
    ⊎ ((k : ℕ) × (s.term_ref ≡ some k)
        × (s.live_terminals ≡ k ∷ [])
        × (s.terminal_ready ≡ true)
        × (s.current ≡ some k)
        × ((s.runs k).has_terminal ≡ true)
        × ((s.runs k).loading ≡ false))

pub record IsSound (s : Runtime) : Type 0 where
  pub settled : IsSettled s
  pub owned : (j : ℕ) → (s.runs j).has_terminal ≡ true → s.term_ref ≡ some j
  pub loads :
      (j : ℕ)
      → (s.runs j).loading ≡ true
      → (s.runs j).cancelled ≡ false
      → (s.current ≡ some j) × (s.term_ref ≡ none)

pub same : (k : ℕ) → (k == k) ≡ true
same k = ground arith

pub some_inj : (j k : ℕ) → some j ≡ some k → (j == k) ≡ true
some_inj j k e = ground (arith, e)

pub installed_current :
    (s : Runtime) (j : ℕ) → IsSettled s → s.term_ref ≡ some j → s.current ≡ some j
installed_current s j (inl (e, _, _)) f = absurd (cc (e, f))
installed_current s j (inr (k, e, _, _, c, _, _)) f = c ∙ sym e ∙ f

-- A step of the current run: of the others none has a terminal or still counts.
pub current_step :
    (s t : Runtime) (k : ℕ)
    → IsSound s
    → s.current ≡ some k
    → ((j : ℕ) → (j == k) ≡ false → t.runs j ≡ s.runs j)
    → IsSettled t
    → ((t.runs k).has_terminal ≡ true → t.term_ref ≡ some k)
    → (t.runs k).loading ≡ false
    → IsSound t
current_step s t k v c others settled owns idle = record {
  settled = settled;
  owned = λ j h. elim (Bool-cases (j == k)) [
    | inl e ↦
        let f : k ≡ j = ground (arith, e) in
        subst (λ n. (t.runs n).has_terminal ≡ true → t.term_ref ≡ some n) f owns h
    | inr e ↦ absurd (
        cc (
          e,
          some_inj j k (
              sym (
                installed_current s j v.settled
                  (v.owned j (sym (ap (λ r. r.has_terminal) (others j e)) ∙ h)))
              ∙ c),
        ))
  ];
  loads = λ j h g. elim (Bool-cases (j == k)) [
    | inl e ↦
        let f : k ≡ j = ground (arith, e) in
        absurd (cc (h, subst (λ n. (t.runs n).loading ≡ false) f idle))
    | inr e ↦
        let o = others j e in
        let (a, _) =
          v.loads j (sym (ap (λ r. r.loading) o) ∙ h) (sym (ap (λ r. r.cancelled) o) ∙ g) in
        absurd (cc (e, some_inj j k (sym a ∙ c)))
  ];
}

pub initial-IsSound : IsSound initial_runtime
initial-IsSound = record {
  settled = inl (refl, refl, refl);
  owned = λ j h. absurd (cc h);
  loads = λ j h. absurd (cc h);
}

begin-IsSound : (s : Runtime) → s.current ≡ none → IsSound s → IsSound (begin_run none s)
begin-IsSound s c v =
    let no_terminal : s.term_ref ≡ none = elim v.settled [
      | inl (e, _, _) ↦ e
      | inr (k, e, _, _, c', _, _) ↦ absurd (cc (c, c'))
    ] in
    record {
      settled = elim v.settled [
        | inl nothing ↦ inl nothing
        | inr (k, e, _, _, c', _, _) ↦ absurd (cc (c, c'))
      ];
      owned = λ j. elim (Bool-cases (j == s.next_run)) [
        | inl e ↦ rw e (λ h. absurd (cc h))
        | inr e ↦ rw e (v.owned j)
      ];
      loads = λ j. elim (Bool-cases (j == s.next_run)) [
        | inl e ↦
            rw e (λ _ _.
              let f : s.next_run ≡ j = ground (arith, e) in (ap (λ n. some n) f, no_terminal))
        | inr e ↦ rw e (λ h g. let (a, _) = v.loads j h g in absurd (cc (a, c)))
      ];
    }

pub boot-IsSound : (s : Runtime) → IsSound s → IsSound (boot s)
unfolding boot
boot-IsSound s v = go s.current refl
  where
    go : (o : Option ℕ) → s.current ≡ o → IsSound (begin_run o s)
    go none c = begin-IsSound s c v
    go (some k) c = v
