-- ===== src/Runtime/Boot.antt =====
-- However the effect runs, loads and is cleaned up: one terminal at most, and that of the run.
use wootty.Base.{
  ℕ, ◌≡◌, inl, inr, refl, sym, subst, ap, ◌∙◌, Bool, true, false, [], ◌∷◌, Option, none, some,
  Bool-cases, ◌==◌, if◌then◌else◌, arith,
}
use wootty.Runtime.{
  Runtime, SetupResult, fails_early, fails_late, succeeds, put_run, load_settles, finish_setup,
  clean_up, end_run, dispose_runtime,
}
use wootty.Runtime.Steps.{
  Step, boots, settles, cleans_up, Reach, start, next, IsSettled, IsSound, same, some_inj,
  installed_current, current_step, initial-IsSound, boot-IsSound,
}

-- Before the run that loads has a terminal there is none.
nothing_live :
    (s : Runtime)
    → IsSettled s
    → s.term_ref ≡ none
    → (s.live_terminals ≡ []) × (s.terminal_ready ≡ false)
nothing_live s (inl (_, l, r)) e = (l, r)
nothing_live s (inr (k, f, _, _, _, _, _)) e = absurd (cc (e, f))

has_none : (s : Runtime) (k : ℕ) → IsSound s → s.term_ref ≡ none → (s.runs k).has_terminal ≡ false
has_none s k v e = elim (Bool-cases (s.runs k).has_terminal) [
  | inl h ↦ absurd (cc (e, v.owned k h))
  | inr h ↦ h
]

-- The run, past `await`.
abbrev loaded : ℕ → Runtime → Runtime
loaded k s = put_run k (record (s.runs k) { loading = false }) s

finish-IsSound :
    (result : SetupResult) (s : Runtime) (k : ℕ)
    → IsSound s
    → (s.runs k).loading ≡ true
    → (s.runs k).cancelled ≡ false
    → IsSound (finish_setup result k (loaded k s))
unfolding dispose_runtime
finish-IsSound fails_early s k v h g =
    let (c, e) = v.loads k h g in
    let (l, r) = nothing_live s v.settled e in
    current_step s _ k v c (λ j other. rw other refl)
      (inl (refl, rw (same k, has_none s k v e, l) refl, refl)) (rw (same k) (λ x. absurd (cc x)))
      (rw (same k) refl)
finish-IsSound fails_late s k v h g =
    let (c, e) = v.loads k h g in
    let (l, r) = nothing_live s v.settled e in
    current_step s _ k v c (λ j other. rw other refl) (inl (refl, rw (same k, l) refl, refl))
      (rw (same k) (λ x. absurd (cc x))) (rw (same k) refl)
finish-IsSound succeeds s k v h g =
    let (c, e) = v.loads k h g in
    let (l, r) = nothing_live s v.settled e in
    current_step s _ k v c (λ j other. rw other refl)
      (inr (k, refl, ap (λ ts. k ∷ ts) l, refl, c, rw (same k) refl, rw (same k) refl)) (λ _. refl)
      (rw (same k) refl)

-- The load of a run that was cleaned up leaves everything as it is.
cancelled_load :
    (k : ℕ) (s : Runtime)
    → IsSound s
    → (s.runs k).loading ≡ true
    → (s.runs k).cancelled ≡ true
    → IsSound (loaded k s)
cancelled_load k s v h g = record {
  settled = elim v.settled [
    | inl nothing ↦ inl nothing
    | inr (j, e, l, r, c, t, i) ↦
        let other : (j == k) ≡ false = elim (Bool-cases (j == k)) [
          | inl f ↦
              let f' : j ≡ k = ground (arith, f) in
              absurd (cc (h, subst (λ n. (s.runs n).loading ≡ false) f' i))
          | inr f ↦ f
        ] in
        inr (j, e, l, r, c, rw other t, rw other i)
  ];
  owned = λ j. elim (Bool-cases (j == k)) [
    | inl e ↦
        let f : k ≡ j = ground (arith, e) in
        rw e (subst (λ n. (s.runs k).has_terminal ≡ true → s.term_ref ≡ some n) f (v.owned k))
    | inr e ↦ rw e (v.owned j)
  ];
  loads = λ j. elim (Bool-cases (j == k)) [
    | inl e ↦ rw e (λ x. absurd (cc x))
    | inr e ↦ rw e (v.loads j)
  ];
}

-- The cleanup of the current run: its terminal, if there is one, is disposed of.
end-IsSound : (k : ℕ) (s : Runtime) → s.current ≡ some k → IsSound s → IsSound (end_run (some k) s)
unfolding dispose_runtime
end-IsSound k s c v = record {
  settled = inl (refl, live v.settled, refl);
  owned = λ j. elim (Bool-cases (j == k)) [
    | inl e ↦ rw e (λ x. absurd (cc x))
    | inr e ↦ rw e (λ h.
        absurd (cc (e, some_inj j k (sym (installed_current s j v.settled (v.owned j h)) ∙ c))))
  ];
  loads = λ j. elim (Bool-cases (j == k)) [
    | inl e ↦ rw (e, same k) (λ _ g. absurd (cc g))
    | inr e ↦ rw e (λ h g. let (a, _) = v.loads j h g in absurd (cc (e, some_inj j k (sym a ∙ c))))
  ];
}
  where
    live : IsSettled s → (end_run (some k) s).live_terminals ≡ []
    live (inl (e, l, _)) = rw (same k, has_none s k v e, l) refl
    live (inr (k', e, l, _, c', t, _)) =
        let f : k' ≡ k = ground (arith, some_inj k' k (sym c' ∙ c)) in
        let has : (s.runs k).has_terminal ≡ true =
          subst (λ n. (s.runs n).has_terminal ≡ true) f t in
        let one : s.live_terminals ≡ k ∷ [] = l ∙ ap (λ n. n ∷ []) f in
        rw (same k, has, one, same k) refl

load-IsSound :
    (result : SetupResult) (k : ℕ) (s : Runtime) → IsSound s → IsSound (load_settles result k s)
unfolding load_settles
load-IsSound result k s v = elim (Bool-cases (s.runs k).loading) [
  | inr idle ↦ rw idle v
  | inl h ↦ elim (Bool-cases (s.runs k).cancelled) [
    | inl g ↦ subst IsSound (sym (taken h ∙ ap choose g)) (cancelled_load k s v h g)
    | inr g ↦ subst IsSound (sym (taken h ∙ ap choose g)) (finish-IsSound result s k v h g)
  ]
]
  where
    choose : Bool → Runtime
    choose b = if b then loaded k s else finish_setup result k (loaded k s)

    taken : (s.runs k).loading ≡ true → load_settles result k s ≡ choose (s.runs k).cancelled
    taken h = ap (λ (b : Bool). if b then choose (s.runs k).cancelled else s) h

clean_up-IsSound : (s : Runtime) → IsSound s → IsSound (clean_up s)
unfolding clean_up
clean_up-IsSound s v = go s.current refl
  where
    go : (o : Option ℕ) → s.current ≡ o → IsSound (end_run o s)
    go none c = v
    go (some k) c = end-IsSound k s c v

Step-IsSound : {s t : Runtime} → Step s t → IsSound s → IsSound t
Step-IsSound {s} boots v = boot-IsSound s v
Step-IsSound {s} (settles result k) v = load-IsSound result k s v
Step-IsSound {s} cleans_up v = clean_up-IsSound s v

Reach-IsSound : (s : Runtime) → Reach s → IsSound s
Reach-IsSound s start = initial-IsSound
Reach-IsSound s (next {s = u} r step) = Step-IsSound step (Reach-IsSound u r)

-- However the effect runs and is cleaned up, and whenever and however its loads end: either no
-- terminal is there, installed or ready, or exactly one is, which is installed, ready and that of
-- the current run.
pub Reach-IsSettled : (s : Runtime) → Reach s → IsSettled s
Reach-IsSettled s r = (Reach-IsSound s r).settled
