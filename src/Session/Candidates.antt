-- ===== src/Session/Candidates.antt =====
-- No session is offered twice, and none that can be attached to is missing.
use wootty.Base.{
  ◌≡◌, ◌⊎◌, inl, inr, sym, subst, Bool, true, false, ◌||◌, List, [], ◌∷◌, ◌++◌, Option, Text,
  text_eq, text_eq_refl, has, Bool-cases, Listed, arith, ltb,
}
use wootty.Session.{
  SessionSnapshot, SessionCandidate, SessionCandidateInput, insert_recent, sort_recent, is_session,
  live_loop, history_loop, fallback_history, derive_session_candidates, is_empty,
}

abbrev pub ids : List SessionCandidate → List Text
ids [] = []
ids (c ∷ cs) = c.id ∷ ids cs

-- The texts are all different, new to `seen`, and other than the current one.
abbrev pub IsNew : Option Text → List Text → List Text → Type 0
IsNew current seen [] = Unit
IsNew current seen (x ∷ xs) =
    (is_session x current ≡ false) × (has x seen ≡ false) × IsNew current (x ∷ seen) xs

history-IsNew :
    (current : Option Text) (seen hs : List Text)
    → IsNew current seen (history_loop current seen hs)
unfolding history_loop
history-IsNew current seen [] = tt
history-IsNew current seen (h ∷ hs) = elim (Bool-cases (is_empty h)) [
  | inl e ↦ rw e (history-IsNew current seen hs)
  | inr e ↦ elim (Bool-cases (is_session h current)) [
    | inl c ↦ rw (e, c) (history-IsNew current seen hs)
    | inr c ↦ elim (Bool-cases (has h seen)) [
      | inl k ↦ rw (e, c, k) (history-IsNew current seen hs)
      | inr k ↦ rw (e, c, k) (c, k, history-IsNew current (h ∷ seen) hs)
    ]
  ]
]

-- The live sessions, followed by what is new to what they leave.
live-IsNew :
    (current : Option Text) (tail : List Text → List Text)
    → ((seen : List Text) → IsNew current seen (tail seen))
    → (seen : List Text) (ss : List SessionSnapshot)
    → let (out, seen') = live_loop current seen ss in IsNew current seen (ids out ++ tail seen')
unfolding live_loop
live-IsNew current tail v seen [] = v seen
live-IsNew current tail v seen (s ∷ ss) = elim (Bool-cases (is_session s.id current)) [
  | inl c ↦ rw c (live-IsNew current tail v seen ss)
  | inr c ↦ elim (Bool-cases (has s.id seen)) [
    | inl k ↦ rw (c, k) (live-IsNew current tail v seen ss)
    | inr k ↦ rw (c, k) (c, k, live-IsNew current tail v (s.id ∷ seen) ss)
  ]
]

-- The sessions offered, the live ones first, are all different, and none is the current one.
pub derive_session_candidates-IsNew :
    (input : SessionCandidateInput)
    → let sets = derive_session_candidates input in
      IsNew input.current_session_id []
        (ids sets.live_session_candidates ++ sets.history_session_candidates)
unfolding derive_session_candidates
derive_session_candidates-IsNew input =
    live-IsNew input.current_session_id
      (λ seen. history_loop input.current_session_id seen (fallback_history input))
      (λ seen. history-IsNew input.current_session_id seen (fallback_history input)) []
      (sort_recent [] input.live_sessions)

-- A live session is the current one, seen before, or offered.
IsOffered : Option Text → List Text → List SessionCandidate → Text → Type 0
IsOffered current seen out id =
    (is_session id current ≡ true) ⊎ (has id seen ≡ true) ⊎ (has id (ids out) ≡ true)

or_left : (a b : Bool) → a ≡ true → (a || b) ≡ true
or_left a b e = ground arith

or_right : (a b : Bool) → b ≡ true → (a || b) ≡ true
or_right a b e = ground arith

or_cases : (a b : Bool) → (a || b) ≡ true → (a ≡ true) ⊎ (b ≡ true)
or_cases a b e = ground arith

live-IsOffered :
    (current : Option Text) (seen : List Text) (ss : List SessionSnapshot) (s : SessionSnapshot)
    → Listed s ss
    → IsOffered current seen (live_loop current seen ss).0 s.id
unfolding live_loop IsOffered
live-IsOffered current seen [] s m = elim m [ ]
live-IsOffered current seen (t ∷ ss) s m = elim (Bool-cases (is_session t.id current)) [
  | inl c ↦ rw c (elim m [
    | inl e ↦ inl (subst (λ x. is_session x.id current ≡ true) (sym e) c)
    | inr n ↦ live-IsOffered current seen ss s n
  ])
  | inr c ↦ elim (Bool-cases (has t.id seen)) [
    | inl k ↦
        rw (c, k)
          (elim m [
            | inl e ↦ inr (inl (subst (λ x. has x.id seen ≡ true) (sym e) k))
            | inr n ↦ live-IsOffered current seen ss s n
          ])
    | inr k ↦
        rw (c, k)
          (elim m [
            | inl e ↦ inr (
                inr
                  (or_left _ _ (subst (λ x. text_eq t.id x.id ≡ true) (sym e) (text_eq_refl t.id))))
            | inr n ↦ elim (live-IsOffered current (t.id ∷ seen) ss s n) [
              | inl here ↦ inl here
              | inr (inl before) ↦ elim (or_cases (text_eq t.id s.id) (has s.id seen) before) [
                | inl same ↦ inr (inr (or_left _ _ same))
                | inr old ↦ inr (inl old)
              ]
              | inr (inr offered) ↦ inr (inr (or_right (text_eq t.id s.id) _ offered))
            ]
          ])
  ]
]

insert_recent-Listed :
    (x s : SessionSnapshot) (ts : List SessionSnapshot)
    → (x ≡ s) ⊎ Listed x ts
    → Listed x (insert_recent s ts)
unfolding insert_recent
insert_recent-Listed x s [] m = m
insert_recent-Listed x s (t ∷ ts) m =
    elim (Bool-cases (ltb t.last_activity_ms s.last_activity_ms)) [
      | inl later ↦ rw later m
      | inr before ↦ rw before (elim m [
        | inl e ↦ inr (insert_recent-Listed x s ts (inl e))
        | inr (inl e) ↦ inl e
        | inr (inr n) ↦ inr (insert_recent-Listed x s ts (inr n))
      ])
    ]

sort_recent-Listed :
    (x : SessionSnapshot) (sorted ss : List SessionSnapshot)
    → Listed x sorted ⊎ Listed x ss
    → Listed x (sort_recent sorted ss)
unfolding sort_recent
sort_recent-Listed x sorted [] (inl m) = m
sort_recent-Listed x sorted [] (inr m) = elim m [ ]
sort_recent-Listed x sorted (s ∷ ss) (inl m) =
    sort_recent-Listed x (insert_recent s sorted) ss (inl (insert_recent-Listed x s sorted (inr m)))
sort_recent-Listed x sorted (s ∷ ss) (inr (inl e)) =
    sort_recent-Listed x (insert_recent s sorted) ss (inl (insert_recent-Listed x s sorted (inl e)))
sort_recent-Listed x sorted (s ∷ ss) (inr (inr m)) =
    sort_recent-Listed x (insert_recent s sorted) ss (inr m)

-- Each live session is the current one, or its name is among the live sessions offered.
derive_session_candidates_complete :
    (input : SessionCandidateInput) (s : SessionSnapshot)
    → Listed s input.live_sessions
    → (is_session s.id input.current_session_id ≡ true)
      ⊎ (has s.id (ids (derive_session_candidates input).live_session_candidates) ≡ true)
unfolding derive_session_candidates IsOffered
derive_session_candidates_complete input s m =
    elim (live-IsOffered input.current_session_id [] (sort_recent [] input.live_sessions) s
      (sort_recent-Listed s [] input.live_sessions (inr m))) [
        | inl here ↦ inl here
        | inr (inl before) ↦ absurd (cc before)
        | inr (inr offered) ↦ inr offered
      ]
