-- ===== src/Persistence/Laws.antt =====
-- How `Storage` and `JSON` behave, and the names that a history holds.
use wootty.Base.{
  ℕ, zero, suc, inl, inr, ◌≤◌, ◌≡◌, ◌≢◌, refl, ap, Bool, true, false, not, List, [], ◌∷◌, Option,
  none, some, Text, length, text_eq, keep, take, All, map, ◌==◌, arith, Bool-cases,
}
use wootty.Session.History.{push_session_history}
use wootty.Persistence.{
  last_session_key, session_history_key, StorageFailure, Tried, threw, returned, HistoryValue,
  no_array, array, StorageApi, valid_entries, history_of, report_failure,
}

-- How `Storage` and `JSON` behave: what was set is found under its key and nothing else changes,
-- and a list of texts is read back from its text, which is not empty.
pub record IsLawful {St : Type 0} (api : StorageApi St) : Type 0 where
  pub found :
      (key value : Text) (st st' : St)
      → api.set_item key value st ≡ returned st'
      → api.get_item key st' ≡ returned (some value)
  pub others_kept :
      (key other value : Text) (st st' : St)
      → text_eq key other ≡ false
      → api.set_item key value st ≡ returned st'
      → api.get_item other st' ≡ api.get_item other st
  pub parsed_back :
      (ids : List Text) → api.json_parse (api.json_stringify ids) ≡ returned (array (map some ids))
  pub no_empty_json : (ids : List Text) → api.json_stringify ids ≢ []

abbrev pub AllNamed : List Text → Type 0
AllNamed = All (λ id. id ≢ [])

valid_entries_named : (es : List (Option Text)) → AllNamed (valid_entries es)
valid_entries_named [] = tt
valid_entries_named (none ∷ es) = valid_entries_named es
valid_entries_named (some [] ∷ es) = valid_entries_named es
valid_entries_named (some (c ∷ id) ∷ es) = (λ e. cc e, valid_entries_named es)

pub history_of_named : (v : Tried HistoryValue) → AllNamed (history_of v).0
history_of_named threw = tt
history_of_named (returned no_array) = tt
history_of_named (returned (array es)) = valid_entries_named es

keep_named : (p : Text → Bool) (ids : List Text) → AllNamed ids → AllNamed (keep p ids)
keep_named p [] h = tt
keep_named p (id ∷ ids) h = elim (Bool-cases (p id)) [
  | inl e ↦ rw e (h.0, keep_named p ids h.1)
  | inr e ↦ rw e (keep_named p ids h.1)
]

take_named : (n : ℕ) (ids : List Text) → AllNamed ids → AllNamed (take n ids)
take_named zero ids h = tt
take_named (suc n) [] h = tt
take_named (suc n) (id ∷ ids) h = (h.0, take_named n ids h.1)

pub push_session_history_named :
    (ids : List Text) (id : Text)
    → id ≢ []
    → AllNamed ids
    → AllNamed (push_session_history ids id 8)
unfolding push_session_history
push_session_history_named ids id named h =
    take_named 8 (id ∷ keep (λ v. not (text_eq v id)) ids)
      (named, keep_named (λ v. not (text_eq v id)) ids h)

valid_entries_back : (ids : List Text) → AllNamed ids → valid_entries (map some ids) ≡ ids
valid_entries_back [] h = refl
valid_entries_back ([] ∷ ids) h = absurd (h.0 refl)
valid_entries_back ((c ∷ id) ∷ ids) h = ap (λ x. (c ∷ id) ∷ x) (valid_entries_back ids h.1)

length-entries : (ids : List Text) → length (map some ids) ≡ length ids
length-entries [] = refl
length-entries (id ∷ ids) = omega (arith, length-entries ids)

pub history_of_back :
    (ids : List Text) → AllNamed ids → history_of (returned (array (map some ids))) ≡ (ids, none)
history_of_back ids h =
    let e : (length ids == length (map some ids)) ≡ true = ground (arith, length-entries ids) in
    rw (valid_entries_back ids h, e) refl

pub different : text_eq session_history_key last_session_key ≡ false
unfolding text_eq
different = refl

pub reported_length :
    (o : Option StorageFailure) (fs : List StorageFailure)
    → length fs ≤ length (report_failure o fs)
reported_length none fs = omega arith
reported_length (some f) fs = omega arith
