-- ===== src/Persistence/Reload.antt =====
-- What a reload finds of the sessions that were remembered.
use wootty.Base.{
  ◌+◌, ◌≤◌, ◌≡◌, ◌≢◌, refl, sym, subst, ap, ◌∙◌, List, [], ◌∷◌, Option, none, some, Text, length,
  take, keep, not, text_eq, arith,
}
use wootty.Session.History.{push_session_history}
use wootty.Persistence.{
  last_session_key, session_history_key, StorageFailure, Tried, threw, returned, StorageApi,
  Persistence, stored_id, history_of, report_failure, write, access_failure, read_stored_session_id,
  store_session_id, history_read, read_session_history, write_session_history, remember_in,
  remember_session, initial_persistence, report_access,
}
use wootty.Persistence.Laws.{
  IsLawful, AllNamed, push_session_history_named, history_of_named, history_of_back, different,
  reported_length,
}

module _ {St : Type 0} (api : StorageApi St) where
  history_named : (st : St) → AllNamed (read_session_history api st).0
  unfolding read_session_history
  history_named st = go (api.get_item session_history_key st)
    where
      go : (o : Tried (Option Text)) → AllNamed (history_read api o).0
      go threw = tt
      go (returned none) = tt
      go (returned (some [])) = tt
      go (returned (some (c ∷ raw))) = history_of_named (api.json_parse (c ∷ raw))

  -- A reload of the page finds the session as the last one and as the first of the history, as both
  -- are displayed.
  abbrev pub IsReloaded : Text → Persistence St → Type 0
  IsReloaded id t =
      let r = initial_persistence api t.local_storage t.session_storage in
      (r.last_session_id ≡ some id)
      × (t.last_session_id ≡ some id)
      × (r.session_history_ids ≡ t.session_history_ids)
      × (rest : List Text) × (t.session_history_ids ≡ id ∷ rest)

  module _ (lawful : IsLawful api) where
    -- What was written is what is read.
    written_back :
        (st st' : St) (ids : List Text)
        → AllNamed ids
        → api.set_item session_history_key (api.json_stringify ids) st ≡ returned st'
        → read_session_history api st' ≡ (ids, none)
    unfolding read_session_history
    written_back st st' ids h e =
        ap (history_read api) (lawful.found session_history_key (api.json_stringify ids) st st' e)
        ∙ go (api.json_stringify ids) (lawful.no_empty_json ids)
            (ap history_of (lawful.parsed_back ids) ∙ history_of_back ids h)
      where
        go :
            (raw : Text)
            → raw ≢ []
            → history_of (api.json_parse raw) ≡ (ids, none)
            → history_read api (returned (some raw)) ≡ (ids, none)
        go [] n f = absurd (n refl)
        go (c ∷ raw) n f = f

    stored_id_back :
        (key id : Text) → id ≢ [] → stored_id key (returned (some id)) ≡ (some id, none)
    stored_id_back key [] n = absurd (n refl)
    stored_id_back key (c ∷ id) n = refl

    last_back :
        (id value : Text) (st st1 st2 : St)
        → id ≢ []
        → api.set_item last_session_key id st ≡ returned st1
        → api.set_item session_history_key value st1 ≡ returned st2
        → read_stored_session_id api st2 last_session_key ≡ (some id, none)
    unfolding read_stored_session_id
    last_back id value st st1 st2 n e f =
        ap (stored_id last_session_key) (
          lawful.others_kept session_history_key last_session_key value st1 st2 different f
          ∙ lawful.found last_session_key id st st1 e)
        ∙ stored_id_back last_session_key id n

    -- Remembering a session in a storage that works.
    remembered :
        (id : Text) (st st1 st2 : St) (s : Persistence St)
        → let history = push_session_history (read_session_history api st1).0 id 8 in
          id ≢ []
          → api.set_item last_session_key id st ≡ returned st1
          → api.set_item session_history_key (api.json_stringify history) st1 ≡ returned st2
          → remember_in api id (some st) s ≡ record s {
            local_storage = record s.local_storage { storage = some st2 };
            failures = report_failure (read_session_history api st1).1 s.failures;
            session_history_ids = history;
            last_session_id = some id;
          }
    unfolding store_session_id write_session_history
    remembered id st st1 st2 s n e f = rw (e, f) refl

    -- Every failure is reported.
    first_write_reported :
        (id : Text) (st : St) (s : Persistence St)
        → api.set_item last_session_key id st ≡ threw
        → length s.failures + 1 ≤ length (remember_in api id (some st) s).failures
    unfolding store_session_id
    first_write_reported id st s e =
        let (sessions, read_error) = read_session_history api st in
        let (st2, write_error) =
          write_session_history api st (push_session_history sessions id 8) in
        rw e (
          omega (
            arith,
            reported_length write_error
                (report_failure read_error (access_failure write last_session_key ∷ s.failures)),
            reported_length read_error (access_failure write last_session_key ∷ s.failures),
          ))

    second_write_reported :
        (id : Text) (st st1 : St) (s : Persistence St)
        → api.set_item last_session_key id st ≡ returned st1
        → api.set_item session_history_key
            (api.json_stringify (push_session_history (read_session_history api st1).0 id 8))
            st1
          ≡ threw
        → length s.failures + 1 ≤ length (remember_in api id (some st) s).failures
    unfolding store_session_id write_session_history
    second_write_reported id st st1 s e f =
        rw (e, f) (omega (arith, reported_length (read_session_history api st1).1 s.failures))

    reloaded :
        (id : Text) (st : St) (s : Persistence St)
        → id ≢ []
        → length (remember_in api id (some st) s).failures ≤ length s.failures
        → IsReloaded id (remember_in api id (some st) s)
    unfolding initial_persistence push_session_history
    reloaded id st s n quiet = first (api.set_item last_session_key id st) refl
      where
        second :
            (st1 : St) (o : Tried St)
            → api.set_item last_session_key id st ≡ returned st1
            → api.set_item session_history_key
                (api.json_stringify (push_session_history (read_session_history api st1).0 id 8))
                st1
              ≡ o
            → IsReloaded id (remember_in api id (some st) s)
        second st1 threw e f = absurd (omega (arith, quiet, second_write_reported id st st1 s e f))
        second st1 (returned st2) e f =
            let history = push_session_history (read_session_history api st1).0 id 8 in
            subst (IsReloaded id) (sym (remembered id st st1 st2 s n e f)) (
              ap (λ (p : Option Text × Option StorageFailure). p.0)
                  (last_back id (api.json_stringify history) st st1 st2 n e f),
              refl,
              ap (λ (p : List Text × Option StorageFailure). p.0)
                  (written_back st1 st2 history
                    (push_session_history_named (read_session_history api st1).0 id n
                      (history_named st1))
                    f),
              take 7 (keep (λ value. not (text_eq value id)) (read_session_history api st1).0),
              refl,
            )

        first :
            (o : Tried St)
            → api.set_item last_session_key id st ≡ o
            → IsReloaded id (remember_in api id (some st) s)
        first threw e = absurd (omega (arith, quiet, first_write_reported id st s e))
        first (returned st1) e =
            second st1
              (api.set_item session_history_key
                (api.json_stringify (push_session_history (read_session_history api st1).0 id 8))
                st1)
              e refl

    -- In a storage that behaves as `Storage` and `JSON` do: when a session with a name is remembered
    -- and no failure is reported, a reload of the page finds it as the last session and the history as
    -- it is displayed, which begins with it.
    pub remember_session-reload :
        (id : Text) (st : St) (s : Persistence St)
        → s.local_storage.storage ≡ some st
        → id ≢ []
        → (remember_session api id s).failures ≡ s.failures
        → IsReloaded id (remember_session api id s)
    unfolding remember_session
    remember_session-reload id st s found n quiet =
        let s' = report_access api s.local_storage.error s in
        let e : remember_session api id s ≡ remember_in api id (some st) s' =
          ap (λ o. remember_in api id o s') found in
        subst (IsReloaded id) (sym e) (
          reloaded id st s' n (
            omega (
              arith,
              ap (λ (t : Persistence St). length t.failures) e,
              ap (λ (fs : List StorageFailure). length fs) quiet,
              reported_length s.local_storage.error s.failures,
            )))
