-- ===== src/Orchestrator/Context.antt =====
-- Changes of the session that the terminal shows, and what a reload of the page finds of them.
use wootty.Base.{
  ℕ, ◌≡◌, ◌≢◌, refl, ap, ◌∙◌, Bool, true, false, List, [], ◌∷◌, Option, none, some, Text,
  if◌then◌else◌,
}
use wootty.Backpressure.{AttachMode, control, watch}
use wootty.Persistence.{
  StorageFailure, returned, StorageApi, Persistence, remember_session,
  persist_active_session_storage, clear_active_session_storage, active_session_key,
}
use wootty.Persistence.Laws.{IsLawful}
use wootty.Notices.{RefreshNotice, clear_session_notice}
use wootty.Orchestrator.{
  Orchestrator, mode_of, report_storage_failure, report_storage_failures, with_persistence,
  apply_ready_session, clear_missing_session, transition_session_context, set_session_id,
}
use wootty.Orchestrator.Tab.{
  Removes, tab, persist_keeps, clear_keeps, remember_keeps, remember_tab, persist_tab, clear_tab,
  reloaded_session, reloaded_found,
}

module _ {St : Type 0} (api : StorageApi St) (format_storage : StorageFailure → Text)
    (format_refresh : RefreshNotice → Text) (format_invalid_entries : ℕ → Text) where
  -- Reports of failures change neither persistence nor the mode.
  reports_keep :
      (now : ℕ) (fs : List StorageFailure) (s : Orchestrator St)
      → let t =
          report_storage_failures api format_storage format_refresh format_invalid_entries now fs
            s in
        (t.persistence ≡ s.persistence) × (t.attach_mode ≡ s.attach_mode)
  unfolding report_storage_failure
  reports_keep now [] s = (refl, refl)
  reports_keep now (f ∷ fs) s = reports_keep now fs s

  with_persistence_lem :
      (now : ℕ) (f : Persistence St → Persistence St) (s : Orchestrator St)
      → let t = with_persistence api format_storage format_refresh format_invalid_entries now f s in
        (t.persistence ≡ f (record s.persistence { failures = [] }))
        × (t.attach_mode ≡ s.attach_mode)
  with_persistence_lem now f s =
      let p = f (record s.persistence { failures = [] }) in
      reports_keep now p.failures (record s { persistence = p })

  -- A session that is shown in a mode, and that a reload of the page begins with.
  abbrev pub IsKept : Orchestrator St → Option Text → AttachMode → Type 0
  IsKept t id mode =
      (t.persistence.session_id ≡ id)
      × (t.attach_mode ≡ mode)
      × (reloaded_session api t.persistence ≡ id)

  module _ (lawful : IsLawful api) (removes : Removes api) where
    written_session :
        (id : Text) (p : Persistence St) (st st' : St)
        → id ≢ []
        → tab p ≡ some st
        → api.set_item active_session_key id st ≡ returned st'
        → reloaded_session api (persist_active_session_storage api id p) ≡ some id
    written_session [] p st st' n e w = absurd (n refl)
    written_session (c ∷ id) p st st' n e w =
        reloaded_found api (persist_active_session_storage api (c ∷ id) p) st' (some (c ∷ id))
          (persist_tab api (c ∷ id) p st st' e w)
          (lawful.found active_session_key (c ∷ id) st st' w)

    cleared_session :
        (p : Persistence St) (st st' : St)
        → tab p ≡ some st
        → api.remove_item active_session_key st ≡ returned st'
        → reloaded_session api (clear_active_session_storage api p) ≡ none
    cleared_session p st st' e w =
        reloaded_found api (clear_active_session_storage api p) st' none
          (clear_tab api p st st' e w) (removes.gone active_session_key st st' w)

    -- A persistence call that stores the session which is shown.
    stored-IsKept :
        (now : ℕ) (id : Text) (s : Orchestrator St) (st st' : St)
        → id ≢ []
        → s.persistence.session_id ≡ some id
        → tab s.persistence ≡ some st
        → api.set_item active_session_key id st ≡ returned st'
        → IsKept
            (with_persistence api format_storage format_refresh format_invalid_entries now
              (persist_active_session_storage api id)
              s)
            (some id)
            s.attach_mode
    stored-IsKept now id s st st' n shown e w =
        let (p, m) = with_persistence_lem now (persist_active_session_storage api id) s in
        let q : Persistence St = record s.persistence { failures = [] } in
        (
          ap (λ x. x.session_id) p ∙ persist_keeps api id q ∙ shown,
          m,
          ap (reloaded_session api) p ∙ written_session id q st st' n e w,
        )

    cleared-IsKept :
        (now : ℕ) (s : Orchestrator St) (st st' : St)
        → s.persistence.session_id ≡ none
        → tab s.persistence ≡ some st
        → api.remove_item active_session_key st ≡ returned st'
        → IsKept
            (with_persistence api format_storage format_refresh format_invalid_entries now
              (clear_active_session_storage api)
              s)
            none
            s.attach_mode
    cleared-IsKept now s st st' shown e w =
        let (p, m) = with_persistence_lem now (clear_active_session_storage api) s in
        let q : Persistence St = record s.persistence { failures = [] } in
        (
          ap (λ x. x.session_id) p ∙ clear_keeps api q ∙ shown,
          m,
          ap (reloaded_session api) p ∙ cleared_session q st st' e w,
        )

    mode_of_lem : (read_only : Bool) → mode_of read_only ≡ (if read_only then watch else control)
    mode_of_lem true = refl
    mode_of_lem false = refl

    -- A tab's storage that behaves as `Storage` does and takes what it is told to store and to remove
    -- keeps up with the session that is shown: after a session with a name is ready, after a change
    -- to one, after a missing session is dropped and after a change to none, that session or none is
    -- shown, and a reload of the page begins with the same; a ready session is watched if it is read
    -- only and controlled otherwise, and without a missing one the mode is control.
    pub session_changes_reload :
        (now : ℕ) (id : Text) (read_only : Bool) (mode : AttachMode) (s : Orchestrator St)
        (st written cleared : St)
        → id ≢ []
        → s.persistence.session_storage.storage ≡ some st
        → api.set_item active_session_key id st ≡ returned written
        → api.remove_item active_session_key st ≡ returned cleared
        → let ready =
            apply_ready_session api format_storage format_refresh format_invalid_entries now id
              read_only s in
          let missing =
            clear_missing_session api format_storage format_refresh format_invalid_entries now s in
          let moved = λ (next : Option Text).
            transition_session_context api format_storage format_refresh format_invalid_entries now
              next mode s in
          IsKept ready (some id) (if read_only then watch else control)
          × IsKept (moved (some id)) (some id) mode
          × IsKept missing none control
          × IsKept (moved none) none mode
    unfolding apply_ready_session clear_missing_session transition_session_context
    session_changes_reload now [] read_only mode s st written cleared n e w c = absurd (n refl)
    session_changes_reload now (u ∷ rest) read_only mode s st written cleared n e w c =
        let id : Text = u ∷ rest in
        let (p, m) = with_persistence_lem now (remember_session api id) readied in
        let q : Persistence St = record readied.persistence { failures = [] } in
        let remembered =
          with_persistence api format_storage format_refresh format_invalid_entries now
            (remember_session api id) readied in
        let (shown, kept, reload) =
          stored-IsKept now id remembered st written n
            (ap (λ x. x.session_id) p ∙ remember_keeps api id q)
            (ap tab p ∙ remember_tab api id q ∙ e) w in
        let (p', m') = with_persistence_lem now (clear_active_session_storage api) s in
        let gone = cleared_session (record s.persistence { failures = [] }) st cleared e c in
        (
          (shown, kept ∙ m ∙ mode_of_lem read_only, reload),
          stored-IsKept now id (moving (some id)) st written n refl e w,
          (refl, refl, ap (reloaded_session api) p' ∙ gone),
          cleared-IsKept now (moving none) st cleared refl e c,
        )
      where
        moving : Option Text → Orchestrator St
        moving next =
            record (set_session_id api format_storage format_refresh format_invalid_entries next
              (record s { channel = clear_session_notice s.channel; attach_mode = mode })) {
                session_menu_open = false;
              }

        readied : Orchestrator St
        readied =
            record (set_session_id api format_storage format_refresh format_invalid_entries
              (some (u ∷ rest))
              (record s {
                attach_mode = mode_of read_only;
                channel = clear_session_notice s.channel;
              })) { session_menu_open = false }
