-- ===== src/Persistence/Failures.antt =====
-- Remembering a session when the storage fails.
use wootty.Base.{
  ◌≤◌, ◌≡◌, refl, sym, subst, ap, ◌∙◌, true, not, ◌∷◌, some, Text, length, text_eq, text_eq_refl,
  has, keep, length-take-le,
}
use wootty.Session.History.{push_session_history}
use wootty.Persistence.{
  last_session_key, StorageApi, Persistence, store_session_id, read_session_history, remember_in,
  remember_session, report_access,
}

module _ {St : Type 0} (api : StorageApi St) where
  -- Whatever the storage or the parser throws: with a local storage at hand, remembering a session
  -- makes it the last one and puts it into the displayed history, of at most 8 entries, and touches
  -- neither the active session nor its storage.
  remember_session_survives :
      (id : Text) (st : St) (s : Persistence St)
      → s.local_storage.storage ≡ some st
      → let t = remember_session api id s in
        (t.last_session_id ≡ some id)
        × (has id t.session_history_ids ≡ true)
        × (length t.session_history_ids ≤ 8)
        × (t.session_id ≡ s.session_id)
        × (t.session_storage ≡ s.session_storage)
  unfolding remember_session push_session_history
  remember_session_survives id st s found =
      let s' = report_access api s.local_storage.error s in
      let st1 = (store_session_id api st last_session_key id).0 in
      let ids = (read_session_history api st1).0 in
      let e : remember_session api id s ≡ remember_in api id (some st) s' =
        ap (λ o. remember_in api id o s') found in
      (
        ap (λ (t : Persistence St). t.last_session_id) e,
        ap (λ (t : Persistence St). has id t.session_history_ids) e ∙ rw (text_eq_refl id) refl,
        subst (λ (t : Persistence St). length t.session_history_ids ≤ 8) (sym e)
            (length-take-le 8 (id ∷ keep (λ v. not (text_eq v id)) ids)),
        ap (λ (t : Persistence St). t.session_id) e,
        ap (λ (t : Persistence St). t.session_storage) e,
      )
