-- ===== src/Orchestrator/Tab.antt =====
-- The storage of the tab's session under the calls of persistence
-- (apps/web/src/features/terminal/session/application/session-persistence.ts), and what a reload of
-- the page finds in it.
use wootty.Base.{◌≡◌, refl, ap, ◌∙◌, Option, none, some, Text}
use wootty.Persistence.{
  returned, StorageApi, Persistence, remember_session, persist_active_session_storage,
  clear_active_session_storage, change_active, store_session_id, clear_stored_session_id,
  active_session_key, report_access, remember_in, initial_persistence, read_stored_session_id,
  stored_id,
}

-- How `Storage` behaves: a key that was removed is not found.
pub record Removes {St : Type 0} (api : StorageApi St) : Type 0 where
  pub gone :
      (key : Text) (st st' : St)
      → api.remove_item key st ≡ returned st'
      → api.get_item key st' ≡ returned none

-- The storage of the tab's session, if it is at hand.
abbrev pub tab : {St : Type 0} → Persistence St → Option St
tab p = p.session_storage.storage

module _ {St : Type 0} (api : StorageApi St) where
  pub persist_keeps :
      (id : Text) (p : Persistence St)
      → (persist_active_session_storage api id p).session_id ≡ p.session_id
  unfolding persist_active_session_storage
  persist_keeps id p = go p.session_storage.storage
    where
      go :
          (o : Option St)
          → (change_active api
              (λ st. store_session_id api st active_session_key id)
              o
              (report_access api p.session_storage.error p)).session_id
            ≡ p.session_id
      go none = refl
      go (some st) = refl

  pub clear_keeps :
      (p : Persistence St) → (clear_active_session_storage api p).session_id ≡ p.session_id
  unfolding clear_active_session_storage
  clear_keeps p = go p.session_storage.storage
    where
      go :
          (o : Option St)
          → (change_active api
              (λ st. clear_stored_session_id api st active_session_key)
              o
              (report_access api p.session_storage.error p)).session_id
            ≡ p.session_id
      go none = refl
      go (some st) = refl

  pub remember_keeps :
      (id : Text) (p : Persistence St) → (remember_session api id p).session_id ≡ p.session_id
  unfolding remember_session
  remember_keeps id p = go p.local_storage.storage
    where
      go :
          (o : Option St)
          → (remember_in api id o (report_access api p.local_storage.error p)).session_id
            ≡ p.session_id
      go none = refl
      go (some st) = refl

  pub remember_tab : (id : Text) (p : Persistence St) → tab (remember_session api id p) ≡ tab p
  unfolding remember_session
  remember_tab id p = go p.local_storage.storage
    where
      go :
          (o : Option St)
          → tab (remember_in api id o (report_access api p.local_storage.error p)) ≡ tab p
      go none = refl
      go (some st) = refl

  -- What is in the tab's storage after a change that it takes.
  pub persist_tab :
      (id : Text) (p : Persistence St) (st st' : St)
      → tab p ≡ some st
      → api.set_item active_session_key id st ≡ returned st'
      → tab (persist_active_session_storage api id p) ≡ some st'
  unfolding persist_active_session_storage store_session_id
  persist_tab id p st st' e w =
      ap
        (λ o. tab (
          change_active api (λ x. store_session_id api x active_session_key id) o
            (report_access api p.session_storage.error p)))
        e
      ∙ rw w refl

  pub clear_tab :
      (p : Persistence St) (st st' : St)
      → tab p ≡ some st
      → api.remove_item active_session_key st ≡ returned st'
      → tab (clear_active_session_storage api p) ≡ some st'
  unfolding clear_active_session_storage clear_stored_session_id
  clear_tab p st st' e w =
      ap
        (λ o. tab (
          change_active api (λ x. clear_stored_session_id api x active_session_key) o
            (report_access api p.session_storage.error p)))
        e
      ∙ rw w refl

  -- The session that a reload of the page begins with.
  abbrev pub reloaded_session : Persistence St → Option Text
  reloaded_session p = (initial_persistence api p.local_storage p.session_storage).session_id

  pub reloaded_found :
      (p : Persistence St) (st : St) (o : Option Text)
      → tab p ≡ some st
      → api.get_item active_session_key st ≡ returned o
      → reloaded_session p ≡ (stored_id active_session_key (returned o)).0
  unfolding initial_persistence read_stored_session_id
  reloaded_found p st o e g =
      ap
        (λ x.
          let access = record p.session_storage { storage = x } in
          (initial_persistence api p.local_storage access).session_id)
        e
      ∙ ap (λ x. (stored_id active_session_key x).0) g
