-- ===== src/Persistence/Examples.antt =====
-- Remembering sessions in a storage that works, and in one that is full.
use wootty.Base.{◌≡◌, refl, [], none, some, codes, text_eq}
use wootty.Persistence.{
  threw, StorageApi, Persistence, initial_persistence, remember_session, store_session_id,
  read_session_history, write_session_history, read_stored_session_id,
}
use wootty.Persistence.Reload.{IsReloaded, remember_session-reload}
use wootty.Persistence.Shelf.{Shelf, shelf_api, shelf-IsLawful}

abbrev opened : Persistence Shelf
opened =
    initial_persistence shelf_api (record { storage = some []; error = none })
      (record { storage = some []; error = none })

opened_storage : opened.local_storage.storage ≡ some []
unfolding initial_persistence
opened_storage = refl

remembered_quietly : (remember_session shelf_api (codes "s1") opened).failures ≡ opened.failures
unfolding initial_persistence remember_session read_stored_session_id read_session_history
    store_session_id write_session_history text_eq
remembered_quietly = refl

remember_session-reload_example :
    IsReloaded shelf_api (codes "s1") (remember_session shelf_api (codes "s1") opened)
remember_session-reload_example =
    remember_session-reload shelf_api shelf-IsLawful (codes "s1") [] opened opened_storage
      (λ e. cc e) remembered_quietly

-- Nothing can be written.
abbrev full_api : StorageApi Shelf
full_api = record shelf_api { set_item = λ key value shelf. threw }
