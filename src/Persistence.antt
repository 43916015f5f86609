-- ===== src/Persistence.antt =====
-- What the browser keeps of the sessions (apps/web/src/features/terminal/session/persistence,
-- session/application/session-persistence.ts and contracts/storage-access.ts). `Storage` and `JSON`
-- are parameters. The causes of failures, which are only passed on, are left out.
mod Examples
pub mod Shelf
pub mod Laws
pub mod Reload
pub mod Failures
use wootty.Base.{
  ℕ, Bool, true, false, not, List, [], ◌∷◌, ◌++◌, Option, none, some, Text, codes, length, ◌==◌,
  if◌then◌else◌,
}
use wootty.Session.History.{push_session_history}

abbrev pub active_session_key : Text
active_session_key = codes "wootty.activeSessionId"

abbrev pub last_session_key : Text
last_session_key = codes "wootty.lastSessionId"

abbrev pub session_history_key : Text
session_history_key = codes "wootty.sessionHistory"

pub data StorageOperation : Type 0 where
  read write remove parse : StorageOperation

pub data StorageFailureReason : Type 0 where
  schema_mismatch invalid_value : StorageFailureReason

pub record StorageFailure : Type 0 where
  pub operation : StorageOperation
  pub key : Text
  pub reason : Option StorageFailureReason

-- A call that may throw.
pub data Tried (A : Type 0) : Type 0 where
  threw : Tried A
  returned : A → Tried A

-- What `JSON.parse` answers: an array, of which an entry that is no string is `none`.
pub data HistoryValue : Type 0 where
  no_array : HistoryValue
  array : List (Option Text) → HistoryValue

-- A call of a storage that throws leaves it as it is.
pub record StorageApi (St : Type 0) : Type 0 where
  pub get_item : Text → St → Tried (Option Text)
  pub set_item : Text → Text → St → Tried St
  pub remove_item : Text → St → Tried St
  pub json_parse : Text → Tried HistoryValue
  pub json_stringify : List Text → Text

-- `StorageAccessResult`.
pub record StorageAccess (St : Type 0) : Type 0 where
  pub storage : Option St
  pub error : Option StorageFailure

-- The state of the hook, the two storages as they are found, and the failures that it reports, the
-- latest first.
pub record Persistence (St : Type 0) : Type 0 where
  pub session_id : Option Text
  pub last_session_id : Option Text
  pub session_history_ids : List Text
  pub local_storage : StorageAccess St
  pub session_storage : StorageAccess St
  pub failures : List StorageFailure

abbrev pub access_failure : StorageOperation → Text → StorageFailure
access_failure operation key = record { operation = operation; key = key; reason = none }

abbrev pub parse_failure_of : StorageFailureReason → StorageFailure
parse_failure_of reason = record {
  operation = parse;
  key = session_history_key;
  reason = some reason;
}

abbrev pub stored_id : Text → Tried (Option Text) → Option Text × Option StorageFailure
stored_id key threw = (none, some (access_failure read key))
stored_id key (returned none) = (none, none)
stored_id key (returned (some [])) = (none, none)
stored_id key (returned (some (c ∷ id))) = (some (c ∷ id), none)

-- The storage after a call that changes it.
abbrev pub mutation :
    {St : Type 0} → StorageOperation → Text → Tried St → St → St × Option StorageFailure
mutation operation key threw st = (st, some (access_failure operation key))
mutation operation key (returned st') st = (st', none)

-- The two filters.
abbrev pub valid_entries : List (Option Text) → List Text
valid_entries [] = []
valid_entries (none ∷ es) = valid_entries es
valid_entries (some [] ∷ es) = valid_entries es
valid_entries (some (c ∷ id) ∷ es) = (c ∷ id) ∷ valid_entries es

abbrev pub history_of : Tried HistoryValue → List Text × Option StorageFailure
history_of threw = ([], some (parse_failure_of invalid_value))
history_of (returned no_array) = ([], some (parse_failure_of schema_mismatch))
history_of (returned (array es)) =
    let sessions = valid_entries es in
    (
      sessions,
      if length sessions == length es then none else some (parse_failure_of schema_mismatch),
    )

abbrev pub report_failure : Option StorageFailure → List StorageFailure → List StorageFailure
report_failure none failures = failures
report_failure (some f) failures = f ∷ failures

module _ {St : Type 0} (api : StorageApi St) where
  unfoldable pub read_stored_session_id : St → Text → Option Text × Option StorageFailure
  read_stored_session_id st key = stored_id key (api.get_item key st)

  unfoldable pub store_session_id : St → Text → Text → St × Option StorageFailure
  store_session_id st key id = mutation write key (api.set_item key id st) st

  unfoldable pub clear_stored_session_id : St → Text → St × Option StorageFailure
  clear_stored_session_id st key = mutation remove key (api.remove_item key st) st

  abbrev pub history_read : Tried (Option Text) → List Text × Option StorageFailure
  history_read threw = ([], some (access_failure read session_history_key))
  history_read (returned none) = ([], none)
  history_read (returned (some [])) = ([], none)
  history_read (returned (some (c ∷ raw))) = history_of (api.json_parse (c ∷ raw))

  unfoldable pub read_session_history : St → List Text × Option StorageFailure
  read_session_history st = history_read (api.get_item session_history_key st)

  unfoldable pub write_session_history : St → List Text → St × Option StorageFailure
  write_session_history st sessions =
      mutation write session_history_key
        (api.set_item session_history_key (api.json_stringify sessions) st) st

  abbrev stored_in : StorageAccess St → St → StorageAccess St
  stored_in access st = record access { storage = some st }

  -- A change of the active session's storage.
  abbrev pub change_active :
      (St → St × Option StorageFailure) → Option St → Persistence St → Persistence St
  change_active change none s = s
  change_active change (some st) s =
      let (st', error) = change st in
      record s {
        session_storage = stored_in s.session_storage st';
        failures = report_failure error s.failures;
      }

  abbrev pub report_access : Option StorageFailure → Persistence St → Persistence St
  report_access error s = record s { failures = report_failure error s.failures }

  unfoldable pub clear_active_session_storage : Persistence St → Persistence St
  unfolding clear_stored_session_id
  clear_active_session_storage s =
      change_active (λ st. clear_stored_session_id st active_session_key) s.session_storage.storage
        (report_access s.session_storage.error s)

  unfoldable pub persist_active_session_storage : Text → Persistence St → Persistence St
  unfolding store_session_id
  persist_active_session_storage id s =
      change_active (λ st. store_session_id st active_session_key id) s.session_storage.storage
        (report_access s.session_storage.error s)

  abbrev pub remember_in : Text → Option St → Persistence St → Persistence St
  remember_in id none s = s
  remember_in id (some st) s =
      let (st1, last_error) = store_session_id st last_session_key id in
      let (sessions, read_error) = read_session_history st1 in
      let history = push_session_history sessions id 8 in
      let (st2, write_error) = write_session_history st1 history in
      record s {
        local_storage = stored_in s.local_storage st2;
        failures =
            report_failure write_error
              (report_failure read_error (report_failure last_error s.failures));
        session_history_ids = history;
        last_session_id = some id;
      }

  unfoldable pub remember_session : Text → Persistence St → Persistence St
  unfolding store_session_id read_session_history write_session_history push_session_history
  remember_session id s =
      remember_in id s.local_storage.storage (report_access s.local_storage.error s)

  abbrev read_in :
      {A : Type 0} → A → (St → A × Option StorageFailure) → Option St → A × Option StorageFailure
  read_in nothing f none = (nothing, none)
  read_in nothing f (some st) = f st

  -- The three `useMemo` of the first rendering; each asks for its storage.
  unfoldable pub initial_persistence : StorageAccess St → StorageAccess St → Persistence St
  unfolding read_stored_session_id read_session_history
  initial_persistence local session =
      let (session_id, session_error) =
        read_in none (λ st. read_stored_session_id st active_session_key) session.storage in
      let (last_id, last_error) =
        read_in none (λ st. read_stored_session_id st last_session_key) local.storage in
      let (history, history_error) = read_in [] read_session_history local.storage in
      record {
        session_id = session_id;
        last_session_id = last_id;
        session_history_ids = history;
        local_storage = local;
        session_storage = session;
        failures = report_failure history_error (
            report_failure local.error (
              report_failure last_error (
                report_failure local.error
                  (report_failure session_error (report_failure session.error [])))));
      }
