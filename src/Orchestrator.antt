-- ===== src/Orchestrator.antt =====
-- The orchestrator of the sessions (apps/web/src/features/terminal/session/application/
-- session-orchestrator.ts), over persistence and the notice channel. `formatNotice` is a parameter;
-- of the coordinator's requests the triggers' times are kept. Times are whole milliseconds.
pub mod Rate
pub mod Tab
pub mod Context
mod Examples
use wootty.Base.{
  ℕ, ◌+◌, ◌-◌, Bool, true, false, List, [], ◌∷◌, ◌++◌, Option, none, some, Text, codes, ltb, leb,
  trim, if◌then◌else◌,
}
use wootty.Backpressure.{AttachMode, control, watch}
use wootty.Session.{SessionSnapshot}
use wootty.Refresh.{RefreshFailure}
use wootty.Throttle.{FailureNoticeState}
use wootty.Persistence.{
  StorageOperation, read, write, remove, parse, StorageFailureReason, schema_mismatch,
  invalid_value, StorageFailure, StorageApi, StorageAccess, Persistence, initial_persistence,
  remember_session, persist_active_session_storage, clear_active_session_storage,
}
use wootty.Notices.{
  RefreshNotice, to_session_refresh_failure_notice, NoticeChannel, quiet_channel, begin_channel,
  clear_session_notice, publish_session_notice, publish_throttled_session_notice,
}

abbrev pub failure_notice_cooldown_ms : ℕ
failure_notice_cooldown_ms = 15_000

abbrev pub min_interval_ms : ℕ
min_interval_ms = 750

-- The refs that space requests for a refresh after transport events. `none` is -Infinity.
pub record TransportRefresh : Type 0 where
  pub last_at : Option ℕ
  -- when the pending timer is due
  pub pending_due : Option ℕ
  -- when `requestSessionRefresh` was called, the latest first
  pub requested_at : List ℕ

abbrev pub initial_transport_refresh : TransportRefresh
initial_transport_refresh = record { last_at = none; pending_due = none; requested_at = [] }

abbrev pub refresh_now : ℕ → TransportRefresh → TransportRefresh
refresh_now now r = record r { last_at = some now; requested_at = now ∷ r.requested_at }

-- `now - last < 750`, where the clock may step back.
abbrev pub is_too_soon : ℕ → Option ℕ → Bool
is_too_soon now none = false
is_too_soon now (some last) = ltb now (last + min_interval_ms)

abbrev pub trailing_due : ℕ → Option ℕ → ℕ
trailing_due now none = now
trailing_due now (some last) = now + ((min_interval_ms + last) - now)

abbrev pub schedule_if_none : ℕ → Option ℕ → TransportRefresh → TransportRefresh
schedule_if_none now none r = record r { pending_due = some (trailing_due now r.last_at) }
schedule_if_none now (some due) r = r

unfoldable pub schedule_trailing_transport_refresh : ℕ → TransportRefresh → TransportRefresh
schedule_trailing_transport_refresh now r = schedule_if_none now r.pending_due r

unfoldable pub request_transport_refresh : ℕ → TransportRefresh → TransportRefresh
unfolding schedule_trailing_transport_refresh
request_transport_refresh now r =
    if is_too_soon now r.last_at
    then schedule_trailing_transport_refresh now r
    else refresh_now now r

abbrev pub fire_if_due : ℕ → Option ℕ → TransportRefresh → TransportRefresh
fire_if_due now none r = r
fire_if_due now (some due) r =
    if leb due now then refresh_now now (record r { pending_due = none }) else r

-- The trailing timer fires once it is due.
unfoldable pub trailing_fires : ℕ → TransportRefresh → TransportRefresh
trailing_fires now r = fire_if_due now r.pending_due r

-- The cleanup of the effect.
abbrev pub cancel_trailing : TransportRefresh → TransportRefresh
cancel_trailing r = record r { pending_due = none }

pub record Orchestrator (St : Type 0) : Type 0 where
  pub persistence : Persistence St
  pub channel : NoticeChannel
  pub refresh_failure_notice : FailureNoticeState
  pub storage_failure_notice : FailureNoticeState
  pub transport_refresh : TransportRefresh
  pub live_sessions : List SessionSnapshot
  pub attach_mode : AttachMode
  pub session_menu_open : Bool

abbrev operation_text : StorageOperation → Text
operation_text read = codes "read"
operation_text write = codes "write"
operation_text remove = codes "remove"
operation_text parse = codes "parse"

abbrev reason_text : Option StorageFailureReason → Text
reason_text none = []
reason_text (some schema_mismatch) = codes "schema_mismatch"
reason_text (some invalid_value) = codes "invalid_value"

abbrev pub storage_failure_key : StorageFailure → Text
storage_failure_key f =
    codes "storage:"
    ++ operation_text f.operation
    ++ codes ":"
    ++ f.key
    ++ codes ":"
    ++ reason_text f.reason

abbrev pub mode_of : Bool → AttachMode
mode_of true = watch
mode_of false = control

module _ {St : Type 0} (api : StorageApi St) (format_storage : StorageFailure → Text)
    (format_refresh : RefreshNotice → Text) (format_invalid_entries : ℕ → Text) where
  unfoldable pub report_storage_failure : ℕ → StorageFailure → Orchestrator St → Orchestrator St
  unfolding publish_throttled_session_notice
  report_storage_failure now f s =
      let (state, channel) =
        publish_throttled_session_notice s.storage_failure_notice (storage_failure_key f)
          (format_storage f) failure_notice_cooldown_ms now s.channel in
      record s { storage_failure_notice = state; channel = channel }

  -- Failures are kept with the latest first, and reported with the earliest first.
  abbrev pub report_storage_failures : ℕ → List StorageFailure → Orchestrator St → Orchestrator St
  report_storage_failures now [] s = s
  report_storage_failures now (f ∷ fs) s =
      report_storage_failure now f (report_storage_failures now fs s)

  -- A call of persistence, whose failures `onStorageFailure` reports.
  abbrev pub with_persistence :
      ℕ → (Persistence St → Persistence St) → Orchestrator St → Orchestrator St
  with_persistence now f s =
      let p = f (record s.persistence { failures = [] }) in
      report_storage_failures now p.failures (record s { persistence = p })

  abbrev publish_text : ℕ → Text → Orchestrator St → Orchestrator St
  publish_text now [] s = s
  publish_text now (u ∷ message) s = record s {
    channel = publish_session_notice (u ∷ message) now s.channel;
  }

  abbrev publish_failure : ℕ → Option (Text × RefreshNotice) → Orchestrator St → Orchestrator St
  publish_failure now none s = s
  publish_failure now (some (key, notice)) s =
      let (state, channel) =
        publish_throttled_session_notice s.refresh_failure_notice key (format_refresh notice)
          failure_notice_cooldown_ms now s.channel in
      record s { refresh_failure_notice = state; channel = channel }

  -- The three handlers of the coordinator.
  unfoldable pub publish_refresh_failure : ℕ → RefreshFailure → Orchestrator St → Orchestrator St
  unfolding to_session_refresh_failure_notice publish_throttled_session_notice
  publish_refresh_failure now f s = publish_failure now (to_session_refresh_failure_notice f) s

  unfoldable pub refresh_succeeds : List SessionSnapshot → Orchestrator St → Orchestrator St
  refresh_succeeds sessions s = record s { refresh_failure_notice = none; live_sessions = sessions }

  unfoldable pub invalid_entries : ℕ → ℕ → Orchestrator St → Orchestrator St
  unfolding trim publish_session_notice
  invalid_entries now count s = publish_text now (trim (format_invalid_entries count)) s

  abbrev pub set_session_id : Option Text → Orchestrator St → Orchestrator St
  set_session_id id s = record s { persistence = record s.persistence { session_id = id } }

  unfoldable pub apply_ready_session : ℕ → Text → Bool → Orchestrator St → Orchestrator St
  unfolding clear_session_notice remember_session persist_active_session_storage
      report_storage_failure
  apply_ready_session now id read_only s =
      let t = record s {
        attach_mode = mode_of read_only;
        channel = clear_session_notice s.channel;
      } in
      let u = record (set_session_id (some id) t) { session_menu_open = false } in
      with_persistence now (persist_active_session_storage api id)
        (with_persistence now (remember_session api id) u)

  unfoldable pub clear_missing_session : ℕ → Orchestrator St → Orchestrator St
  unfolding clear_active_session_storage report_storage_failure
  clear_missing_session now s =
      let t = with_persistence now (clear_active_session_storage api) s in
      record (set_session_id none t) { attach_mode = control; session_menu_open = false }

  abbrev pub store_context : ℕ → Option Text → Orchestrator St → Orchestrator St
  store_context now none s = with_persistence now (clear_active_session_storage api) s
  store_context now (some []) s = with_persistence now (clear_active_session_storage api) s
  store_context now (some (c ∷ id)) s =
      with_persistence now (persist_active_session_storage api (c ∷ id)) s

  unfoldable pub transition_session_context :
      ℕ → Option Text → AttachMode → Orchestrator St → Orchestrator St
  unfolding clear_session_notice persist_active_session_storage clear_active_session_storage
      report_storage_failure
  transition_session_context now id mode s =
      let t = record s { channel = clear_session_notice s.channel; attach_mode = mode } in
      let u = record (set_session_id id t) { session_menu_open = false } in store_context now id u

  -- The first rendering reads the storages; the effect of the channel runs after it.
  unfoldable pub initial_orchestrator :
      Text → ℕ → StorageAccess St → StorageAccess St → Orchestrator St
  unfolding initial_persistence report_storage_failure
  initial_orchestrator notice now local session =
      let p = initial_persistence api local session in
      let s = report_storage_failures now p.failures (record {
        persistence = p;
        channel = quiet_channel notice;
        refresh_failure_notice = none;
        storage_failure_notice = none;
        transport_refresh = initial_transport_refresh;
        live_sessions = [];
        attach_mode = control;
        session_menu_open = false;
      }) in
      record s { channel = begin_channel notice now s.channel }
