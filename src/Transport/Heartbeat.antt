-- ===== src/Transport/Heartbeat.antt =====
-- Pings and their answers (apps/web/src/features/terminal/app/engine/transport/reliability/
-- transport-heartbeat-monitor.ts).
use wootty.Base.{ℕ, Option, none, some, sub_ℕ}
use wootty.Transport.State.{latency}
use wootty.Transport.Policy.{heartbeat_interval_ms, pong_timeout_ms}
use wootty.Transport.Service.{
  Service, ping_tick, pong_timeout, dispatch_event, set_timer, clear_timer,
}

module _ {N : Type 0} where
  abbrev pub cleared_pong : Option ℕ → Service N → Service N
  cleared_pong none s = s
  cleared_pong (some handle) s = record (clear_timer handle s) { pong_timer = none }

  unfoldable pub clear_pong_timeout : Service N → Service N
  clear_pong_timeout s = cleared_pong s.pong_timer s

  abbrev pub cleared_ping : Option ℕ → Service N → Service N
  cleared_ping none s = s
  cleared_ping (some handle) s = record (clear_timer handle s) { ping_timer = none }

  -- `stop`.
  unfoldable pub stop_heartbeat : Service N → Service N
  stop_heartbeat s = clear_pong_timeout (cleared_ping s.ping_timer s)

  -- `start`.
  unfoldable pub start_heartbeat : Service N → Service N
  start_heartbeat s =
      let t = stop_heartbeat s in
      record (set_timer ping_tick heartbeat_interval_ms t) { ping_timer = some t.next_handle }

  -- The callback of the interval; `onPing` is a dependency.
  abbrev pub tick_when : Option ℕ → (Service N → Service N) → Service N → Service N
  tick_when (some handle) on_ping s = s
  tick_when none on_ping s =
      let t = on_ping (record s { ping_sent_at = some s.now }) in
      record (set_timer pong_timeout pong_timeout_ms t) { pong_timer = some t.next_handle }

  unfoldable pub on_ping_interval : (Service N → Service N) → Service N → Service N
  on_ping_interval on_ping s = tick_when s.pong_timer on_ping s

  -- `onLatency` dispatches the time since the ping.
  abbrev pub measured : Option ℕ → Service N → Service N
  measured none s = s
  measured (some sent_at) s = record (dispatch_event (latency (sub_ℕ s.now sent_at)) s) {
    ping_sent_at = none;
  }

  unfoldable pub mark_pong : Service N → Service N
  mark_pong s = clear_pong_timeout (measured s.ping_sent_at s)
