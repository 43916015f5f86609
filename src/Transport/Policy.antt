-- ===== src/Transport/Policy.antt =====
-- Close codes and delays
-- (apps/web/src/features/terminal/app/engine/transport/state/transport-policy.ts). The source takes
-- 300 * 1.8 ** attempt in floating point; up to the attempt where the cap of 5000 takes over its
-- floor is that of the exact fraction (300, 540, 972, 1749, 3149).
use wootty.Base.{ℕ, ◌*◌, ◌/◌, ◌^◌, Bool, not, ◌||◌, min, ◌==◌}

abbrev pub manual_reconnect_code : ℕ
manual_reconnect_code = 4101

abbrev pub start_fresh_session_code : ℕ
start_fresh_session_code = 4102

abbrev pub pong_timeout_code : ℕ
pong_timeout_code = 4103

abbrev pub heartbeat_interval_ms : ℕ
heartbeat_interval_ms = 12_000

abbrev pub pong_timeout_ms : ℕ
pong_timeout_ms = 12_000

abbrev pub max_attempts : ℕ
max_attempts = 8

-- `NON_RECOVERABLE_CLOSE_CODES.has(code)`.
abbrev non_recoverable : ℕ → Bool
non_recoverable code =
    code == 1000
    || code == 1001
    || code == 1002
    || code == 1003
    || code == 1007
    || code == 1008
    || code == 1009
    || code == 1010
    || code == 1011

unfoldable pub is_recoverable_transport_close : ℕ → Bool
is_recoverable_transport_close code = not (non_recoverable code)

unfoldable pub reconnect_delay_ms : ℕ → ℕ
reconnect_delay_ms attempt = min 5_000 (300 * 9 ^ attempt / 5 ^ attempt)
