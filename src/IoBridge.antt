-- ===== src/IoBridge.antt =====
-- The bridge between the connection and the terminal (apps/web/src/features/terminal/app/engine/
-- runtime/connection-runtime-io-bridge.ts), over backpressure and what is written to the terminal.
pub mod Counting
mod Examples
use wootty.Base.{
  ℕ, ◌+◌, Bool, true, false, List, [], ◌∷◌, ◌++◌, Option, none, some, Text, Number, if◌then◌else◌,
}
use wootty.Protocol.ClientMessages.{ClientMessage}
use wootty.Backpressure.{
  AttachMode, Backpressure, send_resize, flush_pending_resize, handle_runtime_input,
  flush_queued_input, reset_queued_buffers,
}
use wootty.Runtime.{write_output, exit_text, server_error_text}

-- What a terminal is told, by `write` and `writeln`.
pub data Written : Type 0 where
  wrote wrote_line : Text → Written
  -- `resetTerminal`, in the order of the output
  wrote_reset : Written

pub record Bridge : Type 0 where
  pub backpressure : Backpressure
  pub output_bytes : ℕ
  -- whether `termRef` holds a terminal
  pub has_terminal : Bool
  -- the latest first
  pub written : List Written

abbrev pub tell : Written → Bridge → Bridge
tell w b = if b.has_terminal then record b { written = w ∷ b.written } else b

abbrev log_output : List Text → List Written → List Written
log_output [] log = log
log_output (t ∷ ts) log = wrote t ∷ log_output ts log

unfoldable pub write_output_and_track_bytes : Text → Bridge → Bridge
unfolding write_output
write_output_and_track_bytes data_ b =
    let (texts, bytes) = write_output b.has_terminal data_ in
    record b { written = log_output texts b.written; output_bytes = b.output_bytes + bytes }

abbrev pub write_exit : ℕ → ℕ → Bridge → Bridge
write_exit code signal b = tell (wrote_line (exit_text code signal)) b

abbrev pub write_server_error : Text → Bridge → Bridge
write_server_error message b = tell (wrote_line (server_error_text message)) b

-- `resetTerminal` and `setOutputBytes(0)`.
abbrev pub restart_output : Bridge → Bridge
restart_output b = record (tell wrote_reset b) { output_bytes = 0 }

unfoldable pub reset_runtime_buffers : Bridge → Bridge
unfolding reset_queued_buffers
reset_runtime_buffers b = record (restart_output b) {
  backpressure = reset_queued_buffers b.backpressure;
}

module _ {ℓ} {W : Type ℓ} (send_now : W → ClientMessage → Bool × W) where
  unfoldable pub flush_after_ready : AttachMode → Bool → W → Bridge → Bridge × W
  unfolding flush_queued_input flush_pending_resize reset_queued_buffers
  flush_after_ready mode true w b =
      (record (restart_output b) { backpressure = reset_queued_buffers b.backpressure }, w)
  flush_after_ready mode false w b =
      let (s, w') = flush_queued_input send_now mode w b.backpressure in
      let (s', w'') = flush_pending_resize send_now w' s in
      (record (restart_output b) { backpressure = s' }, w'')

  -- The sizes are those of the terminal after `fit`.
  unfoldable pub fit_and_sync_size : AttachMode → Number → Number → W → Bridge → Bridge × W
  unfolding send_resize
  fit_and_sync_size mode cols rows w b =
      let (s, w') = send_resize send_now mode cols rows w b.backpressure in
      if b.has_terminal then (record b { backpressure = s }, w') else (b, w)

  unfoldable pub on_input : AttachMode → Text → W → Bridge → Bridge × W
  unfolding handle_runtime_input
  on_input mode data_ w b =
      let (s, w') = handle_runtime_input send_now mode data_ w b.backpressure in
      (record b { backpressure = s }, w')
