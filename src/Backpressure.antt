-- ===== src/Backpressure.antt =====
-- Input and resizes that the connection does not take at once
-- (apps/web/src/features/terminal/app/engine/runtime/connection-input-backpressure.ts). The hook's
-- refs and React state are the fields of one record; `sendNow` is a function over the state `W` of
-- the connection.
pub mod Order
pub mod Invariant
mod Examples
use wootty.Base.{
  ℕ, ◌≡◌, Bool, true, false, Option, none, some, Text, Number, whole, ltb, if◌then◌else◌,
}
use wootty.Outbox.{
  OutboxState, create_outbox, enqueue_outbox, flush_outbox, reset_outbox, outbox_max_bytes,
}
use wootty.Protocol.ClientMessages.{ClientMessage, create_input_message, create_resize_message}

pub data AttachMode : Type 0 where
  control watch : AttachMode

pub record Backpressure : Type 0 where
  pub pending_resize : Option (Number × Number)
  pub outbox : OutboxState
  pub runtime_fit_size : Number × Number
  pub queued_input_bytes : ℕ
  pub dropped_input_bytes : ℕ

unfoldable pub initial_backpressure : Backpressure
unfolding create_outbox
initial_backpressure = record {
  pending_resize = none;
  outbox = create_outbox;
  runtime_fit_size = (whole 80, whole 24);
  queued_input_bytes = 0;
  dropped_input_bytes = 0;
}

-- `setQueuedInputBytes` and `setDroppedInputBytes` with the outbox's own counters.
abbrev publish_counters : Backpressure → OutboxState → Backpressure
publish_counters s o = record s {
  outbox = o;
  queued_input_bytes = o.bytes;
  dropped_input_bytes = o.dropped_bytes;
}

unfoldable pub reset_queued_buffers : Backpressure → Backpressure
reset_queued_buffers s = record s {
  outbox = reset_outbox s.outbox;
  pending_resize = none;
  queued_input_bytes = 0;
  dropped_input_bytes = 0;
}

module _ {ℓ} {W : Type ℓ} (send_now : W → ClientMessage → Bool × W) where
  abbrev pub send_input : W → Text → Bool × W
  send_input w chunk = send_now w (create_input_message chunk)

  unfoldable pub send_resize : AttachMode → Number → Number → W → Backpressure → Backpressure × W
  send_resize watch cols rows w s =
      (record s { runtime_fit_size = (cols, rows); pending_resize = none }, w)
  send_resize control cols rows w s =
      let (sent, w') = send_now w (create_resize_message cols rows) in
      (
        record s {
          runtime_fit_size = (cols, rows);
          pending_resize = if sent then none else some (cols, rows);
        },
        w',
      )

  flush_resize : Option (Number × Number) → W → Backpressure → Backpressure × W
  flush_resize none w s = (s, w)
  flush_resize (some (cols, rows)) w s =
      let (sent, w') = send_now w (create_resize_message cols rows) in
      (if sent then record s { pending_resize = none } else s, w')

  unfoldable pub flush_pending_resize : W → Backpressure → Backpressure × W
  unfolding flush_resize
  flush_pending_resize w s = flush_resize s.pending_resize w s

  -- Input goes straight to the connection only if nothing older waits.
  pub queue_or_send : OutboxState → Text → W → OutboxState × W
  queue_or_send o data_ w =
      let (sent, w') = send_input w data_ in
      if ltb 0 o.bytes
      then (enqueue_outbox outbox_max_bytes o data_, w)
      else (if sent then o else enqueue_outbox outbox_max_bytes o data_, w')

  unfoldable pub handle_runtime_input : AttachMode → Text → W → Backpressure → Backpressure × W
  unfolding queue_or_send
  handle_runtime_input watch data_ w s = (s, w)
  handle_runtime_input control data_ w s =
      let (sent, o, w') = flush_outbox send_input w s.outbox in
      let (o', w'') = queue_or_send o data_ w' in (publish_counters s o', w'')

  unfoldable pub flush_queued_input : AttachMode → W → Backpressure → Backpressure × W
  flush_queued_input watch w s = (
    record s { outbox = reset_outbox s.outbox; queued_input_bytes = 0; dropped_input_bytes = 0 },
    w,
  )
  flush_queued_input control w s =
      let (sent, o, w') = flush_outbox send_input w s.outbox in
      (if ltb 0 sent then publish_counters s o else record s { outbox = o }, w')
