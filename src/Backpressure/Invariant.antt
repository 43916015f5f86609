-- ===== src/Backpressure/Invariant.antt =====
-- What holds of the buffers between two calls.
use wootty.Base.{
  ◌≤◌, ◌≡◌, inl, inr, refl, sym, subst, Option, none, some, Bool, true, false, Text, Number, arith,
  ltb, if◌then◌else◌, Bool-cases,
}
use wootty.Outbox.{OutboxState, flush_outbox, reset_outbox, outbox_max_bytes}
use wootty.Outbox.View.{IsValid, create_outbox-IsValid, reset_outbox-IsValid}
use wootty.Outbox.Enqueue.{enqueue_outbox-IsValid, enqueue_outbox_bounded}
use wootty.Outbox.Flush.{flush_outbox-Flushed}
use wootty.Protocol.ClientMessages.{ClientMessage, create_resize_message}
use wootty.Backpressure.{
  AttachMode, control, watch, Backpressure, initial_backpressure, publish_counters,
  reset_queued_buffers, send_input, send_resize, flush_resize, flush_pending_resize, queue_or_send,
  handle_runtime_input, flush_queued_input,
}

-- The queue is well formed and within 512 KiB, and the counters on display are its own.
pub record IsSound (s : Backpressure) : Type 0 where
  pub valid : IsValid s.outbox
  pub bounded : s.outbox.bytes ≤ outbox_max_bytes
  pub queued_shown : s.queued_input_bytes ≡ s.outbox.bytes
  pub dropped_shown : s.dropped_input_bytes ≡ s.outbox.dropped_bytes

pub initial_backpressure-IsSound : IsSound initial_backpressure
unfolding initial_backpressure
initial_backpressure-IsSound = record {
  valid = create_outbox-IsValid;
  bounded = omega arith;
  queued_shown = refl;
  dropped_shown = refl;
}

-- A state whose outbox and counters are as before.
same_outbox-IsSound :
    {s t : Backpressure}
    → t.outbox ≡ s.outbox
    → t.queued_input_bytes ≡ s.queued_input_bytes
    → t.dropped_input_bytes ≡ s.dropped_input_bytes
    → IsSound s
    → IsSound t
same_outbox-IsSound e q d v = record {
  valid = subst IsValid (sym e) v.valid;
  bounded = ground (arith, v.bounded);
  queued_shown = ground (arith, v.queued_shown);
  dropped_shown = ground (arith, v.dropped_shown);
}

publish_counters-IsSound :
    (s : Backpressure) (o : OutboxState)
    → IsValid o
    → o.bytes ≤ outbox_max_bytes
    → IsSound (publish_counters s o)
publish_counters-IsSound s o v h = record {
  valid = v;
  bounded = h;
  queued_shown = refl;
  dropped_shown = refl;
}

reset_queued_buffers-IsSound : (s : Backpressure) → IsSound (reset_queued_buffers s)
unfolding reset_queued_buffers reset_outbox
reset_queued_buffers-IsSound s = record {
  valid = reset_outbox-IsValid s.outbox;
  bounded = omega arith;
  queued_shown = refl;
  dropped_shown = refl;
}

module _ {ℓ} {W : Type ℓ} (send_now : W → ClientMessage → Bool × W) (w : W) where
  send_resize-IsSound :
      (m : AttachMode) (cols rows : Number) (s : Backpressure)
      → IsSound s
      → IsSound (send_resize send_now m cols rows w s).0
  unfolding send_resize
  send_resize-IsSound watch cols rows s v = same_outbox-IsSound refl refl refl v
  send_resize-IsSound control cols rows s v = same_outbox-IsSound refl refl refl v

  flush_pending_resize-IsSound :
      (s : Backpressure) → IsSound s → IsSound (flush_pending_resize send_now w s).0
  unfolding flush_pending_resize
  flush_pending_resize-IsSound s v = go s.pending_resize
    where
      cleared : (b : Bool) → IsSound (if b then record s { pending_resize = none } else s)
      cleared true = same_outbox-IsSound refl refl refl v
      cleared false = v

      go : (p : Option (Number × Number)) → IsSound (flush_resize send_now p w s).0
      go none = v
      go (some (cols, rows)) = cleared (send_now w (create_resize_message cols rows)).0

  queue_or_send_sound :
      (o : OutboxState) (t : Text)
      → IsValid o
      → o.bytes ≤ outbox_max_bytes
      → let p = (queue_or_send send_now o t w).0 in IsValid p × (p.bytes ≤ outbox_max_bytes)
  unfolding queue_or_send
  queue_or_send_sound o t v h =
      let joined = enqueue_outbox-IsValid outbox_max_bytes o t v in
      let fits = enqueue_outbox_bounded outbox_max_bytes o t v h in
      elim (Bool-cases (ltb 0 o.bytes)) [
        | inl waiting ↦ rw waiting (joined, fits)
        | inr idle ↦ elim (Bool-cases (send_input send_now w t).0) [
          | inl taken ↦ rw (idle, taken) (v, h)
          | inr left ↦ rw (idle, left) (joined, fits)
        ]
      ]

  flush_queued_input-IsSound :
      (m : AttachMode) (s : Backpressure)
      → IsSound s
      → IsSound (flush_queued_input send_now m w s).0
  unfolding flush_queued_input reset_outbox
  flush_queued_input-IsSound watch s v = record {
    valid = reset_outbox-IsValid s.outbox;
    bounded = omega arith;
    queued_shown = refl;
    dropped_shown = refl;
  }
  flush_queued_input-IsSound control s v =
      let f = flush_outbox-Flushed (send_input send_now) w s.outbox v.valid in
      elim (Bool-cases (ltb 0 (flush_outbox (send_input send_now) w s.outbox).0)) [
        | inl moved ↦
            rw moved (publish_counters-IsSound s _ f.valid (omega (arith, f.conserved, v.bounded)))
        | inr idle ↦ rw idle (record {
          valid = f.valid;
          bounded = omega (arith, f.conserved, v.bounded);
          queued_shown = ground (arith, f.conserved, v.queued_shown);
          dropped_shown = ground (arith, f.dropped_kept, v.dropped_shown);
        })
      ]

module _ {ℓ} {W : Type ℓ} (send_now : W → ClientMessage → Bool × W) (w : W) where
  handle_runtime_input-IsSound :
      (m : AttachMode) (t : Text) (s : Backpressure)
      → IsSound s
      → IsSound (handle_runtime_input send_now m t w s).0
  unfolding handle_runtime_input
  handle_runtime_input-IsSound watch t s v = v
  handle_runtime_input-IsSound control t s v =
      let f = flush_outbox-Flushed (send_input send_now) w s.outbox v.valid in
      let (n, o, w') = flush_outbox (send_input send_now) w s.outbox in
      let (valid, bounded) =
        queue_or_send_sound send_now w' o t f.valid (omega (arith, f.conserved, v.bounded)) in
      publish_counters-IsSound s _ valid bounded

  -- Each call of the hook (typed input, a flush, a resize, a pending resize, a reset), in either
  -- attach mode and whatever the connection answers, keeps the queue well formed and within 512 KiB
  -- and the displayed counters equal to the queue's, also where `flushQueuedInput` skips the display.
  pub backpressure_calls-IsSound :
      (m : AttachMode) (t : Text) (cols rows : Number) (s : Backpressure)
      → IsSound s
      → IsSound (handle_runtime_input send_now m t w s).0
        × IsSound (flush_queued_input send_now m w s).0
        × IsSound (send_resize send_now m cols rows w s).0
        × IsSound (flush_pending_resize send_now w s).0
        × IsSound (reset_queued_buffers s)
  backpressure_calls-IsSound m t cols rows s v = (
    handle_runtime_input-IsSound m t s v,
    flush_queued_input-IsSound send_now w m s v,
    send_resize-IsSound send_now w m cols rows s v,
    flush_pending_resize-IsSound send_now w s v,
    reset_queued_buffers-IsSound s,
  )
