-- ===== src/IoBridge/Counting.antt =====
-- The bytes that are displayed are those of the output since the last reset.
use wootty.Base.{
  ℕ, ◌+◌, ◌≡◌, inl, inr, refl, sym, ap, ◌∙◌, Bool, true, false, List, [], ◌∷◌, Text, Number,
  Bool-cases, arith,
}
use wootty.Outbox.{utf8_byte_length}
use wootty.Protocol.ClientMessages.{ClientMessage}
use wootty.Backpressure.{AttachMode, Backpressure}
use wootty.Runtime.{write_output}
use wootty.IoBridge.{
  Written, wrote, wrote_line, wrote_reset, Bridge, tell, restart_output,
  write_output_and_track_bytes, write_exit, write_server_error, reset_runtime_buffers,
  flush_after_ready, fit_and_sync_size, on_input,
}

-- The bytes of the output since the last reset.
abbrev pub bytes_since_reset : List Written → ℕ
bytes_since_reset [] = 0
bytes_since_reset (wrote t ∷ log) = bytes_since_reset log + utf8_byte_length t
bytes_since_reset (wrote_line t ∷ log) = bytes_since_reset log
bytes_since_reset (wrote_reset ∷ log) = 0

-- What is called of the bridge.
pub data BridgeCall : Type 0 where
  outputs server_fails : Text → BridgeCall
  exits : (code signal : ℕ) → BridgeCall
  resets : BridgeCall
  is_ready : AttachMode → (read_only : Bool) → BridgeCall
  fits : AttachMode → (cols rows : Number) → BridgeCall
  types : AttachMode → Text → BridgeCall
  -- the terminal boots, once it is not there
  boots : BridgeCall

module _ {ℓ} {W : Type ℓ} (send_now : W → ClientMessage → Bool × W) where
  abbrev boot_terminal : Bool → Bridge → Bridge
  boot_terminal true b = b
  boot_terminal false b = record b { has_terminal = true }

  abbrev pub call : BridgeCall → Bridge × W → Bridge × W
  call (outputs t) (b, w) = (write_output_and_track_bytes t b, w)
  call (server_fails t) (b, w) = (write_server_error t b, w)
  call (exits code signal) (b, w) = (write_exit code signal b, w)
  call resets (b, w) = (reset_runtime_buffers b, w)
  call (is_ready mode read_only) (b, w) = flush_after_ready send_now mode read_only w b
  call (fits mode cols rows) (b, w) = fit_and_sync_size send_now mode cols rows w b
  call (types mode t) (b, w) = on_input send_now mode t w b
  call boots (b, w) = (boot_terminal b.has_terminal b, w)

  abbrev pub calls : List BridgeCall → Bridge × W → Bridge × W
  calls [] p = p
  calls (c ∷ cs) p = calls cs (call c p)

  -- Nothing is written without a terminal, and the count is that of what is written.
  record IsCounted (b : Bridge) : Type 0 where
    counted : b.output_bytes ≡ bytes_since_reset b.written
    unwritten : b.has_terminal ≡ false → b.written ≡ []

  tell_line : (t : Text) (b : Bridge) → IsCounted b → IsCounted (tell (wrote_line t) b)
  tell_line t b v = elim (Bool-cases b.has_terminal) [
    | inl e ↦ rw e (record { counted = v.counted; unwritten = λ f. absurd (cc f) })
    | inr e ↦ rw e (record { counted = v.counted; unwritten = λ _. v.unwritten e })
  ]

  restart-IsCounted : (b : Bridge) → IsCounted b → IsCounted (restart_output b)
  restart-IsCounted b v = elim (Bool-cases b.has_terminal) [
    | inl e ↦ rw e (record { counted = refl; unwritten = λ f. absurd (cc f) })
    | inr e ↦ rw e (record {
      counted = sym (ap bytes_since_reset (v.unwritten e));
      unwritten = λ _. v.unwritten e;
    })
  ]

  output-IsCounted :
      (t : Text) (b : Bridge) → IsCounted b → IsCounted (write_output_and_track_bytes t b)
  unfolding write_output_and_track_bytes write_output
  output-IsCounted t b v = elim (Bool-cases b.has_terminal) [
    | inl e ↦ rw e (record {
      counted = ap (λ n. n + utf8_byte_length t) v.counted;
      unwritten = λ f. absurd (cc f);
    })
    | inr e ↦ rw e (record { counted = omega (arith, v.counted); unwritten = λ _. v.unwritten e })
  ]

  -- What changes only the queue of input.
  queue-IsCounted :
      (b c : Bridge)
      → c.output_bytes ≡ b.output_bytes
      → c.written ≡ b.written
      → c.has_terminal ≡ b.has_terminal
      → IsCounted b
      → IsCounted c
  queue-IsCounted b c e f g v = record {
    counted = e ∙ v.counted ∙ ap bytes_since_reset (sym f);
    unwritten = λ h. f ∙ v.unwritten (sym g ∙ h);
  }

  call-IsCounted : (c : BridgeCall) (b : Bridge) (w : W) → IsCounted b → IsCounted (call c (b, w)).0
  unfolding reset_runtime_buffers flush_after_ready fit_and_sync_size on_input
  call-IsCounted (outputs t) b w v = output-IsCounted t b v
  call-IsCounted (server_fails t) b w v = tell_line _ b v
  call-IsCounted (exits code signal) b w v = tell_line _ b v
  call-IsCounted resets b w v =
      queue-IsCounted (restart_output b) _ refl refl refl (restart-IsCounted b v)
  call-IsCounted (is_ready mode true) b w v =
      queue-IsCounted (restart_output b) _ refl refl refl (restart-IsCounted b v)
  call-IsCounted (is_ready mode false) b w v =
      queue-IsCounted (restart_output b) _ refl refl refl (restart-IsCounted b v)
  call-IsCounted (fits mode cols rows) b w v = elim (Bool-cases b.has_terminal) [
    | inl e ↦ rw e (queue-IsCounted b _ refl refl (sym e) v)
    | inr e ↦ rw e (queue-IsCounted b _ refl refl (sym e) v)
  ]
  call-IsCounted (types mode t) b w v = queue-IsCounted b _ refl refl refl v
  call-IsCounted boots b w v = go b.has_terminal refl
    where
      go : (h : Bool) → b.has_terminal ≡ h → IsCounted (boot_terminal h b)
      go true e = v
      go false e = record { counted = v.counted; unwritten = λ f. absurd (cc f) }

  calls-IsCounted :
      (cs : List BridgeCall) (b : Bridge) (w : W) → IsCounted b → IsCounted (calls cs (b, w)).0
  calls-IsCounted [] b w v = v
  calls-IsCounted (c ∷ cs) b w v =
      calls-IsCounted cs (call c (b, w)).0 (call c (b, w)).1 (call-IsCounted c b w v)

  -- Whatever is called of the bridge, from a terminal that is still to boot, and whatever the
  -- connection answers: the displayed byte count is that of the output that was written since the
  -- last reset of the terminal.
  pub output_bytes_since_reset :
      (cs : List BridgeCall) (s : Backpressure) (w : W)
      → let (b, _) =
          calls cs (
            record { backpressure = s; output_bytes = 0; has_terminal = false; written = [] },
            w,
          ) in
        b.output_bytes ≡ bytes_since_reset b.written
  output_bytes_since_reset cs s w =
      (calls-IsCounted cs
        (record { backpressure = s; output_bytes = 0; has_terminal = false; written = [] }) w
        (record { counted = refl; unwritten = λ _. refl })).counted
