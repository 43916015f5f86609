-- ===== src/Backpressure/Examples.antt =====
-- The buffers with a connection that takes a number of messages and keeps a log of the input.
use wootty.Base.{
  ℕ, ◌≡◌, refl, sym, ap, Bool, true, false, List, [], ◌∷◌, ◌++◌, none, Text, codes, whole, arith,
}
use wootty.Outbox.{flush_outbox, utf8_byte_length}
use wootty.Outbox.View.{IsValid}
use wootty.Protocol.ClientMessages.{ClientMessage, create_input_message}
use wootty.Protocol.ClientMessages
use wootty.Backpressure.{
  control, Backpressure, handle_runtime_input, flush_queued_input, send_resize,
  flush_pending_resize, reset_queued_buffers,
}
use wootty.Backpressure.Order.{IsLog, typed, handle_runtime_input_in_order}
use wootty.Backpressure.Invariant.{IsSound, backpressure_calls-IsSound}

abbrev Wire : Type 0
Wire = ℕ × List Text

abbrev logged : ClientMessage → List Text → List Text
logged (ClientMessages.ClientMessage.input t) log = log ++ t ∷ []
logged _ log = log

abbrev send_now : Wire → ClientMessage → Bool × Wire
send_now (ℕ.zero, log) m = (false, (0, log))
send_now (ℕ.suc n, log) m = (true, (n, logged m log))

abbrev log_of : Wire → List Text
log_of w = w.1

wire-IsLog : IsLog send_now log_of
unfolding create_input_message
wire-IsLog = record { took = took; kept = kept }
  where
    took :
        (w w' : Wire) (t : Text)
        → send_now w (create_input_message t) ≡ (true, w')
        → log_of w' ≡ log_of w ++ t ∷ []
    took (ℕ.zero, log) w' t e = ground arith
    took (ℕ.suc n, log) w' t e = sym (ap (λ r. r.1.1) e)

    kept :
        (w w' : Wire) (t : Text)
        → send_now w (create_input_message t) ≡ (false, w')
        → log_of w' ≡ log_of w
    kept (ℕ.zero, log) w' t e = sym (ap (λ r. r.1.1) e)
    kept (ℕ.suc n, log) w' t e = ground arith

-- One text waits, and the connection takes one message.
abbrev waiting : Backpressure
waiting = record {
  pending_resize = none;
  outbox = record {
    chunks = record { data_ = codes "ls"; bytes = 2 } ∷ [];
    head = 0;
    bytes = 2;
    dropped_bytes = 0;
  };
  runtime_fit_size = (whole 80, whole 24);
  queued_input_bytes = 2;
  dropped_input_bytes = 0;
}

waiting-IsValid : IsValid waiting.outbox
unfolding utf8_byte_length
waiting-IsValid = record {
  head_in_range = omega arith;
  bytes_exact = refl;
  all_sized = (record { measured = refl; counts = omega arith }, tt);
}

waiting-IsSound : IsSound waiting
waiting-IsSound = record {
  valid = waiting-IsValid;
  bounded = omega arith;
  queued_shown = refl;
  dropped_shown = refl;
}

-- The connection takes the older text, and the new one waits in its turn.
takes_older :
    log_of (handle_runtime_input send_now control (codes "x") (1, []) waiting).1 ≡ codes "ls" ∷ []
unfolding handle_runtime_input create_input_message flush_outbox
takes_older = refl

two_bytes : utf8_byte_length (codes "cd") ≡ 2
unfolding utf8_byte_length
two_bytes = refl

handle_runtime_input_in_order_example :
    let (s', w') = handle_runtime_input send_now control (codes "cd") (1, []) waiting in
    typed send_now log_of wire-IsLog w' s'.outbox
    ≡ typed send_now log_of wire-IsLog (1, []) waiting.outbox ++ codes "cd" ∷ []
handle_runtime_input_in_order_example =
    handle_runtime_input_in_order send_now log_of wire-IsLog (1, []) waiting 99 (100 ∷ [])
      waiting-IsValid (omega (arith, two_bytes))

backpressure_calls-IsSound_example :
    IsSound (handle_runtime_input send_now control (codes "cd") (1, []) waiting).0
    × IsSound (flush_queued_input send_now control (1, []) waiting).0
    × IsSound (send_resize send_now control (whole 90) (whole 30) (1, []) waiting).0
    × IsSound (flush_pending_resize send_now (1, []) waiting).0
    × IsSound (reset_queued_buffers waiting)
backpressure_calls-IsSound_example =
    backpressure_calls-IsSound send_now (1, []) control (codes "cd") (whole 90) (whole 30) waiting
      waiting-IsSound
