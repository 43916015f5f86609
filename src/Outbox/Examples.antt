-- ===== src/Outbox/Examples.antt =====
-- The outbox on concrete texts.
use wootty.Base.{ℕ, ◌+◌, ◌≡◌, refl, Bool, true, false, [], ◌∷◌, Text, codes, arith}
use wootty.Outbox.{OutboxState, evict, flush_loop, enqueue_outbox, flush_outbox, utf8_byte_length}
use wootty.Outbox.View.{IsValid, view}
use wootty.Outbox.Enqueue.{offer, view-enqueue_outbox}
use wootty.Outbox.Rounds.{outbox_loops_end}
use wootty.Outbox.Flush.{Flushed, flush_outbox-Flushed}

-- Two texts wait.
abbrev two_texts : OutboxState
two_texts = record {
  chunks =
      record { data_ = codes "ab"; bytes = 2 } ∷ record { data_ = 0x20ac ∷ []; bytes = 3 } ∷ [];
  head = 0;
  bytes = 5;
  dropped_bytes = 0;
}

two_texts-IsValid : IsValid two_texts
unfolding utf8_byte_length
two_texts-IsValid = record {
  head_in_range = omega arith;
  bytes_exact = refl;
  all_sized = (
    record { measured = refl; counts = omega arith },
    (record { measured = refl; counts = omega arith }, tt),
  );
}

-- A connection that takes a number of texts.
abbrev take_some : ℕ → Text → Bool × ℕ
take_some ℕ.zero t = (false, 0)
take_some (ℕ.suc n) t = (true, n)

-- A surrogate pair takes 4 bytes, a lone surrogate 3.
pair_bytes : utf8_byte_length (0xd83d ∷ 0xde00 ∷ []) ≡ 4
unfolding utf8_byte_length
pair_bytes = refl

lone_bytes : utf8_byte_length (0xd83d ∷ 0x61 ∷ []) ≡ 4
unfolding utf8_byte_length
lone_bytes = refl

-- The third text pushes out the first one.
evicts_oldest : (enqueue_outbox 6 two_texts (codes "xyz")).dropped_bytes ≡ 2
unfolding enqueue_outbox utf8_byte_length
evicts_oldest = refl

flushes_one : (flush_outbox take_some 1 two_texts).0 ≡ 2
unfolding flush_outbox
flushes_one = refl

view-enqueue_outbox_example :
    view (enqueue_outbox 6 two_texts (codes "xyz")) ≡ offer 6 (view two_texts) (codes "xyz")
view-enqueue_outbox_example = view-enqueue_outbox 6 two_texts (codes "xyz") two_texts-IsValid

flush_outbox-Flushed_example : Flushed take_some 1 two_texts 0 (flush_outbox take_some 1 two_texts)
flush_outbox-Flushed_example = flush_outbox-Flushed take_some 1 two_texts two_texts-IsValid

outbox_loops_end_example :
    (evict (2 + 5) 3 two_texts ≡ evict 2 3 two_texts)
    × (flush_loop take_some (2 + 5) 1 two_texts 0 ≡ flush_loop take_some 2 1 two_texts 0)
outbox_loops_end_example =
    outbox_loops_end take_some 5 2 3 1 two_texts 0 two_texts-IsValid (omega arith)
