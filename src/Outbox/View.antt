-- ===== src/Outbox/View.antt =====
-- The abstract view of an outbox: the chunks that wait, oldest first; and its well-formedness.
use wootty.Base.{
  ℕ, subst, sym, ◌+◌, ◌≤◌, ◌<◌, ◌≡◌, refl, List, [], ◌∷◌, ◌++◌, Bool, Text, arith, length, drop,
  All, drop_all,
}
use wootty.Outbox.{
  OutboxState, OutboxChunk, utf8_byte_length, encoded_length, unit_bytes, create_outbox,
  compact_outbox, reset_outbox,
}

abbrev pub view : OutboxState → List OutboxChunk
view o = drop o.head o.chunks

abbrev pub total : List OutboxChunk → ℕ
total [] = 0
total (c ∷ cs) = c.bytes + total cs

-- A chunk that is not empty, with the size of its text.
pub record IsSized (c : OutboxChunk) : Type 0 where
  pub measured : c.bytes ≡ utf8_byte_length c.data_
  pub counts : 0 < c.bytes

pub record IsValid (o : OutboxState) : Type 0 where
  pub head_in_range : o.head ≤ length o.chunks
  pub bytes_exact : o.bytes ≡ total (view o)
  pub all_sized : All IsSized (view o)

pub total-append : (xs ys : List OutboxChunk) → total (xs ++ ys) ≡ total xs + total ys
total-append [] ys = omega arith
total-append (x ∷ xs) ys = omega (arith, total-append xs ys)

unit_bytes_pos : (b : Bool) (c : ℕ) → 0 < unit_bytes b c
unfolding unit_bytes
unit_bytes_pos b c = ground arith

-- A text that is not empty takes at least one byte.
pub utf8_byte_length_pos : (u : ℕ) (us : Text) → 0 < utf8_byte_length (u ∷ us)
unfolding utf8_byte_length encoded_length
utf8_byte_length_pos u us = omega (arith, unit_bytes_pos Bool.false u)

-- Compaction frees storage only.
pub view-compact_outbox : (o : OutboxState) → view (compact_outbox o) ≡ view o
unfolding compact_outbox
view-compact_outbox o = ground (arith, drop_all o.head o.chunks)

pub compact_outbox_counters :
    (o : OutboxState)
    → ((compact_outbox o).bytes ≡ o.bytes) × ((compact_outbox o).dropped_bytes ≡ o.dropped_bytes)
unfolding compact_outbox
compact_outbox_counters o = ground arith

compact_outbox_head :
    (o : OutboxState)
    → o.head ≤ length o.chunks
    → (compact_outbox o).head ≤ length (compact_outbox o).chunks
unfolding compact_outbox
compact_outbox_head o h = ground arith

pub compact_outbox-IsValid : (o : OutboxState) → IsValid o → IsValid (compact_outbox o)
compact_outbox-IsValid o v = record {
  head_in_range = compact_outbox_head o v.head_in_range;
  bytes_exact = ground (arith, view-compact_outbox o, compact_outbox_counters o, v.bytes_exact);
  all_sized = subst (All IsSized) (sym (view-compact_outbox o)) v.all_sized;
}

pub create_outbox-IsValid : IsValid create_outbox
unfolding create_outbox
create_outbox-IsValid = record { head_in_range = omega arith; bytes_exact = refl; all_sized = tt }

pub reset_outbox-IsValid : (o : OutboxState) → IsValid (reset_outbox o)
unfolding reset_outbox
reset_outbox-IsValid o = record { head_in_range = omega arith; bytes_exact = refl; all_sized = tt }
