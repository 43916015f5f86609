-- ===== src/Outbox/Enqueue.antt =====
-- `enqueueOutbox` refines the queue of chunks that fits a number of bytes.
use wootty.Base.{
  ℕ, true, false, length-drop, ◌+◌, ◌≤◌, ◌≡◌, inl, inr, refl, sym, subst, ap, ◌∙◌, List, [], ◌∷◌,
  ◌++◌, Text, arith, length, All, All-append, length-append, drop-append, Bool-cases, ltb,
  if◌then◌else◌,
}
use wootty.Outbox.{
  OutboxState, OutboxChunk, utf8_byte_length, encoded_length, queued_chunk, push_chunk, evict,
  store_chunk, enqueue_outbox, compact_outbox,
}
use wootty.Outbox.View.{
  view, total, IsSized, IsValid, total-append, utf8_byte_length_pos, view-compact_outbox,
  compact_outbox_counters, compact_outbox-IsValid,
}
use wootty.Outbox.Evict.{fit, total-fit, evict-Evicted}

-- The abstract operation: an empty text is ignored, one that can never fit is dropped, and any
-- other joins the end while the oldest chunks make room.
abbrev pub offer : ℕ → List OutboxChunk → Text → List OutboxChunk
offer m queue [] = queue
offer m queue (u ∷ us) =
    let c = queued_chunk (u ∷ us) in if ltb m c.bytes then queue else fit m (queue ++ c ∷ [])

view-push_chunk :
    (o : OutboxState) (c : OutboxChunk)
    → o.head ≤ length o.chunks
    → view (push_chunk o c) ≡ view o ++ c ∷ []
unfolding push_chunk
view-push_chunk o c h = drop-append o.head o.chunks (c ∷ []) h

push_chunk-IsValid :
    (o : OutboxState) (c : OutboxChunk) → IsSized c → IsValid o → IsValid (push_chunk o c)
push_chunk-IsValid o c s v =
    let longer = view-push_chunk o c v.head_in_range in
    record {
      head_in_range =
          unfold push_chunk in omega (arith, v.head_in_range, length-append o.chunks (c ∷ []));
      bytes_exact =
          unfold push_chunk in
          omega (arith, v.bytes_exact, ap total longer, total-append (view o) (c ∷ []));
      all_sized =
          subst (All IsSized) (sym longer)
            (All-append IsSized (view o) (c ∷ []) v.all_sized (s, tt));
    }

-- What `storeChunk` leaves of a well-formed outbox.
record Stored (m : ℕ) (o p : OutboxState) (c : OutboxChunk) : Type 0 where
  valid : IsValid p
  kept : view p ≡ (if ltb m c.bytes then view o else fit m (view o ++ c ∷ []))
  conserved : p.bytes + p.dropped_bytes ≡ o.bytes + o.dropped_bytes + c.bytes

store_chunk_large :
    (m : ℕ) (o : OutboxState) (c : OutboxChunk)
    → IsValid o
    → ltb m c.bytes ≡ true
    → Stored m o (record o { dropped_bytes = o.dropped_bytes + c.bytes }) c
store_chunk_large m o c v large = record {
  valid = record {
    head_in_range = v.head_in_range;
    bytes_exact = v.bytes_exact;
    all_sized = v.all_sized;
  };
  kept = rw large;
  conserved = omega arith;
}

push_chunk_counters :
    (o : OutboxState) (c : OutboxChunk)
    → (push_chunk o c).bytes + (push_chunk o c).dropped_bytes ≡ o.bytes + o.dropped_bytes + c.bytes
unfolding push_chunk
push_chunk_counters o c = omega arith

store_chunk_small :
    (m : ℕ) (o : OutboxState) (c : OutboxChunk)
    → IsValid o
    → IsSized c
    → ltb m c.bytes ≡ false
    → let p = push_chunk o c in Stored m o (compact_outbox (evict (length p.chunks) m p)) c
store_chunk_small m o c v s small =
    let p = push_chunk o c in
    let enough : length (view p) ≤ length p.chunks = omega (arith, length-drop p.head p.chunks) in
    let e = evict-Evicted (length p.chunks) m p (push_chunk-IsValid o c s v) enough in
    let q = evict (length p.chunks) m p in
    record {
      valid = compact_outbox-IsValid q e.valid;
      kept =
          rw small
            (view-compact_outbox q ∙ e.kept ∙ ap (fit m) (view-push_chunk o c v.head_in_range));
      conserved = omega (arith, compact_outbox_counters q, e.conserved, push_chunk_counters o c);
    }

store_chunk-Stored :
    (m : ℕ) (o : OutboxState) (c : OutboxChunk)
    → IsValid o
    → IsSized c
    → Stored m o (store_chunk m o c) c
unfolding store_chunk
store_chunk-Stored m o c v s = elim (Bool-cases (ltb m c.bytes)) [
  | inl large ↦ rw large (store_chunk_large m o c v large)
  | inr small ↦ rw small (store_chunk_small m o c v s small)
]

queued_chunk-IsSized : (u : ℕ) (us : Text) → IsSized (queued_chunk (u ∷ us))
queued_chunk-IsSized u us = record { measured = refl; counts = utf8_byte_length_pos u us }

stored :
    (m : ℕ) (o : OutboxState) (u : ℕ) (us : Text)
    → IsValid o
    → Stored m o (enqueue_outbox m o (u ∷ us)) (queued_chunk (u ∷ us))
unfolding enqueue_outbox
stored m o u us v = store_chunk-Stored m o (queued_chunk (u ∷ us)) v (queued_chunk-IsSized u us)

-- Enqueueing keeps an outbox well formed.
pub enqueue_outbox-IsValid :
    (m : ℕ) (o : OutboxState) (chunk : Text) → IsValid o → IsValid (enqueue_outbox m o chunk)
enqueue_outbox-IsValid m o [] v = unfold enqueue_outbox in v
enqueue_outbox-IsValid m o (u ∷ us) v = (stored m o u us v).valid

-- On a well-formed outbox `enqueueOutbox` does to the waiting chunks what `offer` says: the oldest
-- go first, no more of them than needed, and storage that is freed or kept makes no difference.
pub view-enqueue_outbox :
    (m : ℕ) (o : OutboxState) (chunk : Text)
    → IsValid o
    → view (enqueue_outbox m o chunk) ≡ offer m (view o) chunk
view-enqueue_outbox m o [] v = unfold enqueue_outbox in refl
view-enqueue_outbox m o (u ∷ us) v = (stored m o u us v).kept

-- Every byte that is offered is either waiting or counted as dropped.
enqueue_outbox_conserves :
    (m : ℕ) (o : OutboxState) (chunk : Text)
    → IsValid o
    → (enqueue_outbox m o chunk).bytes + (enqueue_outbox m o chunk).dropped_bytes
      ≡ o.bytes + o.dropped_bytes + utf8_byte_length chunk
enqueue_outbox_conserves m o [] v =
    unfold enqueue_outbox utf8_byte_length encoded_length in omega arith
enqueue_outbox_conserves m o (u ∷ us) v = (stored m o u us v).conserved

total-offer :
    (m : ℕ) (q : List OutboxChunk) (chunk : Text) → total q ≤ m → total (offer m q chunk) ≤ m
total-offer m q [] h = h
total-offer m q (u ∷ us) h = ground (arith, total-fit m (q ++ queued_chunk (u ∷ us) ∷ []))

-- A queue within the limit stays within it.
pub enqueue_outbox_bounded :
    (m : ℕ) (o : OutboxState) (chunk : Text)
    → IsValid o
    → o.bytes ≤ m
    → (enqueue_outbox m o chunk).bytes ≤ m
enqueue_outbox_bounded m o chunk v h = omega (
  arith,
  v.bytes_exact,
  (enqueue_outbox-IsValid m o chunk v).bytes_exact,
  ap total (view-enqueue_outbox m o chunk v),
  total-offer m (view o) chunk,
)
