-- ===== src/Outbox/Flush.antt =====
-- `flushOutbox` hands the waiting chunks to the connection in order, up to the first refusal.
use wootty.Base.{
  ℕ, zero, suc, ◌+◌, ◌≤◌, ◌≡◌, inl, inr, refl, sym, subst, ap, ◌∙◌, List, [], ◌∷◌, ◌++◌, Bool, true,
  false, none, some, Text, arith, length, get_elem?, length-drop, get_elem?-eq-none, drop_all, ◌⊎◌,
  Option-cases,
}
use wootty.Outbox.{OutboxState, OutboxChunk, accept_head, flush_loop, flush_outbox}
use wootty.Outbox.View.{
  view, total, IsValid, view-compact_outbox, compact_outbox_counters, compact_outbox-IsValid,
}
use wootty.Outbox.Evict.{view-head, HasHead, has_head}

pub answer_cases {ℓ} :
    {W : Type ℓ} (r : Bool × W) → ((w : W) × (r ≡ (false, w))) ⊎ ((w : W) × (r ≡ (true, w)))
answer_cases (false, w) = inl (w, refl)
answer_cases (true, w) = inr (w, refl)

module _ {ℓ} {W : Type ℓ} (send : W → Text → Bool × W) where
  -- The texts of `taken` are sent in order and accepted; then the queue is empty, or the next one
  -- is offered and refused. `rest` is what still waits.
  pub data Delivers : W → List OutboxChunk → List OutboxChunk → W → Type ℓ where
    drained : {w : W} → Delivers w [] [] w
    refused :
        {w w' : W} {c : OutboxChunk} {cs : List OutboxChunk}
        → send w c.data_ ≡ (false, w')
        → Delivers w [] (c ∷ cs) w'
    accepted :
        {w w' w'' : W} {c : OutboxChunk} {taken rest : List OutboxChunk}
        → send w c.data_ ≡ (true, w')
        → Delivers w' taken rest w''
        → Delivers w (c ∷ taken) rest w''

  -- What a flush does, whatever the connection answers; `start` bytes were sent before it.
  pub record Flushed (w : W) (o : OutboxState) (start : ℕ) (r : ℕ × OutboxState × W) : Type ℓ where
    pub taken : List OutboxChunk
    pub valid : IsValid r.1
    pub in_order : view o ≡ taken ++ view r.1
    pub delivered : Delivers w taken (view r.1) r.2
    pub counted : r.0 ≡ start + total taken
    pub conserved : r.1.bytes + r.0 ≡ o.bytes + start
    pub dropped_kept : r.1.dropped_bytes ≡ o.dropped_bytes

  pub flush_end :
      (f : ℕ) (w : W) (o : OutboxState) (n : ℕ)
      → get_elem? o.chunks o.head ≡ none
      → flush_loop send f w o n ≡ (n, o, w)
  unfolding flush_loop
  flush_end zero w o n e = refl
  flush_end (suc f) w o n e = rw (e, flush_loop)

  pub flush_refuse :
      (f : ℕ) (w w' : W) (o : OutboxState) (n : ℕ) (c : OutboxChunk)
      → get_elem? o.chunks o.head ≡ some c
      → send w c.data_ ≡ (false, w')
      → flush_loop send (suc f) w o n ≡ (n, o, w')
  unfolding flush_loop
  flush_refuse f w w' o n c e a =
      rw (e, flush_loop)
        (rw (ap {B = Bool} (λ r. r.0) a) (ap {B = ℕ × OutboxState × W} (λ x. (n, o, x.1)) a))

  pub flush_accept :
      (f : ℕ) (w w' : W) (o : OutboxState) (n : ℕ) (c : OutboxChunk)
      → get_elem? o.chunks o.head ≡ some c
      → send w c.data_ ≡ (true, w')
      → flush_loop send (suc f) w o n ≡ flush_loop send f w' (accept_head o c) (n + c.bytes)
  unfolding flush_loop
  flush_accept f w w' o n c e a =
      rw (e, flush_loop)
        (rw (ap {B = Bool} (λ r. r.0) a) (
          ap {B = ℕ × OutboxState × W} (λ x. flush_loop send f x.1 (accept_head o c) (n + c.bytes))
            a))

  pub accept_head-IsValid :
      (o : OutboxState) (c : OutboxChunk) → HasHead o c → IsValid (accept_head o c)
  unfolding accept_head
  accept_head-IsValid o c k = record {
    head_in_range = k.room;
    bytes_exact = omega (arith, k.counted);
    all_sized = k.rest_sized;
  }

  pub view-accept_head :
      (o : OutboxState) (c : OutboxChunk)
      → get_elem? o.chunks o.head ≡ some c
      → view o ≡ c ∷ view (accept_head o c)
  unfolding accept_head
  view-accept_head o c e = view-head o c e

  accept_head_counters :
      (o : OutboxState) (c : OutboxChunk)
      → HasHead o c
      → ((accept_head o c).bytes + c.bytes ≡ o.bytes)
        × ((accept_head o c).dropped_bytes ≡ o.dropped_bytes)
  unfolding accept_head
  accept_head_counters o c k = (omega (arith, k.counted), refl)

  -- A round in which the connection takes the head chunk.
  Flushed-accept :
      (w w' : W) (o : OutboxState) (n : ℕ) (c : OutboxChunk) (r : ℕ × OutboxState × W)
      → get_elem? o.chunks o.head ≡ some c
      → HasHead o c
      → send w c.data_ ≡ (true, w')
      → Flushed w' (accept_head o c) (n + c.bytes) r
      → Flushed w o n r
  Flushed-accept w w' o n c r e k a rest = record {
    taken = c ∷ rest.taken;
    valid = rest.valid;
    in_order = view-accept_head o c e ∙ ap (◌∷◌ c) rest.in_order;
    delivered = accepted a rest.delivered;
    counted = omega (arith, rest.counted);
    conserved = omega (arith, rest.conserved, accept_head_counters o c k);
    dropped_kept = rest.dropped_kept ∙ (accept_head_counters o c k).1;
  }

  Flushed-end :
      (w : W) (o : OutboxState) (n : ℕ)
      → IsValid o
      → get_elem? o.chunks o.head ≡ none
      → Flushed w o n (n, o, w)
  Flushed-end w o n v e =
      let empty = drop_all o.head o.chunks (get_elem?-eq-none o.head o.chunks e) in
      record {
        taken = [];
        valid = v;
        in_order = refl;
        delivered = subst (λ q. Delivers w [] q w) (sym empty) drained;
        counted = omega arith;
        conserved = refl;
        dropped_kept = refl;
      }

  Flushed-refuse :
      (w w' : W) (o : OutboxState) (n : ℕ) (c : OutboxChunk)
      → IsValid o
      → get_elem? o.chunks o.head ≡ some c
      → send w c.data_ ≡ (false, w')
      → Flushed w o n (n, o, w')
  Flushed-refuse w w' o n c v e a = record {
    taken = [];
    valid = v;
    in_order = refl;
    delivered = subst (λ q. Delivers w [] q w') (sym (view-head o c e)) (refused a);
    counted = omega arith;
    conserved = refl;
    dropped_kept = refl;
  }

  -- Enough fuel: as many rounds as chunks wait.
  flush_loop-Flushed :
      (f : ℕ) (w : W) (o : OutboxState) (n : ℕ)
      → IsValid o
      → length (view o) ≤ f
      → Flushed w o n (flush_loop send f w o n)
  flush_loop-Flushed zero w o n v h = elim (Option-cases (get_elem? o.chunks o.head)) [
    | inl e ↦ subst (Flushed w o n) (sym (flush_end zero w o n e)) (Flushed-end w o n v e)
    | inr (c, e) ↦ absurd (omega (arith, ap length (view-head o c e)))
  ]
  flush_loop-Flushed (suc f) w o n v h = elim (Option-cases (get_elem? o.chunks o.head)) [
    | inl e ↦ subst (Flushed w o n) (sym (flush_end (suc f) w o n e)) (Flushed-end w o n v e)
    | inr (c, e) ↦ elim (answer_cases (send w c.data_)) [
      | inl (w', a) ↦
          subst (Flushed w o n) (sym (flush_refuse f w w' o n c e a))
            (Flushed-refuse w w' o n c v e a)
      | inr (w', a) ↦
          let k = has_head o c v e in
          let fewer : length (view (accept_head o c)) ≤ f =
            omega (arith, ap length (view-accept_head o c e)) in
          let rest =
            flush_loop-Flushed f w' (accept_head o c) (n + c.bytes) (accept_head-IsValid o c k)
              fewer in
          subst (Flushed w o n) (sym (flush_accept f w w' o n c e a))
            (Flushed-accept w w' o n c _ e k a rest)
    ]
  ]

  -- From a well-formed outbox, whatever the connection answers, a flush ends and delivers a prefix
  -- of the waiting chunks in their order, up to the end or the first refusal; what is left waits
  -- behind it in the same order. The bytes it returns are those of the prefix, they are taken off
  -- `bytes`, none is counted as dropped, and the outbox stays well formed.
  pub flush_outbox-Flushed :
      (w : W) (o : OutboxState) → IsValid o → Flushed w o 0 (flush_outbox send w o)
  unfolding flush_outbox
  flush_outbox-Flushed w o v =
      let r =
        flush_loop-Flushed (length o.chunks) w o 0 v (omega (arith, length-drop o.head o.chunks)) in
      let p = (flush_loop send (length o.chunks) w o 0).1 in
      record {
        taken = r.taken;
        valid = compact_outbox-IsValid p r.valid;
        in_order = r.in_order ∙ ap (◌++◌ r.taken) (sym (view-compact_outbox p));
        delivered =
            subst (λ q. Delivers w r.taken q (flush_loop send (length o.chunks) w o 0).2)
              (sym (view-compact_outbox p)) r.delivered;
        counted = r.counted;
        conserved = omega (arith, r.conserved, compact_outbox_counters p);
        dropped_kept = (compact_outbox_counters p).1 ∙ r.dropped_kept;
      }
