-- ===== src/Outbox/Evict.antt =====
-- Enqueueing: the oldest chunks make room for the new one.
use wootty.Base.{
  ℕ, zero, suc, ◌+◌, ◌≤◌, ◌<◌, ◌≡◌, inl, inr, refl, sym, subst, ap, ◌∙◌, List, [], ◌∷◌, false, some,
  arith, length, drop, get_elem?, All, length-drop, drop_all, drop-get_elem?, get_elem?-eq-none,
  Bool-cases, Option-cases, ltb, if◌then◌else◌,
}
use wootty.Outbox.{OutboxState, OutboxChunk, drop_head, evict}
use wootty.Outbox.View.{view, total, IsSized, IsValid}

-- What remains of a queue when its oldest chunks are dropped until the rest fits.
abbrev pub fit : ℕ → List OutboxChunk → List OutboxChunk
fit max_bytes [] = []
fit max_bytes (c ∷ cs) = if ltb max_bytes (total (c ∷ cs)) then fit max_bytes cs else c ∷ cs

pub total-fit : (max_bytes : ℕ) (cs : List OutboxChunk) → total (fit max_bytes cs) ≤ max_bytes
total-fit max_bytes [] = omega arith
total-fit max_bytes (c ∷ cs) = ground (arith, total-fit max_bytes cs)

pub fit-all : (m : ℕ) (cs : List OutboxChunk) → total cs ≤ m → fit m cs ≡ cs
fit-all m [] h = refl
fit-all m (c ∷ cs) h = ground arith

-- The head of an outbox, split from what waits behind it.
pub view-head :
    (o : OutboxState) (c : OutboxChunk)
    → get_elem? o.chunks o.head ≡ some c
    → view o ≡ c ∷ drop (o.head + 1) o.chunks
view-head o c e =
    drop-get_elem? o.head o.chunks c e
    ∙ ap (λ n. c ∷ drop n o.chunks) {x = suc o.head} (omega arith)

-- Facts about an outbox whose head chunk is known.
pub record HasHead (o : OutboxState) (c : OutboxChunk) : Type 0 where
  pub room : o.head + 1 ≤ length o.chunks
  pub counted : o.bytes ≡ c.bytes + total (drop (o.head + 1) o.chunks)
  pub head_sized : IsSized c
  pub rest_sized : All IsSized (drop (o.head + 1) o.chunks)

pub has_head :
    (o : OutboxState) (c : OutboxChunk)
    → IsValid o
    → get_elem? o.chunks o.head ≡ some c
    → HasHead o c
has_head o c v e =
    let cut = view-head o c e in
    let sized = subst (All IsSized) cut v.all_sized in
    record {
      room = omega (arith, ap length cut, length-drop o.head o.chunks);
      counted = omega (arith, ap total cut, v.bytes_exact);
      head_sized = sized.0;
      rest_sized = sized.1;
    }

pub drop_head-IsValid : (o : OutboxState) (c : OutboxChunk) → HasHead o c → IsValid (drop_head o c)
unfolding drop_head
drop_head-IsValid o c k = record {
  head_in_range = k.room;
  bytes_exact = omega (arith, k.counted);
  all_sized = k.rest_sized;
}

drop_head_counters :
    (o : OutboxState) (c : OutboxChunk)
    → HasHead o c
    → (drop_head o c).bytes + (drop_head o c).dropped_bytes ≡ o.bytes + o.dropped_bytes
unfolding drop_head
drop_head_counters o c k = omega (arith, k.counted)

pub view-drop_head :
    (o : OutboxState) (c : OutboxChunk)
    → get_elem? o.chunks o.head ≡ some c
    → view o ≡ c ∷ view (drop_head o c)
unfolding drop_head
view-drop_head o c e = view-head o c e

-- An outbox that holds too much has a chunk to drop.
pub overfull-head :
    (o : OutboxState) (m : ℕ)
    → IsValid o
    → m < o.bytes
    → (c : OutboxChunk) × (get_elem? o.chunks o.head ≡ some c)
overfull-head o m v h = elim (Option-cases (get_elem? o.chunks o.head)) [
  | inl e ↦ absurd (
      omega (
        arith,
        v.bytes_exact,
        ap total (drop_all o.head o.chunks (get_elem?-eq-none o.head o.chunks e)),
      ))
  | inr found ↦ found
]

-- What the loop does on well-formed outboxes.
pub record Evicted (m : ℕ) (o p : OutboxState) : Type 0 where
  pub valid : IsValid p
  pub kept : view p ≡ fit m (view o)
  pub conserved : p.bytes + p.dropped_bytes ≡ o.bytes + o.dropped_bytes

Evicted-refl : (m : ℕ) (o : OutboxState) → IsValid o → o.bytes ≤ m → Evicted m o o
Evicted-refl m o v h = record {
  valid = v;
  kept = sym (fit-all m (view o) (omega (arith, v.bytes_exact)));
  conserved = refl;
}

-- A round of the loop that drops a chunk.
Evicted-step :
    (m : ℕ) (o p : OutboxState) (c : OutboxChunk)
    → HasHead o c
    → get_elem? o.chunks o.head ≡ some c
    → m < o.bytes
    → Evicted m (drop_head o c) p
    → Evicted m o p
Evicted-step m o p c k e h rest = record {
  valid = rest.valid;
  kept = ground (arith, view-head o c e, k.counted, view-drop_head o c e, rest.kept);
  conserved = rest.conserved ∙ drop_head_counters o c k;
}

pub evict_done : (f m : ℕ) (o : OutboxState) → o.bytes ≤ m → evict f m o ≡ o
unfolding evict
evict_done zero m o h = refl
evict_done (suc f) m o h = ground arith

pub evict_round :
    (f m : ℕ) (o : OutboxState) (c : OutboxChunk)
    → m < o.bytes
    → o.head + 1 ≤ length o.chunks
    → get_elem? o.chunks o.head ≡ some c
    → evict (suc f) m o ≡ evict f m (drop_head o c)
unfolding evict
evict_round f m o c h r e = ground (arith, e)

evict-fits :
    (f m : ℕ) (o : OutboxState) → IsValid o → ltb m o.bytes ≡ false → Evicted m o (evict f m o)
evict-fits f m o v fits =
    subst (Evicted m o) (sym (evict_done f m o (ground arith))) (Evicted-refl m o v (ground arith))

-- The loop of `enqueueOutbox` ends within its fuel and leaves what `fit` describes.
pub evict-Evicted :
    (fuel m : ℕ) (o : OutboxState)
    → IsValid o
    → length (view o) ≤ fuel
    → Evicted m o (evict fuel m o)
evict-Evicted zero m o v h = elim (Bool-cases (ltb m o.bytes)) [
  | inr fits ↦ evict-fits zero m o v fits
  | inl over ↦
      let (c, e) = overfull-head o m v (ground arith) in
      absurd (omega (arith, ap length (view-head o c e)))
]
evict-Evicted (suc f) m o v h = elim (Bool-cases (ltb m o.bytes)) [
  | inr fits ↦ evict-fits (suc f) m o v fits
  | inl over ↦
      let heavy : m < o.bytes = ground arith in
      let (c, e) = overfull-head o m v heavy in
      let k = has_head o c v e in
      let shorter : length (view (drop_head o c)) ≤ f =
        omega (arith, ap length (view-drop_head o c e)) in
      let rest = evict-Evicted f m (drop_head o c) (drop_head-IsValid o c k) shorter in
      subst (Evicted m o) (sym (evict_round f m o c heavy k.room e))
        (Evicted-step m o _ c k e heavy rest)
]
