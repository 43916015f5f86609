-- ===== src/Outbox/Rounds.antt =====
-- The loops of the outbox end by themselves, not for want of fuel.
use wootty.Base.{
  ℕ, zero, suc, ◌+◌, ◌≤◌, ◌<◌, ◌≡◌, inl, inr, sym, ap, ◌∙◌, Bool, Text, arith, length, get_elem?,
  Option-cases, Bool-cases, ltb,
}
use wootty.Outbox.{OutboxState, accept_head, drop_head, evict, flush_loop}
use wootty.Outbox.View.{view, IsValid}
use wootty.Outbox.Evict.{
  view-head, has_head, drop_head-IsValid, view-drop_head, overfull-head, evict_done, evict_round,
}
use wootty.Outbox.Flush.{
  answer_cases, flush_end, flush_refuse, flush_accept, view-accept_head, accept_head-IsValid,
}

evict_more :
    (k f m : ℕ) (o : OutboxState)
    → IsValid o
    → length (view o) ≤ f
    → evict (f + k) m o ≡ evict f m o
evict_more k zero m o v h = elim (Bool-cases (ltb m o.bytes)) [
  | inr fits ↦ evict_done (zero + k) m o (ground arith) ∙ sym (evict_done zero m o (ground arith))
  | inl over ↦
      let (c, e) = overfull-head o m v (ground arith) in
      absurd (omega (arith, ap length (view-head o c e)))
]
evict_more k (suc f) m o v h = elim (Bool-cases (ltb m o.bytes)) [
  | inr fits ↦
      evict_done (suc f + k) m o (ground arith) ∙ sym (evict_done (suc f) m o (ground arith))
  | inl over ↦
      let heavy : m < o.bytes = ground arith in
      let (c, e) = overfull-head o m v heavy in
      let head = has_head o c v e in
      let shorter : length (view (drop_head o c)) ≤ f =
        omega (arith, ap length (view-drop_head o c e)) in
      let one_more : suc f + k ≡ suc (f + k) = omega arith in
      ap (λ r. evict r m o) one_more
      ∙ evict_round (f + k) m o c heavy head.room e
      ∙ evict_more k f m (drop_head o c) (drop_head-IsValid o c head) shorter
      ∙ sym (evict_round f m o c heavy head.room e)
]

module _ {ℓ} {W : Type ℓ} (send : W → Text → Bool × W) where
  flush_more :
      (k f : ℕ) (w : W) (o : OutboxState) (n : ℕ)
      → IsValid o
      → length (view o) ≤ f
      → flush_loop send (f + k) w o n ≡ flush_loop send f w o n
  flush_more k zero w o n v h = elim (Option-cases (get_elem? o.chunks o.head)) [
    | inl e ↦ flush_end send (zero + k) w o n e ∙ sym (flush_end send zero w o n e)
    | inr (c, e) ↦ absurd (omega (arith, ap length (view-head o c e)))
  ]
  flush_more k (suc f) w o n v h = elim (Option-cases (get_elem? o.chunks o.head)) [
    | inl e ↦ flush_end send (suc f + k) w o n e ∙ sym (flush_end send (suc f) w o n e)
    | inr (c, e) ↦
        let one_more : suc f + k ≡ suc (f + k) = omega arith in
        let again = ap (λ r. flush_loop send r w o n) one_more in
        elim (answer_cases (send w c.data_)) [
          | inl (w', a) ↦
              again
              ∙ flush_refuse send (f + k) w w' o n c e a
              ∙ sym (flush_refuse send f w w' o n c e a)
          | inr (w', a) ↦
              let k' = has_head o c v e in
              let fewer : length (view (accept_head o c)) ≤ f =
                omega (arith, ap length (view-accept_head send o c e)) in
              again
              ∙ flush_accept send (f + k) w w' o n c e a
              ∙ flush_more k f w' (accept_head o c) (n + c.bytes) (accept_head-IsValid send o c k')
                  fewer
              ∙ sym (flush_accept send f w w' o n c e a)
        ]
  ]

  -- From a well-formed outbox, with as many rounds allowed as chunks wait, the loops of
  -- `enqueueOutbox` and `flushOutbox` end by their own conditions: however many more rounds are
  -- allowed, the result is the same.
  pub outbox_loops_end :
      (k f m : ℕ) (w : W) (o : OutboxState) (n : ℕ)
      → IsValid o
      → length (view o) ≤ f
      → (evict (f + k) m o ≡ evict f m o)
        × (flush_loop send (f + k) w o n ≡ flush_loop send f w o n)
  outbox_loops_end k f m w o n v h = (evict_more k f m o v h, flush_more k f w o n v h)
