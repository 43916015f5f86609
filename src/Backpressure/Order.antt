-- ===== src/Backpressure/Order.antt =====
-- Input reaches the connection in the order in which it was typed.
use wootty.Base.{
  ℕ, ◌+◌, ◌≤◌, ◌≡◌, inl, inr, refl, sym, ap, ◌∙◌, List, [], ◌∷◌, ◌++◌, Bool, true, false, Text,
  arith, ltb, if◌then◌else◌, All, append-nil, append_assoc, Bool-cases,
}
use wootty.Outbox.{
  OutboxState, OutboxChunk, utf8_byte_length, queued_chunk, enqueue_outbox, flush_outbox,
  outbox_max_bytes,
}
use wootty.Outbox.View.{view, total, total-append, IsSized, IsValid}
use wootty.Outbox.Evict.{fit-all}
use wootty.Outbox.Enqueue.{offer, view-enqueue_outbox}
use wootty.Outbox.Flush.{
  Delivers, drained, refused, accepted, Flushed, flush_outbox-Flushed, answer_cases,
}
use wootty.Protocol.ClientMessages.{ClientMessage}
use wootty.Backpressure.{control, Backpressure, send_input, queue_or_send, handle_runtime_input}

abbrev pub texts : List OutboxChunk → List Text
texts [] = []
texts (c ∷ cs) = c.data_ ∷ texts cs

texts-append : (xs ys : List OutboxChunk) → texts (xs ++ ys) ≡ texts xs ++ texts ys
texts-append [] ys = refl
texts-append (x ∷ xs) ys = ap (◌∷◌ x.data_) (texts-append xs ys)

eq-nil_of_total : (cs : List OutboxChunk) → All IsSized cs → total cs ≡ 0 → cs ≡ []
eq-nil_of_total [] s h = refl
eq-nil_of_total (c ∷ cs) s h = absurd (omega (arith, s.0.counts))

-- A text that fits beside a queue joins its end.
offer_fits :
    (m : ℕ) (q : List OutboxChunk) (u : ℕ) (us : Text)
    → total q + utf8_byte_length (u ∷ us) ≤ m
    → offer m q (u ∷ us) ≡ q ++ queued_chunk (u ∷ us) ∷ []
offer_fits m q u us h =
    let c = queued_chunk (u ∷ us) in
    ground (arith, fit-all m (q ++ c ∷ []), total-append q (c ∷ []))

-- What a connection promises: the log of the input that it took grows by what it accepts, and by
-- nothing else.
pub record IsLog {ℓ} {W : Type ℓ} (send_now : W → ClientMessage → Bool × W) (log : W → List Text)
    : Type ℓ where
  pub took : (w w' : W) (t : Text) → send_input send_now w t ≡ (true, w') → log w' ≡ log w ++ t ∷ []
  pub kept : (w w' : W) (t : Text) → send_input send_now w t ≡ (false, w') → log w' ≡ log w

module _ {ℓ} {W : Type ℓ} (send_now : W → ClientMessage → Bool × W) (log : W → List Text)
    (l : IsLog send_now log) where
  log-Delivers :
      {w w' : W} {taken rest : List OutboxChunk}
      → Delivers (send_input send_now) w taken rest w'
      → log w' ≡ log w ++ texts taken
  log-Delivers {w} drained = sym (append-nil (log w))
  log-Delivers {w} {w'} (refused {c = c} e) = l.kept w w' c.data_ e ∙ sym (append-nil (log w))
  log-Delivers {w} (accepted {w' = v} {c = c} {taken = cs} e d) =
      log-Delivers d
      ∙ ap (λ t. t ++ texts cs) (l.took w v c.data_ e)
      ∙ append_assoc (log w) (c.data_ ∷ []) (texts cs)

  -- All that was typed: what the connection took, and then what waits.
  abbrev pub typed : W → OutboxState → List Text
  typed w o = log w ++ texts (view o)

  typed_flush :
      (w w' : W) (o p : OutboxState) (n : ℕ)
      → Flushed (send_input send_now) w o 0 (n, p, w')
      → typed w' p ≡ typed w o
  typed_flush w w' o p n f =
      ap (λ t. t ++ texts (view p)) (log-Delivers f.delivered)
      ∙ append_assoc (log w) (texts f.taken) (texts (view p))
      ∙ ap (◌++◌ (log w)) (sym (texts-append f.taken (view p)) ∙ ap texts (sym f.in_order))

  typed-enqueue :
      (w : W) (o : OutboxState) (u : ℕ) (us : Text)
      → IsValid o
      → o.bytes + utf8_byte_length (u ∷ us) ≤ outbox_max_bytes
      → typed w (enqueue_outbox outbox_max_bytes o (u ∷ us)) ≡ typed w o ++ (u ∷ us) ∷ []
  typed-enqueue w o u us v h =
      let c = queued_chunk (u ∷ us) in
      let fits : total (view o) + utf8_byte_length (u ∷ us) ≤ outbox_max_bytes =
        omega (arith, v.bytes_exact) in
      ap (λ q. log w ++ texts q)
        (view-enqueue_outbox outbox_max_bytes o (u ∷ us) v
          ∙ offer_fits outbox_max_bytes (view o) u us fits)
      ∙ ap (◌++◌ (log w)) (texts-append (view o) (c ∷ []))
      ∙ sym (append_assoc (log w) (texts (view o)) (texts (c ∷ [])))

  -- A chunk that the connection takes while nothing waits.
  typed-send :
      (w w' : W) (o : OutboxState) (t : Text)
      → IsValid o
      → ltb 0 o.bytes ≡ false
      → send_input send_now w t ≡ (true, w')
      → typed w' o ≡ typed w o ++ t ∷ []
  typed-send w w' o t v h e =
      let empty = ap texts (eq-nil_of_total (view o) v.all_sized (ground (arith, v.bytes_exact))) in
      ap (λ q. log w' ++ q) empty
      ∙ append-nil (log w')
      ∙ l.took w w' t e
      ∙ ap (λ q. q ++ t ∷ []) (sym (ap (◌++◌ (log w)) empty ∙ append-nil (log w)))

  queue_or_send_answer :
      (w w' : W) (o : OutboxState) (t : Text) (b : Bool)
      → ltb 0 o.bytes ≡ false
      → send_input send_now w t ≡ (b, w')
      → queue_or_send send_now o t w ≡ (if b then o else enqueue_outbox outbox_max_bytes o t, w')
  unfolding queue_or_send
  queue_or_send_answer w w' o t b idle e = rw idle (
      ap {B = OutboxState × W} (λ r. (if r.0 then o else enqueue_outbox outbox_max_bytes o t, r.1))
        e)

  abbrev typed_pair : OutboxState × W → List Text
  typed_pair r = typed r.1 r.0

  typed-queue_or_send :
      (w : W) (o : OutboxState) (u : ℕ) (us : Text)
      → IsValid o
      → o.bytes + utf8_byte_length (u ∷ us) ≤ outbox_max_bytes
      → typed_pair (queue_or_send send_now o (u ∷ us) w) ≡ typed w o ++ (u ∷ us) ∷ []
  typed-queue_or_send w o u us v h = elim (Bool-cases (ltb 0 o.bytes)) [
    | inl waiting ↦ unfold queue_or_send in rw waiting (typed-enqueue w o u us v h)
    | inr idle ↦ elim (answer_cases (send_input send_now w (u ∷ us))) [
      | inl (w', e) ↦
          ap typed_pair (queue_or_send_answer w w' o (u ∷ us) false idle e)
          ∙ typed-enqueue w' o u us v h
          ∙ ap (λ q. (q ++ texts (view o)) ++ (u ∷ us) ∷ []) (l.kept w w' (u ∷ us) e)
      | inr (w', e) ↦
          ap typed_pair (queue_or_send_answer w w' o (u ∷ us) true idle e)
          ∙ typed-send w w' o (u ∷ us) v idle e
    ]
  ]

  -- In the mode `control`, input that fits beside the input that waits is neither lost, repeated nor
  -- overtaken, if the queue is well formed: what the connection has taken, followed by what waits,
  -- is the same before and after it but for the new text at the end, whichever of the sends the
  -- connection accepts.
  pub handle_runtime_input_in_order :
      (w : W) (s : Backpressure) (u : ℕ) (us : Text)
      → IsValid s.outbox
      → s.outbox.bytes + utf8_byte_length (u ∷ us) ≤ outbox_max_bytes
      → let (s', w') = handle_runtime_input send_now control (u ∷ us) w s in
        typed w' s'.outbox ≡ typed w s.outbox ++ (u ∷ us) ∷ []
  unfolding handle_runtime_input
  handle_runtime_input_in_order w s u us v h =
      let f = flush_outbox-Flushed (send_input send_now) w s.outbox v in
      let (n, o, w') = flush_outbox (send_input send_now) w s.outbox in
      typed-queue_or_send w' o u us f.valid (omega (arith, f.conserved))
      ∙ ap (λ q. q ++ (u ∷ us) ∷ []) (typed_flush w w' s.outbox o n f)
