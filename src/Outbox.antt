-- ===== src/Outbox.antt =====
-- The bounded queue of terminal input that waits for the connection
-- (apps/web/src/features/terminal/lib/terminal-outbox.ts), and the size of a text in UTF-8
-- (lib/terminal-format.ts). A method that changes the outbox returns the new record. `bytes` is a
-- natural number: the outbox is only built by these functions, and for what they build no
-- subtraction goes below 0 (`Outbox.Evict`, `Outbox.Flush`).
pub mod View
pub mod Evict
pub mod Enqueue
pub mod Flush
mod Rounds
mod Examples
use wootty.Base.{
  ℕ, zero, suc, ◌+◌, ◌-◌, ◌*◌, Bool, true, false, ◌&&◌, ◌||◌, not, List, [], ◌∷◌, ◌++◌, Option,
  none, some, Text, ltb, leb, ◌==◌, if◌then◌else◌, length, get_elem?, drop,
}

abbrev is_high_surrogate : ℕ → Bool
is_high_surrogate c = leb 0xd800 c && ltb c 0xdc00

abbrev is_low_surrogate : ℕ → Bool
is_low_surrogate c = leb 0xdc00 c && ltb c 0xe000

-- The bytes that a code unit adds. A surrogate counts 3 bytes (U+FFFD) where it stands alone; the
-- second half of a pair adds the one byte that makes 4.
pub unit_bytes : Bool → ℕ → ℕ
unit_bytes after_high c =
    if ltb c 0x80
    then 1
    else if ltb c 0x800
    then 2
    else if after_high && is_low_surrogate c
    then 1
    else 3

pub encoded_length : Bool → Text → ℕ
encoded_length after_high [] = 0
encoded_length after_high (c ∷ s) = unit_bytes after_high c + encoded_length (is_high_surrogate c) s

-- `textEncoder.encode(value).length`.
unfoldable pub utf8_byte_length : Text → ℕ
unfolding encoded_length unit_bytes
utf8_byte_length value = encoded_length false value

pub record OutboxChunk : Type 0 where
  pub data_ : Text
  pub bytes : ℕ

pub record OutboxState : Type 0 where
  pub chunks : List OutboxChunk
  pub head : ℕ
  pub bytes : ℕ
  pub dropped_bytes : ℕ

abbrev pub outbox_max_bytes : ℕ
outbox_max_bytes = 524_288

unfoldable pub create_outbox : OutboxState
create_outbox = record { chunks = []; head = 0; bytes = 0; dropped_bytes = 0 }

pub compact_outbox : OutboxState → OutboxState
compact_outbox o =
    if o.head == 0
    then o
    else if leb (length o.chunks) o.head
    then record o { chunks = []; head = 0 }
    else if ltb o.head 128 && ltb (o.head * 2) (length o.chunks)
    then o
    else record o { chunks = drop o.head o.chunks; head = 0 }

pub drop_head : OutboxState → OutboxChunk → OutboxState
drop_head o removed = record o {
  head = o.head + 1;
  bytes = o.bytes - removed.bytes;
  dropped_bytes = o.dropped_bytes + removed.bytes;
}

-- The `while` loop of `enqueueOutbox`. The fuel bounds its rounds.
pub evict : ℕ → ℕ → OutboxState → OutboxState
evict zero max_bytes o = o
evict (suc fuel) max_bytes o = elim (ltb max_bytes o.bytes && ltb o.head (length o.chunks)) [
  | false ↦ o
  | true ↦ elim (get_elem? o.chunks o.head) [
    | none ↦ record o { head = o.head + 1 }
    | some removed ↦ evict fuel max_bytes (drop_head o removed)
  ]
]

pub push_chunk : OutboxState → OutboxChunk → OutboxState
push_chunk o c = record o { chunks = o.chunks ++ c ∷ []; bytes = o.bytes + c.bytes }

abbrev pub queued_chunk : Text → OutboxChunk
queued_chunk chunk = record { data_ = chunk; bytes = utf8_byte_length chunk }

pub store_chunk : ℕ → OutboxState → OutboxChunk → OutboxState
store_chunk max_bytes o c =
    if ltb max_bytes c.bytes
    then record o { dropped_bytes = o.dropped_bytes + c.bytes }
    else let p = push_chunk o c in compact_outbox (evict (length p.chunks) max_bytes p)

unfoldable pub enqueue_outbox : ℕ → OutboxState → Text → OutboxState
unfolding store_chunk push_chunk compact_outbox evict drop_head
enqueue_outbox max_bytes o [] = o
enqueue_outbox max_bytes o (u ∷ us) = store_chunk max_bytes o (queued_chunk (u ∷ us))

pub accept_head : OutboxState → OutboxChunk → OutboxState
accept_head o c = record o { head = o.head + 1; bytes = o.bytes - c.bytes }

-- `send` is a callback: it answers whether it took the chunk, and changes the state `W` it runs in.
module _ {ℓ} {W : Type ℓ} (send : W → Text → Bool × W) where
  -- The `while` loop of `flushOutbox`, with the bytes sent so far.
  pub flush_loop : ℕ → W → OutboxState → ℕ → ℕ × OutboxState × W
  flush_loop zero w o sent = (sent, o, w)
  flush_loop (suc fuel) w o sent = elim (get_elem? o.chunks o.head) [
    | none ↦ (sent, o, w)
    | some c ↦
        let (delivered, w') = send w c.data_ in
        elim delivered [
          | false ↦ (sent, o, w')
          | true ↦ flush_loop fuel w' (accept_head o c) (sent + c.bytes)
        ]
  ]

  -- The bytes sent, and the outbox after it. `Math.max(0, outbox.bytes)` is what `-` does here.
  unfoldable pub flush_outbox : W → OutboxState → ℕ × OutboxState × W
  unfolding flush_loop compact_outbox accept_head
  flush_outbox w o =
      let (sent, o', w') = flush_loop (length o.chunks) w o 0 in (sent, compact_outbox o', w')

unfoldable pub reset_outbox : OutboxState → OutboxState
reset_outbox o = record { chunks = []; head = 0; bytes = 0; dropped_bytes = 0 }
