-- ===== src/Protocol/ClientMessages.antt =====
-- Messages of the client (apps/web/src/features/terminal/protocol/terminal-client-messages.ts).
use wootty.Base.{
  ℕ, ◌≤◌, ◌≡◌, Bool, Option, Text, Number, whole, fractional, negative, not_finite, min, max, arith,
}

abbrev pub wire_contract_version : ℕ
wire_contract_version = 1

abbrev pub dimension_min : ℕ
dimension_min = 1

abbrev pub dimension_max : ℕ
dimension_max = 2000

pub data ClientMessage : Type 0 where
  attach : (version cols rows : ℕ) → Option Text → Option Bool → ClientMessage
  input : Text → ClientMessage
  resize : (cols rows : ℕ) → ClientMessage
  ping : ClientMessage
  rename : Text → ClientMessage

-- `Math.floor` of a value below 0 is below 0, so the lower bound takes its place.
normalize_terminal_dimension : Number → ℕ
normalize_terminal_dimension (whole n) = min dimension_max (max dimension_min n)
normalize_terminal_dimension (fractional n) = min dimension_max (max dimension_min n)
normalize_terminal_dimension negative = min dimension_max dimension_min
normalize_terminal_dimension not_finite = dimension_min

normalize_terminal_size : Number → Number → ℕ × ℕ
normalize_terminal_size cols rows =
    (normalize_terminal_dimension cols, normalize_terminal_dimension rows)

unfoldable pub create_attach_message : Number → Number → Option Text → Option Bool → ClientMessage
unfolding normalize_terminal_size normalize_terminal_dimension
create_attach_message cols rows session_id watch =
    let (c, r) = normalize_terminal_size cols rows in
    attach wire_contract_version c r session_id watch

unfoldable pub create_input_message : Text → ClientMessage
create_input_message data_ = input data_

unfoldable pub create_resize_message : Number → Number → ClientMessage
unfolding normalize_terminal_size normalize_terminal_dimension
create_resize_message cols rows = let (c, r) = normalize_terminal_size cols rows in resize c r

unfoldable pub create_ping_message : ClientMessage
create_ping_message = ping

unfoldable pub create_rename_message : Text → ClientMessage
create_rename_message name = rename name

-- What the server accepts as a terminal size.
abbrev pub HasValidSize : ClientMessage → Type 0
HasValidSize (attach version c r id watch) =
    (version ≡ wire_contract_version) × (1 ≤ c) × (c ≤ 2000) × (1 ≤ r) × (r ≤ 2000)
HasValidSize (input s) = Unit
HasValidSize (resize c r) = (1 ≤ c) × (c ≤ 2000) × (1 ≤ r) × (r ≤ 2000)
HasValidSize ping = Unit
HasValidSize (rename s) = Unit

normalize_terminal_dimension_bounds :
    (value : Number)
    → (1 ≤ normalize_terminal_dimension value) × (normalize_terminal_dimension value ≤ 2000)
unfolding normalize_terminal_dimension
normalize_terminal_dimension_bounds (whole n) = omega arith
normalize_terminal_dimension_bounds (fractional n) = omega arith
normalize_terminal_dimension_bounds negative = omega arith
normalize_terminal_dimension_bounds not_finite = omega arith

-- Whatever size the terminal reports, not finite and below 0 included, an attach message and a
-- resize message carry columns and rows from 1 to 2000, and an attach message this version.
create_messages-HasValidSize :
    (cols rows : Number) (session_id : Option Text) (watch : Option Bool)
    → HasValidSize (create_attach_message cols rows session_id watch)
      × HasValidSize (create_resize_message cols rows)
unfolding create_attach_message create_resize_message
create_messages-HasValidSize cols rows session_id watch =
    omega
      (arith, normalize_terminal_dimension_bounds cols, normalize_terminal_dimension_bounds rows)
