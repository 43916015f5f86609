-- ===== src/Transport/Browser.antt =====
-- What the transport uses of the browser: sockets (`TerminalTransport` of
-- apps/web/src/features/terminal/contracts/transport/transport.ts), over a state `N` that they
-- change, and text functions with a table behind them.
use wootty.Base.{ℕ, Option, Text}
use wootty.Protocol.ClientMessages.{ClientMessage}

-- What a call throws: the message of an `Error`, or nothing to read.
abbrev pub Thrown : Type 0
Thrown = Option Text

pub data Created : Type 0 where
  socket : ℕ → Created
  threw : Thrown → Created

pub record Browser (N : Type 0) : Type 0 where
  pub create_transport : Text → N → Created × N
  -- CONNECTING 0, OPEN 1, CLOSING 2, CLOSED 3
  pub ready_state : N → ℕ → ℕ
  -- `none` where `send(JSON.stringify(payload))` returns
  pub send : ℕ → ClientMessage → N → Option Thrown × N
  pub close : ℕ → ℕ → Text → N → N
  pub to_lower_case : Text → Text

abbrev pub ready_state_open : ℕ
ready_state_open = 1

abbrev pub ready_state_closing : ℕ
ready_state_closing = 2
