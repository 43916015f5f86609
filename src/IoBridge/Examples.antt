-- ===== src/IoBridge/Examples.antt =====
-- A session that is displayed.
use wootty.Base.{ℕ, suc, ◌≡◌, Bool, false, List, [], ◌∷◌, codes}
use wootty.Protocol.ClientMessages.{ClientMessage}
use wootty.Backpressure.{control, initial_backpressure}
use wootty.IoBridge.Counting.{
  BridgeCall, outputs, exits, is_ready, boots, types, calls, bytes_since_reset,
  output_bytes_since_reset,
}

-- A connection that refuses everything, and counts.
abbrev refuse : ℕ → ClientMessage → Bool × ℕ
refuse n message = (false, suc n)

abbrev evening : List BridgeCall
evening =
    outputs (codes "lost")
    ∷ boots
    ∷ outputs (codes "old")
    ∷ is_ready control false
    ∷ outputs (codes "$ ")
    ∷ types control (codes "l")
    ∷ outputs (codes "ls")
    ∷ exits 0 9
    ∷ []

output_bytes_since_reset_example :
    let (b, _) = calls refuse evening (
      record {
        backpressure = initial_backpressure;
        output_bytes = 0;
        has_terminal = false;
        written = [];
      },
      0,
    ) in
    b.output_bytes ≡ bytes_since_reset b.written
output_bytes_since_reset_example = output_bytes_since_reset refuse evening initial_backpressure 0
