-- ===== src/Net/Publisher.antt =====
-- `Run` of common/net/market_data_publisher.cpp, over the messages that it pops and what its calls
-- of `sendto` return.
pub mod Datagrams
pub mod Socket
mod Tests
use toy_exchange.Base.{ℕ, List, [], ◌∷◌, ◌++◌, Bool, if◌then◌else◌}
use toy_exchange.Net.Wire.{WireMarketDataMessage}
use toy_exchange.Net.Wire.Bytes.{bytes_of_message}

-- A message that was popped, the bytes of its union behind the member that is set, and whether
-- `sendto` returned a length.
pub record Popped : Type 0 where
  pub msg : WireMarketDataMessage
  pub padding : List ℕ
  pub was_sent : Bool

-- The datagrams so far; a failure of `sendto` is only logged.
unfoldable pub send_message : List (List ℕ) → Popped → List (List ℕ)
send_message datagrams p =
    if p.was_sent then datagrams ++ bytes_of_message p.msg p.padding ∷ [] else datagrams

-- The loop of `Run` from the first message popped to the last.
unfoldable pub run_publisher : List (List ℕ) → List Popped → List (List ℕ)
run_publisher datagrams [] = datagrams
run_publisher datagrams (p ∷ ps) = run_publisher (send_message datagrams p) ps
