-- ===== src/Workers/MatchingEngine.antt =====
-- `RunMatchingEngineThread` of common/workers/matching_engine_thread.cpp: what it pushes to its two
-- queues for the commands it pops, in order. `PushBlocking` waits for room, so no push is lost.
pub mod Events
pub mod Projection
pub mod Resting
pub mod Pushes
pub mod Tests
use toy_exchange.Base.{List, [], ◌∷◌, ◌++◌}
use toy_exchange.Core.Types.{Trade, InboundCommand, add, cancel}
use toy_exchange.Engine.Match.{OrderMap}
use toy_exchange.Engine.Router.{Router, on_order_add, on_order_cancel}
use toy_exchange.Net.Wire.{
  WireMarketDataMessage, encode_order_add_event, encode_order_cancel_event, encode_trade_event,
}

-- All that was pushed to the queue of market data and to the queue of trades.
pub record Output : Type 0 where
  pub market_data : List WireMarketDataMessage
  pub trades : List Trade

abbrev pub push_event : Output → WireMarketDataMessage → Output
push_event out event = record out { market_data = out.market_data ++ event ∷ [] }

-- The handler that the thread hands to `OnOrderAdd`.
abbrev pub push_trade : Output → Trade → Output
push_trade out trade = record {
  market_data = out.market_data ++ encode_trade_event trade ∷ [];
  trades = out.trades ++ trade ∷ [];
}

module _ (m : OrderMap) where
  -- The rest of the loop's body after a `pop` that succeeds.
  unfoldable pub handle : Router m → Output → InboundCommand → Router m × Output
  unfolding on_order_add on_order_cancel
  handle r out (add order) =
      on_order_add m push_trade r order (push_event out (encode_order_add_event order))
  handle r out (cancel c) = (on_order_cancel m r c, push_event out (encode_order_cancel_event c))

  -- The loop, for the commands it pops before it stops.
  unfoldable pub run_matching_engine : Router m → Output → List InboundCommand → Router m × Output
  run_matching_engine r out [] = (r, out)
  run_matching_engine r out (c ∷ cs) =
      let (r', out') = handle r out c in run_matching_engine r' out' cs
