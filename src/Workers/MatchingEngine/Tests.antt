-- ===== src/Workers/MatchingEngine/Tests.antt =====
-- The theorems on the thread for a sell, a buy that meets it, and a cancel.
use toy_exchange.Base.{some, ◌≡◌, refl, List, [], ◌∷◌, map}
use toy_exchange.Base.Int.{ℤ, pos, ◌+ℤ◌, ◌-ℤ◌}
use toy_exchange.Core.Types.{buy, sell, InboundCommand, add, cancel}
use toy_exchange.Engine.MatchingEngine.Tests.{order_map, aapl, make_order, make_cancel}
use toy_exchange.Engine.Router.{new_router}
use toy_exchange.Engine.Router.Invariant.{AllValid}
use toy_exchange.Engine.Router.Tests.{new_router-AllValid}
use toy_exchange.Workers.MatchingEngine.{Output, handle, run_matching_engine}
use toy_exchange.Workers.MatchingEngine.Events.{run_events, run_trades, run_matching_engine-output}
use toy_exchange.Engine.MatchingEngine.{new_engine}
use toy_exchange.Engine.Router.{ticker_index}
use toy_exchange.Engine.Router.Isolation.{engine_of}
use toy_exchange.Workers.MatchingEngine.Projection.{
  run_engine, commands_for, trades_for, run_matching_engine-run_engine,
}

abbrev pub commands : List InboundCommand
commands =
    add (make_order (pos 1) (pos 1) sell (pos 101) (pos 10))
    ∷ add (make_order (pos 2) (pos 2) buy (pos 102) (pos 15))
    ∷ cancel (make_cancel (pos 2) (pos 2))
    ∷ []

abbrev no_output : Output
no_output = record { market_data = []; trades = [] }

run_matching_engine-output_example :
    let r = new_router order_map in
    let (r', out') = run_matching_engine order_map r no_output commands in
    (out'.market_data ≡ run_events order_map r no_output commands)
    × (out'.trades ≡ run_trades order_map r no_output commands)
    × AllValid order_map r'
run_matching_engine-output_example =
    run_matching_engine-output order_map (new_router order_map) no_output commands
      new_router-AllValid

-- The run makes one trade, of 10 shares at 101.
one_trade_made :
    map {B = ℤ × ℤ}
      (λ t. (t.execution_price, t.volume))
      (run_matching_engine order_map (new_router order_map) no_output commands).1.trades
    ≡ (pos 101, pos 10) ∷ []
unfolding run_matching_engine handle ◌+ℤ◌ ◌-ℤ◌
one_trade_made = refl

run_matching_engine-run_engine_example :
    let r = new_router order_map in
    let (r', out') = run_matching_engine order_map r no_output commands in
    let (e', ts') = run_engine order_map (new_engine order_map, []) (commands_for aapl commands) in
    (engine_of order_map r' aapl ≡ some e') × (trades_for aapl out'.trades ≡ ts')
unfolding ticker_index
run_matching_engine-run_engine_example =
    run_matching_engine-run_engine order_map aapl (new_router order_map) no_output commands
      (new_engine order_map) refl new_router-AllValid refl
