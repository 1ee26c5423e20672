-- ===== src/Workers/Inventory/Tests.antt =====
-- The theorems on settlement for two users and one trade, with integers for the doubles.
use toy_exchange.Base.{◌≡◌, ◌↔◌, ◌⊎◌, [], ◌∷◌, none, some, arith, length}
use toy_exchange.Base.Int.{ℤ, pos, negsuc, ◌+ℤ◌, ◌-ℤ◌, ◌<ℤ◌}
use toy_exchange.Core.Types.{buy, sell, Trade}
use toy_exchange.Core.Tickers.{same_ticker_iff}
use toy_exchange.Core.Types.{same_ticker, Ticker}
use toy_exchange.Extern.AssocMap.{assoc_map, assoc_map-IsMap}
use toy_exchange.Extern.UnorderedMap.{IsMap}
use toy_exchange.Extern.Double.{Double}
use toy_exchange.Engine.User.{Inventory, Holding, fill_holding, to_usd}
use toy_exchange.Engine.User.Cost.{sold, fill_holding-long, bought, fill_holding-short}
use toy_exchange.Engine.UserRegistry.{UserRegistry}
use toy_exchange.Engine.MatchingEngine.Tests.{aapl}
use toy_exchange.Workers.Inventory.{settle}
use toy_exchange.Workers.Inventory.Settlement.{
  total_position, settle-total_position, settle-unknown_user, IsStranger,
}

abbrev pub double : Double ℤ
double = record {
  zero_usd = pos 0;
  of_int = λ a. a;
  add = λ a b. a +ℤ b;
  sub = λ a b. a -ℤ b;
  mul = λ a b. a;
  div = λ a b. a;
  llround = λ a. a;
}

abbrev pub inventory : Inventory ℤ
inventory = assoc_map same_ticker

pub inventory-IsMap : IsMap inventory
inventory-IsMap = assoc_map-IsMap same_ticker same_ticker_iff

abbrev two_users : UserRegistry inventory
two_users = record { id = pos 0; inventory = [] } ∷ record { id = pos 1; inventory = [] } ∷ []

abbrev one_trade : Trade
one_trade = record {
  maker_id = pos 0;
  taker_id = pos 1;
  maker_order_id = pos 5;
  taker_order_id = pos 6;
  ticker = aapl;
  taker_side = buy;
  execution_price = pos 101;
  volume = pos 10;
}

abbrev goog : Ticker
goog = b'G' ∷ b'O' ∷ b'O' ∷ b'G' ∷ []

one_trade_settled :
    (us' : UserRegistry inventory) × (settle double inventory two_users one_trade (some (pos 100))
      ≡ some us')
    × (length us' ≡ 2)
    × (total_position double inventory us' aapl ≡ total_position double inventory two_users aapl)
one_trade_settled =
    settle-total_position double inventory inventory-IsMap two_users one_trade (some (pos 100)) aapl
      (omega arith, omega arith)

-- Its taker is user -1.
abbrev stray_trade : Trade
stray_trade = record one_trade { taker_id = negsuc 0 }

settle-unknown_user_example :
    (settle double inventory two_users stray_trade none ≡ none)
    ↔ (IsStranger 2 stray_trade.maker_id ⊎ IsStranger 2 stray_trade.taker_id)
settle-unknown_user_example =
    settle-unknown_user double inventory two_users stray_trade none (omega arith)
      (omega arith, omega arith) (omega arith, omega arith)

abbrev long_5 : Holding ℤ
long_5 = record { volume = pos 5; avg_cost = pos 100; realized_pnl = pos 0; unrealized_pnl = pos 0 }

fill_holding-long_example :
    (pos 8 <ℤ pos 5
      → fill_holding double long_5 sell (pos 101) (pos 8)
        ≡ sold double long_5 (pos 101) (pos 8) (pos 8) (pos 100))
    × (pos 8 ≡ pos 5
        → fill_holding double long_5 sell (pos 101) (pos 8)
          ≡ sold double long_5 (pos 101) (pos 8) (pos 5) (pos 0))
    × (pos 5 <ℤ pos 8
        → fill_holding double long_5 sell (pos 101) (pos 8)
          ≡ sold double long_5 (pos 101) (pos 8) (pos 5) (to_usd double (pos 101)))
fill_holding-long_example =
    fill_holding-long double long_5 (pos 101) (pos 8) (omega arith) (omega arith)

abbrev short_5 : Holding ℤ
short_5 = record long_5 { volume = negsuc 4 }

fill_holding-short_example :
    (pos 8 <ℤ pos 5
      → fill_holding double short_5 buy (pos 90) (pos 8)
        ≡ bought double short_5 (pos 90) (pos 8) (pos 8) (pos 100))
    × (pos 8 ≡ pos 5
        → fill_holding double short_5 buy (pos 90) (pos 8)
          ≡ bought double short_5 (pos 90) (pos 8) (pos 8) (pos 0))
    × (pos 5 <ℤ pos 8
        → fill_holding double short_5 buy (pos 90) (pos 8)
          ≡ bought double short_5 (pos 90) (pos 8) (pos 5) (to_usd double (pos 90)))
unfolding ◌-ℤ◌
fill_holding-short_example =
    fill_holding-short double short_5 (pos 90) (pos 8) (omega arith) (omega arith)
