-- ===== src/Engine/Match.antt =====
-- `MatchingEngine::Match` of common/engine/matching_engine.hpp. The table of the order ids and the
-- trade handler are parameters; the handler acts on a state `H` of its caller. The fuel is the
-- number of orders of the level for the inner loop, and of levels of the book for the outer one.
pub mod Fills
pub mod Loops
pub mod Priority
pub mod Conservation
pub mod Shape
pub mod Index
pub mod IndexMoves
use toy_exchange.Base.{[], ◌∷◌, Bool, false, ◌&&◌, not, if◌then◌else◌, is_empty, length, while}
use toy_exchange.Base.Int.{ℤ, pos, ltb_ℤ, leb_ℤ, ◌==ℤ◌, ◌-ℤ◌, min_ℤ}
use toy_exchange.Core.Types.{Side, buy, sell, Trade, OrderAdd}
use toy_exchange.Extern.UnorderedMap.{UnorderedMap}
use toy_exchange.Engine.Book.{RestingOrder, OrderLocation, PriceLevel, Book}

abbrev pub OrderMap : Type 1
OrderMap = UnorderedMap ℤ OrderLocation

-- The variables of the inner loop of `Match`, which fills the order against one price level.
pub record LevelLoop (m : OrderMap) (H : Type 0) : Type 0 where
  pub remaining : ℤ
  pub level : PriceLevel
  pub order_index : m.Table
  pub handled : H

-- The variables of the outer loop of `Match`, over the price levels.
pub record BookLoop (m : OrderMap) (H : Type 0) : Type 0 where
  pub remaining : ℤ
  pub book : Book
  pub order_index : m.Table
  pub handled : H

abbrev pub trade_of : OrderAdd → ℤ → RestingOrder → ℤ → Trade
trade_of incoming price resting traded = record {
  maker_id = resting.user_id;
  taker_id = incoming.user_id;
  maker_order_id = resting.order_id;
  taker_order_id = incoming.order_id;
  ticker = incoming.ticker;
  taker_side = incoming.side;
  execution_price = price;
  volume = traded;
}

-- `priceCrosses` of `OnOrderAdd`, for the side of the incoming order.
abbrev pub price_crosses : Side → ℤ → ℤ → Bool
price_crosses buy buy_price ask_price = leb_ℤ ask_price buy_price
price_crosses sell sell_price bid_price = leb_ℤ sell_price bid_price

module _ (m : OrderMap) {H : Type 0} (on_trade : H → Trade → H) (incoming : OrderAdd) where
  abbrev pub level_test : LevelLoop m H → Bool
  level_test s = ltb_ℤ (pos 0) s.remaining && not (is_empty s.level)

  -- One fill against the front order of the level.
  unfoldable pub fill_front : ℤ → LevelLoop m H → LevelLoop m H
  fill_front price s = elim s.level [
    | [] ↦ s
    | resting ∷ rest ↦
        let traded = min_ℤ s.remaining resting.volume in
        let left = resting.volume -ℤ traded in
        let handled = on_trade s.handled (trade_of incoming price resting traded) in
        let filled = left ==ℤ pos 0 in
        record {
          remaining = s.remaining -ℤ traded;
          level = if filled then rest else record resting { volume = left } ∷ rest;
          order_index = if filled then m.erase resting.order_id s.order_index else s.order_index;
          handled = handled;
        }
  ]

  -- The loop's own test and the `break` on a price that does not cross.
  abbrev pub book_test : BookLoop m H → Bool
  book_test s = elim s.book [
    | [] ↦ false
    | (price, level) ∷ rest ↦
        ltb_ℤ (pos 0) s.remaining && price_crosses incoming.side incoming.price price
  ]

  -- The best level is filled, and erased once it is empty.
  unfoldable pub fill_best : BookLoop m H → BookLoop m H
  unfolding fill_front while
  fill_best s = elim s.book [
    | [] ↦ s
    | (price, level) ∷ rest ↦
        let t = while level_test (fill_front price) (length level) (record {
          remaining = s.remaining;
          level = level;
          order_index = s.order_index;
          handled = s.handled;
        }) in
        record {
          remaining = t.remaining;
          book = if is_empty t.level then rest else (price, t.level) ∷ rest;
          order_index = t.order_index;
          handled = t.handled;
        }
  ]

  unfoldable pub match_book : BookLoop m H → BookLoop m H
  unfolding fill_best while
  match_book s = while book_test fill_best (length s.book) s
