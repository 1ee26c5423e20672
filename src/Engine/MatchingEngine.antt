-- ===== src/Engine/MatchingEngine.antt =====
-- `class MatchingEngine` of common/engine/matching_engine.hpp and .cpp, over the loops of `Match`.
pub mod Sides
pub mod Add
pub mod Cancel
pub mod Invariant
pub mod Apart
pub mod Refinement
pub mod MidPrice
pub mod Trades
pub mod Entries
pub mod Bounds
pub mod Index
pub mod Ownership
pub mod Tests
use toy_exchange.Base.{[], ◌∷◌, ◌++◌, Option, none, some, if◌then◌else◌, not}
use toy_exchange.Base.Int.{ℤ, pos, ltb_ℤ, ◌==ℤ◌, ◌+ℤ◌, half}
use toy_exchange.Core.Types.{Side, buy, sell, Trade, OrderAdd, OrderCancel}
use toy_exchange.Core.Seqlock.{Seqlock, store}
use toy_exchange.Engine.FlatMap
use toy_exchange.Engine.Book.{RestingOrder, OrderLocation, Book, before, erase_from_book}
use toy_exchange.Engine.Match.{OrderMap, match_book}

pub record MatchingEngine (m : OrderMap) : Type 0 where
  pub bids : Book
  pub asks : Book
  pub order_index : m.Table
  pub mid_price : Seqlock (Option ℤ)

abbrev pub opposite : Side → Side
opposite buy = sell
opposite sell = buy

module _ (m : OrderMap) where
  -- A `MatchingEngine` as it is constructed.
  abbrev pub new_engine : MatchingEngine m
  new_engine = record {
    bids = [];
    asks = [];
    order_index = m.empty;
    mid_price = record { sequence = 0; value = none };
  }

  abbrev pub side_book : Side → MatchingEngine m → Book
  side_book buy e = e.bids
  side_book sell e = e.asks

  abbrev pub set_side_book : Side → Book → MatchingEngine m → MatchingEngine m
  set_side_book buy book e = record e { bids = book }
  set_side_book sell book e = record e { asks = book }

  unfoldable pub rest_order : MatchingEngine m → OrderAdd → ℤ → MatchingEngine m
  unfolding FlatMap.modify
  rest_order e order remaining =
      let resting : RestingOrder = record {
        order_id = order.order_id;
        user_id = order.user_id;
        volume = remaining;
      } in
      let location : OrderLocation = record {
        side = order.side;
        price = order.price;
        user_id = order.user_id;
      } in
      let book =
        FlatMap.modify (before order.side) order.price [] (λ level. level ++ (resting ∷ []))
          (side_book order.side e) in
      record (set_side_book order.side book e) {
        order_index = m.put order.order_id location e.order_index;
      }

  -- `value / 2` on the sum of the best prices, the best price of the only side, or no store.
  unfoldable pub update_mid_price : MatchingEngine m → MatchingEngine m
  unfolding store
  update_mid_price e = elim e.bids [
    | [] ↦ elim e.asks [
      | [] ↦ e
      | (ask, _) ∷ _ ↦ record e { mid_price = store (some ask) e.mid_price }
    ]
    | (bid, _) ∷ _ ↦ elim e.asks [
      | [] ↦ record e { mid_price = store (some bid) e.mid_price }
      | (ask, _) ∷ _ ↦ record e { mid_price = store (some (half (bid +ℤ ask))) e.mid_price }
    ]
  ]

  -- The engine after `OnOrderAdd`, and the handler's state after the trades.
  unfoldable pub on_order_add :
      {H : Type 0} → (H → Trade → H) → MatchingEngine m → OrderAdd → H → MatchingEngine m × H
  unfolding match_book rest_order update_mid_price
  on_order_add on_trade e order h =
      let other = opposite order.side in
      let s = match_book m on_trade order (record {
        remaining = order.volume;
        book = side_book other e;
        order_index = e.order_index;
        handled = h;
      }) in
      let matched : MatchingEngine m = record (set_side_book other s.book e) {
        order_index = s.order_index;
      } in
      let rested =
        if ltb_ℤ (pos 0) s.remaining then rest_order matched order s.remaining else matched in
      (update_mid_price rested, s.handled)

  unfoldable pub on_order_cancel : MatchingEngine m → OrderCancel → MatchingEngine m
  unfolding erase_from_book update_mid_price
  on_order_cancel e cancel = elim (m.find cancel.order_id e.order_index) [
    | none ↦ e
    | some location ↦
        if not (location.user_id ==ℤ cancel.user_id)
        then e
        else (let book =
              erase_from_book location.side (side_book location.side e) location.price
                cancel.order_id in
            update_mid_price (record (set_side_book location.side book e) {
              order_index = m.erase cancel.order_id e.order_index;
            }))
  ]

  unfoldable pub mid_price : MatchingEngine m → Option ℤ
  mid_price e = e.mid_price.value
