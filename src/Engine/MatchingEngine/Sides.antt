-- ===== src/Engine/MatchingEngine/Sides.antt =====
-- The two sides of an engine, named by the side of an order, and what `UpdateMidPrice` leaves
-- alone.
use toy_exchange.Base.{◌≡◌, refl, arith}
use toy_exchange.Core.Types.{Side, buy, sell}
use toy_exchange.Engine.Book.{Book}
use toy_exchange.Engine.Match.{OrderMap}
use toy_exchange.Engine.MatchingEngine.{
  MatchingEngine, opposite, side_book, set_side_book, update_mid_price,
}

module _ (m : OrderMap) where
  pub side_book-after_match :
      (s : Side) (book : Book) (index : m.Table) (e : MatchingEngine m)
      → side_book m s (record (set_side_book m (opposite s) book e) { order_index = index })
        ≡ side_book m s e
  side_book-after_match buy book index e = refl
  side_book-after_match sell book index e = refl

  pub side_book-update_mid_price :
      (s : Side) (e : MatchingEngine m) → side_book m s (update_mid_price m e) ≡ side_book m s e
  unfolding update_mid_price
  side_book-update_mid_price buy e = ground arith
  side_book-update_mid_price sell e = ground arith

  pub order_index-update_mid_price :
      (e : MatchingEngine m) → (update_mid_price m e).order_index ≡ e.order_index
  unfolding update_mid_price
  order_index-update_mid_price e = ground arith
