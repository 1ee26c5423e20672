-- ===== src/Engine/MatchingEngine/Add.antt =====
-- `OnOrderAdd` as a filling of the other side, a resting of what is left, and a new mid price.
use toy_exchange.Base.{◌≡◌, foldl, if◌then◌else◌}
use toy_exchange.Base.Int.{pos, ltb_ℤ}
use toy_exchange.Core.Types.{Trade, OrderAdd}
use toy_exchange.Engine.Match.{OrderMap, price_crosses}
use toy_exchange.Engine.Match.Fills.{BookFills, fill_book}
use toy_exchange.Engine.Match.Loops.{unindex, report, match_book-fill_book}
use toy_exchange.Engine.MatchingEngine.{
  MatchingEngine, opposite, side_book, set_side_book, rest_order, update_mid_price, on_order_add,
}

module _ (m : OrderMap) (e : MatchingEngine m) (order : OrderAdd) where
  -- The fills of the order against the other side.
  abbrev pub filling : BookFills
  filling =
      fill_book (price_crosses order.side order.price) order.volume
        (side_book m (opposite order.side) e)

  abbrev pub after_match : MatchingEngine m
  after_match = record (set_side_book m (opposite order.side) filling.book e) {
    order_index = foldl (unindex m) e.order_index filling.fills;
  }

  abbrev pub after_rest : MatchingEngine m
  after_rest =
      if ltb_ℤ (pos 0) filling.left
      then rest_order m after_match order filling.left
      else after_match

  pub on_order_add-fill_book :
      {H : Type 0} (on_trade : H → Trade → H) (h : H)
      → on_order_add m on_trade e order h
        ≡ (update_mid_price m after_rest, foldl (report on_trade order) h filling.fills)
  unfolding on_order_add
  on_order_add-fill_book on_trade h = rw (
      match_book-fill_book m on_trade order (side_book m (opposite order.side) e) order.volume
        e.order_index h)
