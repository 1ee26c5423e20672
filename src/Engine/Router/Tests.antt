-- ===== src/Engine/Router/Tests.antt =====
-- The theorems on the router at the router that the program starts with.
use toy_exchange.Base.{◌≡◌, ◌≢◌, refl, false, [], ◌∷◌, none, All}
use toy_exchange.Base.Int.{pos}
use toy_exchange.Core.Tickers.{tickers_differ}
use toy_exchange.Core.Types.{same_ticker, Ticker, sell, OrderAdd, OrderCancel, instruments}
use toy_exchange.Engine.MatchingEngine.Invariant.{new_engine-IsValid}
use toy_exchange.Engine.MatchingEngine.Tests.{order_map, make_order}
use toy_exchange.Engine.MatchingEngine.Trades.{collect}
use toy_exchange.Engine.Router.{new_router, on_order_add, on_order_cancel, mid_price}
use toy_exchange.Engine.Router.Isolation.{unlisted-dropped}
use toy_exchange.Engine.Router.Invariant.{AllValid}

abbrev goog : Ticker
goog = b'G' ∷ b'O' ∷ b'O' ∷ b'G' ∷ []

abbrev sell_10 : OrderAdd
sell_10 = make_order (pos 1) (pos 1) sell (pos 101) (pos 10)

-- An order for a ticker that is not an instrument.
abbrev unlisted : OrderAdd
unlisted = record sell_10 { ticker = b'X' ∷ [] }

abbrev unlisted_cancel : OrderCancel
unlisted_cancel = record { order_id = pos 1; user_id = pos 1; ticker = b'X' ∷ [] }

not_x : (t : Ticker) → same_ticker t (b'X' ∷ []) ≡ false → t ≢ b'X' ∷ []
not_x t h = tickers_differ t (b'X' ∷ []) h

none_listed : All (λ x. x ≢ unlisted.ticker) instruments
unfolding same_ticker
none_listed = (not_x _ refl, (not_x _ refl, (not_x _ refl, (not_x _ refl, tt))))

unlisted-dropped_example :
    (on_order_add order_map collect (new_router order_map) unlisted [] ≡ (new_router order_map, []))
    × (on_order_cancel order_map (new_router order_map) unlisted_cancel ≡ new_router order_map)
    × (mid_price order_map (new_router order_map) (b'X' ∷ []) ≡ none)
unlisted-dropped_example =
    unlisted-dropped order_map collect (new_router order_map) unlisted [] unlisted_cancel refl
      none_listed refl

pub new_router-AllValid : AllValid order_map (new_router order_map)
new_router-AllValid = let v = new_engine-IsValid order_map in (v, (v, (v, (v, tt))))
