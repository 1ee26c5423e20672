-- ===== src/Workers/Inventory.antt =====
-- `RunInventoryThread` of common/workers/inventory_thread.cpp, one trade after the other. The mid
-- price that is read while the engine goes on is an argument.
pub mod Settlement
pub mod Tests
use toy_exchange.Base.{List, [], ◌∷◌, Option, none, some, modify}
use toy_exchange.Base.Int.{ℤ}
use toy_exchange.Core.Types.{Side, buy, sell, Trade}
use toy_exchange.Extern.Double.{Double}
use toy_exchange.Engine.User.{Inventory, User, apply_fill, refresh_unrealized_pnl}
use toy_exchange.Engine.UserRegistry.{UserRegistry, size_t_of, get}

abbrev pub maker_side : Side → Side
maker_side buy = sell
maker_side sell = buy

module _ {W : Type 0} (d : Double W) (inv : Inventory W) where
  -- A call of a method on the user that `registry.Get` refers to.
  abbrev pub update : UserRegistry inv → ℤ → (User inv → User inv) → UserRegistry inv
  update users id f = modify users (size_t_of id) f

  abbrev pub fill_both : UserRegistry inv → Trade → UserRegistry inv
  fill_both users t =
      let filled =
        update users t.maker_id
          (λ u. apply_fill d inv u t.ticker (maker_side t.taker_side) t.execution_price t.volume) in
      update filled t.taker_id
        (λ u. apply_fill d inv u t.ticker t.taker_side t.execution_price t.volume)

  abbrev pub refresh_both : UserRegistry inv → Trade → Option ℤ → UserRegistry inv
  refresh_both users t none = users
  refresh_both users t (some mid) =
      let refreshed = update users t.maker_id (λ u. refresh_unrealized_pnl d inv u t.ticker mid) in
      update refreshed t.taker_id (λ u. refresh_unrealized_pnl d inv u t.ticker mid)

  -- The settlement of one trade; `none` is the exception of an unknown user.
  unfoldable pub settle : UserRegistry inv → Trade → Option ℤ → Option (UserRegistry inv)
  unfolding get
  settle users t mid = elim (get inv users t.maker_id) [
    | none ↦ none
    | some _ ↦ elim (get inv users t.taker_id) [
      | none ↦ none
      | some _ ↦ some (refresh_both (fill_both users t) t mid)
    ]
  ]

  -- The loop over the queue of trades, each with the mid price read at its settlement.
  unfoldable pub run_inventory :
      UserRegistry inv → List (Trade × Option ℤ) → Option (UserRegistry inv)
  run_inventory users [] = some users
  run_inventory users ((t, mid) ∷ ts) = elim (settle users t mid) [
    | none ↦ none
    | some users' ↦ run_inventory users' ts
  ]
