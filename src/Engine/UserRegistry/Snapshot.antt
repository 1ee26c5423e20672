-- ===== src/Engine/UserRegistry/Snapshot.antt =====
-- `WriteSnapshot` of common/engine/user_registry.hpp: the lines that it writes to the file.
pub mod Totals
use toy_exchange.Base.{
  ◌≡◌, refl, ap, ◌∙◌, List, [], ◌∷◌, ◌++◌, Option, none, some, Bool, if◌then◌else◌, map, Bool-cases,
  inl, inr,
}
use toy_exchange.Base.Int.{ℤ, pos, ◌+ℤ◌, int_laws}
use toy_exchange.Core.Types.{Ticker, same_ticker}
use toy_exchange.Core.Tickers.{same_ticker_iff}
use toy_exchange.Extern.UnorderedMap.{lookup, IsDistinct}
use toy_exchange.Engine.User.{Inventory, Holding, User, volume_at}
use toy_exchange.Engine.UserRegistry.{UserRegistry}

-- A row of the file: the values that stand between its commas.
pub record Row (W : Type 0) : Type 0 where
  pub user_id : ℤ
  pub ticker : Ticker
  pub position : ℤ
  pub avg_cost : W
  pub realized_pnl : W
  pub unrealized_pnl : W

abbrev pub row_of : {W : Type 0} → ℤ → Ticker × Holding W → Row W
row_of id (ticker, holding) = record {
  user_id = id;
  ticker = ticker;
  position = holding.volume;
  avg_cost = holding.avg_cost;
  realized_pnl = holding.realized_pnl;
  unrealized_pnl = holding.unrealized_pnl;
}

-- `entries` is what an iteration over an inventory visits.
module _ {W : Type 0} (inv : Inventory W) (entries : inv.Table → List (Ticker × Holding W)) where
  abbrev pub rows_of : User inv → List (Row W)
  rows_of u = map (row_of u.id) (entries u.inventory)

  unfoldable pub rows : UserRegistry inv → List (Row W)
  rows [] = []
  rows (u ∷ us) = rows_of u ++ rows us

  -- The rows below the header; `none` is the exception when the file cannot be opened.
  unfoldable pub write_snapshot : Bool → UserRegistry inv → Option (List (Row W))
  unfolding rows
  write_snapshot opened users = if opened then some (rows users) else none
