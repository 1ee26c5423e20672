-- ===== src/Engine/Router.antt =====
-- `class MatchingEngineRouter` of common/engine/matching_engine_router.hpp: one engine for each
-- entry of `INSTRUMENTS`.
pub mod Isolation
pub mod Invariant
pub mod Trades
pub mod Tests
use toy_exchange.Base.{
  ℕ, suc, List, [], ◌∷◌, Option, none, some, if◌then◌else◌, ltb, length, get_elem?, set,
}
use toy_exchange.Base.Int.{ℤ}
use toy_exchange.Core.Types.{Ticker, same_ticker, instruments, Trade, OrderAdd, OrderCancel}
use toy_exchange.Engine.Match.{OrderMap}
use toy_exchange.Engine.MatchingEngine.{
  MatchingEngine, new_engine, on_order_add as engine_add, on_order_cancel as engine_cancel,
  mid_price as engine_mid_price,
}

-- `std::ranges::find` and the distance to what it finds; the length if there is none.
unfoldable pub position : Ticker → List Ticker → ℕ
unfolding same_ticker
position ticker [] = 0
position ticker (t ∷ ts) = if same_ticker t ticker then 0 else suc (position ticker ts)

unfoldable pub ticker_index : Ticker → ℕ
unfolding position
ticker_index ticker = position ticker instruments

pub record Router (m : OrderMap) : Type 0 where
  pub engines : List (MatchingEngine m)

module _ (m : OrderMap) where
  abbrev pub new_router : Router m
  new_router = record { engines = new_engine m ∷ new_engine m ∷ new_engine m ∷ new_engine m ∷ [] }

  unfoldable pub on_order_add :
      {H : Type 0} → (H → Trade → H) → Router m → OrderAdd → H → Router m × H
  unfolding engine_add ticker_index
  on_order_add on_trade r order h =
      let index = ticker_index order.ticker in
      if ltb index (length r.engines)
      then (elim (get_elem? r.engines index) [
        | none ↦ (r, h)
        | some e ↦
            let (e', h') = engine_add m on_trade e order h in
            (record { engines = set r.engines index e' }, h')
      ])
      else (r, h)

  unfoldable pub on_order_cancel : Router m → OrderCancel → Router m
  unfolding engine_cancel ticker_index
  on_order_cancel r cancel =
      let index = ticker_index cancel.ticker in
      if ltb index (length r.engines)
      then (elim (get_elem? r.engines index) [
        | none ↦ r
        | some e ↦ record { engines = set r.engines index (engine_cancel m e cancel) }
      ])
      else r

  unfoldable pub mid_price : Router m → Ticker → Option ℤ
  unfolding engine_mid_price ticker_index
  mid_price r ticker =
      let index = ticker_index ticker in
      if ltb index (length r.engines)
      then (elim (get_elem? r.engines index) [ none ↦ none | some e ↦ engine_mid_price m e ])
      else none
