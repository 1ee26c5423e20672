-- ===== src/Engine/Router/Trades.antt =====
-- What a handler sees of an order that goes through the router.
use toy_exchange.Base.{
  ◌≡◌, refl, List, [], none, some, foldl, map, length, ltb, All-get_elem?, Option-cases, inl, inr,
  get_elem?-lt, lt→ltb, Bool-cases,
}
use toy_exchange.Core.Types.{Trade, OrderAdd}
use toy_exchange.Engine.Match.{OrderMap}
use toy_exchange.Engine.Match.Fills.{Fill}
use toy_exchange.Engine.Match.Loops.{report}
use toy_exchange.Engine.MatchingEngine.Invariant.{IsValid}
use toy_exchange.Engine.MatchingEngine.Refinement.{specified, on_order_add-refines}
use toy_exchange.Engine.MatchingEngine.Trades.{fill_trade}
use toy_exchange.Engine.Router.{Router, ticker_index, on_order_add}
use toy_exchange.Engine.Router.Isolation.{engine_of}
use toy_exchange.Engine.Router.Invariant.{AllValid}

module _ (m : OrderMap) where
  -- The fills of an order by price and time, in the engine of its ticker.
  abbrev pub fills_of : Router m → OrderAdd → List Fill
  fills_of r order = elim (engine_of m r order.ticker) [
    | none ↦ []
    | some e ↦ (specified m e order).fills
  ]

  abbrev pub trades_of : Router m → OrderAdd → List Trade
  trades_of r order = map (fill_trade order) (fills_of r order)

  -- The handler is called once for each of these fills, in order.
  pub on_order_add-handled :
      {H : Type 0} (on_trade : H → Trade → H) (r : Router m) (order : OrderAdd) (h : H)
      → AllValid m r
      → (on_order_add m on_trade r order h).1 ≡ foldl (report on_trade order) h (fills_of r order)
  unfolding on_order_add
  on_order_add-handled on_trade r order h v = elim (Option-cases (engine_of m r order.ticker)) [
    | inl missing ↦ elim (Bool-cases (ltb (ticker_index order.ticker) (length r.engines))) [
      | inl inside ↦ rw (inside, missing, fills_of) refl
      | inr out ↦ rw (out, missing, fills_of) refl
    ]
    | inr (e, found) ↦
        let inside = get_elem?-lt r.engines (ticker_index order.ticker) e found in
        let valid = All-get_elem? (IsValid m) r.engines (ticker_index order.ticker) e v found in
        rw (lt→ltb _ _ inside, found, fills_of) (on_order_add-refines m on_trade e order h valid).2
  ]
