-- ===== src/Workers/MatchingEngine/Pushes.antt =====
-- The calls of `PushBlocking` that common/workers/matching_engine_thread.cpp makes for a command,
-- in their order over both queues.
use toy_exchange.Base.{
  ◌≡◌, refl, sym, ap, ap₂, ◌∙◌, List, [], ◌∷◌, ◌++◌, foldl, length, ltb, inl, inr, Bool-cases,
  Option-cases, lt→ltb, get_elem?-lt, set,
}
use toy_exchange.Core.Types.{Trade, OrderAdd, InboundCommand, add, cancel}
use toy_exchange.Engine.Match.{OrderMap}
use toy_exchange.Engine.Match.Fills.{Fill}
use toy_exchange.Engine.Match.Loops.{report}
use toy_exchange.Engine.Router.{Router, ticker_index, on_order_add, on_order_cancel}
use toy_exchange.Engine.Router.Isolation.{engine_of}
use toy_exchange.Engine.Router.Invariant.{AllValid}
use toy_exchange.Engine.Router.Trades.{fills_of, on_order_add-handled}
use toy_exchange.Net.Wire.{
  WireMarketDataMessage, encode_order_add_event, encode_order_cancel_event, encode_trade_event,
}
use toy_exchange.Workers.MatchingEngine.{
  Output, push_event, push_trade, handle, run_matching_engine,
}
use toy_exchange.Workers.MatchingEngine.Projection.{engine_add-handler}

-- A call of `PushBlocking`, with its queue.
pub data Push : Type 0 where
  to_market_data : WireMarketDataMessage → Push
  to_trades : Trade → Push

abbrev pub list_trade : List Push → Trade → List Push
list_trade ps t = ps ++ (to_market_data (encode_trade_event t) ∷ to_trades t ∷ [])

abbrev pub push_one : Output → Push → Output
push_one out (to_market_data event) = push_event out event
push_one out (to_trades t) = record out { trades = out.trades ++ t ∷ [] }

abbrev pub make_pushes : Output → List Push → Output
make_pushes out [] = out
make_pushes out (p ∷ ps) = make_pushes (push_one out p) ps

make_pushes-append :
    (out : Output) (ps qs : List Push)
    → make_pushes out (ps ++ qs) ≡ make_pushes (make_pushes out ps) qs
make_pushes-append out [] qs = refl
make_pushes-append out (p ∷ ps) qs = make_pushes-append (push_one out p) ps qs

make_pushes-report :
    (order : OrderAdd) (fs : List Fill) (out : Output) (ps : List Push)
    → foldl (report push_trade order) (make_pushes out ps) fs
      ≡ make_pushes out (foldl (report list_trade order) ps fs)
make_pushes-report order [] out ps = refl
make_pushes-report order (f ∷ fs) out ps =
    let t = report (λ (h : List Trade) t. t ∷ []) order [] f in
    let one = make_pushes-append out ps _ in
    ap (λ o. foldl (report push_trade order) o fs) (sym one)
    ∙ make_pushes-report order fs out (report list_trade order ps f)

module _ (m : OrderMap) where
  -- `handle` as the router that it leaves and the pushes that it makes.
  unfoldable pub handle_pushes : Router m → InboundCommand → Router m × List Push
  unfolding on_order_add on_order_cancel
  handle_pushes r (add order) =
      on_order_add m list_trade r order (to_market_data (encode_order_add_event order) ∷ [])
  handle_pushes r (cancel c) =
      (on_order_cancel m r c, to_market_data (encode_order_cancel_event c) ∷ [])

  on_order_add-handler :
      {H K : Type 0} (f : H → Trade → H) (g : K → Trade → K) (r : Router m) (order : OrderAdd)
      (h : H) (k : K)
      → (on_order_add m f r order h).0 ≡ (on_order_add m g r order k).0
  unfolding on_order_add
  on_order_add-handler f g r order h k = elim (Option-cases (engine_of m r order.ticker)) [
    | inl missing ↦ elim (Bool-cases (ltb (ticker_index order.ticker) (length r.engines))) [
      | inl inside ↦ rw (inside, missing) refl
      | inr out ↦ rw out refl
    ]
    | inr (e, found) ↦
        rw (lt→ltb _ _ (get_elem?-lt r.engines (ticker_index order.ticker) e found), found)
          (ap (λ e'. record { engines = set r.engines (ticker_index order.ticker) e' })
            (engine_add-handler m f g e order h k))
  ]

  pub handle_lem :
      (r : Router m) (out : Output) (c : InboundCommand)
      → AllValid m r
      → handle m r out c ≡ ((handle_pushes r c).0, make_pushes out (handle_pushes r c).1)
  unfolding handle handle_pushes
  handle_lem r out (add order) v =
      let first = to_market_data (encode_order_add_event order) ∷ [] in
      let start = push_event out (encode_order_add_event order) in
      let listed = on_order_add-handled m list_trade r order first v in
      ap₂ (λ r' out'. (r', out')) (on_order_add-handler push_trade list_trade r order start first)
        (on_order_add-handled m push_trade r order start v
          ∙ make_pushes-report order (fills_of m r order) out first
          ∙ ap (make_pushes out) (sym listed))
  handle_lem r out (cancel c) v = refl

  pub run_matching_engine-append :
      (r : Router m) (out : Output) (cs : List InboundCommand) (c : InboundCommand)
      → run_matching_engine m r out (cs ++ c ∷ [])
        ≡ (let (r', out') = run_matching_engine m r out cs in handle m r' out' c)
  unfolding run_matching_engine
  run_matching_engine-append r out [] c = refl
  run_matching_engine-append r out (b ∷ cs) c =
      let (r', out') = handle m r out b in run_matching_engine-append r' out' cs c
