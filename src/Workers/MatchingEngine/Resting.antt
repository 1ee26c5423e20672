-- ===== src/Workers/MatchingEngine/Resting.antt =====
-- What holds of every command that comes, and so of every resting order, trade and event of a run.
use toy_exchange.Base.{List, [], ◌∷◌, All, All-append, map, Option-cases, inl, inr, All-get_elem?}
use toy_exchange.Base.Int.{ℤ, pos, ◌<ℤ◌, ◌≤ℤ◌}
use toy_exchange.Core.Types.{buy, sell, Trade, OrderAdd, InboundCommand, add, cancel}
use toy_exchange.Extern.UnorderedMap.{IsMap}
use toy_exchange.Engine.Book.Invariant.{Entry}
use toy_exchange.Engine.Match.{OrderMap, price_crosses}
use toy_exchange.Engine.Match.Fills.{Fill}
use toy_exchange.Engine.Match.Conservation.{maker_entry, IsPartOfMaker, fills-IsPartOfMaker}
use toy_exchange.Engine.MatchingEngine.{MatchingEngine, new_engine, opposite}
use toy_exchange.Engine.MatchingEngine.Entries.{
  IsStable, AllResting, fills-All, left-le_remaining, on_order_add-AllResting,
  on_order_cancel-AllResting,
}
use toy_exchange.Engine.MatchingEngine.Invariant.{
  IsValid, new_engine-IsValid, on_order_add-IsValid, on_order_cancel-IsValid,
}
use toy_exchange.Engine.MatchingEngine.Refinement.{side_queue, specified, resting_of}
use toy_exchange.Engine.MatchingEngine.Trades.{fill_trade, queue-IsPositive}
use toy_exchange.Engine.Router.{Router, new_router, ticker_index}
use toy_exchange.Engine.Router.Isolation.{engine_of}
use toy_exchange.Engine.Router.Invariant.{on_order_add-All, on_order_cancel-All}
use toy_exchange.Engine.Router.Trades.{fills_of}
use toy_exchange.Net.Wire.{WireMarketDataMessage, encode_trade_event}
use toy_exchange.Workers.MatchingEngine.{Output, push_trade, handle, run_matching_engine}
use toy_exchange.Workers.MatchingEngine.Events.{
  command_trades, command_event, command_events, handle-output,
}

-- `P` of the resting orders follows from `Q` of the commands.
module _ (m : OrderMap) (laws : IsMap m) (P : Entry → Type 0) (Q : InboundCommand → Type 0)
    (stable : IsStable P)
    (rests : (order : OrderAdd) (left : ℤ)
      → Q (add order)
      → pos 0 <ℤ left
      → left ≤ℤ order.volume
      → P (order.price, resting_of order left)) where
  abbrev pub IsSound : MatchingEngine m → Type 0
  IsSound e = IsValid m e × AllResting m P e

  AllSound→AllValid : (es : List (MatchingEngine m)) → All IsSound es → All (IsValid m) es
  AllSound→AllValid [] h = tt
  AllSound→AllValid (e ∷ es) h = (h.0.0, AllSound→AllValid es h.1)

  handle-IsSound :
      (r : Router m) (out : Output) (c : InboundCommand)
      → Q c
      → All IsSound r.engines
      → All IsSound (handle m r out c).0.engines
  unfolding handle
  handle-IsSound r out (add order) q h =
      on_order_add-All m IsSound push_trade r order _
        (λ e s.
          let es = side_queue m (opposite order.side) e in
          let left =
            left-le_remaining (price_crosses order.side order.price) order.volume es
              (queue-IsPositive m e order (opposite order.side) s.0) in
          (
            on_order_add-IsValid m push_trade e order _ s.0,
            on_order_add-AllResting m P push_trade e order _ s.0 stable
                (λ more. rests order _ q more left) s.1,
          ))
        h
  handle-IsSound r out (cancel c) q h =
      on_order_cancel-All m IsSound r c
        (λ e s.
          (on_order_cancel-IsValid m e c s.0, on_order_cancel-AllResting m P laws e c s.0 s.1))
        h

  new_engine-IsSound : IsSound (new_engine m)
  new_engine-IsSound = (new_engine-IsValid m, none_resting)
    where
      none_resting : AllResting m P (new_engine m)
      none_resting buy = tt
      none_resting sell = tt

  pub new_router-IsSound : All IsSound (new_router m).engines
  new_router-IsSound = let s = new_engine-IsSound in (s, (s, (s, (s, tt))))

  -- `T` of the trades follows as well.
  module _ (T : Trade → Type 0)
      (deals : (order : OrderAdd) (f : Fill)
        → Q (add order)
        → P (maker_entry f)
        → IsPartOfMaker f
        → T (fill_trade order f)) where
    fill_trades-All :
        (order : OrderAdd) (fs : List Fill)
        → Q (add order)
        → All (λ f. P (maker_entry f)) fs
        → All IsPartOfMaker fs
        → All T (map (fill_trade order) fs)
    fill_trades-All order [] q h k = tt
    fill_trades-All order (f ∷ fs) q h k =
        (deals order f q h.0 k.0, fill_trades-All order fs q h.1 k.1)

    command_trades-All :
        (r : Router m) (c : InboundCommand)
        → Q c
        → All IsSound r.engines
        → All T (command_trades m r c)
    command_trades-All r (cancel c) q h = tt
    command_trades-All r (add order) q h = elim (Option-cases (engine_of m r order.ticker)) [
      | inl missing ↦ rw (missing, fills_of) tt
      | inr (e, found) ↦
          let (v, all) = All-get_elem? IsSound r.engines (ticker_index order.ticker) e h found in
          let es : List Entry = side_queue m (opposite order.side) e in
          let crosses = price_crosses order.side order.price in
          rw (found, fills_of)
            (fill_trades-All order (specified m e order).fills q
              (fills-All P crosses order.volume es (all (opposite order.side)))
              (fills-IsPartOfMaker crosses order.volume es
                (queue-IsPositive m e order (opposite order.side) v)))
    ]

    pub trades-All :
        (r : Router m) (out : Output) (cs : List InboundCommand)
        → All Q cs
        → All IsSound r.engines
        → All T out.trades
        → All T (run_matching_engine m r out cs).1.trades
    unfolding run_matching_engine
    trades-All r out [] q h k = k
    trades-All r out (c ∷ cs) q h k =
        let (r', out') = handle m r out c in
        trades-All r' out' cs q.1 (handle-IsSound r out c q.0 h) (
          rw (handle-output m r out c (AllSound→AllValid r.engines h))
            (All-append T out.trades (command_trades m r c) k (command_trades-All r c q.0 h)))

    -- And `D` of what is published.
    module _ (D : WireMarketDataMessage → Type 0)
        (told : (c : InboundCommand) → Q c → D (command_event m c))
        (traded : (t : Trade) → T t → D (encode_trade_event t)) where
      trade_events-All : (ts : List Trade) → All T ts → All D (map encode_trade_event ts)
      trade_events-All [] h = tt
      trade_events-All (t ∷ ts) h = (traded t h.0, trade_events-All ts h.1)

      pub market_data-All :
          (r : Router m) (out : Output) (cs : List InboundCommand)
          → All Q cs
          → All IsSound r.engines
          → All D out.market_data
          → All D (run_matching_engine m r out cs).1.market_data
      unfolding run_matching_engine
      market_data-All r out [] q h k = k
      market_data-All r out (c ∷ cs) q h k =
          let (r', out') = handle m r out c in
          let events : All D (command_events m r c) =
            (told c q.0, trade_events-All (command_trades m r c) (command_trades-All r c q.0 h)) in
          market_data-All r' out' cs q.1 (handle-IsSound r out c q.0 h) (
            rw (handle-output m r out c (AllSound→AllValid r.engines h))
              (All-append D out.market_data (command_events m r c) k events))
