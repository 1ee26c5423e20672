-- ===== src/Workers/MatchingEngine/Events.antt =====
-- The events that subscribers see, and the trades that are settled.
use toy_exchange.Base.{
  ◌≡◌, refl, sym, ◌∙◌, ap, ap₂, List, [], ◌∷◌, ◌++◌, foldl, map, append_assoc, append-nil,
}
use mathlib.Core.List.{map-append}
use toy_exchange.Core.Types.{Trade, OrderAdd, InboundCommand, add, cancel}
use toy_exchange.Engine.Match.{OrderMap}
use toy_exchange.Engine.Match.Fills.{Fill}
use toy_exchange.Engine.Match.Loops.{report}
use toy_exchange.Engine.MatchingEngine.Trades.{fill_trade}
use toy_exchange.Engine.Router.{Router}
use toy_exchange.Engine.Router.Invariant.{AllValid, on_order_add-AllValid, on_order_cancel-AllValid}
use toy_exchange.Engine.Router.Trades.{fills_of, trades_of, on_order_add-handled}
use toy_exchange.Net.Wire.{
  WireMarketDataMessage, order_add_event, order_cancel_event, trade_event, encode_order_add_event,
  encode_order_cancel_event, encode_trade_event,
}
use toy_exchange.Workers.MatchingEngine.{
  Output, push_event, push_trade, handle, run_matching_engine,
}

foldl-push_trade :
    (order : OrderAdd) (fs : List Fill) (out : Output)
    → foldl (report push_trade order) out fs ≡ record {
      market_data = out.market_data ++ map encode_trade_event (map (fill_trade order) fs);
      trades = out.trades ++ map (fill_trade order) fs;
    }
foldl-push_trade order [] out = rw (append-nil out.market_data, append-nil out.trades)
foldl-push_trade order (f ∷ fs) out =
    foldl-push_trade order fs (push_trade out (fill_trade order f)) ∙ simp append_assoc

module _ (m : OrderMap) where
  -- The trades of a command, and its events: its own, and then one for each trade.
  abbrev pub command_trades : Router m → InboundCommand → List Trade
  command_trades r (add order) = trades_of m r order
  command_trades r (cancel c) = []

  abbrev pub command_event : InboundCommand → WireMarketDataMessage
  command_event (add order) = encode_order_add_event order
  command_event (cancel c) = encode_order_cancel_event c

  abbrev pub command_events : Router m → InboundCommand → List WireMarketDataMessage
  command_events r c = command_event c ∷ map encode_trade_event (command_trades r c)

  pub handle-output :
      (r : Router m) (out : Output) (c : InboundCommand)
      → AllValid m r
      → (handle m r out c).1 ≡ record {
        market_data = out.market_data ++ command_events r c;
        trades = out.trades ++ command_trades r c;
      }
  unfolding handle
  handle-output r out (add order) v =
      on_order_add-handled m push_trade r order (push_event out (encode_order_add_event order)) v
      ∙ foldl-push_trade order (fills_of m r order) (push_event out (encode_order_add_event order))
      ∙ simp append_assoc
  handle-output r out (cancel c) v = rw (append-nil out.trades)

  pub handle-AllValid :
      (r : Router m) (out : Output) (c : InboundCommand)
      → AllValid m r
      → AllValid m (handle m r out c).0
  unfolding handle
  handle-AllValid r out (add order) v = on_order_add-AllValid m push_trade r order _ v
  handle-AllValid r out (cancel c) v = on_order_cancel-AllValid m r c v

  -- The trades and the events of a run, command by command, each with the router it finds.
  abbrev pub run_events : Router m → Output → List InboundCommand → List WireMarketDataMessage
  run_events r out [] = []
  run_events r out (c ∷ cs) =
      let (r', out') = handle m r out c in command_events r c ++ run_events r' out' cs

  abbrev pub run_trades : Router m → Output → List InboundCommand → List Trade
  run_trades r out [] = []
  run_trades r out (c ∷ cs) =
      let (r', out') = handle m r out c in command_trades r c ++ run_trades r' out' cs

  -- With every engine valid, a run pushes, for every command in order, the command's event and then
  -- one event for each of its trades, which are the fills by price and time in the engine of its
  -- ticker; to the other queue it pushes these trades. Every engine stays valid.
  pub run_matching_engine-output :
      (r : Router m) (out : Output) (cs : List InboundCommand)
      → AllValid m r
      → let (r', out') = run_matching_engine m r out cs in
        (out'.market_data ≡ out.market_data ++ run_events r out cs)
        × (out'.trades ≡ out.trades ++ run_trades r out cs)
        × AllValid m r'
  unfolding run_matching_engine
  run_matching_engine-output r out [] v =
      (sym (append-nil out.market_data), sym (append-nil out.trades), v)
  run_matching_engine-output r out (c ∷ cs) v =
      let (r', out') = handle m r out c in
      let (events, traded, valid) =
        run_matching_engine-output r' out' cs (handle-AllValid r out c v) in
      let here = handle-output r out c v in
      (
        events
            ∙ ap (λ o. o.market_data ++ run_events r' out' cs) here
            ∙ append_assoc out.market_data (command_events r c) (run_events r' out' cs),
        traded
            ∙ ap (λ o. o.trades ++ run_trades r' out' cs) here
            ∙ append_assoc out.trades (command_trades r c) (run_trades r' out' cs),
        valid,
      )

-- The events of trades among those published.
abbrev pub trade_events : List WireMarketDataMessage → List WireMarketDataMessage
trade_events [] = []
trade_events (order_add_event w ∷ es) = trade_events es
trade_events (order_cancel_event w ∷ es) = trade_events es
trade_events (trade_event w ∷ es) = trade_event w ∷ trade_events es

trade_events-append :
    (es fs : List WireMarketDataMessage)
    → trade_events (es ++ fs) ≡ trade_events es ++ trade_events fs
trade_events-append [] fs = refl
trade_events-append (order_add_event w ∷ es) fs = trade_events-append es fs
trade_events-append (order_cancel_event w ∷ es) fs = trade_events-append es fs
trade_events-append (trade_event w ∷ es) fs =
    ap (λ l. trade_event w ∷ l) (trade_events-append es fs)

trade_events-map :
    (ts : List Trade) → trade_events (map encode_trade_event ts) ≡ map encode_trade_event ts
unfolding encode_trade_event
trade_events-map [] = refl
trade_events-map (t ∷ ts) = ap (λ l. encode_trade_event t ∷ l) (trade_events-map ts)

module _ (m : OrderMap) where
  trade_events-command :
      (r : Router m) (c : InboundCommand)
      → trade_events (command_events m r c) ≡ map encode_trade_event (command_trades m r c)
  unfolding encode_order_add_event encode_order_cancel_event
  trade_events-command r (add order) = trade_events-map (trades_of m r order)
  trade_events-command r (cancel c) = refl

  -- With every engine valid, if the trades published and the trades handed over for settlement
  -- agree, one for one and in order, then they agree after any run of the thread.
  run-trade_events :
      (r : Router m) (out : Output) (cs : List InboundCommand)
      → AllValid m r
      → trade_events out.market_data ≡ map encode_trade_event out.trades
      → let out' = (run_matching_engine m r out cs).1 in
        trade_events out'.market_data ≡ map encode_trade_event out'.trades
  unfolding run_matching_engine
  run-trade_events r out [] v e = e
  run-trade_events r out (c ∷ cs) v e =
      let (r', out') = handle m r out c in
      run-trade_events r' out' cs (handle-AllValid m r out c v) (
        rw (handle-output m r out c v) (
          trade_events-append out.market_data (command_events m r c)
          ∙ ap₂ ◌++◌ e (trade_events-command r c)
          ∙ sym (map-append encode_trade_event out.trades (command_trades m r c))))
