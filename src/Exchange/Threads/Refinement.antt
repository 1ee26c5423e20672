-- ===== src/Exchange/Threads/Refinement.antt =====
-- Every state of the threads of exchange/main.cpp beside the run of one thread after the other.
use toy_exchange.Base.{
  ◌≡◌, refl, ◌∙◌, ap, subst, List, [], ◌∷◌, ◌++◌, Option, some, map, append_assoc, append-nil,
}
use toy_exchange.Base.Int.{ℤ}
use toy_exchange.Core.Types.{Trade}
use toy_exchange.Extern.Double.{Double}
use toy_exchange.Engine.Match.{OrderMap}
use toy_exchange.Engine.Router.{new_router}
use toy_exchange.Engine.User.{Inventory}
use toy_exchange.Engine.UserRegistry.{new_registry}
use toy_exchange.Net.Wire.{WireMarketDataMessage}
use toy_exchange.Workers.MatchingEngine.{Output, run_matching_engine}
use toy_exchange.Workers.MatchingEngine.Pushes.{
  Push, to_market_data, to_trades, push_one, make_pushes,
}
use toy_exchange.Workers.Inventory.{run_inventory}
use toy_exchange.Exchange.{no_output, with_mids}
use toy_exchange.Exchange.Threads.{System, start_system, Steps}
use toy_exchange.Exchange.Threads.Invariant.{IsRun, output, start-IsRun, Steps-IsRun}

-- The pushes to one queue.
abbrev pub events_of : List Push → List WireMarketDataMessage
events_of [] = []
events_of (to_market_data e ∷ ps) = e ∷ events_of ps
events_of (to_trades t ∷ ps) = events_of ps

abbrev pub trades_of : List Push → List Trade
trades_of [] = []
trades_of (to_market_data e ∷ ps) = trades_of ps
trades_of (to_trades t ∷ ps) = t ∷ trades_of ps

make_pushes-queues :
    (out : Output) (ps : List Push)
    → make_pushes out ps ≡ record {
      market_data = out.market_data ++ events_of ps;
      trades = out.trades ++ trades_of ps;
    }
make_pushes-queues out [] = rw (append-nil out.market_data, append-nil out.trades)
make_pushes-queues out (to_market_data e ∷ ps) =
    make_pushes-queues (push_one out (to_market_data e)) ps ∙ simp append_assoc
make_pushes-queues out (to_trades t ∷ ps) =
    make_pushes-queues (push_one out (to_trades t)) ps ∙ simp append_assoc

pub with_mids-settled :
    (settled : List (Trade × Option ℤ))
    → with_mids (map (λ t. t.0) settled) (map (λ t. t.1) settled) ≡ settled
with_mids-settled [] = refl
with_mids-settled ((t, mid) ∷ ts) = ap (λ l. (t, mid) ∷ l) (with_mids-settled ts)

module _ {W : Type 0} (m : OrderMap) (d : Double W) (inv : Inventory W) where
  pub IsRun-run :
      (s : System m d inv)
      → IsRun m d inv s
      → (mids : List (Option ℤ)) × let (r, out) =
            run_matching_engine m (new_router m) no_output s.inbound.handled in
          (s.inbound.pushed ≡ s.inbound.handled ++ s.inbound.queue)
          × (r ≡ s.router)
          × (out.market_data
              ≡ s.market_data.handled ++ (s.market_data.queue ++ events_of s.pending))
          × (out.trades ≡ s.trades.handled ++ (s.trades.queue ++ trades_of s.pending))
          × (run_inventory d inv (new_registry inv) (with_mids s.trades.handled mids)
              ≡ some s.users)
  IsRun-run s (commands, events, deals, ran, accounts, settled) =
      let all =
        ran ∙ ap (λ out. (s.router, out)) (make_pushes-queues (output m d inv s) s.pending) in
      (
        map (λ t. t.1) s.settled,
        (
          commands,
          ap (λ o. o.0) all,
          ap (λ o. o.1.market_data) all
              ∙ ap (λ l. l ++ events_of s.pending) events
              ∙ append_assoc s.market_data.handled s.market_data.queue (events_of s.pending),
          ap (λ o. o.1.trades) all
              ∙ ap (λ l. l ++ trades_of s.pending) deals
              ∙ append_assoc s.trades.handled s.trades.queue (trades_of s.pending),
          subst
              (λ ts.
                run_inventory d inv (new_registry inv) (with_mids ts (map (λ t. t.1) s.settled))
                ≡ some s.users)
              settled (rw (with_mids-settled s.settled) accounts),
        ),
      )

  -- In every state that the threads come to, in whatever order they take their steps: the commands
  -- pushed are those popped, in order, and those queued; the router is that of a run of the
  -- matching engine thread alone on the commands popped; the events and the trades of that run are
  -- those handled, those queued and those still to be pushed, in order; and the accounts are those
  -- of a settlement of the trades handled in their order, at some mid prices.
  pub Steps-run :
      (s : System m d inv)
      → Steps m d inv (start_system m d inv) s
      → (mids : List (Option ℤ)) × let (r, out) =
            run_matching_engine m (new_router m) no_output s.inbound.handled in
          (s.inbound.pushed ≡ s.inbound.handled ++ s.inbound.queue)
          × (r ≡ s.router)
          × (out.market_data
              ≡ s.market_data.handled ++ (s.market_data.queue ++ events_of s.pending))
          × (out.trades ≡ s.trades.handled ++ (s.trades.queue ++ trades_of s.pending))
          × (run_inventory d inv (new_registry inv) (with_mids s.trades.handled mids)
              ≡ some s.users)
  Steps-run s steps = IsRun-run s (Steps-IsRun m d inv steps (start-IsRun m d inv))
