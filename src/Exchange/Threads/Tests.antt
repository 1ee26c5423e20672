-- ===== src/Exchange/Threads/Tests.antt =====
-- The threads after three commands, of which the matching engine has taken one.
use toy_exchange.Base.{◌≡◌, refl, List, [], ◌∷◌, ◌++◌, Option, some, arith, length}
use toy_exchange.Base.Int.{ℤ, pos}
use toy_exchange.Engine.MatchingEngine.Tests.{
  order_map, order_map-IsMap, make_order, make_cancel, aapl,
}
use toy_exchange.Engine.Router.{new_router}
use toy_exchange.Engine.UserRegistry.{new_registry}
use toy_exchange.Workers.MatchingEngine.{run_matching_engine}
use toy_exchange.Workers.MatchingEngine.Pushes.{handle_pushes}
use toy_exchange.Workers.MatchingEngine.Tests.{commands}
use toy_exchange.Core.Types.{buy, sell, InboundCommand, add, cancel}
use toy_exchange.Workers.Inventory.{run_inventory}
use toy_exchange.Workers.Inventory.Tests.{double, inventory, inventory-IsMap}
use toy_exchange.Exchange.{no_output, with_mids, run_exchange}
use toy_exchange.Exchange.Tests.{commands-HasUser}
use toy_exchange.Exchange.Threads.{
  dequeue, System, start_system, Steps, here, later, gateway_push, match,
}
use toy_exchange.Exchange.Threads.Refinement.{events_of, trades_of, Steps-run}
use toy_exchange.Exchange.Threads.Draining.{IsDrained}
use toy_exchange.Workers.Inventory.Settlement.{total_position}
use toy_exchange.Exchange.Threads.Accounts.{Steps-total_position}
use toy_exchange.Exchange.Threads.Late.{late_commands-lost}
use toy_exchange.Exchange.Threads.Shutdown.{HasStopped, shutdown_completes}

abbrev Threads : Type 0
Threads = System order_map double inventory

abbrev started : Threads
started = start_system order_map double inventory

abbrev one : InboundCommand
one = add (make_order (pos 1) (pos 1) sell (pos 101) (pos 10))

abbrev two : InboundCommand
two = add (make_order (pos 2) (pos 2) buy (pos 102) (pos 15))

abbrev three : InboundCommand
three = cancel (make_cancel (pos 2) (pos 2))

abbrev with_pushed : List InboundCommand → Threads
with_pushed cs = record started { inbound = record started.inbound { queue = cs; pushed = cs } }

abbrev one_taken : Threads
one_taken =
    let (r, ps) = handle_pushes order_map (new_router order_map) one in
    record (with_pushed commands) {
      inbound = dequeue (with_pushed commands).inbound one (two ∷ three ∷ []);
      router = r;
      pending = ps;
    }

one_taken-Steps : Steps order_map double inventory started one_taken
one_taken-Steps =
    later
      (later
        (later (later {t = started} here (gateway_push one refl (omega arith)))
          (gateway_push two refl (omega arith)))
        (gateway_push three refl (omega arith)))
      (match one (two ∷ three ∷ []) refl refl refl)

Steps-run_example :
    (mids : List (Option ℤ)) × let (r, out) =
        run_matching_engine order_map (new_router order_map) no_output one_taken.inbound.handled in
      (one_taken.inbound.pushed ≡ one_taken.inbound.handled ++ one_taken.inbound.queue)
      × (r ≡ one_taken.router)
      × (out.market_data
          ≡ one_taken.market_data.handled
            ++ (one_taken.market_data.queue ++ events_of one_taken.pending))
      × (out.trades
          ≡ one_taken.trades.handled ++ (one_taken.trades.queue ++ trades_of one_taken.pending))
      × (run_inventory double inventory
            (new_registry inventory)
            (with_mids one_taken.trades.handled mids)
          ≡ some one_taken.users)
Steps-run_example = Steps-run order_map double inventory one_taken one_taken-Steps

shutdown_completes_example :
    (t : Threads) × Steps order_map double inventory one_taken t
    × (t.inbound.pushed ≡ commands)
    × HasStopped order_map double inventory t
    × IsDrained order_map double inventory t
    × (mids : List (Option ℤ)) × (run_exchange order_map double inventory
          (new_router order_map)
          (new_registry inventory)
          commands
          mids
        ≡ some t.users)
    × (t.market_data.handled
        ≡ (run_matching_engine order_map (new_router order_map) no_output commands).1.market_data)
shutdown_completes_example =
    shutdown_completes order_map double inventory order_map-IsMap inventory-IsMap one_taken
      one_taken-Steps refl commands-HasUser

late_commands-lost_example :
    (t : Threads) × Steps order_map double inventory started t
    × HasStopped order_map double inventory t
    × (t.inbound.pushed ≡ commands)
    × (t.inbound.queue ≡ commands)
    × (t.users ≡ new_registry inventory)
    × (t.market_data.pushed ≡ [])
late_commands-lost_example = late_commands-lost order_map double inventory commands (omega arith)

Steps-total_position_example :
    (length one_taken.users ≡ 100) × (total_position double inventory one_taken.users aapl ≡ pos 0)
Steps-total_position_example =
    Steps-total_position order_map double inventory order_map-IsMap inventory-IsMap one_taken
      one_taken-Steps commands-HasUser aapl
