-- ===== src/Exchange.antt =====
-- The pipeline that exchange/main.cpp puts together, from the commands that the gateway pushes to
-- the accounts of the users, with queues that are drained to their end.
pub mod Balance
pub mod Feed
pub mod Snapshot
pub mod Threads
pub mod Service
mod Tests
use toy_exchange.Base.{List, [], ◌∷◌, Option, none}
use toy_exchange.Base.Int.{ℤ}
use toy_exchange.Core.Types.{Trade, InboundCommand}
use toy_exchange.Extern.Double.{Double}
use toy_exchange.Engine.Match.{OrderMap}
use toy_exchange.Engine.Router.{Router}
use toy_exchange.Engine.User.{Inventory}
use toy_exchange.Engine.UserRegistry.{UserRegistry}
use toy_exchange.Workers.MatchingEngine.{Output, run_matching_engine}
use toy_exchange.Workers.Inventory.{run_inventory}

abbrev pub no_output : Output
no_output = record { market_data = []; trades = [] }

-- Each trade with the mid price that the inventory thread reads when it settles it.
abbrev pub with_mids : List Trade → List (Option ℤ) → List (Trade × Option ℤ)
with_mids [] mids = []
with_mids (t ∷ ts) [] = (t, none) ∷ with_mids ts []
with_mids (t ∷ ts) (mid ∷ mids) = (t, mid) ∷ with_mids ts mids

-- The accounts after all commands were handled and all trades settled. The inventory thread reads
-- the mid prices while the engine goes on, so that any may be read.
unfoldable pub run_exchange :
    {W : Type 0} (m : OrderMap) (d : Double W) (inv : Inventory W)
    → Router m
    → UserRegistry inv
    → List InboundCommand
    → List (Option ℤ)
    → Option (UserRegistry inv)
unfolding run_matching_engine run_inventory
run_exchange m d inv r users commands mids =
    let (_, out) = run_matching_engine m r no_output commands in
    run_inventory d inv users (with_mids out.trades mids)
