-- ===== src/Exchange/Threads.antt =====
-- The threads of exchange/main.cpp and their three queues, interleaved in any order: the gateway
-- that pushes commands, the matching engine, the publisher, the inventory thread, and main, which
-- joins the gateway and the matching engine and sets the flags.
pub mod Invariant
pub mod Refinement
pub mod Quiet
pub mod Accounts
pub mod Schedule
pub mod Draining
pub mod Shutdown
pub mod Late
mod Tests
use toy_exchange.Base.{ℕ, ◌≡◌, ◌<◌, List, [], ◌∷◌, ◌++◌, Option, some, Bool, true, false, length}
use toy_exchange.Base.Int.{ℤ}
use toy_exchange.Core.Types.{Trade, InboundCommand}
use toy_exchange.Extern.Double.{Double}
use toy_exchange.Engine.Match.{OrderMap}
use toy_exchange.Engine.Router.{Router, new_router}
use toy_exchange.Engine.User.{Inventory}
use toy_exchange.Engine.UserRegistry.{UserRegistry, new_registry}
use toy_exchange.Net.Wire.{WireMarketDataMessage}
use toy_exchange.Workers.Drain.{
  State, initial, Consumer, polling, found_empty, stopped, queue_capacity,
}
use toy_exchange.Workers.MatchingEngine.Pushes.{Push, to_market_data, to_trades, handle_pushes}
use toy_exchange.Workers.Inventory.{settle}

module _ {A : Type 0} where
  abbrev pub enqueue : State A → A → State A
  enqueue s v = record s { queue = s.queue ++ v ∷ []; pushed = s.pushed ++ v ∷ [] }

  -- A `pop` that finds `v` in front of `vs`.
  abbrev pub dequeue : State A → A → List A → State A
  dequeue s v vs = record s { queue = vs; handled = s.handled ++ v ∷ [] }

  -- The steps of a thread whose `pop` finds nothing.
  pub data Wait (s : State A) : State A → Type 0 where
    find_nothing :
        s.consumer ≡ polling → s.queue ≡ [] → Wait s (record s { consumer = found_empty })
    poll_again :
        s.consumer ≡ found_empty → s.finished ≡ false → Wait s (record s { consumer = polling })
    leave : s.consumer ≡ found_empty → s.finished ≡ true → Wait s (record s { consumer = stopped })

module _ {W : Type 0} (m : OrderMap) (d : Double W) (inv : Inventory W) where
  pub record System : Type 0 where
    -- `gShutdownRequested`, and `running_` of the gateway.
    pub shutdown_requested : Bool
    pub is_running : Bool
    pub inbound : State InboundCommand
    pub market_data : State WireMarketDataMessage
    pub trades : State Trade
    pub router : Router m
    -- What the matching engine thread has still to push for the command that it handles.
    pub pending : List Push
    pub users : UserRegistry inv
    -- The trades that were settled, each with the mid price that was read.
    pub settled : List (Trade × Option ℤ)

  abbrev pub start_system : System
  start_system = record {
    shutdown_requested = false;
    is_running = true;
    inbound = initial;
    market_data = initial;
    trades = initial;
    router = new_router m;
    pending = [];
    users = new_registry inv;
    settled = [];
  }

  pub data Step (s : System) : System → Type 0 where
    gateway_push :
        (c : InboundCommand)
        → s.inbound.joined ≡ false
        → length s.inbound.queue < queue_capacity
        → Step s (record s { inbound = enqueue s.inbound c })
    -- `HandleShutdownSignal`
    request_shutdown : Step s (record s { shutdown_requested = true })
    stop_gateway : s.shutdown_requested ≡ true → Step s (record s { is_running = false })
    -- The gateway's thread has left its loop.
    join_gateway :
        s.is_running ≡ false → Step s (record s { inbound = record s.inbound { joined = true } })
    finish_gateway :
        s.inbound.joined ≡ true
        → Step s (record s { inbound = record s.inbound { finished = true } })
    match :
        (c : InboundCommand) (cs : List InboundCommand)
        → s.pending ≡ []
        → s.inbound.consumer ≡ polling
        → s.inbound.queue ≡ c ∷ cs
        → Step s (record s {
          inbound = dequeue s.inbound c cs;
          router = (handle_pushes m s.router c).0;
          pending = (handle_pushes m s.router c).1;
        })
    -- A `push` of `PushBlocking` that finds room; one that does not changes nothing.
    push_market_data :
        (event : WireMarketDataMessage) (ps : List Push)
        → s.pending ≡ to_market_data event ∷ ps
        → length s.market_data.queue < queue_capacity
        → Step s (record s { market_data = enqueue s.market_data event; pending = ps })
    push_trades :
        (t : Trade) (ps : List Push)
        → s.pending ≡ to_trades t ∷ ps
        → length s.trades.queue < queue_capacity
        → Step s (record s { trades = enqueue s.trades t; pending = ps })
    match_wait :
        {q : State InboundCommand}
        → s.pending ≡ []
        → Wait s.inbound q
        → Step s (record s { inbound = q })
    join_matching :
        s.inbound.consumer ≡ stopped
        → Step s (record s {
          market_data = record s.market_data { joined = true };
          trades = record s.trades { joined = true };
        })
    finish_matching :
        s.market_data.joined ≡ true
        → s.trades.joined ≡ true
        → Step s (record s {
          market_data = record s.market_data { finished = true };
          trades = record s.trades { finished = true };
        })
    publish :
        (event : WireMarketDataMessage) (es : List WireMarketDataMessage)
        → s.market_data.consumer ≡ polling
        → s.market_data.queue ≡ event ∷ es
        → Step s (record s { market_data = dequeue s.market_data event es })
    publisher_wait :
        {q : State WireMarketDataMessage}
        → Wait s.market_data q
        → Step s (record s { market_data = q })
    settle_trade :
        (t : Trade) (ts : List Trade) (mid : Option ℤ) (users : UserRegistry inv)
        → s.trades.consumer ≡ polling
        → s.trades.queue ≡ t ∷ ts
        → settle d inv s.users t mid ≡ some users
        → Step s (record s {
          trades = dequeue s.trades t ts;
          users = users;
          settled = s.settled ++ (t, mid) ∷ [];
        })
    inventory_wait : {q : State Trade} → Wait s.trades q → Step s (record s { trades = q })

  pub data Steps (s : System) : System → Type 0 where
    here : Steps s s
    later : {t u : System} → Steps s t → Step t u → Steps s u
