-- ===== src/Exchange/Feed.antt =====
-- The datagrams of a run of the exchange, as its subscribers read them.
use toy_exchange.Base.{◌≡◌, refl, sym, subst, List, [], ◌∷◌, All, map, arith}
use toy_exchange.Base.Int.{ℤ, pos, Fits, ◌<ℤ◌, ◌≤ℤ◌}
use toy_exchange.Core.Types.{Trade, OrderAdd, InboundCommand, add, cancel}
use toy_exchange.Extern.UnorderedMap.{IsMap}
use toy_exchange.Engine.Book.Invariant.{Entry}
use toy_exchange.Engine.Match.{OrderMap}
use toy_exchange.Engine.Match.Fills.{Fill}
use toy_exchange.Engine.Match.Conservation.{maker_entry, IsPartOfMaker}
use toy_exchange.Engine.MatchingEngine.Bounds.{Fits-between, Fits-rest}
use toy_exchange.Engine.MatchingEngine.Entries.{IsStable}
use toy_exchange.Engine.MatchingEngine.Refinement.{resting_of}
use toy_exchange.Engine.MatchingEngine.Trades.{fill_trade}
use toy_exchange.Engine.Router.{new_router}
use toy_exchange.Net.Wire.{encode_order_add_event, encode_order_cancel_event, encode_trade_event}
use toy_exchange.Net.Gateway.Clients.{length-encode_ticker}
use toy_exchange.Net.Publisher.{Popped, run_publisher}
use toy_exchange.Net.Publisher.Datagrams.{
  FitsMessage, IsPadded, IsPublishable, ArePublished, sent, run_publisher-ArePublished,
}
use toy_exchange.Workers.MatchingEngine.{run_matching_engine}
use toy_exchange.Workers.MatchingEngine.Events.{command_event}
use toy_exchange.Workers.MatchingEngine.Resting.{new_router-IsSound, market_data-All}
use toy_exchange.Exchange.{no_output}

-- The numbers of a command, of a resting order and of a trade, in eight bytes.
abbrev pub FitsCommand : InboundCommand → Type 0
FitsCommand (add o) = Fits o.order_id × Fits o.user_id × Fits o.price × Fits o.volume
FitsCommand (cancel c) = Fits c.order_id × Fits c.user_id

abbrev FitsEntry : Entry → Type 0
FitsEntry e = Fits e.1.order_id × Fits e.1.user_id × Fits e.0 × Fits e.1.volume

abbrev FitsDeal : Trade → Type 0
FitsDeal t =
    Fits t.maker_id
    × Fits t.taker_id
    × Fits t.maker_order_id
    × Fits t.taker_order_id
    × Fits t.execution_price
    × Fits t.volume

FitsEntry-IsStable : IsStable FitsEntry
FitsEntry-IsStable price o traded low high (id, user, p, volume) =
    (id, user, p, (Fits-rest o.volume traded low (omega (arith, high)) volume).1)

FitsEntry-rests :
    (order : OrderAdd) (left : ℤ)
    → FitsCommand (add order)
    → pos 0 <ℤ left
    → left ≤ℤ order.volume
    → FitsEntry (order.price, resting_of order left)
FitsEntry-rests order left (id, user, price, volume) low high =
    (id, user, price, Fits-between left order.volume (omega (arith, low)) high volume)

FitsDeal-fill :
    (order : OrderAdd) (f : Fill)
    → FitsCommand (add order)
    → FitsEntry (maker_entry f)
    → IsPartOfMaker f
    → FitsDeal (fill_trade order f)
FitsDeal-fill order f (id, user, price, volume) (maker_id, maker, at, size) (low, high) = (
  maker,
  user,
  maker_id,
  id,
  at,
  Fits-between f.traded f.maker.volume (omega (arith, low)) high size,
)

command_event-Fits :
    (m : OrderMap) (c : InboundCommand) → FitsCommand c → FitsMessage (command_event m c)
unfolding encode_order_add_event encode_order_cancel_event
command_event-Fits m (add o) (id, user, price, volume) =
    (id, user, length-encode_ticker o.ticker, price, volume)
command_event-Fits m (cancel c) (id, user) = (id, user, length-encode_ticker c.ticker)

encode_trade_event-Fits : (t : Trade) → FitsDeal t → FitsMessage (encode_trade_event t)
unfolding encode_trade_event
encode_trade_event-Fits t (maker, taker, maker_order, taker_order, price, volume) =
    (maker, taker, maker_order, taker_order, length-encode_ticker t.ticker, price, volume)

run-Fits :
    (m : OrderMap) (laws : IsMap m) (cs : List InboundCommand)
    → All FitsCommand cs
    → All FitsMessage (run_matching_engine m (new_router m) no_output cs).1.market_data
run-Fits m laws cs fit =
    market_data-All m laws FitsEntry FitsCommand FitsEntry-IsStable FitsEntry-rests FitsDeal
      FitsDeal-fill FitsMessage (command_event-Fits m) encode_trade_event-Fits (new_router m)
      no_output cs fit
      (new_router-IsSound m laws FitsEntry FitsCommand FitsEntry-IsStable FitsEntry-rests) tt

All-IsPublishable :
    (ps : List Popped)
    → All FitsMessage (map (λ p. p.msg) ps)
    → All IsPadded ps
    → All IsPublishable ps
All-IsPublishable [] fit padded = tt
All-IsPublishable (p ∷ ps) fit padded = ((fit.0, padded.0), All-IsPublishable ps fit.1 padded.1)

-- From the start of the program: if the numbers of the commands fit in eight bytes, and the
-- publisher pops what a run of the matching engine thread has pushed, then subscribers read from
-- the datagrams exactly the messages whose `sendto` did not fail, in order, and each datagram has
-- 66 bytes.
pub run_publisher-run :
    (m : OrderMap) (laws : IsMap m) (commands : List InboundCommand) (ps : List Popped)
    → All FitsCommand commands
    → map (λ p. p.msg) ps ≡ (run_matching_engine m (new_router m) no_output commands).1.market_data
    → All IsPadded ps
    → ArePublished (run_publisher [] ps) (sent ps)
run_publisher-run m laws commands ps fit popped padded =
    run_publisher-ArePublished [] [] ps
      (All-IsPublishable ps (subst (All FitsMessage) (sym popped) (run-Fits m laws commands fit))
        padded)
      (refl, tt)
