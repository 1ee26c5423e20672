-- ===== src/Exchange/Tests.antt =====
-- The whole pipeline for a sell of user 1, a buy of user 2 that meets it, and a cancel.
use toy_exchange.Base.{
  ◌≡◌, refl, ap, ℕ, ◌<◌, List, [], ◌∷◌, Option, some, true, All, map, arith, length,
}
use toy_exchange.Base.Int.{ℤ, pos, Fits}
use toy_exchange.Core.Types.{same_ticker}
use toy_exchange.Core.Tickers.{same_ticker_iff}
use toy_exchange.Extern.AssocMap.{assoc_entries, assoc_map-IsIteration}
use toy_exchange.Engine.UserRegistry.Snapshot.{Row, write_snapshot}
use toy_exchange.Engine.UserRegistry.Snapshot.Totals.{total_rows}
use toy_exchange.Exchange.Snapshot.{write_snapshot-balanced}
use toy_exchange.Engine.MatchingEngine.Tests.{order_map, order_map-IsMap, aapl}
use toy_exchange.Engine.Router.{new_router}
use toy_exchange.Engine.UserRegistry.{UserRegistry, new_registry, market_participant_count}
use toy_exchange.Workers.MatchingEngine.Tests.{commands}
use toy_exchange.Workers.Inventory.Tests.{double, inventory, inventory-IsMap}
use toy_exchange.Workers.Inventory.Settlement.{total_position}
use toy_exchange.Net.Wire.{WireMarketDataMessage, zeros}
use toy_exchange.Net.Gateway.Clients.{length-zeros}
use toy_exchange.Net.Publisher.{Popped, run_publisher}
use toy_exchange.Net.Publisher.Datagrams.{padding_size, IsPadded, ArePublished, sent}
use toy_exchange.Workers.MatchingEngine.{run_matching_engine}
use toy_exchange.Exchange.{no_output, run_exchange}
use toy_exchange.Exchange.Balance.{HasUser, run_exchange-balanced}
use toy_exchange.Exchange.Feed.{FitsCommand, run_publisher-run}

abbrev mids : List (Option ℤ)
mids = some (pos 101) ∷ []

pub commands-HasUser : All (HasUser market_participant_count) commands
commands-HasUser = (omega arith, (omega arith, (tt, tt)))

run_exchange-balanced_example :
    (users : UserRegistry inventory) × (run_exchange order_map double inventory
        (new_router order_map)
        (new_registry inventory)
        commands
        mids
      ≡ some users)
    × (length users ≡ 100)
    × (total_position double inventory users aapl ≡ pos 0)
run_exchange-balanced_example =
    run_exchange-balanced order_map order_map-IsMap double inventory inventory-IsMap commands mids
      aapl commands-HasUser

write_snapshot-balanced_example :
    let entries = assoc_entries same_ticker same_ticker_iff in
    (users : UserRegistry inventory) × (file : List (Row ℤ)) × (run_exchange order_map double
        inventory
        (new_router order_map)
        (new_registry inventory)
        commands
        mids
      ≡ some users)
    × (write_snapshot inventory entries true users ≡ some file)
    × (total_rows aapl file ≡ pos 0)
write_snapshot-balanced_example =
    write_snapshot-balanced double inventory (assoc_entries same_ticker same_ticker_iff)
      (assoc_map-IsIteration same_ticker same_ticker_iff) order_map order_map-IsMap inventory-IsMap
      commands mids aapl commands-HasUser

-- Every message, with zeros behind its member, and with a `sendto` that does not fail.
abbrev popped_of : List WireMarketDataMessage → List Popped
popped_of [] = []
popped_of (msg ∷ msgs) =
    record { msg = msg; padding = zeros (padding_size msg); was_sent = true } ∷ popped_of msgs

msg-popped_of : (msgs : List WireMarketDataMessage) → map (λ p. p.msg) (popped_of msgs) ≡ msgs
msg-popped_of [] = refl
msg-popped_of (msg ∷ msgs) = ap (λ l. msg ∷ l) (msg-popped_of msgs)

popped_of-IsPadded : (msgs : List WireMarketDataMessage) → All IsPadded (popped_of msgs)
popped_of-IsPadded [] = tt
popped_of-IsPadded (msg ∷ msgs) = (length-zeros (padding_size msg), popped_of-IsPadded msgs)

abbrev published : List WireMarketDataMessage
published = (run_matching_engine order_map (new_router order_map) no_output commands).1.market_data

Fits-small : (n : ℕ) → n < 1000 → Fits (pos n)
Fits-small n h = (omega arith, omega arith)

commands-Fits : All FitsCommand commands
commands-Fits =
    let one = Fits-small 1 (omega arith) in
    let two = Fits-small 2 (omega arith) in
    (
      (one, one, Fits-small 101 (omega arith), Fits-small 10 (omega arith)),
      ((two, two, Fits-small 102 (omega arith), Fits-small 15 (omega arith)), ((two, two), tt)),
    )

run_publisher-run_example :
    ArePublished (run_publisher [] (popped_of published)) (sent (popped_of published))
run_publisher-run_example =
    run_publisher-run order_map order_map-IsMap commands (popped_of published) commands-Fits
      (msg-popped_of published) (popped_of-IsPadded published)
