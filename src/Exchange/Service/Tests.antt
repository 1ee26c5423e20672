-- ===== src/Exchange/Service/Tests.antt =====
-- A client whose order to sell arrives in two pieces.
use toy_exchange.Base.{
  ◌≡◌, ◌<◌, refl, ℕ, List, [], ◌∷◌, ◌++◌, some, map, All, arith, length, take, drop, ◌==◌, ==_iff,
  Bool-cases, inl, inr, subst,
}
use toy_exchange.Base.Int.{pos, Fits}
use mathlib.Core.Option.{some-injective}
use toy_exchange.Core.Types.{sell, InboundCommand, add}
use toy_exchange.Extern.AssocMap.{assoc_map-IsMap}
use toy_exchange.Engine.MatchingEngine.Tests.{order_map, order_map-IsMap, aapl, make_order}
use toy_exchange.Engine.Router.{new_router}
use toy_exchange.Engine.UserRegistry.{UserRegistry, new_registry, market_participant_count}
use toy_exchange.Net.Wire.{encode_ticker, decode_inbound_message}
use toy_exchange.Net.Wire.Bytes.{int64_bytes, message_of_bytes}
use toy_exchange.Net.Gateway.{
  message_size, new_connection, received, would_block, read_loop, receive, read_from, Gateway,
  handle_events,
}
use toy_exchange.Net.Gateway.Framing.{join}
use toy_exchange.Net.Gateway.Clients.{client_bytes, IsSendable}
use toy_exchange.Net.Gateway.Clients.Tests.{make_ticker, make_ticker-IsStaticString, table}
use toy_exchange.Net.Gateway.Clients.Run.{Arrival, event_of, update, IsSynced, AreArrivals}
use toy_exchange.Workers.Inventory.Tests.{double, inventory, inventory-IsMap}
use toy_exchange.Workers.Inventory.Settlement.{total_position}
use toy_exchange.Exchange.{run_exchange}
use toy_exchange.Exchange.Balance.{HasUser}
use toy_exchange.Exchange.Service.{serve-balanced}

abbrev offer : InboundCommand
offer = add (make_order (pos 1) (pos 1) sell (pos 101) (pos 10))

abbrev sends : ℕ → List InboundCommand
sends = update (λ k. []) 5 (offer ∷ [])

abbrev stream_of : ℕ → List ℕ
stream_of k = join (map client_bytes (sends k))

abbrev arrivals : List Arrival
arrivals =
    record {
      fd = 5;
      reads = received (take 20 (client_bytes offer)) ∷ [];
      more = drop 20 (client_bytes offer);
    }
    ∷ record {
      fd = 5;
      reads = received (drop 20 (client_bytes offer)) ∷ would_block ∷ [];
      more = [];
    }
    ∷ []

abbrev connected : Gateway table
connected = record { connections = (5, new_connection) ∷ []; outbound = [] }

connected-IsSynced :
    IsSynced table
      (assoc_map-IsMap _ ==_iff)
      make_ticker
      make_ticker-IsStaticString
      connected
      stream_of
      sends
connected-IsSynced fd c found =
    subst (λ d. (length d.filled < message_size) × (d.filled ++ stream_of fd ≡ stream_of fd)) fresh
      (omega arith, refl)
  where
    fresh : new_connection ≡ c
    fresh = elim (Bool-cases (fd == 5)) [
      | inl same ↦ some-injective _ _ (rw same at found)
      | inr other ↦ absurd (cc (rw other at found))
    ]

small : (n : ℕ) → n < 1000 → Fits (pos n)
small n h = (omega arith, omega arith)

sends-IsSendable : (k : ℕ) → All IsSendable (sends k)
sends-IsSendable k = elim (Bool-cases (k == 5)) [
  | inl same ↦
      let one = small 1 (omega arith) in
      rw same (
        (
          one,
          one,
          (omega arith, (omega arith, (omega arith, (omega arith, (omega arith, tt))))),
          small 101 (omega arith),
          small 10 (omega arith),
        ),
        tt,
      )
  | inr other ↦ rw other tt
]

sends-HasUser : (k : ℕ) → All (HasUser market_participant_count) (sends k)
sends-HasUser k = elim (Bool-cases (k == 5)) [
  | inl same ↦ rw same (omega arith, tt)
  | inr other ↦ rw other tt
]

arrivals-AreArrivals :
    AreArrivals table
      (assoc_map-IsMap _ ==_iff)
      make_ticker
      make_ticker-IsStaticString
      connected
      stream_of
      arrivals
unfolding read_from client_bytes receive int64_bytes encode_ticker read_loop decode_inbound_message
    message_of_bytes
arrivals-AreArrivals = (
  new_connection,
  refl,
  (omega arith, tt),
  refl,
  (record { filled = take 20 (client_bytes offer) }, refl, (omega arith, tt), refl, tt),
)

serve-balanced_example :
    (g : Gateway table) × (users : UserRegistry inventory) × (handle_events table make_ticker
        connected
        (map event_of arrivals)
      ≡ some g)
    × (run_exchange order_map double inventory
          (new_router order_map)
          (new_registry inventory)
          g.outbound
          []
        ≡ some users)
    × (length users ≡ 100)
    × (total_position double inventory users aapl ≡ pos 0)
serve-balanced_example =
    serve-balanced table (assoc_map-IsMap _ ==_iff) make_ticker make_ticker-IsStaticString order_map
      order_map-IsMap double inventory inventory-IsMap arrivals connected stream_of sends [] aapl
      refl connected-IsSynced sends-IsSendable sends-HasUser arrivals-AreArrivals
