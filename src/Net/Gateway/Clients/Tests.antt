-- ===== src/Net/Gateway/Clients/Tests.antt =====
-- Commands that arrive in pieces: of one client after it is accepted, and of two clients.
use toy_exchange.Base.{
  ◌≡◌, refl, ℕ, ◌<◌, List, [], ◌∷◌, ◌++◌, Option, none, some, if◌then◌else◌, subst, All, map,
  Bool-cases, inl, inr, arith, length, leb, ◌==◌, ==_iff, take, drop,
}
use toy_exchange.Base.Int.{pos}
use toy_exchange.Core.Types.{Ticker, max_ticker_length, InboundCommand, cancel}
use toy_exchange.Extern.AssocMap.{assoc_map, assoc_map-IsMap}
use toy_exchange.Net.Wire.RoundTrip.{IsStaticString}
use toy_exchange.Net.Wire.{encode_ticker, decode_inbound_message}
use toy_exchange.Net.Wire.Bytes.{int64_bytes, message_of_bytes}
use toy_exchange.Net.Gateway.{
  message_size, new_connection, would_block, end_of_stream, received, Event, acceptable, readable,
  handle_event, handle_events, read_loop, receive, ConnectionMap, Gateway, read_from,
}
use mathlib.Core.Option.{some-injective}
use toy_exchange.Net.Gateway.Framing.{join}
use toy_exchange.Net.Gateway.Clients.Run.{
  Arrival, event_of, update, Log, all_pushed, pushed_from, still_unread, IsSynced, AreArrivals,
  handle_events-serve,
}
use toy_exchange.Net.Gateway.Buffers.{HasRoom, AreReadable, handle_events-filled_lt}
use toy_exchange.Net.Gateway.Clients.{client_bytes, IsSendable}

abbrev pub make_ticker : List ℕ → Option Ticker
make_ticker cs = if leb (length cs) max_ticker_length then some cs else none

pub make_ticker-IsStaticString : IsStaticString make_ticker
make_ticker-IsStaticString = (λ cs h. ground arith, λ cs h. ground arith)

abbrev pub table : ConnectionMap
table = assoc_map (λ j k. j == k)

abbrev pub one : InboundCommand
one = cancel record { order_id = pos 1; user_id = pos 2; ticker = b'A' ∷ [] }

abbrev two : InboundCommand
two = cancel record { order_id = pos 3; user_id = pos 2; ticker = b'A' ∷ [] }

-- The start of a message.
abbrev rest : List ℕ
rest = take 7 (client_bytes one)

-- A connection is accepted, and sends a message in two pieces.
abbrev events : List Event
events =
    acceptable (5 ∷ [])
    ∷ readable 5 (received (take 20 (client_bytes one)) ∷ [])
    ∷ readable 5 (received (drop 20 (client_bytes one)) ∷ received rest ∷ [])
    ∷ []

abbrev no_connections : Gateway table
no_connections = record { connections = []; outbound = [] }

abbrev ended : Gateway table
ended = record { connections = (5, record { filled = rest }) ∷ []; outbound = one ∷ [] }

no_connections-HasRoom : HasRoom table (assoc_map-IsMap _ ==_iff) make_ticker no_connections
no_connections-HasRoom fd c found = cc

events-AreReadable : AreReadable table (assoc_map-IsMap _ ==_iff) make_ticker no_connections events
unfolding handle_event client_bytes receive int64_bytes encode_ticker read_loop
    decode_inbound_message message_of_bytes
events-AreReadable = (tt, ((omega arith, tt), ((omega arith, (omega arith, tt)), tt)))

events-ended : handle_events table make_ticker no_connections events ≡ some ended
unfolding handle_events client_bytes receive int64_bytes encode_ticker read_loop
    decode_inbound_message message_of_bytes
events-ended = refl

handle_events-filled_lt_example : length rest < message_size
handle_events-filled_lt_example =
    handle_events-filled_lt table (assoc_map-IsMap _ ==_iff) make_ticker no_connections ended events
      5 (record { filled = rest }) no_connections-HasRoom events-AreReadable events-ended refl

-- Two clients, one of which sends its message in two pieces around the message of the other.
abbrev sends : ℕ → List InboundCommand
sends = update (update (λ k. []) 5 (one ∷ [])) 6 (two ∷ [])

abbrev stream_of : ℕ → List ℕ
stream_of k = join (map client_bytes (sends k))

abbrev arrivals : List Arrival
arrivals =
    record {
      fd = 5;
      reads = received (take 20 (client_bytes one)) ∷ [];
      more = drop 20 (client_bytes one);
    }
    ∷ record { fd = 6; reads = received (client_bytes two) ∷ would_block ∷ []; more = [] }
    ∷ record {
      fd = 5;
      reads = received (drop 20 (client_bytes one)) ∷ end_of_stream ∷ [];
      more = [];
    }
    ∷ []

abbrev two_connections : Gateway table
two_connections = record {
  connections = (5, new_connection) ∷ (6, new_connection) ∷ [];
  outbound = [];
}

two_connections-IsSynced :
    IsSynced table
      (assoc_map-IsMap _ ==_iff)
      make_ticker
      make_ticker-IsStaticString
      two_connections
      stream_of
      sends
two_connections-IsSynced fd c found =
    subst (λ d. (length d.filled < message_size) × (d.filled ++ stream_of fd ≡ stream_of fd)) fresh
      (omega arith, refl)
  where
    fresh : new_connection ≡ c
    fresh = elim (Bool-cases (fd == 5)) [
      | inl first ↦ some-injective _ _ (rw first at found)
      | inr not_first ↦ elim (Bool-cases (fd == 6)) [
        | inl second ↦ some-injective _ _ (rw (not_first, second) at found)
        | inr neither ↦ absurd (cc (rw (not_first, neither) at found))
      ]
    ]

small_cancel-IsSendable :
    (id : ℕ)
    → id < 1000
    → IsSendable (cancel record { order_id = pos id; user_id = pos 2; ticker = b'A' ∷ [] })
small_cancel-IsSendable id h =
    ((omega arith, omega arith), (omega arith, omega arith), (omega arith, (omega arith, tt)))

sends-IsSendable : (k : ℕ) → All IsSendable (sends k)
sends-IsSendable k = elim (Bool-cases (k == 6)) [
  | inl second ↦ rw second (small_cancel-IsSendable 3 (omega arith), tt)
  | inr not_second ↦ elim (Bool-cases (k == 5)) [
    | inl first ↦ rw (not_second, first) (small_cancel-IsSendable 1 (omega arith), tt)
    | inr neither ↦ rw (not_second, neither) tt
  ]
]

arrivals-AreArrivals :
    AreArrivals table
      (assoc_map-IsMap _ ==_iff)
      make_ticker
      make_ticker-IsStaticString
      two_connections
      stream_of
      arrivals
unfolding read_from client_bytes receive int64_bytes encode_ticker read_loop decode_inbound_message
    message_of_bytes
arrivals-AreArrivals = (
  new_connection,
  refl,
  (omega arith, tt),
  refl,
  (
    new_connection,
    refl,
    (omega arith, tt),
    refl,
    (record { filled = take 20 (client_bytes one) }, refl, (omega arith, tt), refl, tt),
  ),
)

handle_events-serve_example :
    (log : Log) × (left : (ℕ → List InboundCommand)) × (g' : Gateway table) × (handle_events table
        make_ticker two_connections
        (map event_of arrivals)
      ≡ some g')
    × (g'.outbound ≡ all_pushed log)
    × ((k : ℕ) → sends k ≡ pushed_from k log ++ left k)
    × IsSynced table
        (assoc_map-IsMap _ ==_iff)
        make_ticker
        make_ticker-IsStaticString
        g'
        (still_unread stream_of arrivals)
        left
handle_events-serve_example =
    handle_events-serve table (assoc_map-IsMap _ ==_iff) make_ticker make_ticker-IsStaticString
      arrivals two_connections stream_of sends two_connections-IsSynced sends-IsSendable
      arrivals-AreArrivals
