-- ===== src/Net/Gateway.antt =====
-- The gateway of common/net/gateway.hpp and gateway.cpp: its table of connections, over what
-- `epoll_wait`, `accept4` and `read` return.
pub mod Framing
pub mod ReadFrom
pub mod Clients
pub mod Buffers
pub mod Sockets
mod Tests
use toy_exchange.Base.{
  ◌≡◌, ℕ, ◌-◌, List, [], ◌∷◌, ◌++◌, Option, none, some, Bool, true, false, if◌then◌else◌, ltb, ◌==◌,
  length, foldl,
}
use toy_exchange.Core.Types.{Ticker, InboundCommand}
use toy_exchange.Extern.UnorderedMap.{UnorderedMap}
use toy_exchange.Net.Wire.{decode_inbound_message}
use toy_exchange.Net.Wire.Bytes.{message_of_bytes}

-- `sizeof(InboundWireMessage)`: one byte of type, and the packed `WireOrderAdd`.
abbrev pub message_size : ℕ
message_size = 50

-- What a call of `read` comes to: bytes, the end of the stream, an empty socket, or an error.
pub data ReadResult : Type 0 where
  received : List ℕ → ReadResult
  end_of_stream would_block failed : ReadResult

-- The part of `buffer_` before `filled_`.
pub record Connection : Type 0 where
  pub filled : List ℕ

abbrev pub new_connection : Connection
new_connection = record { filled = [] }

-- `ReadFrom` under way: the connection's buffer, whether it is still open, and the messages that
-- were handed to `Dispatch`.
pub record Reading : Type 0 where
  pub filled : List ℕ
  pub is_open : Bool
  pub dispatched : List (List ℕ)

abbrev pub start_reading : Connection → Reading
start_reading c = record { filled = c.filled; is_open = true; dispatched = [] }

-- The bytes are appended; a full buffer is dispatched and is filled anew.
unfoldable pub receive : Reading → List ℕ → Reading
receive c bytes =
    let buffer = c.filled ++ bytes in
    if length buffer == message_size
    then record c { filled = []; dispatched = c.dispatched ++ buffer ∷ [] }
    else record c { filled = buffer }

-- The loop of `ReadFrom` over the results of its calls of `read`. A read of fewer bytes than were
-- asked for ends it, and so does the end of the list.
unfoldable pub read_loop : Reading → List ReadResult → Reading
unfolding receive
read_loop c [] = c
read_loop c (received bytes ∷ rs) =
    let remaining = message_size - length c.filled in
    let next = receive c bytes in
    let rest = read_loop next rs in if ltb (length bytes) remaining then next else rest
read_loop c (end_of_stream ∷ rs) = record c { is_open = false }
read_loop c (would_block ∷ rs) = c
read_loop c (failed ∷ rs) = record c { is_open = false }

-- `connections_`, by descriptor.
abbrev pub ConnectionMap : Type 1
ConnectionMap = UnorderedMap ℕ Connection

-- `outbound_` is all that was pushed.
pub record Gateway (t : ConnectionMap) : Type 0 where
  pub connections : t.Table
  pub outbound : List InboundCommand

-- What `epoll_wait` reports: connections to accept, or a connection to read from.
pub data Event : Type 0 where
  acceptable : List ℕ → Event
  readable : ℕ → List ReadResult → Event

-- `make_ticker` is the constructor of `boost::static_string`; `none` is an exception.
module _ (t : ConnectionMap) (make_ticker : List ℕ → Option Ticker) where
  unfoldable pub dispatch : List InboundCommand → List ℕ → Option (List InboundCommand)
  dispatch outbound bytes = elim (decode_inbound_message make_ticker (message_of_bytes bytes)) [
    | none ↦ none
    | some command ↦ some (outbound ++ command ∷ [])
  ]

  -- The calls of `Dispatch` in the loop of `ReadFrom`, up to the first that throws.
  unfoldable pub dispatch_all : List InboundCommand → List (List ℕ) → Option (List InboundCommand)
  unfolding dispatch
  dispatch_all outbound [] = some outbound
  dispatch_all outbound (bytes ∷ messages) = elim (dispatch outbound bytes) [
    | none ↦ none
    | some outbound' ↦ dispatch_all outbound' messages
  ]

  abbrev pub close_connection : Gateway t → ℕ → Gateway t
  close_connection g fd = record g { connections = t.erase fd g.connections }

  abbrev pub accept_connection : Gateway t → ℕ → Gateway t
  accept_connection g fd = record g { connections = t.put fd new_connection g.connections }

  -- The loop of `AcceptConnections` over what `accept4` returns before it fails.
  abbrev pub accept_connections : Gateway t → List ℕ → Gateway t
  accept_connections g fds = foldl accept_connection g fds

  unfoldable pub read_from : Gateway t → ℕ → List ReadResult → Option (Gateway t)
  unfolding dispatch_all
  read_from g fd rs = elim (t.find fd g.connections) [
    | none ↦ some g
    | some c ↦
        let r = read_loop (start_reading c) rs in
        elim (dispatch_all g.outbound r.dispatched) [
          | none ↦ none
          | some outbound ↦
              let stored : Connection = record { filled = r.filled } in
              let g' : Gateway t = record {
                connections = t.put fd stored g.connections;
                outbound = outbound;
              } in
              some (if r.is_open then g' else close_connection g' fd)
        ]
  ]

  abbrev pub close_all_connections : Gateway t → Gateway t
  close_all_connections g = record g { connections = t.empty }

  -- What the loop of `Run` does for an event.
  unfoldable pub handle_event : Gateway t → Event → Option (Gateway t)
  unfolding read_from
  handle_event g (acceptable fds) = some (accept_connections g fds)
  handle_event g (readable fd rs) = read_from g fd rs

  -- The loop, for the events of its calls of `epoll_wait` until `Stop`.
  unfoldable pub handle_events : Gateway t → List Event → Option (Gateway t)
  unfolding handle_event
  handle_events g [] = some g
  handle_events g (event ∷ events) = elim (handle_event g event) [
    | none ↦ none
    | some g' ↦ handle_events g' events
  ]

  unfoldable pub run_gateway : Gateway t → List Event → Option (Gateway t)
  unfolding handle_events
  run_gateway g events = elim (handle_events g events) [
    | none ↦ none
    | some g' ↦ some (close_all_connections g')
  ]
