-- ===== src/Net/Gateway/Sockets.antt =====
-- The life of a `Gateway` of common/net/gateway.cpp with its descriptors: the constructor, `Run`
-- from the calls that set it up to those that close it, and the destructor.
pub mod Tables
pub mod Lifetime
pub mod Release
pub mod Events
mod Tests
use toy_exchange.Base.{
  ◌≡◌, ℕ, zero, suc, List, [], ◌∷◌, ◌++◌, Option, none, some, Bool, true, false, if◌then◌else◌,
}
use toy_exchange.Core.Types.{Ticker, InboundCommand}
use toy_exchange.Extern.Kernel.{Kernel}
use toy_exchange.Net.Descriptors.{Held, start_held, close_fd, close_member, open_fd}
use toy_exchange.Net.Gateway.{
  ReadResult, Connection, Reading, start_reading, read_loop, ConnectionMap, Gateway, dispatch,
  accept_connection, close_connection, close_all_connections,
}

-- What a call of `epoll_wait` reports: clients that wait for `accept4`, or a connection to read.
pub data Arrival : Type 0 where
  waiting : ℕ → Arrival
  sent : ℕ → List ReadResult → Arrival

-- Which of the calls that set the listening socket up succeed.
pub record SetUp : Type 0 where
  pub has_socket : Bool
  pub is_bound : Bool
  pub is_listening : Bool
  pub has_epoll : Bool

module _ (k : Kernel) (t : ConnectionMap) (make_ticker : List ℕ → Option Ticker)
    (entries : t.Table → List (ℕ × Connection)) where
  pub record Process : Type 0 where
    pub gateway : Gateway t
    pub listen_fd : Option ℕ
    pub epoll_fd : Option ℕ
    pub held : Held k

  abbrev pub construct : k.Files → Process
  construct files = record {
    gateway = record { connections = t.empty; outbound = [] };
    listen_fd = none;
    epoll_fd = none;
    held = start_held k files;
  }

  -- The loop of `AcceptConnections`, for the clients that wait.
  abbrev pub accept_waiting : Process → ℕ → Process
  accept_waiting p zero = p
  accept_waiting p (suc n) = elim (open_fd k p.held true) [
    | none ↦ p
    | some (fd, held) ↦
        accept_waiting
          (record p { gateway = accept_connection t make_ticker p.gateway fd; held = held }) n
  ]

  -- The calls of `Dispatch` in `ReadFrom`, with the message for which one throws.
  abbrev pub dispatch_until :
      List InboundCommand → List (List ℕ) → List InboundCommand × Option (List ℕ)
  dispatch_until outbound [] = (outbound, none)
  dispatch_until outbound (bytes ∷ messages) = elim (dispatch t make_ticker outbound bytes) [
    | none ↦ (outbound, some bytes)
    | some outbound' ↦ dispatch_until outbound' messages
  ]

  abbrev pub fill_buffer : Process → ℕ → List InboundCommand → List ℕ → Process
  fill_buffer p fd outbound bytes =
      let stored : Connection = record { filled = bytes } in
      record p {
        gateway = record {
          connections = t.put fd stored p.gateway.connections;
          outbound = outbound;
        };
      }

  abbrev pub close_client : Process → ℕ → Process
  close_client p fd = record p {
    gateway = close_connection t make_ticker p.gateway fd;
    held = close_fd k p.held fd;
  }

  -- `ReadFrom`, and whether it throws. A buffer whose message could not be decoded stays full.
  unfoldable pub read_client : Process → ℕ → List ReadResult → Process × Bool
  read_client p fd rs = elim (t.find fd p.gateway.connections) [
    | none ↦ (p, false)
    | some c ↦
        let r = read_loop (start_reading c) rs in
        let (outbound, thrown) = dispatch_until p.gateway.outbound r.dispatched in
        elim thrown [
          | some bytes ↦ (fill_buffer p fd outbound bytes, true)
          | none ↦
              let p' = fill_buffer p fd outbound r.filled in
              (if r.is_open then p' else close_client p' fd, false)
        ]
  ]

  unfoldable pub handle_arrival : Process → Arrival → Process × Bool
  unfolding read_client
  handle_arrival p (waiting n) = (accept_waiting p n, false)
  handle_arrival p (sent fd rs) = read_client p fd rs

  -- The loop of `Run` until `Stop` or an exception.
  unfoldable pub handle_arrivals : Process → List Arrival → Process × Bool
  unfolding handle_arrival
  handle_arrivals p [] = (p, false)
  handle_arrivals p (a ∷ more) =
      let (p', thrown) = handle_arrival p a in
      elim thrown [ true ↦ (p', true) | false ↦ handle_arrivals p' more ]

  abbrev pub close_entries : Held k → List (ℕ × Connection) → Held k
  close_entries h [] = h
  close_entries h ((fd, c) ∷ es) = close_entries (close_fd k h fd) es

  -- `CloseAllConnections`
  abbrev pub close_clients : Process → Process
  close_clients p = record p {
    gateway = close_all_connections t make_ticker p.gateway;
    held = close_entries p.held (entries p.gateway.connections);
  }

  -- The closes at the end of `Run`, which the destructor makes for what is still open.
  abbrev pub close_all : Process → Process
  close_all p =
      let q = close_clients p in
      record q {
        listen_fd = none;
        epoll_fd = none;
        held = close_member k (close_member k q.held q.epoll_fd) q.listen_fd;
      }

  -- `Run` from the loop on.
  unfoldable pub serve : Process → List Arrival → Process × Bool
  unfolding handle_arrivals
  serve p arrivals =
      let (q, thrown) = handle_arrivals p arrivals in (if thrown then q else close_all q, thrown)

  -- `Run` from `epoll_create1` on.
  unfoldable pub poll : Process → Bool → List Arrival → Process × Bool
  unfolding serve
  poll p has_epoll arrivals = elim (open_fd k p.held has_epoll) [
    | none ↦ (record p { epoll_fd = none }, true)
    | some (epoll, held) ↦ serve (record p { epoll_fd = some epoll; held = held }) arrivals
  ]

  -- `Run`, and whether it throws.
  unfoldable pub run : Process → SetUp → List Arrival → Process × Bool
  unfolding poll
  run p set_up arrivals = elim (open_fd k p.held set_up.has_socket) [
    | none ↦ (record p { listen_fd = none }, true)
    | some (listen, held) ↦
        let p' = record p { listen_fd = some listen; held = held } in
        if set_up.is_bound
        then if set_up.is_listening then poll p' set_up.has_epoll arrivals else (p', true)
        else (p', true)
  ]
