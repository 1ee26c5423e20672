-- ===== src/Net/Gateway/ReadFrom.antt =====
-- The results of `ReadFrom` of common/net/gateway.cpp: when it returns, and when `Dispatch` throws.
use toy_exchange.Base.{◌≡◌, refl, ℕ, List, Option, none, some, if◌then◌else◌}
use toy_exchange.Core.Types.{Ticker, InboundCommand}
use toy_exchange.Net.Gateway.{
  ReadResult, Connection, Reading, start_reading, read_loop, ConnectionMap, Gateway, dispatch_all,
  close_connection, read_from,
}

module _ (t : ConnectionMap) (make_ticker : List ℕ → Option Ticker) where
  -- The table after a call of `ReadFrom` that throws nothing.
  abbrev pub after : Gateway t → ℕ → Reading → List InboundCommand → Gateway t
  after g fd r out =
      let stored : Connection = record { filled = r.filled } in
      let g' : Gateway t = record { connections = t.put fd stored g.connections; outbound = out } in
      if r.is_open then g' else close_connection t make_ticker g' fd

  pub read_from-after :
      (g : Gateway t) (fd : ℕ) (c : Connection) (rs : List ReadResult) (out : List InboundCommand)
      → t.find fd g.connections ≡ some c
      → dispatch_all t make_ticker g.outbound (read_loop (start_reading c) rs).dispatched ≡ some out
      → read_from t make_ticker g fd rs ≡ some (after g fd (read_loop (start_reading c) rs) out)
  unfolding read_from
  read_from-after g fd c rs out found e = rw (read_from, found, e) refl

  pub read_from-thrown :
      (g : Gateway t) (fd : ℕ) (c : Connection) (rs : List ReadResult)
      → t.find fd g.connections ≡ some c
      → dispatch_all t make_ticker g.outbound (read_loop (start_reading c) rs).dispatched ≡ none
      → read_from t make_ticker g fd rs ≡ none
  unfolding read_from
  read_from-thrown g fd c rs found e = rw (read_from, found, e) refl

  pub read_from-missing :
      (g : Gateway t) (fd : ℕ) (rs : List ReadResult)
      → t.find fd g.connections ≡ none
      → read_from t make_ticker g fd rs ≡ some g
  unfolding read_from
  read_from-missing g fd rs missing = rw (read_from, missing) refl
