-- ===== src/Net/Gateway/Sockets/Tests.antt =====
-- A gateway with a client that sends a message in two pieces and leaves.
use toy_exchange.Base.{◌≡◌, refl, ℕ, List, [], ◌∷◌, true, if◌then◌else◌, ◌==◌, ==_iff, take, drop}
use toy_exchange.Extern.AssocMap.{assoc_map-IsMap, assoc_entries, assoc_map-IsIteration}
use toy_exchange.Extern.FileTable.{file_table, file_table-IsKernel}
use toy_exchange.Net.Wire.{encode_ticker, decode_inbound_message}
use toy_exchange.Net.Wire.Bytes.{int64_bytes, message_of_bytes}
use toy_exchange.Net.Descriptors.{IsAsBefore}
use toy_exchange.Net.Gateway.{
  Connection, acceptable, readable, read_loop, dispatch, received, end_of_stream, handle_events,
}
use toy_exchange.Net.Gateway.Clients.{client_bytes}
use toy_exchange.Net.Gateway.Clients.Tests.{make_ticker, table, one}
use toy_exchange.Net.Gateway.Sockets.{
  Arrival, waiting, sent, SetUp, Process, construct, handle_arrivals, close_all, run,
}
use toy_exchange.Net.Gateway.Sockets.Release.{run_released}
use toy_exchange.Net.Gateway.Sockets.Events.{
  unless_thrown, events_of, handle_arrivals-handle_events,
}

abbrev connected : List (ℕ × Connection) → List (ℕ × Connection)
connected = assoc_entries (λ i j. i == j) ==_iff

abbrev all_well : SetUp
all_well = record { has_socket = true; is_bound = true; is_listening = true; has_epoll = true }

-- Descriptors 0, 1 and 2 are open; `Run` makes 3 and 4, and then 5 for a client.
abbrev files : List ℕ
files = 2 ∷ 1 ∷ 0 ∷ []

abbrev arrivals : ℕ → List Arrival
arrivals fd =
    waiting 1
    ∷ sent fd (received (take 20 (client_bytes one)) ∷ [])
    ∷ sent fd (received (drop 20 (client_bytes one)) ∷ end_of_stream ∷ [])
    ∷ []

abbrev made : Process file_table table make_ticker connected
made = construct file_table table make_ticker connected files

run_released_example :
    let (p, threw) = run file_table table make_ticker connected made all_well (arrivals 5) in
    IsAsBefore file_table files
      (if threw then (close_all file_table table make_ticker connected p).held else p.held)
    × IsAsBefore file_table files (close_all file_table table make_ticker connected p).held
run_released_example =
    run_released file_table file_table-IsKernel table (assoc_map-IsMap _ ==_iff) make_ticker
      connected (assoc_map-IsIteration _ ==_iff) files all_well (arrivals 5)

handle_arrivals-handle_events_example :
    handle_events table make_ticker made.gateway
      (events_of file_table table make_ticker connected made (arrivals 3))
    ≡ unless_thrown file_table table make_ticker connected
        (handle_arrivals file_table table make_ticker connected made (arrivals 3))
handle_arrivals-handle_events_example =
    handle_arrivals-handle_events file_table table make_ticker connected made (arrivals 3)

-- The two pieces are pushed as one command.
one_pushed :
    (run file_table table make_ticker connected made all_well (arrivals 5)).0.gateway.outbound
    ≡ one ∷ []
unfolding run read_loop client_bytes int64_bytes encode_ticker dispatch decode_inbound_message
    message_of_bytes
one_pushed = refl

-- The kernel gives the client descriptor 3.
events_made :
    events_of file_table table make_ticker connected made (arrivals 3)
    ≡ acceptable (3 ∷ [])
      ∷ readable 3 (received (take 20 (client_bytes one)) ∷ [])
      ∷ readable 3 (received (drop 20 (client_bytes one)) ∷ end_of_stream ∷ [])
      ∷ []
events_made = refl
