-- ===== src/Net/Gateway/Tests.antt =====
-- A message in two reads and the start of the next one.
use toy_exchange.Base.{◌≡◌, refl, ℕ, zero, suc, List, [], ◌∷◌, ◌++◌, arith, map, length}
use toy_exchange.Net.Gateway.{
  start_reading, new_connection, ReadResult, received, would_block, Reading, receive, read_loop,
}
use toy_exchange.Net.Gateway.Framing.{IsFramed, taken, read_loop-IsFramed}

abbrev first_reading : Reading
first_reading = start_reading new_connection

-- `n` bytes of value 7.
abbrev sevens : ℕ → List ℕ
sevens zero = []
sevens (suc n) = 7 ∷ sevens n

abbrev reads : List ReadResult
reads = received (sevens 20) ∷ []

abbrev more_reads : List ReadResult
more_reads = received (sevens 30) ∷ received (sevens 10) ∷ would_block ∷ []

-- The connection after the first call.
unfoldable started : Reading
unfolding read_loop
started = read_loop first_reading reads

started-IsFramed : IsFramed (sevens 20) started
unfolding started
started-IsFramed =
    read_loop-IsFramed [] first_reading reads (refl, tt, omega arith) (omega arith, tt)

one_message :
    (map length (read_loop started more_reads).dispatched ≡ 50 ∷ [])
    × (length (read_loop started more_reads).filled ≡ 10)
unfolding started read_loop
one_message = (refl, refl)

read_loop-IsFramed_example :
    IsFramed (sevens 20 ++ taken started more_reads) (read_loop started more_reads)
unfolding started receive
read_loop-IsFramed_example =
    read_loop-IsFramed (sevens 20) started more_reads started-IsFramed
      (omega arith, (omega arith, tt))
