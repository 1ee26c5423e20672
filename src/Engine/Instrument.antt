-- ===== src/Engine/Instrument.antt =====
-- common/engine/instruments.hpp, which no other part of the program uses.
mod Tests
use toy_exchange.Base.Int.{ℤ, ◌-ℤ◌}
use toy_exchange.Core.Types.{Ticker}

pub record Instrument : Type 0 where
  pub price : ℤ
  pub ticker : Ticker

abbrev pub calc_pnl : Instrument → ℤ → ℤ
calc_pnl i spot = spot -ℤ i.price
