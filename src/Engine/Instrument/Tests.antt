-- ===== src/Engine/Instrument/Tests.antt =====
-- The test of tests/instruments_test.cpp, in prices.
use toy_exchange.Base.{◌≡◌, refl, ◌∷◌, []}
use toy_exchange.Base.Int.{pos, ◌-ℤ◌}
use toy_exchange.Engine.Instrument.{Instrument, calc_pnl}

abbrev equity : Instrument
equity = record { price = pos 100_000_000; ticker = b'A' ∷ b'A' ∷ b'P' ∷ b'L' ∷ [] }

equity_gains : calc_pnl equity (pos 105_000_000) ≡ pos 5_000_000
unfolding ◌-ℤ◌
equity_gains = refl
