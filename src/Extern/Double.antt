-- ===== src/Extern/Double.antt =====
-- The arithmetic on `double` that the program uses. Nothing is asked of it: the theorems hold
-- whatever the rounding.
use toy_exchange.Base.Int.{ℤ}

pub record Double (W : Type 0) : Type 0 where
  pub zero_usd : W
  pub of_int : ℤ → W
  pub add : W → W → W
  pub sub : W → W → W
  pub mul : W → W → W
  pub div : W → W → W
  pub llround : W → ℤ
