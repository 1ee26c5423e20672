-- ===== src/Core/Seqlock.antt =====
-- common/core/seqlock.hpp: its fields, and a `Store` that no reader interrupts. Threads has the
-- steps of both operations.
pub mod Threads
use toy_exchange.Base.{ℕ, ◌+◌}

pub record Seqlock (T : Type 0) : Type 0 where
  pub sequence : ℕ
  pub value : T

module _ {T : Type 0} where
  -- `Store` run to its end.
  unfoldable pub store : T → Seqlock T → Seqlock T
  store v s = record { sequence = s.sequence + 2; value = v }
