-- ===== src/Base/Loop.antt =====
-- `while` loops on fuel, with the facts that turn a loop into a recursion.
use Prim.Native.Nat.{ℕ, zero, suc}
use mathlib.Core.Path.{◌≡◌, refl}
use mathlib.Core.Bool.{Bool, true, false}

module _ {ℓ} {S : Type ℓ} (test : S → Bool) (body : S → S) where
  -- At most `fuel` rounds. The cases of the `elim` wait for the test.
  unfoldable pub while : ℕ → S → S
  while zero s = s
  while (suc fuel) s = elim (test s) [ true ↦ while fuel (body s) | false ↦ s ]

  pub while_stop : (fuel : ℕ) (s : S) → test s ≡ false → while fuel s ≡ s
  unfolding while
  while_stop zero s e = refl
  while_stop (suc fuel) s e = rw (e, while)

  pub while_step : (fuel : ℕ) (s : S) → test s ≡ true → while (suc fuel) s ≡ while fuel (body s)
  unfolding while
  while_step fuel s e = rw (e, while)
