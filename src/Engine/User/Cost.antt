-- ===== src/Engine/User/Cost.antt =====
-- The cost basis and the profit that `ApplyFill` keeps when a fill goes against the position.
use toy_exchange.Base.{◌≡◌, refl, Bool, true, false, arith, zero, suc}
use toy_exchange.Base.Int.{ℤ, pos, negsuc, ltb_ℤ, ◌==ℤ◌, ◌+ℤ◌, ◌-ℤ◌, ◌<ℤ◌, min_ℤ}
use toy_exchange.Core.Types.{buy, sell}
use toy_exchange.Extern.Double.{Double}
use toy_exchange.Engine.User.{
  Holding, same_direction, flipped_sign, abs, negate, book_fill, fill_holding, to_usd,
}

-- What the tests of `ApplyFill` come to.
abbrev Tested : ℤ → ℤ → Bool → Bool → ℤ → Type 0
Tested old delta flipped flat closed =
    (same_direction old delta ≡ false)
    × (flipped_sign old (old +ℤ delta) ≡ flipped)
    × (((old +ℤ delta) ==ℤ pos 0) ≡ flat)
    × (min_ℤ (abs old) (abs delta) ≡ closed)

reduces_long :
    (old volume : ℤ)
    → pos 0 <ℤ volume
    → volume <ℤ old
    → Tested old (negate volume) false false volume
unfolding ◌+ℤ◌ ◌-ℤ◌
reduces_long (pos a) (pos (suc b)) p q = (ground arith, ground arith, ground arith, ground arith)
reduces_long (pos a) (pos zero) p q = absurd (omega arith)
reduces_long (negsuc a) (pos (suc b)) p q = absurd (omega arith)
reduces_long (negsuc a) (pos zero) p q = absurd (omega arith)
reduces_long old (negsuc b) p q = absurd (omega arith)

closes_long : (old : ℤ) → pos 0 <ℤ old → Tested old (negate old) false true old
unfolding ◌+ℤ◌ ◌-ℤ◌
closes_long (pos (suc b)) p = (ground arith, ground arith, ground arith, ground arith)
closes_long (pos zero) p = absurd (omega arith)
closes_long (negsuc b) p = absurd (omega arith)

flips_long :
    (old volume : ℤ) → pos 0 <ℤ old → old <ℤ volume → Tested old (negate volume) true false old
unfolding ◌+ℤ◌ ◌-ℤ◌
flips_long (pos (suc a)) (pos (suc b)) p q =
    (ground arith, ground arith, ground arith, ground arith)
flips_long (pos a) (pos zero) p q = absurd (omega arith)
flips_long (pos zero) (pos (suc b)) p q = absurd (omega arith)
flips_long (negsuc a) v p q = absurd (omega arith)
flips_long (pos a) (negsuc b) p q = absurd (omega arith)

reduces_short :
    (old volume : ℤ) → pos 0 <ℤ volume → volume <ℤ negate old → Tested old volume false false volume
unfolding ◌+ℤ◌ ◌-ℤ◌
reduces_short (negsuc a) (pos (suc b)) p q =
    (ground arith, ground arith, ground arith, ground arith)
reduces_short (negsuc a) (pos zero) p q = absurd (omega arith)
reduces_short (pos a) (pos (suc b)) p q = absurd (ground arith)
reduces_short (pos a) (pos zero) p q = absurd (omega arith)
reduces_short old (negsuc b) p q = absurd (omega arith)

closes_short :
    (old volume : ℤ) → old <ℤ pos 0 → volume ≡ negate old → Tested old volume false true volume
unfolding ◌+ℤ◌ ◌-ℤ◌
closes_short (negsuc a) volume p q = rw q (ground arith, ground arith, ground arith, ground arith)
closes_short (pos a) volume p q = absurd (omega arith)

flips_short :
    (old volume : ℤ)
    → old <ℤ pos 0
    → negate old <ℤ volume
    → Tested old volume true false (negate old)
unfolding ◌+ℤ◌ ◌-ℤ◌
flips_short (negsuc a) (pos (suc b)) p q = (ground arith, ground arith, ground arith, ground arith)
flips_short (negsuc a) (pos zero) p q = absurd (ground arith)
flips_short (pos a) v p q = absurd (omega arith)
flips_short (negsuc a) (negsuc b) p q = absurd (ground arith)

module _ {W : Type 0} (d : Double W) where
  open d use {zero_usd, of_int, add, sub, mul, div}

  -- The holding after `closed` shares of a long position have been sold at `price`.
  abbrev pub sold : Holding W → ℤ → ℤ → ℤ → W → Holding W
  sold h price volume closed cost = record h {
    volume = h.volume +ℤ negate volume;
    avg_cost = cost;
    realized_pnl = add h.realized_pnl (mul (sub (to_usd d price) h.avg_cost) (of_int closed));
  }

  -- A sell of a positive volume against a long position books the profit of the shares that it
  -- closes, at the price less the average cost. Part of the position: the cost stays. All of it:
  -- the cost is zero. More than it: the rest is a short position that costs the price.
  pub fill_holding-long :
      (h : Holding W) (price volume : ℤ)
      → pos 0 <ℤ volume
      → pos 0 <ℤ h.volume
      → (volume <ℤ h.volume
          → fill_holding d h sell price volume ≡ sold h price volume volume h.avg_cost)
        × (volume ≡ h.volume
            → fill_holding d h sell price volume ≡ sold h price volume h.volume zero_usd)
        × (h.volume <ℤ volume
            → fill_holding d h sell price volume ≡ sold h price volume h.volume (to_usd d price))
  unfolding fill_holding book_fill
  fill_holding-long h price volume p l = (reduced, closed, flipped)
    where
      long : ltb_ℤ (pos 0) h.volume ≡ true
      long = ground arith

      reduced :
          volume <ℤ h.volume
          → fill_holding d h sell price volume ≡ sold h price volume volume h.avg_cost
      reduced q = let (s, f, z, c) = reduces_long h.volume volume p q in rw (s, f, z, c, long) refl

      closed :
          volume ≡ h.volume
          → fill_holding d h sell price volume ≡ sold h price volume h.volume zero_usd
      closed q = let (s, f, z, c) = closes_long h.volume l in rw (q, s, f, z, c, long) refl

      flipped :
          h.volume <ℤ volume
          → fill_holding d h sell price volume ≡ sold h price volume h.volume (to_usd d price)
      flipped q = let (s, f, z, c) = flips_long h.volume volume l q in rw (s, f, c, long) refl

  -- The holding after `closed` shares of a short position have been bought back at `price`.
  abbrev pub bought : Holding W → ℤ → ℤ → ℤ → W → Holding W
  bought h price volume closed cost = record h {
    volume = h.volume +ℤ volume;
    avg_cost = cost;
    realized_pnl = add h.realized_pnl (mul (sub h.avg_cost (to_usd d price)) (of_int closed));
  }

  -- A buy of a positive volume against a short position books the profit of the shares that it
  -- closes, at the average cost less the price. Part of the position: the cost stays. All of it:
  -- the cost is zero. More than it: the rest is a long position that costs the price.
  pub fill_holding-short :
      (h : Holding W) (price volume : ℤ)
      → pos 0 <ℤ volume
      → h.volume <ℤ pos 0
      → (volume <ℤ negate h.volume
          → fill_holding d h buy price volume ≡ bought h price volume volume h.avg_cost)
        × (volume ≡ negate h.volume
            → fill_holding d h buy price volume ≡ bought h price volume volume zero_usd)
        × (negate h.volume <ℤ volume
            → fill_holding d h buy price volume
              ≡ bought h price volume (negate h.volume) (to_usd d price))
  unfolding fill_holding book_fill
  fill_holding-short h price volume p l = (reduced, closed, flipped)
    where
      short : ltb_ℤ (pos 0) h.volume ≡ false
      short = ground arith

      reduced :
          volume <ℤ negate h.volume
          → fill_holding d h buy price volume ≡ bought h price volume volume h.avg_cost
      reduced q =
          let (s, f, z, c) = reduces_short h.volume volume p q in rw (s, f, z, c, short) refl

      closed :
          volume ≡ negate h.volume
          → fill_holding d h buy price volume ≡ bought h price volume volume zero_usd
      closed q = let (s, f, z, c) = closes_short h.volume volume l q in rw (s, f, z, c, short) refl

      flipped :
          negate h.volume <ℤ volume
          → fill_holding d h buy price volume
            ≡ bought h price volume (negate h.volume) (to_usd d price)
      flipped q = let (s, f, z, c) = flips_short h.volume volume l q in rw (s, f, c, short) refl
