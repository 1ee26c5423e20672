-- ===== src/Engine/User/Position.antt =====
-- What `ApplyFill` and `RefreshUnrealizedPnl` do to positions.
use toy_exchange.Base.{◌≡◌, ◌≢◌, refl, arith, Option-cases, inl, inr, ◌∙◌, ap}
use toy_exchange.Base.Int.{ℤ, ◌+ℤ◌}
use toy_exchange.Core.Tickers.{Ticker-cases}
use toy_exchange.Core.Types.{Ticker, Side}
use toy_exchange.Extern.UnorderedMap.{IsMap}
use toy_exchange.Extern.Double.{Double}
use toy_exchange.Engine.User.{
  Holding, Inventory, User, signed_delta, fill_holding, holding_of, apply_fill,
  refresh_unrealized_pnl, position, volume_at,
}

volume-fill_holding :
    {W : Type 0} (d : Double W) (h : Holding W) (side : Side) (price volume : ℤ)
    → (fill_holding d h side price volume).volume ≡ h.volume +ℤ signed_delta side volume
unfolding fill_holding
volume-fill_holding d h side price volume = refl

module _ {W : Type 0} (d : Double W) (inv : Inventory W) (laws : IsMap inv) where
  volume-holding_of :
      (u : User inv) (t : Ticker) → (holding_of d inv u t).volume ≡ position d inv u t
  unfolding position
  volume-holding_of u t = ground arith

  pub position-apply_fill_self :
      (u : User inv) (t : Ticker) (side : Side) (price volume : ℤ)
      → position d inv (apply_fill d inv u t side price volume) t
        ≡ position d inv u t +ℤ signed_delta side volume
  unfolding apply_fill position
  position-apply_fill_self u t side price volume =
      let h = fill_holding d (holding_of d inv u t) side price volume in
      ap volume_at (laws.find-put_self t h u.inventory)
      ∙ volume-fill_holding d (holding_of d inv u t) side price volume
      ∙ ap (λ p. p +ℤ signed_delta side volume) (volume-holding_of u t)

  pub position-apply_fill_ne :
      (u : User inv) (t : Ticker) (side : Side) (price volume : ℤ) (s : Ticker)
      → s ≢ t
      → position d inv (apply_fill d inv u t side price volume) s ≡ position d inv u s
  unfolding apply_fill position
  position-apply_fill_ne u t side price volume s ne = ap volume_at (
      laws.find-put_ne s t (fill_holding d (holding_of d inv u t) side price volume) u.inventory ne)

  -- Marking to market moves no position.
  pub position-refresh :
      (u : User inv) (t s : Ticker) (mid : ℤ)
      → position d inv (refresh_unrealized_pnl d inv u t mid) s ≡ position d inv u s
  unfolding position refresh_unrealized_pnl
  position-refresh u t s mid = elim (Option-cases (inv.find t u.inventory)) [
    | inl missing ↦ rw (missing, refresh_unrealized_pnl) refl
    | inr (h, found) ↦
        rw (found, refresh_unrealized_pnl)
          (elim (Ticker-cases s t) [
            | inl e ↦ rw (e, found) (ap volume_at (laws.find-put_self t _ u.inventory))
            | inr ne ↦ ap volume_at (laws.find-put_ne s t _ u.inventory ne)
          ])
  ]

  -- A fill changes the position of its ticker by the signed volume and no other, and marking to
  -- market changes none.
  position-apply_fill :
      (u : User inv) (t s : Ticker) (side : Side) (price volume mid : ℤ)
      → let u' = apply_fill d inv u t side price volume in
        (position d inv u' t ≡ position d inv u t +ℤ signed_delta side volume)
        × (s ≢ t → position d inv u' s ≡ position d inv u s)
        × (position d inv (refresh_unrealized_pnl d inv u' t mid) s ≡ position d inv u' s)
  position-apply_fill u t s side price volume mid = (
    position-apply_fill_self u t side price volume,
    position-apply_fill_ne u t side price volume s,
    position-refresh (apply_fill d inv u t side price volume) t s mid,
  )
