-- ===== src/Engine/User.antt =====
-- `Holding` and `class User` of common/engine/user.hpp, with `ToUsd` and `ToPrice` of
-- common/core/types.hpp, over any arithmetic of doubles and any table of holdings.
pub mod Position
pub mod Cost
use toy_exchange.Base.{Option, none, some, Bool, true, false, ◌&&◌, ◌||◌, not, if◌then◌else◌}
use toy_exchange.Base.Int.{ℤ, pos, ltb_ℤ, ◌==ℤ◌, ◌+ℤ◌, ◌-ℤ◌, min_ℤ}
use toy_exchange.Core.Types.{Ticker, Side, buy, sell, price_multiplier}
use toy_exchange.Extern.UnorderedMap.{UnorderedMap}
use toy_exchange.Extern.Double.{Double}

pub record Holding (W : Type 0) : Type 0 where
  pub volume : ℤ
  pub avg_cost : W
  pub realized_pnl : W
  pub unrealized_pnl : W

abbrev pub Inventory : Type 0 → Type 1
Inventory W = UnorderedMap Ticker (Holding W)

pub record User {W : Type 0} (inv : Inventory W) : Type 0 where
  pub id : ℤ
  pub inventory : inv.Table

-- What `Position` makes of a lookup.
abbrev pub volume_at : {W : Type 0} → Option (Holding W) → ℤ
volume_at none = pos 0
volume_at (some h) = h.volume

-- `-value` and `std::abs`.
abbrev pub negate : ℤ → ℤ
negate a = pos 0 -ℤ a

abbrev pub abs : ℤ → ℤ
abs a = if ltb_ℤ a (pos 0) then negate a else a

abbrev pub same_sign : Bool → Bool → Bool
same_sign true b = b
same_sign false b = not b

abbrev pub signed_delta : Side → ℤ → ℤ
signed_delta buy volume = volume
signed_delta sell volume = negate volume

-- Flat, or a fill in the direction of the position.
abbrev pub same_direction : ℤ → ℤ → Bool
same_direction old delta = (old ==ℤ pos 0) || same_sign (ltb_ℤ (pos 0) old) (ltb_ℤ (pos 0) delta)

abbrev pub flipped_sign : ℤ → ℤ → Bool
flipped_sign old new =
    (ltb_ℤ (pos 0) old && ltb_ℤ new (pos 0)) || (ltb_ℤ old (pos 0) && ltb_ℤ (pos 0) new)

module _ {W : Type 0} (d : Double W) where
  open d use {zero_usd, of_int, add, sub, mul, div, llround}

  unfoldable pub to_usd : ℤ → W
  to_usd price = div (of_int price) (of_int (pos price_multiplier))

  unfoldable pub to_price : W → ℤ
  to_price usd = llround (mul usd (of_int (pos price_multiplier)))

  abbrev pub new_holding : Holding W
  new_holding = record {
    volume = pos 0;
    avg_cost = zero_usd;
    realized_pnl = zero_usd;
    unrealized_pnl = zero_usd;
  }

  -- The average cost rolled forward, or the profit of the closed part.
  unfoldable pub book_fill : Holding W → ℤ → W → Holding W
  book_fill h delta exec =
      let old = h.volume in
      if same_direction old delta
      then record h {
        avg_cost =
            div (add (mul h.avg_cost (of_int (abs old))) (mul exec (of_int (abs delta))))
              (add (of_int (abs old)) (of_int (abs delta)));
      }
      else (let closed = min_ℤ (abs old) (abs delta) in
          let per_unit = if ltb_ℤ (pos 0) old then sub exec h.avg_cost else sub h.avg_cost exec in
          record h { realized_pnl = add h.realized_pnl (mul per_unit (of_int closed)) })

  -- `ApplyFill` on the holding.
  unfoldable pub fill_holding : Holding W → Side → ℤ → ℤ → Holding W
  unfolding book_fill to_usd
  fill_holding h side exec_price trade_volume =
      let delta = signed_delta side trade_volume in
      let old = h.volume in
      let exec = to_usd exec_price in
      let booked = book_fill h delta exec in
      let new = old +ℤ delta in
      let cost =
        if not (same_direction old delta) && flipped_sign old new
        then exec
        else if new ==ℤ pos 0
        then zero_usd
        else booked.avg_cost in
      record booked { avg_cost = cost; volume = new }

  module _ (inv : Inventory W) where
    -- The holding of a ticker, which `inventory_[ticker]` makes where there is none.
    abbrev pub holding_of : User inv → Ticker → Holding W
    holding_of u ticker = elim (inv.find ticker u.inventory) [ none ↦ new_holding | some h ↦ h ]

    unfoldable pub apply_fill : User inv → Ticker → Side → ℤ → ℤ → User inv
    apply_fill u ticker side exec_price trade_volume =
        let h = fill_holding (holding_of u ticker) side exec_price trade_volume in
        record u { inventory = inv.put ticker h u.inventory }

    unfoldable pub refresh_unrealized_pnl : User inv → Ticker → ℤ → User inv
    unfolding to_usd
    refresh_unrealized_pnl u ticker mid_price = elim (inv.find ticker u.inventory) [
      | none ↦ u
      | some h ↦
          let pnl = mul (of_int h.volume) (sub (to_usd mid_price) h.avg_cost) in
          record u { inventory = inv.put ticker (record h { unrealized_pnl = pnl }) u.inventory }
    ]

    unfoldable pub position : User inv → Ticker → ℤ
    position u ticker = volume_at (inv.find ticker u.inventory)

    unfoldable pub realized_pnl : User inv → Ticker → W
    realized_pnl u ticker = elim (inv.find ticker u.inventory) [
      | none ↦ zero_usd
      | some h ↦ h.realized_pnl
    ]

    unfoldable pub unrealized_pnl : User inv → Ticker → W
    unrealized_pnl u ticker = elim (inv.find ticker u.inventory) [
      | none ↦ zero_usd
      | some h ↦ h.unrealized_pnl
    ]
