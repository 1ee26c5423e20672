-- ===== src/Engine/MatchingEngine/Bounds.antt =====
-- The range of the numbers that the engine computes with, against that of an `int64_t`.
use toy_exchange.Base.{◌-◌, ◌^◌, ◌≤◌, List, [], ◌∷◌, Option, some, arith, All}
use toy_exchange.Base.Int.{
  ℤ, pos, negsuc, pos_part, neg_part, Fits, ◌+ℤ◌, ◌-ℤ◌, ◌<ℤ◌, ◌≤ℤ◌, int_laws,
}
use toy_exchange.Core.Types.{buy, sell, Trade, OrderAdd, OrderCancel}
use toy_exchange.Extern.UnorderedMap.{IsMap}
use toy_exchange.Engine.Book.{Book}
use toy_exchange.Engine.Book.Invariant.{Entry, HasOrders, queue}
use toy_exchange.Engine.Match.{OrderMap, price_crosses}
use toy_exchange.Engine.Match.Fills.{Fill}
use toy_exchange.Engine.Match.Conservation.{maker_entry, IsPartOfMaker, fills-IsPartOfMaker}
use toy_exchange.Engine.MatchingEngine.{MatchingEngine, opposite, on_order_add, on_order_cancel}
use toy_exchange.Engine.MatchingEngine.Entries.{
  IsStable, AllResting, fills-All, left-le_remaining, on_order_add-AllResting,
  on_order_cancel-AllResting,
}
use toy_exchange.Engine.MatchingEngine.Invariant.{
  IsValid, on_order_add-IsValid, on_order_cancel-IsValid,
}
use toy_exchange.Engine.MatchingEngine.MidPrice.{best}
use toy_exchange.Engine.MatchingEngine.Refinement.{side_queue, specified}
use toy_exchange.Engine.MatchingEngine.Trades.{queue-IsPositive}

-- A price of which two can be added.
abbrev pub IsSmall : ℤ → Type 0
IsSmall p = (pos_part p ≤ 2 ^ 62 - 1) × (neg_part p ≤ 2 ^ 62)

abbrev pub InRange : Entry → Type 0
InRange e = IsSmall e.0 × Fits e.1.volume

-- The sum that `UpdateMidPrice` forms.
abbrev pub SumFits : Option ℤ → Option ℤ → Type 0
SumFits (some bid) (some ask) = Fits (bid +ℤ ask)
SumFits _ _ = Unit

-- The differences that the inner loop of `Match` forms for a fill.
abbrev pub FillFits : Fill → Type 0
FillFits f = Fits f.traded × Fits (f.maker.volume -ℤ f.traded)

pub Fits-between : (a b : ℤ) → pos 0 ≤ℤ a → a ≤ℤ b → Fits b → Fits a
Fits-between (pos a) (pos b) low high fits = omega arith
Fits-between (pos a) (negsuc b) low high fits = absurd (omega arith)
Fits-between (negsuc a) b low high fits = absurd (omega arith)

-- What is left of a volume of which a part is taken.
pub Fits-rest :
    (volume taken : ℤ)
    → pos 0 <ℤ taken
    → taken ≤ℤ volume
    → Fits volume
    → Fits taken × Fits (volume -ℤ taken)
Fits-rest volume taken low high fits = (
  Fits-between taken volume (omega arith) high fits,
  Fits-between (volume -ℤ taken) volume (omega int_laws) (omega int_laws) fits,
)

InRange-IsStable : IsStable InRange
InRange-IsStable price o traded low high (small, fits) =
    (small, (Fits-rest o.volume traded low (omega (arith, high)) fits).1)

sum-Fits : (a b : ℤ) → IsSmall a → IsSmall b → Fits (a +ℤ b)
unfolding ◌+ℤ◌
sum-Fits (pos a) (pos b) p q = ground arith
sum-Fits (pos a) (negsuc b) p q = ground arith
sum-Fits (negsuc a) (pos b) p q = ground arith
sum-Fits (negsuc a) (negsuc b) p q = ground arith

fills_fit :
    (fs : List Fill)
    → All IsPartOfMaker fs
    → All (λ f. InRange (maker_entry f)) fs
    → All FillFits fs
fills_fit [] p h = tt
fills_fit (f ∷ fs) p h = (Fits-rest f.maker.volume f.traded p.0.0 p.0.1 h.0.1, fills_fit fs p.1 h.1)

sides-SumFits :
    (bids asks : Book)
    → All HasOrders bids
    → All HasOrders asks
    → All InRange (queue bids)
    → All InRange (queue asks)
    → SumFits (best bids) (best asks)
sides-SumFits [] asks o k h g = tt
sides-SumFits (b ∷ bids) [] o k h g = tt
sides-SumFits ((p, []) ∷ bids) (a ∷ asks) o k h g = cc
sides-SumFits ((p, x ∷ level) ∷ bids) ((q, []) ∷ asks) o k h g = cc
sides-SumFits ((p, x ∷ level) ∷ bids) ((q, y ∷ level') ∷ asks) o k h g = sum-Fits p q h.0.0 g.0.0

module _ (m : OrderMap) where
  -- Every resting price is small, and every resting volume fits.
  abbrev pub AllInRange : MatchingEngine m → Type 0
  AllInRange e = AllResting m InRange e

  AllInRange-SumFits :
      (e : MatchingEngine m) → IsValid m e → AllInRange e → SumFits (best e.bids) (best e.asks)
  AllInRange-SumFits e v h =
      sides-SumFits e.bids e.asks v.bids_book.orders v.asks_book.orders (h buy) (h sell)

  -- In a valid engine with prices in [-2^62, 2^62) and volumes of an `int64_t`, an order of such a
  -- price and volume keeps all prices and volumes so; every amount that a fill forms, the volume
  -- that is left of the order, if any, and the sum of the best prices are in the range of an
  -- `int64_t`.
  pub on_order_add-AllInRange :
      {H : Type 0} (on_trade : H → Trade → H) (e : MatchingEngine m) (order : OrderAdd) (h : H)
      → IsValid m e
      → AllInRange e
      → IsSmall order.price
      → Fits order.volume
      → let e' = (on_order_add m on_trade e order h).0 in
        let r = specified m e order in
        AllInRange e'
        × All FillFits r.fills
        × (pos 0 <ℤ r.left → Fits r.left)
        × SumFits (best e'.bids) (best e'.asks)
  on_order_add-AllInRange on_trade e order h v all small fits =
      let es : List Entry = side_queue m (opposite order.side) e in
      let crosses = price_crosses order.side order.price in
      let volumes = queue-IsPositive m e order (opposite order.side) v in
      let left = left-le_remaining crosses order.volume es volumes in
      let rests : pos 0 <ℤ (specified m e order).left → Fits (specified m e order).left = λ more.
        Fits-between (specified m e order).left order.volume (omega (arith, more)) left fits in
      let kept =
        on_order_add-AllResting m InRange on_trade e order h v InRange-IsStable
          (λ more. (small, rests more)) all in
      (
        kept,
        fills_fit (specified m e order).fills (fills-IsPartOfMaker crosses order.volume es volumes)
            (fills-All InRange crosses order.volume es (all (opposite order.side))),
        rests,
        AllInRange-SumFits _ (on_order_add-IsValid m on_trade e order h v) kept,
      )

  -- In such an engine a cancel keeps all prices and volumes so, and the sum of the best prices in
  -- the range of an `int64_t`.
  pub on_order_cancel-AllInRange :
      (laws : IsMap m) (e : MatchingEngine m) (cancel : OrderCancel)
      → IsValid m e
      → AllInRange e
      → let e' = on_order_cancel m e cancel in AllInRange e' × SumFits (best e'.bids) (best e'.asks)
  on_order_cancel-AllInRange laws e cancel v all =
      let kept = on_order_cancel-AllResting m InRange laws e cancel v all in
      (kept, AllInRange-SumFits _ (on_order_cancel-IsValid m e cancel v) kept)
