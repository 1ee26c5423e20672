-- ===== src/Engine/MatchingEngine/Trades.antt =====
-- The trades of one order, as a handler sees them that keeps them in a list.
use mathlib.Core.List.{append_assoc, append-nil}
use toy_exchange.Base.{
  ◌≡◌, refl, List, [], ◌∷◌, ◌++◌, map, foldl, Bool, true, All, arith, ap, ◌∙◌, Bool-cases, inl, inr,
}
use toy_exchange.Base.Int.{ℤ, pos, pos_part, neg_part, ltb_ℤ, ltb_ℤ→ge, ◌+ℤ◌, ◌<ℤ◌, ◌≤ℤ◌, int_laws}
use toy_exchange.Core.Types.{Side, buy, sell, Trade, OrderAdd}
use toy_exchange.Engine.Book.{RestingOrder, before}
use toy_exchange.Engine.Book.Invariant.{Entry, All-queue}
use toy_exchange.Engine.Book.Rest.{insert_entry}
use toy_exchange.Engine.Match.{OrderMap, price_crosses, trade_of}
use toy_exchange.Engine.Match.Fills.{Fill}
use toy_exchange.Engine.Match.Loops.{report}
use toy_exchange.Engine.Match.Conservation.{
  total_traded, total_volume, IsPositive, IsPartOfMaker, left-total_traded,
  total_volume-total_traded, left_nonneg, fills-crosses, fills-IsPartOfMaker, Leaves, maker_entry,
  fills-Leaves,
}
use toy_exchange.Engine.MatchingEngine.{MatchingEngine, opposite, side_book, on_order_add}
use toy_exchange.Engine.MatchingEngine.Apart.{AreBelow, queue-AreBelow}
use toy_exchange.Engine.MatchingEngine.Invariant.{IsValid, IsValid→at, on_order_add-IsValid}
use toy_exchange.Engine.MatchingEngine.Refinement.{
  side_queue, specified, resting_of, on_order_add-refines,
}

-- A handler that appends the trade to a list.
abbrev pub collect : List Trade → Trade → List Trade
collect ts t = ts ++ (t ∷ [])

abbrev pub fill_trade : OrderAdd → Fill → Trade
fill_trade order f = trade_of order f.price f.maker f.traded

pub foldl-report :
    (order : OrderAdd) (fs : List Fill) (ts : List Trade)
    → foldl (report collect order) ts fs ≡ ts ++ map (fill_trade order) fs
foldl-report order [] ts = simp append-nil
foldl-report order (f ∷ fs) ts =
    foldl-report order fs (ts ++ (fill_trade order f ∷ [])) ∙ simp append_assoc

All-map {κ} :
    (P : Trade → Type κ) (order : OrderAdd) (fs : List Fill)
    → All (λ f. P (fill_trade order f)) fs
    → All P (map (fill_trade order) fs)
All-map P order [] h = tt
All-map P order (f ∷ fs) h = (h.0, All-map P order fs h.1)

-- A buyer pays at most the limit, and a seller gets at least the limit.
abbrev pub IsWithin : Side → ℤ → ℤ → Type 0
IsWithin buy limit price = price ≤ℤ limit
IsWithin sell limit price = limit ≤ℤ price

crosses→IsWithin :
    (side : Side) (limit price : ℤ)
    → price_crosses side limit price ≡ true
    → IsWithin side limit price
crosses→IsWithin buy limit price h = ground arith
crosses→IsWithin sell limit price h = ground arith

-- A trade that the order may be part of: it is the taker, the volume is positive, and the price is
-- not worse than its limit.
pub record IsFair (order : OrderAdd) (t : Trade) : Type 0 where
  pub taker : t.taker_id ≡ order.user_id
  pub taker_order : t.taker_order_id ≡ order.order_id
  pub ticker : t.ticker ≡ order.ticker
  pub side : t.taker_side ≡ order.side
  pub volume : pos 0 <ℤ t.volume
  pub limit : IsWithin order.side order.price t.execution_price

abbrev pub total_trades : List Trade → ℤ
total_trades [] = pos 0
total_trades (t ∷ ts) = t.volume +ℤ total_trades ts

total_trades-map :
    (order : OrderAdd) (fs : List Fill) → total_trades (map (fill_trade order) fs) ≡ total_traded fs
total_trades-map order [] = refl
total_trades-map order (f ∷ fs) = ap (◌+ℤ◌ f.traded) (total_trades-map order fs)

total_volume-insert_entry :
    (side : Side) (price : ℤ) (o : RestingOrder) (es : List Entry)
    → total_volume (insert_entry side price o es) ≡ total_volume es +ℤ o.volume
unfolding insert_entry
total_volume-insert_entry side price o [] = omega int_laws
total_volume-insert_entry side price o (e ∷ es) =
    let ih = total_volume-insert_entry side price o es in
    elim (Bool-cases (before side price e.0)) [
      | inl b ↦ rw b (omega int_laws)
      | inr b ↦ rw (b, ih) (omega int_laws)
    ]

both-IsFair :
    (order : OrderAdd) (fs : List Fill)
    → All (λ f. price_crosses order.side order.price f.price ≡ true) fs
    → All IsPartOfMaker fs
    → All (λ f. IsFair order (fill_trade order f)) fs
both-IsFair order [] h k = tt
both-IsFair order (f ∷ fs) h k = (
  record {
    taker = refl;
    taker_order = refl;
    ticker = refl;
    side = refl;
    volume = k.0.0;
    limit = crosses→IsWithin order.side order.price f.price h.0;
  },
  both-IsFair order fs h.1 k.1,
)

module _ (m : OrderMap) (e : MatchingEngine m) (order : OrderAdd) where
  abbrev pub trades : List Trade
  trades = (on_order_add m collect e order []).1

  pub queue-IsPositive : (s : Side) → IsValid m e → All IsPositive (side_queue m s e)
  queue-IsPositive s v = All-queue IsPositive (side_book m s e) (IsValid→at m s e v).own.volumes

  -- The trades are the fills of price-time priority.
  pub trades-fills : IsValid m e → trades ≡ map (fill_trade order) (specified m e order).fills
  trades-fills v =
      (on_order_add-refines m collect e order [] v).2
      ∙ foldl-report order (specified m e order).fills []

  trades-AllFair : IsValid m e → All (IsFair order) trades
  trades-AllFair v =
      let crosses : ℤ → Bool = price_crosses order.side order.price in
      let es : List Entry = side_queue m (opposite order.side) e in
      rw (trades-fills v) (
        All-map (IsFair order) order (specified m e order).fills (
          both-IsFair order (specified m e order).fills (fills-crosses crosses order.volume es) (
            fills-IsPartOfMaker crosses order.volume es
              (queue-IsPositive (opposite order.side) v))))

  -- In a valid engine every trade has the order as its taker and a positive volume, and its price
  -- is at most the limit of a buy and at least that of a sell; and afterwards every resting bid is
  -- priced below every resting ask.
  pub trades-IsFair :
      IsValid m e
      → let e' = (on_order_add m collect e order []).0 in
        All (IsFair order) trades × AreBelow (side_queue m buy e') (side_queue m sell e')
  trades-IsFair v =
      let e' = (on_order_add m collect e order []).0 in
      (
        trades-AllFair v,
        queue-AreBelow e'.bids e'.asks (on_order_add-IsValid m collect e order [] v).uncrossed,
      )

  -- In a valid engine an order whose volume is not negative loses and makes no share: the other
  -- side loses what was traded, and the own side gains what the order wanted less what was traded.
  pub trades_conserve :
      IsValid m e
      → pos 0 ≤ℤ order.volume
      → let e' = (on_order_add m collect e order []).0 in
        let other : Side = opposite order.side in
        (total_volume (side_queue m other e') +ℤ total_trades trades
          ≡ total_volume (side_queue m other e))
        × (total_volume (side_queue m order.side e') +ℤ total_trades trades
            ≡ total_volume (side_queue m order.side e) +ℤ order.volume)
  trades_conserve v h =
      let crosses : ℤ → Bool = price_crosses order.side order.price in
      let es : List Entry = side_queue m (opposite order.side) e in
      let own : List Entry = side_queue m order.side e in
      let r = specified m e order in
      let (other_queue, own_queue, _) = on_order_add-refines m collect e order [] v in
      let sum : r.left +ℤ total_traded r.fills ≡ order.volume =
        left-total_traded crosses order.volume es in
      let low = left_nonneg crosses order.volume es h in
      let p = ap pos_part sum in
      let n = ap neg_part sum in
      (
        rw (other_queue, trades-fills v, total_trades-map order r.fills)
            (total_volume-total_traded crosses order.volume es),
        rw (own_queue, trades-fills v, total_trades-map order r.fills)
            (elim (Bool-cases (ltb_ℤ (pos 0) r.left)) [
              | inl more ↦
                  rw
                    (
                      more,
                      total_volume-insert_entry order.side order.price (resting_of order r.left)
                          own,
                    )
                    (omega (int_laws, p, n))
              | inr done ↦
                  let high = ltb_ℤ→ge (pos 0) r.left done in rw done (omega (int_laws, p, n))
            ]),
      )

  -- In a valid engine the makers of an order's trades are the first orders of the other side's
  -- queue, in its order: each but the last gives all it has, the last may keep a rest and its
  -- place, and the orders behind stay as they were.
  pub trades_priority :
      IsValid m e
      → (fs : List Fill) × (untouched : List Entry) × (trades ≡ map (fill_trade order) fs)
        × (side_queue m (opposite order.side) e ≡ map maker_entry fs ++ untouched)
        × Leaves fs untouched
            (side_queue m (opposite order.side) (on_order_add m collect e order []).0)
  trades_priority v =
      let r = specified m e order in
      let (untouched, split, leaves) =
        fills-Leaves (price_crosses order.side order.price) order.volume
          (side_queue m (opposite order.side) e) in
      (
        r.fills,
        untouched,
        trades-fills v,
        split,
        rw ((on_order_add-refines m collect e order [] v).0) leaves,
      )
