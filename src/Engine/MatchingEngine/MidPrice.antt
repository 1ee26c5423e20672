-- ===== src/Engine/MatchingEngine/MidPrice.antt =====
-- The mid price after a call.
use toy_exchange.Base.{
  ◌≡◌, refl, [], ◌∷◌, arith, Option, none, some, Bool-cases, inl, inr, ◌⊎◌, ◌∙◌, foldl,
}
use toy_exchange.Base.Int.{ℤ, pos, ltb_ℤ, ◌≤ℤ◌, ◌<ℤ◌, ◌+ℤ◌, half}
use toy_exchange.Core.Types.{Side, buy, sell, Trade, OrderAdd, OrderCancel}
use toy_exchange.Engine.Book.{Book, erase_from_book}
use toy_exchange.Engine.Match.{OrderMap}
use toy_exchange.Engine.Match.Loops.{unindex}
use toy_exchange.Engine.MatchingEngine.{
  MatchingEngine, opposite, side_book, set_side_book, rest_order, update_mid_price, mid_price,
  on_order_add, on_order_cancel,
}
use toy_exchange.Engine.MatchingEngine.Sides.{side_book-update_mid_price}
use toy_exchange.Engine.MatchingEngine.Add.{filling, after_rest, on_order_add-fill_book}
use toy_exchange.Engine.MatchingEngine.Cancel.{after_erase, on_order_cancel-cases}
use toy_exchange.Engine.MatchingEngine.Apart.{not_crossing→lt}
use toy_exchange.Engine.MatchingEngine.Invariant.{
  IsValid, Uncrossed, after_rest-IsValid, erased-IsValid,
}

-- The best price of a book.
abbrev pub best : Book → Option ℤ
best [] = none
best (l ∷ rest) = some l.0

abbrev pub IsMid : Option ℤ → Option ℤ → Option ℤ → Option ℤ → Type 0
IsMid none none before after = after ≡ before
IsMid (some b) none before after = after ≡ some b
IsMid none (some a) before after = after ≡ some a
IsMid (some b) (some a) before after =
    (mid : ℤ) × (after ≡ some mid) × (mid ≡ half (b +ℤ a)) × (b ≤ℤ mid) × (mid ≤ℤ a)

half-between : (b a : ℤ) → b <ℤ a → (b ≤ℤ half (b +ℤ a)) × (half (b +ℤ a) ≤ℤ a)
unfolding ◌+ℤ◌
half-between b a h = ground arith

module _ (m : OrderMap) where
  -- The mid price is that of the best prices; it stays when both sides are empty.
  abbrev pub IsMidAfter : MatchingEngine m → MatchingEngine m → Type 0
  IsMidAfter e e' = IsMid (best e'.bids) (best e'.asks) (mid_price m e) (mid_price m e')

  update_mid_price-IsMid :
      (bids asks : Book) (e : MatchingEngine m)
      → e.bids ≡ bids
      → e.asks ≡ asks
      → Uncrossed buy bids asks
      → IsMid (best bids) (best asks) (mid_price m e) (mid_price m (update_mid_price m e))
  unfolding update_mid_price mid_price
  update_mid_price-IsMid [] [] e p q u = ground arith
  update_mid_price-IsMid [] (a ∷ asks) e p q u = ground arith
  update_mid_price-IsMid (b ∷ bids) [] e p q u = ground arith
  update_mid_price-IsMid (b ∷ bids) (a ∷ asks) e p q u =
      let (low, high) = half-between b.0 a.0 (not_crossing→lt b.0 a.0 u.0.0) in
      (half (b.0 +ℤ a.0), ground arith, refl, low, high)

  update_mid_price-IsMidAfter :
      (e : MatchingEngine m) → IsValid m e → IsMidAfter e (update_mid_price m e)
  unfolding update_mid_price
  update_mid_price-IsMidAfter e v =
      rw (side_book-update_mid_price m buy e, side_book-update_mid_price m sell e)
        (update_mid_price-IsMid e.bids e.asks e refl refl v.uncrossed)

  mid_price-set :
      (s : Side) (book : Book) (i : m.Table) (e : MatchingEngine m)
      → mid_price m (record (set_side_book m s book e) { order_index = i }) ≡ mid_price m e
  unfolding mid_price
  mid_price-set buy book i e = refl
  mid_price-set sell book i e = refl

  mid_price-after_rest :
      (e : MatchingEngine m) (order : OrderAdd) → mid_price m (after_rest m e order) ≡ mid_price m e
  unfolding rest_order
  mid_price-after_rest e order =
      let matched =
        mid_price-set (opposite order.side) (filling m e order).book
          (foldl (unindex m) e.order_index (filling m e order).fills) e in
      elim (Bool-cases (ltb_ℤ (pos 0) (filling m e order).left)) [
        | inl more ↦ rw more (mid_price-set order.side _ _ _ ∙ matched)
        | inr done ↦ rw done matched
      ]

  -- After `OnOrderAdd` on a valid engine the mid price is half the sum of the best prices, rounded
  -- towards zero, and lies between them; with one side empty it is the best price of the other, and
  -- with both empty it is what it was.
  pub on_order_add-IsMidAfter :
      {H : Type 0} (on_trade : H → Trade → H) (e : MatchingEngine m) (order : OrderAdd) (h : H)
      → IsValid m e
      → IsMidAfter e (on_order_add m on_trade e order h).0
  on_order_add-IsMidAfter on_trade e order h v =
      rw (on_order_add-fill_book m e order on_trade h, ← mid_price-after_rest e order)
        (update_mid_price-IsMidAfter (after_rest m e order) (after_rest-IsValid m e order v))

  -- On a valid engine `OnOrderCancel` leaves it as it was, or sets the mid price in the same way.
  on_order_cancel-IsMidAfter :
      (e : MatchingEngine m) (cancel : OrderCancel)
      → IsValid m e
      → (on_order_cancel m e cancel ≡ e) ⊎ IsMidAfter e (on_order_cancel m e cancel)
  on_order_cancel-IsMidAfter e cancel v =
      on_order_cancel-cases m e cancel (λ e'. (e' ≡ e) ⊎ IsMidAfter e e') (inl refl)
        (λ location _ _. inr (
          rw
            (← mid_price-set location.side
              (erase_from_book location.side (side_book m location.side e) location.price
                cancel.order_id)
              (m.erase cancel.order_id e.order_index) e)
            (update_mid_price-IsMidAfter (after_erase m e cancel location)
              (erased-IsValid m location.side location.price cancel.order_id _ e v))))
