-- ===== src/Engine/MatchingEngine/Invariant.antt =====
-- Both books are sorted, hold no empty level and no order without volume, and do not cross: the
-- invariant of an engine, here under its calls.
use toy_exchange.Base.{
  ◌≡◌, refl, [], ◌∷◌, Bool, true, false, arith, All, All-weaken, Bool-cases, inl, inr,
}
use toy_exchange.Base.Int.{ℤ, pos, ltb_ℤ, ltb_ℤ→lt}
use toy_exchange.Core.Types.{Side, buy, sell, Trade, OrderAdd, OrderCancel}
use toy_exchange.Engine.Book.{RestingOrder, PriceLevel, Book, before, erase_from_book}
use toy_exchange.Engine.Book.Invariant.{IsBook, IsSorted}
use toy_exchange.Engine.Book.Rest.{push_back-All, push_back-IsBook}
use toy_exchange.Engine.Book.Cancel.{erase_from_book-IsBook, erase_from_book-prices}
use toy_exchange.Engine.Match.{OrderMap, price_crosses}
use toy_exchange.Engine.Match.Shape.{
  fill_book-prices, fill_book-IsBook, IsBlocked, fill_book-IsBlocked,
}
use toy_exchange.Engine.MatchingEngine.{
  MatchingEngine, new_engine, opposite, side_book, set_side_book, rest_order, update_mid_price,
  on_order_add, on_order_cancel,
}
use toy_exchange.Engine.MatchingEngine.Sides.{side_book-after_match, side_book-update_mid_price}
use toy_exchange.Engine.MatchingEngine.Add.{filling, after_rest, on_order_add-fill_book}
use toy_exchange.Engine.MatchingEngine.Cancel.{on_order_cancel-cases}

-- No price of a side crosses a price of the other.
abbrev pub Uncrossed : Side → Book → Book → Type 0
Uncrossed side own other = All (λ x. All (λ y. price_crosses side x.0 y.0 ≡ false) other) own

pub record IsValid (m : OrderMap) (e : MatchingEngine m) : Type 0 where
  pub bids_book : IsBook buy e.bids
  pub asks_book : IsBook sell e.asks
  pub uncrossed : Uncrossed buy e.bids e.asks

All-none : (side : Side) (own : Book) → Uncrossed side own []
All-none side [] = tt
All-none side (x ∷ own) = (tt, All-none side own)

Uncrossed-cons :
    (side : Side) (own other : Book) (y : ℤ × PriceLevel)
    → All (λ x. price_crosses side x.0 y.0 ≡ false) own
    → Uncrossed side own other
    → Uncrossed side own (y ∷ other)
Uncrossed-cons side [] other y h k = tt
Uncrossed-cons side (x ∷ own) other y h k = ((h.0, k.0), Uncrossed-cons side own other y h.1 k.1)

crosses-opposite :
    (side : Side) (p q : ℤ) → price_crosses side p q ≡ price_crosses (opposite side) q p
crosses-opposite buy p q = refl
crosses-opposite sell p q = refl

Uncrossed-swap :
    (side : Side) (own other : Book)
    → Uncrossed side own other
    → Uncrossed (opposite side) other own
Uncrossed-swap side [] other h = All-none (opposite side) other
Uncrossed-swap side (x ∷ own) other h =
    Uncrossed-cons (opposite side) other own x
      (All-weaken other (λ y e. rw (← crosses-opposite side x.0 y.0) e) h.0)
      (Uncrossed-swap side own other h.1)

-- A price behind one that does not cross does not cross.
crosses-before :
    (side : Side) (p q r : ℤ)
    → price_crosses side p q ≡ false
    → before (opposite side) q r ≡ true
    → price_crosses side p r ≡ false
crosses-before buy p q r h k = ground arith
crosses-before sell p q r h k = ground arith

blocked-All :
    (side : Side) (p : ℤ) (book : Book)
    → IsBlocked (price_crosses side p) book
    → IsSorted (opposite side) book
    → All (λ y. price_crosses side p y.0 ≡ false) book
blocked-All side p [] h k = tt
blocked-All side p (y ∷ rest) h k = (h, All-weaken rest (λ z. crosses-before side p y.0 z.0 h) k.0)

module _ (m : OrderMap) where
  -- The invariant from one side.
  pub record IsValidAt (side : Side) (e : MatchingEngine m) : Type 0 where
    pub own : IsBook side (side_book m side e)
    pub other : IsBook (opposite side) (side_book m (opposite side) e)
    pub apart : Uncrossed side (side_book m side e) (side_book m (opposite side) e)

  pub IsValid→at : (side : Side) (e : MatchingEngine m) → IsValid m e → IsValidAt side e
  IsValid→at buy e v = record { own = v.bids_book; other = v.asks_book; apart = v.uncrossed }
  IsValid→at sell e v = record {
    own = v.asks_book;
    other = v.bids_book;
    apart = Uncrossed-swap buy e.bids e.asks v.uncrossed;
  }

  -- The invariant after new books on both sides.
  set_both-IsValid :
      (side : Side) (own other : Book) (i j : m.Table) (e : MatchingEngine m)
      → IsBook side own
      → IsBook (opposite side) other
      → Uncrossed side own other
      → let e' : MatchingEngine m = record (set_side_book m (opposite side) other e) {
        order_index = i;
      } in
        IsValid m (record (set_side_book m side own e') { order_index = j })
  set_both-IsValid buy own other i j e a b u = record {
    bids_book = a;
    asks_book = b;
    uncrossed = u;
  }
  set_both-IsValid sell own other i j e a b u = record {
    bids_book = b;
    asks_book = a;
    uncrossed = Uncrossed-swap sell own other u;
  }

  -- The invariant after a new book on one side.
  set_other-IsValid :
      (side : Side) (other : Book) (i : m.Table) (e : MatchingEngine m)
      → IsBook side (side_book m side e)
      → IsBook (opposite side) other
      → Uncrossed side (side_book m side e) other
      → IsValid m (record (set_side_book m (opposite side) other e) { order_index = i })
  set_other-IsValid buy other i e a b u = record { bids_book = a; asks_book = b; uncrossed = u }
  set_other-IsValid sell other i e a b u = record {
    bids_book = b;
    asks_book = a;
    uncrossed = Uncrossed-swap sell e.asks other u;
  }

  update_mid_price-IsValid : (e : MatchingEngine m) → IsValid m e → IsValid m (update_mid_price m e)
  update_mid_price-IsValid e v = record {
    bids_book = rw (side_book-update_mid_price m buy e) v.bids_book;
    asks_book = rw (side_book-update_mid_price m sell e) v.asks_book;
    uncrossed =
        rw (side_book-update_mid_price m buy e, side_book-update_mid_price m sell e) v.uncrossed;
  }

  pub after_rest-IsValid :
      (e : MatchingEngine m) (order : OrderAdd) → IsValid m e → IsValid m (after_rest m e order)
  unfolding rest_order
  after_rest-IsValid e order v =
      let side : Side = order.side in
      let at = IsValid→at side e v in
      let crosses : ℤ → Bool = price_crosses side order.price in
      let r = filling m e order in
      let book : IsBook (opposite side) r.book =
        fill_book-IsBook crosses (opposite side) order.volume (side_book m (opposite side) e)
          at.other in
      let apart : Uncrossed side (side_book m side e) r.book =
        All-weaken (side_book m side e)
          (λ x.
            fill_book-prices crosses (λ q. price_crosses side x.0 q ≡ false) order.volume
              (side_book m (opposite side) e))
          at.apart in
      elim (Bool-cases (ltb_ℤ (pos 0) r.left)) [
        | inr none_left ↦ rw none_left (set_other-IsValid side r.book _ e at.own book apart)
        | inl more ↦
            let o : RestingOrder = record {
              order_id = order.order_id;
              user_id = order.user_id;
              volume = r.left;
            } in
            rw (more, side_book-after_match m side r.book _ e)
              (set_both-IsValid side _ r.book _ _ e
                (push_back-IsBook side order.price o (side_book m side e)
                  (ltb_ℤ→lt (pos 0) r.left more) at.own)
                book
                (push_back-All side order.price o
                  (λ x. All (λ y. price_crosses side x.0 y.0 ≡ false) r.book)
                  (blocked-All side order.price r.book
                    (fill_book-IsBlocked crosses order.volume (side_book m (opposite side) e) more)
                    book.sorted)
                  (λ _ h. h) (side_book m side e) apart))
      ]

  -- `OnOrderAdd` keeps an engine valid, for every order: any id, any volume and any price. The
  -- books stay sorted by price, without empty levels and with positive volumes, and do not cross.
  pub on_order_add-IsValid :
      {H : Type 0} (on_trade : H → Trade → H) (e : MatchingEngine m) (order : OrderAdd) (h : H)
      → IsValid m e
      → IsValid m (on_order_add m on_trade e order h).0
  on_order_add-IsValid on_trade e order h v =
      rw (on_order_add-fill_book m e order on_trade h)
        (update_mid_price-IsValid (after_rest m e order) (after_rest-IsValid e order v))

  pub erased-IsValid :
      (side : Side) (price id : ℤ) (i : m.Table) (e : MatchingEngine m)
      → IsValid m e
      → IsValid m
          (record (set_side_book m side (erase_from_book side (side_book m side e) price id) e) {
            order_index = i;
          })
  erased-IsValid buy price id i e v = record {
    bids_book = erase_from_book-IsBook buy price id e.bids v.bids_book;
    asks_book = v.asks_book;
    uncrossed =
        erase_from_book-prices buy price id (λ p. All (λ y. price_crosses buy p y.0 ≡ false) e.asks)
          e.bids v.uncrossed;
  }
  erased-IsValid sell price id i e v = record {
    bids_book = v.bids_book;
    asks_book = erase_from_book-IsBook sell price id e.asks v.asks_book;
    uncrossed =
        All-weaken e.bids
          (λ x. erase_from_book-prices sell price id (λ p. price_crosses buy x.0 p ≡ false) e.asks)
          v.uncrossed;
  }

  -- `OnOrderCancel` keeps an engine valid, for every cancel.
  pub on_order_cancel-IsValid :
      (e : MatchingEngine m) (cancel : OrderCancel)
      → IsValid m e
      → IsValid m (on_order_cancel m e cancel)
  on_order_cancel-IsValid e cancel v =
      on_order_cancel-cases m e cancel (IsValid m) v (λ location _ _.
        update_mid_price-IsValid _
          (erased-IsValid location.side location.price cancel.order_id _ e v))

  -- A new engine is valid.
  pub new_engine-IsValid : IsValid m (new_engine m)
  new_engine-IsValid = record {
    bids_book = record { sorted = tt; orders = tt; volumes = tt };
    asks_book = record { sorted = tt; orders = tt; volumes = tt };
    uncrossed = tt;
  }
