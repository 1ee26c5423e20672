-- ===== src/Engine/Book/Rest.antt =====
-- A write through `bids_[price]` or `asks_[price]` as `Rest` makes it, beside the
-- queue of a side and under the invariant of a book.
use toy_exchange.Base.{
  ◌≡◌, refl, List, [], ◌∷◌, ◌++◌, true, false, if◌then◌else◌, is_empty, All, All-append, Bool-cases,
  inl, inr, ap, sym,
}
use toy_exchange.Base.Int.{ℤ}
use toy_exchange.Core.Types.{Side}
use toy_exchange.Engine.FlatMap
use toy_exchange.Engine.Book.{RestingOrder, PriceLevel, Book, before}
use toy_exchange.Engine.Book.Invariant.{
  Entry, IsSorted, HasOrders, HasVolume, IsBook, entries, queue, before-All, before-asym,
  before-connex,
}

module _ (side : Side) (price : ℤ) (o : RestingOrder) where
  -- `level.push_back(o)` at the price.
  abbrev pub push_back : Book → Book
  push_back book = FlatMap.modify (before side) price [] (λ level. level ++ (o ∷ [])) book

  pub push_back-All {κ} :
      (P : ℤ × PriceLevel → Type κ)
      → P (price, o ∷ [])
      → ((level : PriceLevel) → P (price, level) → P (price, level ++ (o ∷ [])))
      → (book : Book) → All P book
      → All P (push_back book)
  unfolding FlatMap.modify
  push_back-All P new old [] h = (new, tt)
  push_back-All P new old ((q, level) ∷ rest) h = elim (Bool-cases (before side q price)) [
    | inl further ↦ rw further (h.0, push_back-All P new old rest h.1)
    | inr here ↦ rw here (elim (Bool-cases (before side price q)) [
      | inl first ↦ rw first (new, h)
      | inr same ↦
          rw same
            (let e = before-connex side q price here same in rw e (old level (rw e at h.0), h.1))
    ])
  ]

  push_back-IsSorted : (book : Book) → IsSorted side book → IsSorted side (push_back book)
  unfolding FlatMap.modify
  push_back-IsSorted [] h = (tt, tt)
  push_back-IsSorted ((q, level) ∷ rest) h = elim (Bool-cases (before side q price)) [
    | inl further ↦ rw further (
      push_back-All (λ l. before side q l.0 ≡ true) further (λ _ b. b) rest h.0,
      push_back-IsSorted rest h.1,
    )
    | inr here ↦ rw here (elim (Bool-cases (before side price q)) [
      | inl first ↦ rw first ((first, before-All side price q rest first h.0), h)
      | inr same ↦ rw same h
    ])
  ]

  HasOrders-append : (level : PriceLevel) → is_empty (level ++ (o ∷ [])) ≡ false
  HasOrders-append [] = refl
  HasOrders-append (x ∷ level) = refl

  -- Resting an order with volume keeps the book's invariant.
  pub push_back-IsBook :
      (book : Book) → HasVolume o → IsBook side book → IsBook side (push_back book)
  push_back-IsBook book v b = record {
    sorted = push_back-IsSorted book b.sorted;
    orders = push_back-All HasOrders refl (λ level _. HasOrders-append level) book b.orders;
    volumes =
        push_back-All (λ l. All HasVolume l.1) (v, tt)
          (λ level h. All-append HasVolume level (o ∷ []) h (v, tt)) book b.volumes;
  }

  -- Behind every order whose price does not come after this one's.
  unfoldable pub insert_entry : List Entry → List Entry
  insert_entry [] = (price, o) ∷ []
  insert_entry (e ∷ es) = if before side price e.0 then (price, o) ∷ e ∷ es else e ∷ insert_entry es

  insert_entry-entries :
      (q : ℤ) (level : PriceLevel) (es : List Entry)
      → before side price q ≡ false
      → insert_entry (entries q level ++ es) ≡ entries q level ++ insert_entry es
  unfolding insert_entry
  insert_entry-entries q [] es h = refl
  insert_entry-entries q (x ∷ level) es h = rw (h, insert_entry-entries q level es h)

  insert_entry-first :
      (book : Book)
      → All HasOrders book
      → All (λ l. before side price l.0 ≡ true) book
      → insert_entry (queue book) ≡ (price, o) ∷ queue book
  unfolding insert_entry
  insert_entry-first [] h k = refl
  insert_entry-first ((q, []) ∷ rest) h k = cc
  insert_entry-first ((q, x ∷ level) ∷ rest) h k = rw (k.0)

  entries-append :
      (q : ℤ) (level : PriceLevel) (es : List Entry)
      → entries q (level ++ (o ∷ [])) ++ es ≡ entries q level ++ (q, o) ∷ es
  entries-append q [] es = refl
  entries-append q (x ∷ level) es = ap (◌∷◌ (q, x)) (entries-append q level es)

  -- In the queue the order goes behind all orders at its price or better, and before the others.
  pub queue-push_back :
      (book : Book)
      → IsSorted side book
      → All HasOrders book
      → queue (push_back book) ≡ insert_entry (queue book)
  unfolding FlatMap.modify
  queue-push_back [] s h = unfold insert_entry in refl
  queue-push_back ((q, level) ∷ rest) s h = elim (Bool-cases (before side q price)) [
    | inl further ↦ rw (
      further,
      insert_entry-entries q level (queue rest) (before-asym side q price further),
      queue-push_back rest s.1 h.1,
    )
    | inr here ↦ rw here (elim (Bool-cases (before side price q)) [
      | inl first ↦ rw first (
          sym (
            insert_entry-first ((q, level) ∷ rest) h
              (first, before-All side price q rest first s.0)))
      | inr same ↦
          let e = before-connex side q price here same in
          rw (
            same,
            insert_entry-entries q level (queue rest) same,
            entries-append q level (queue rest),
            insert_entry-first rest h.1 (rw e at s.0),
            e,
          )
    ])
  ]
