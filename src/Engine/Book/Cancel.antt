-- ===== src/Engine/Book/Cancel.antt =====
-- `EraseFromBook` of common/engine/matching_engine.cpp beside the queue of a side, and under the
-- invariant of a book.
use toy_exchange.Base.{
  ◌≡◌, refl, List, [], ◌∷◌, ◌++◌, true, false, ◌&&◌, if◌then◌else◌, is_empty, arith, All,
  Bool-cases, Option-cases, inl, inr, none, some,
}
use toy_exchange.Base.Int.{ℤ, ◌==ℤ◌, ==ℤ_refl}
use toy_exchange.Core.Types.{Side}
use toy_exchange.Engine.FlatMap
use toy_exchange.Engine.Book.{RestingOrder, PriceLevel, Book, before, erase_if, erase_from_book}
use toy_exchange.Engine.Book.Invariant.{
  Entry, IsSorted, HasOrders, HasVolume, IsBook, entries, queue, before-connex, before-All,
  before-ne_left, before-ne_right, is_empty→nil,
}

module _ (price id : ℤ) where
  -- The queue without the orders that have this id and this price.
  unfoldable pub remove_entry : List Entry → List Entry
  remove_entry [] = []
  remove_entry (e ∷ es) =
      if e.0 ==ℤ price && e.1.order_id ==ℤ id then remove_entry es else e ∷ remove_entry es

module _ (side : Side) (price id : ℤ) where
  -- The same by one recursion.
  drop_order : Book → Book
  drop_order [] = []
  drop_order ((q, level) ∷ rest) =
      if before side q price
      then (q, level) ∷ drop_order rest
      else (if before side price q
          then (q, level) ∷ rest
          else if is_empty (erase_if id level)
          then rest
          else (q, erase_if id level) ∷ rest)

  abbrev store_kept : PriceLevel → Book → Book
  store_kept kept book =
      let book' = FlatMap.modify (before side) price [] (λ _. kept) book in
      if is_empty kept then FlatMap.erase (before side) price book' else book'

  drop_order-missing :
      (book : Book) → FlatMap.find (before side) price book ≡ none → book ≡ drop_order book
  unfolding drop_order FlatMap.find
  drop_order-missing [] e = refl
  drop_order-missing ((q, level) ∷ rest) e = ground (arith, drop_order-missing rest)

  drop_order-found :
      (book : Book) (level : PriceLevel)
      → FlatMap.find (before side) price book ≡ some level
      → store_kept (erase_if id level) book ≡ drop_order book
  unfolding drop_order FlatMap.find FlatMap.modify FlatMap.erase
  drop_order-found [] level e = cc
  drop_order-found ((q, here) ∷ rest) level e = ground (arith, drop_order-found rest level)

  erase_from_book-drop_order : (book : Book) → erase_from_book side book price id ≡ drop_order book
  unfolding erase_from_book
  erase_from_book-drop_order book = elim (Option-cases (FlatMap.find (before side) price book)) [
    | inl missing ↦ rw (missing, erase_from_book) (drop_order-missing book missing)
    | inr (level, found) ↦ rw (found, erase_from_book) (drop_order-found book level found)
  ]

  drop_order-All {κ} :
      (P : ℤ × PriceLevel → Type κ)
      → ((q : ℤ) (level : PriceLevel)
          → is_empty (erase_if id level) ≡ false
          → P (q, level)
          → P (q, erase_if id level))
      → (book : Book) → All P book
      → All P (drop_order book)
  unfolding drop_order
  drop_order-All P keep [] h = tt
  drop_order-All P keep ((q, level) ∷ rest) h = elim (Bool-cases (before side q price)) [
    | inl further ↦ rw further (h.0, drop_order-All P keep rest h.1)
    | inr here ↦ rw here (elim (Bool-cases (before side price q)) [
      | inl first ↦ rw first h
      | inr same ↦ rw same (elim (Bool-cases (is_empty (erase_if id level))) [
        | inl gone ↦ rw gone h.1
        | inr kept ↦ rw kept (keep q level kept h.0, h.1)
      ])
    ])
  ]

  All-erase_if {κ} :
      (P : RestingOrder → Type κ) (level : PriceLevel) → All P level → All P (erase_if id level)
  unfolding erase_if
  All-erase_if P [] h = tt
  All-erase_if P (o ∷ os) h = elim (Bool-cases (o.order_id ==ℤ id)) [
    | inl e ↦ rw e (All-erase_if P os h.1)
    | inr e ↦ rw e (h.0, All-erase_if P os h.1)
  ]

  drop_order-IsSorted : (book : Book) → IsSorted side book → IsSorted side (drop_order book)
  unfolding drop_order
  drop_order-IsSorted [] h = tt
  drop_order-IsSorted ((q, level) ∷ rest) h = ground (
    arith,
    drop_order-IsSorted rest h.1,
    drop_order-All (λ l. before side q l.0 ≡ true) (λ _ _ _ b. b) rest h.0,
  )

  -- Taking orders out of the book keeps its invariant.
  pub erase_from_book-IsBook :
      (book : Book) → IsBook side book → IsBook side (erase_from_book side book price id)
  erase_from_book-IsBook book b = rw (erase_from_book-drop_order book) (record {
    sorted = drop_order-IsSorted book b.sorted;
    orders = drop_order-All HasOrders (λ _ _ kept _. kept) book b.orders;
    volumes =
        drop_order-All (λ l. All HasVolume l.1) (λ _ level _ h. All-erase_if HasVolume level h) book
          b.volumes;
  })

  -- What holds of all prices of the book holds after the erasure.
  pub erase_from_book-prices {κ} :
      (P : ℤ → Type κ) (book : Book)
      → All (λ l. P l.0) book
      → All (λ l. P l.0) (erase_from_book side book price id)
  erase_from_book-prices P book h =
      rw (erase_from_book-drop_order book) (drop_order-All (λ l. P l.0) (λ _ _ _ p. p) book h)

  remove_entry-other :
      (q : ℤ) (level : PriceLevel) (es : List Entry)
      → (q ==ℤ price) ≡ false
      → remove_entry price id (entries q level ++ es) ≡ entries q level ++ remove_entry price id es
  unfolding remove_entry
  remove_entry-other q [] es h = refl
  remove_entry-other q (o ∷ os) es h = rw (h, remove_entry-other q os es h)

  remove_entry-same :
      (q : ℤ) (level : PriceLevel) (es : List Entry)
      → (q ==ℤ price) ≡ true
      → remove_entry price id (entries q level ++ es)
        ≡ entries q (erase_if id level) ++ remove_entry price id es
  unfolding remove_entry erase_if
  remove_entry-same q [] es h = refl
  remove_entry-same q (o ∷ os) es h = ground (arith, remove_entry-same q os es h)

  remove_entry-later :
      (book : Book)
      → All (λ l. before side price l.0 ≡ true) book
      → remove_entry price id (queue book) ≡ queue book
  unfolding remove_entry
  remove_entry-later [] h = refl
  remove_entry-later ((q, level) ∷ rest) h = rw (
    remove_entry-other q level (queue rest) (before-ne_right side price q h.0),
    remove_entry-later rest h.1,
  )

  queue-drop_order :
      (book : Book)
      → IsSorted side book
      → queue (drop_order book) ≡ remove_entry price id (queue book)
  unfolding drop_order
  queue-drop_order [] s = unfold remove_entry in refl
  queue-drop_order ((q, level) ∷ rest) s = elim (Bool-cases (before side q price)) [
    | inl further ↦ rw (
      further,
      remove_entry-other q level (queue rest) (before-ne_left side q price further),
      queue-drop_order rest s.1,
    )
    | inr here ↦ rw here (elim (Bool-cases (before side price q)) [
      | inl first ↦ rw (
        first,
        remove_entry-other q level (queue rest) (before-ne_right side price q first),
        remove_entry-later rest (before-All side price q rest first s.0),
      )
      | inr same ↦
          let e = before-connex side q price here same in
          rw
            (
              same,
              remove_entry-same q level (queue rest) (rw e (==ℤ_refl price)),
              remove_entry-later rest (rw e at s.0),
            )
            (elim (Bool-cases (is_empty (erase_if id level))) [
              | inl gone ↦ rw (gone, is_empty→nil (erase_if id level) gone)
              | inr kept ↦ rw kept
            ])
    ])
  ]

  -- The queue loses the orders with the id at the price, and keeps all others in their order.
  pub queue-erase_from_book :
      (book : Book)
      → IsSorted side book
      → queue (erase_from_book side book price id) ≡ remove_entry price id (queue book)
  queue-erase_from_book book s = rw (erase_from_book-drop_order book) (queue-drop_order book s)
