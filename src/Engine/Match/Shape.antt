-- ===== src/Engine/Match/Shape.antt =====
-- The book that `Match` leaves: its invariant, and its best price if volume is left.
use toy_exchange.Base.{
  ◌≡◌, [], ◌∷◌, Bool, true, false, ◌&&◌, is_empty, arith, All, Bool-cases, inl, inr,
}
use toy_exchange.Base.Int.{ℤ, pos, ltb_ℤ, ◌-ℤ◌, -ℤ_parts}
use toy_exchange.Core.Types.{Side}
use toy_exchange.Engine.Book.{PriceLevel, Book}
use toy_exchange.Engine.Book.Invariant.{IsSorted, HasOrders, HasVolume, IsBook}
use toy_exchange.Engine.Match.Fills.{fill_level, fill_book}
use toy_exchange.Engine.Match.Loops.{fill_level-left}

fill_level-HasVolume :
    (price remaining : ℤ) (level : PriceLevel)
    → All HasVolume level
    → All HasVolume (fill_level price remaining level).level
unfolding fill_level
fill_level-HasVolume price remaining [] h = tt
fill_level-HasVolume price remaining (o ∷ os) h =
    ground (
      arith,
      fill_level-HasVolume price (remaining -ℤ o.volume) os h.1,
      -ℤ_parts o.volume remaining,
    )

module _ (crosses : ℤ → Bool) where
  pub fill_book-prices {κ} :
      (P : ℤ → Type κ) (remaining : ℤ) (book : Book)
      → All (λ l. P l.0) book
      → All (λ l. P l.0) (fill_book crosses remaining book).book
  unfolding fill_book
  fill_book-prices P remaining [] h = tt
  fill_book-prices P remaining ((price, level) ∷ rest) h =
      let r = fill_level price remaining level in
      elim (Bool-cases (ltb_ℤ (pos 0) remaining && crosses price)) [
        | inr done ↦ rw done h
        | inl more ↦ rw more (elim (Bool-cases (is_empty r.level)) [
          | inl gone ↦ rw gone (fill_book-prices P r.left rest h.1)
          | inr kept ↦ rw kept h
        ])
      ]

  fill_book-IsSorted :
      (side : Side) (remaining : ℤ) (book : Book)
      → IsSorted side book
      → IsSorted side (fill_book crosses remaining book).book
  unfolding fill_book
  fill_book-IsSorted side remaining [] h = tt
  fill_book-IsSorted side remaining ((price, level) ∷ rest) h =
      ground (arith, fill_book-IsSorted side (fill_level price remaining level).left rest h.1)

  fill_book-HasOrders :
      (remaining : ℤ) (book : Book)
      → All HasOrders book
      → All HasOrders (fill_book crosses remaining book).book
  unfolding fill_book
  fill_book-HasOrders remaining [] h = tt
  fill_book-HasOrders remaining ((price, level) ∷ rest) h =
      ground (arith, fill_book-HasOrders (fill_level price remaining level).left rest h.1)

  fill_book-HasVolume :
      (remaining : ℤ) (book : Book)
      → All (λ l. All HasVolume l.1) book
      → All (λ l. All HasVolume l.1) (fill_book crosses remaining book).book
  unfolding fill_book
  fill_book-HasVolume remaining [] h = tt
  fill_book-HasVolume remaining ((price, level) ∷ rest) h = ground (
    arith,
    fill_level-HasVolume price remaining level h.0,
    fill_book-HasVolume (fill_level price remaining level).left rest h.1,
  )

  -- What is left of the book after `Match` is a book.
  pub fill_book-IsBook :
      (side : Side) (remaining : ℤ) (book : Book)
      → IsBook side book
      → IsBook side (fill_book crosses remaining book).book
  fill_book-IsBook side remaining book b = record {
    sorted = fill_book-IsSorted side remaining book b.sorted;
    orders = fill_book-HasOrders remaining book b.orders;
    volumes = fill_book-HasVolume remaining book b.volumes;
  }

  -- No level, or a best price that does not cross.
  abbrev pub IsBlocked : Book → Type 0
  IsBlocked [] = Unit
  IsBlocked (l ∷ rest) = crosses l.0 ≡ false

  pub fill_book-IsBlocked :
      (remaining : ℤ) (book : Book)
      → let r = fill_book crosses remaining book in ltb_ℤ (pos 0) r.left ≡ true → IsBlocked r.book
  unfolding fill_book
  fill_book-IsBlocked remaining [] h = tt
  fill_book-IsBlocked remaining ((price, level) ∷ rest) h = ground (
    arith,
    fill_book-IsBlocked (fill_level price remaining level).left rest,
    fill_level-left price remaining level,
  )
