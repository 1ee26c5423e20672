-- ===== src/Engine/Match/Priority.antt =====
-- The recursions over levels beside the one over a queue by price and time.
use mathlib.Core.List.{append-nil}
use toy_exchange.Base.{
  ◌≡◌, refl, List, [], ◌∷◌, ◌++◌, Bool, true, false, ◌&&◌, is_empty, arith, Bool-cases, inl, inr,
  All,
}
use toy_exchange.Base.Int.{ℤ, pos, ltb_ℤ, leb_ℤ, ◌-ℤ◌}
use toy_exchange.Engine.Book.{PriceLevel, Book}
use toy_exchange.Engine.Book.Invariant.{Entry, HasOrders, is_empty→nil, entries, queue}
use toy_exchange.Engine.Match.Fills.{fill_level, fill_book, fill_queue}
use toy_exchange.Engine.Match.Loops.{fill_level-left}

module _ (crosses : ℤ → Bool) where
  fill_queue-done :
      (remaining : ℤ) (es : List Entry)
      → ltb_ℤ (pos 0) remaining ≡ false
      → fill_queue crosses remaining es ≡ record { left = remaining; queue = es; fills = [] }
  unfolding fill_queue
  fill_queue-done remaining [] e = refl
  fill_queue-done remaining (x ∷ es) e = rw e

  fill_queue-level :
      (price : ℤ) (level : PriceLevel) (remaining : ℤ) (es : List Entry)
      → crosses price ≡ true
      → let r = fill_level price remaining level in
        let s = fill_queue crosses r.left es in
        fill_queue crosses remaining (entries price level ++ es) ≡ record {
          left = s.left;
          queue = entries price r.level ++ s.queue;
          fills = r.fills ++ s.fills;
        }
  unfolding fill_queue fill_level
  fill_queue-level price [] remaining es e = refl
  fill_queue-level price (o ∷ os) remaining es e = elim (Bool-cases (ltb_ℤ (pos 0) remaining)) [
    | inr done ↦ rw (done, fill_queue-done remaining es done)
    | inl more ↦
        rw (more, e)
          (elim (Bool-cases (leb_ℤ o.volume remaining)) [
            | inl whole ↦ rw (whole, fill_queue-level price os (remaining -ℤ o.volume) es e)
            | inr part ↦ rw (part, fill_queue-done (pos 0) es refl)
          ])
  ]

  -- `Match` fills the resting orders in the order of the queue: the unfilled volume, the orders
  -- that stay and the fills are those of price-time priority over all orders of the book.
  pub queue-fill_book :
      (remaining : ℤ) (book : Book)
      → All HasOrders book
      → let r = fill_book crosses remaining book in
        fill_queue crosses remaining (queue book)
        ≡ record { left = r.left; queue = queue r.book; fills = r.fills }
  unfolding fill_book
  queue-fill_book remaining [] h = unfold fill_queue in refl
  queue-fill_book remaining ((price, []) ∷ rest) h = cc
  queue-fill_book remaining ((price, o ∷ os) ∷ rest) h =
      let r = fill_level price remaining (o ∷ os) in
      elim (Bool-cases (ltb_ℤ (pos 0) remaining && crosses price)) [
        | inr done ↦ rw done (unfold fill_queue in rw done)
        | inl more ↦
            rw (more, fill_queue-level price (o ∷ os) remaining (queue rest) (ground arith))
              (elim (Bool-cases (is_empty r.level)) [
                | inl gone ↦ rw (gone, queue-fill_book r.left rest h.1, is_empty→nil r.level gone)
                | inr kept ↦
                    rw
                      (
                        kept,
                        fill_queue-done r.left (queue rest)
                            (fill_level-left price remaining (o ∷ os) kept),
                      )
                      (simp append-nil)
              ])
      ]
