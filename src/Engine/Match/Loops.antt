-- ===== src/Engine/Match/Loops.antt =====
-- The loops of `Match` beside the recursions of `Fills`.
use mathlib.Core.List.{foldl-append}
use toy_exchange.Base.{
  ℕ, zero, suc, ◌≤◌, ◌≡◌, refl, [], ◌∷◌, Bool, true, false, ◌&&◌, if◌then◌else◌, is_empty, length,
  while, while_stop, while_step, foldl, arith, Bool-cases, inl, inr, ◌∙◌,
}
use toy_exchange.Base.Int.{
  ℤ, pos, ltb_ℤ, leb_ℤ, ◌-ℤ◌, ◌==ℤ◌, min_ℤ_left, min_ℤ_right, -ℤ_self, -ℤ_ne_zero,
}
use toy_exchange.Core.Types.{OrderAdd, Trade}
use toy_exchange.Engine.Book.{RestingOrder, PriceLevel, Book}
use toy_exchange.Engine.Match.{
  OrderMap, LevelLoop, BookLoop, trade_of, price_crosses, level_test, fill_front, book_test,
  fill_best, match_book,
}
use toy_exchange.Engine.Match.Fills.{
  Fill, fill_of, reduced, fill_level, fill_book, LevelFills, BookFills,
}

-- The loop stops with orders left only when the volume is used up.
pub fill_level-left :
    (price remaining : ℤ) (level : PriceLevel)
    → is_empty (fill_level price remaining level).level ≡ false
    → ltb_ℤ (pos 0) (fill_level price remaining level).left ≡ false
unfolding fill_level
fill_level-left price remaining [] e = ground arith
fill_level-left price remaining (o ∷ os) e =
    ground (arith, fill_level-left price (remaining -ℤ o.volume) os)

-- What a fill does to the table of order ids.
abbrev pub unindex : (m : OrderMap) → m.Table → Fill → m.Table
unindex m index f =
    if (f.maker.volume -ℤ f.traded) ==ℤ pos 0 then m.erase f.maker.order_id index else index

-- The call of the handler for a fill.
abbrev pub report : {H : Type 0} → (H → Trade → H) → OrderAdd → H → Fill → H
report on_trade incoming h f = on_trade h (trade_of incoming f.price f.maker f.traded)

module _ (m : OrderMap) {H : Type 0} (on_trade : H → Trade → H) (incoming : OrderAdd) where
  abbrev level_result : LevelFills → m.Table → H → LevelLoop m H
  level_result r index h = record {
    remaining = r.left;
    level = r.level;
    order_index = foldl (unindex m) index r.fills;
    handled = foldl (report on_trade incoming) h r.fills;
  }

  abbrev book_result : BookFills → m.Table → H → BookLoop m H
  book_result r index h = record {
    remaining = r.left;
    book = r.book;
    order_index = foldl (unindex m) index r.fills;
    handled = foldl (report on_trade incoming) h r.fills;
  }

  abbrev front : ℤ → RestingOrder → PriceLevel → m.Table → H → LevelLoop m H
  front remaining o os index h = record {
    remaining = remaining;
    level = o ∷ os;
    order_index = index;
    handled = h;
  }

  fill_front_whole :
      (price : ℤ) (o : RestingOrder) (os : PriceLevel) (remaining : ℤ) (index : m.Table) (h : H)
      → leb_ℤ o.volume remaining ≡ true
      → let f = fill_of price o o.volume in
        fill_front m on_trade incoming price (front remaining o os index h) ≡ record {
          remaining = remaining -ℤ o.volume;
          level = os;
          order_index = unindex m index f;
          handled = report on_trade incoming h f;
        }
  unfolding fill_front
  fill_front_whole price o os remaining index h e =
      rw (min_ℤ_right remaining o.volume e, -ℤ_self o.volume)

  fill_front_part :
      (price : ℤ) (o : RestingOrder) (os : PriceLevel) (remaining : ℤ) (index : m.Table) (h : H)
      → leb_ℤ o.volume remaining ≡ false
      → let f = fill_of price o remaining in
        fill_front m on_trade incoming price (front remaining o os index h) ≡ record {
          remaining = pos 0;
          level = reduced o remaining ∷ os;
          order_index = unindex m index f;
          handled = report on_trade incoming h f;
        }
  unfolding fill_front
  fill_front_part price o os remaining index h e =
      rw (min_ℤ_left remaining o.volume e, -ℤ_self remaining, -ℤ_ne_zero o.volume remaining e)

  level_loop-fill_level :
      (price : ℤ) (n : ℕ) (level : PriceLevel) (remaining : ℤ) (index : m.Table) (h : H)
      → length level ≤ n
      → while
          (level_test m on_trade incoming)
          (fill_front m on_trade incoming price)
          n
          (record { remaining = remaining; level = level; order_index = index; handled = h })
        ≡ level_result (fill_level price remaining level) index h
  unfolding fill_level
  level_loop-fill_level price n [] remaining index h le = while_stop _ _ n _ (ground arith)
  level_loop-fill_level price zero (o ∷ os) remaining index h le = absurd (omega arith)
  level_loop-fill_level price (suc n) (o ∷ os) remaining index h le =
      elim (Bool-cases (ltb_ℤ (pos 0) remaining)) [
        | inr done ↦ while_stop _ _ (suc n) _ (rw done) ∙ rw done
        | inl more ↦
            while_step (level_test m on_trade incoming) (fill_front m on_trade incoming price) n
              (front remaining o os index h) (rw more)
            ∙ elim (Bool-cases (leb_ℤ o.volume remaining)) [
              | inl whole ↦ rw (fill_front_whole price o os remaining index h whole) (
                  level_loop-fill_level price n os (remaining -ℤ o.volume)
                    (unindex m index (fill_of price o o.volume))
                    (report on_trade incoming h (fill_of price o o.volume)) (omega arith)
                  ∙ rw (more, whole))
              | inr part ↦
                  rw (fill_front_part price o os remaining index h part)
                    (while_stop _ _ n _ refl ∙ rw (more, part))
            ]
      ]

  abbrev start : ℤ → Book → m.Table → H → BookLoop m H
  start remaining book index h = record {
    remaining = remaining;
    book = book;
    order_index = index;
    handled = h;
  }

  fill_best-fill_level :
      (price : ℤ) (level : PriceLevel) (rest : Book) (remaining : ℤ) (index : m.Table) (h : H)
      → let r = fill_level price remaining level in
        fill_best m on_trade incoming (start remaining ((price, level) ∷ rest) index h)
        ≡ start r.left
            (if is_empty r.level then rest else (price, r.level) ∷ rest)
            (foldl (unindex m) index r.fills)
            (foldl (report on_trade incoming) h r.fills)
  unfolding fill_best
  fill_best-fill_level price level rest remaining index h =
      rw (level_loop-fill_level price (length level) level remaining index h (omega arith))

  abbrev crosses : ℤ → Bool
  crosses = price_crosses incoming.side incoming.price

  book_loop-fill_book :
      (n : ℕ) (book : Book) (remaining : ℤ) (index : m.Table) (h : H)
      → length book ≤ n
      → while
          (book_test m on_trade incoming)
          (fill_best m on_trade incoming)
          n
          (start remaining book index h)
        ≡ book_result (fill_book crosses remaining book) index h
  unfolding fill_book
  book_loop-fill_book n [] remaining index h le = while_stop _ _ n _ refl
  book_loop-fill_book zero (l ∷ rest) remaining index h le = absurd (omega arith)
  book_loop-fill_book (suc n) ((price, level) ∷ rest) remaining index h le =
      let r = fill_level price remaining level in
      elim (Bool-cases (ltb_ℤ (pos 0) remaining && crosses price)) [
        | inr done ↦ while_stop _ _ (suc n) _ (rw done) ∙ rw done
        | inl more ↦
            while_step (book_test m on_trade incoming) (fill_best m on_trade incoming) n
              (start remaining ((price, level) ∷ rest) index h) (rw more)
            ∙ rw (fill_best-fill_level price level rest remaining index h, more)
                (elim (Bool-cases (is_empty r.level)) [
                  | inl gone ↦ rw gone (
                      book_loop-fill_book n rest r.left (foldl (unindex m) index r.fills)
                        (foldl (report on_trade incoming) h r.fills) (omega arith)
                      ∙ simp foldl-append)
                  | inr kept ↦
                      rw (kept)
                        (while_stop _ _ n _ (rw (fill_level-left price remaining level kept)))
                ])
      ]

  -- With as many rounds as there are levels and orders, `Match` returns what the plain recursion
  -- returns, with the handler called once for each fill in order and each filled order taken out of
  -- the table.
  pub match_book-fill_book :
      (book : Book) (remaining : ℤ) (index : m.Table) (h : H)
      → match_book m on_trade incoming (start remaining book index h)
        ≡ book_result (fill_book crosses remaining book) index h
  unfolding match_book
  match_book-fill_book book remaining index h =
      book_loop-fill_book (length book) book remaining index h (omega arith)
