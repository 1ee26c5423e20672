-- ===== src/Engine/Match/Fills.antt =====
-- `Match` of common/engine/matching_engine.hpp as plain recursions: over a level, over a book, and
-- over the queue of all resting orders by priority.
use toy_exchange.Base.{List, [], ◌∷◌, ◌++◌, Bool, ◌&&◌, if◌then◌else◌, is_empty}
use toy_exchange.Base.Int.{ℤ, pos, ltb_ℤ, leb_ℤ, ◌-ℤ◌}
use toy_exchange.Engine.Book.{RestingOrder, PriceLevel, Book}
use toy_exchange.Engine.Book.Invariant.{Entry}

-- `maker` is the resting order before the fill.
pub record Fill : Type 0 where
  pub price : ℤ
  pub maker : RestingOrder
  pub traded : ℤ

pub record LevelFills : Type 0 where
  pub left : ℤ
  pub level : PriceLevel
  pub fills : List Fill

pub record BookFills : Type 0 where
  pub left : ℤ
  pub book : Book
  pub fills : List Fill

pub record QueueFills : Type 0 where
  pub left : ℤ
  pub queue : List Entry
  pub fills : List Fill

abbrev pub fill_of : ℤ → RestingOrder → ℤ → Fill
fill_of price o traded = record { price = price; maker = o; traded = traded }

abbrev pub reduced : RestingOrder → ℤ → RestingOrder
reduced o traded = record o { volume = o.volume -ℤ traded }

unfoldable pub fill_level : ℤ → ℤ → PriceLevel → LevelFills
fill_level price remaining [] = record { left = remaining; level = []; fills = [] }
fill_level price remaining (o ∷ os) =
    let r = fill_level price (remaining -ℤ o.volume) os in
    if ltb_ℤ (pos 0) remaining
    then (if leb_ℤ o.volume remaining
        then record { left = r.left; level = r.level; fills = fill_of price o o.volume ∷ r.fills }
        else record {
          left = pos 0;
          level = reduced o remaining ∷ os;
          fills = fill_of price o remaining ∷ [];
        })
    else record { left = remaining; level = o ∷ os; fills = [] }

module _ (crosses : ℤ → Bool) where
  unfoldable pub fill_book : ℤ → Book → BookFills
  fill_book remaining [] = record { left = remaining; book = []; fills = [] }
  fill_book remaining ((price, level) ∷ rest) =
      let r = fill_level price remaining level in
      let s = fill_book r.left rest in
      if ltb_ℤ (pos 0) remaining && crosses price
      then (if is_empty r.level
          then record { left = s.left; book = s.book; fills = r.fills ++ s.fills }
          else record { left = r.left; book = (price, r.level) ∷ rest; fills = r.fills })
      else record { left = remaining; book = (price, level) ∷ rest; fills = [] }

  -- Price-time priority: the orders in the order of the queue, as long as volume remains and the
  -- price crosses, each to the last share that is wanted.
  unfoldable pub fill_queue : ℤ → List Entry → QueueFills
  fill_queue remaining [] = record { left = remaining; queue = []; fills = [] }
  fill_queue remaining ((price, o) ∷ es) =
      let r = fill_queue (remaining -ℤ o.volume) es in
      if ltb_ℤ (pos 0) remaining && crosses price
      then (if leb_ℤ o.volume remaining
          then record { left = r.left; queue = r.queue; fills = fill_of price o o.volume ∷ r.fills }
          else record {
            left = pos 0;
            queue = (price, reduced o remaining) ∷ es;
            fills = fill_of price o remaining ∷ [];
          })
      else record { left = remaining; queue = (price, o) ∷ es; fills = [] }
