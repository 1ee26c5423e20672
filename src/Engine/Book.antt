-- ===== src/Engine/Book.antt =====
-- The book of one side: `PriceLevel`, `Bids`, `Asks` of common/engine/matching_engine.hpp, and
-- `EraseFromBook` of common/engine/matching_engine.cpp.
pub mod Invariant
pub mod Rest
pub mod Cancel
use toy_exchange.Base.{List, [], ◌∷◌, none, some, Bool, if◌then◌else◌, is_empty}
use toy_exchange.Base.Int.{ℤ, ltb_ℤ, ◌==ℤ◌}
use toy_exchange.Core.Types.{Side, buy, sell}
use toy_exchange.Engine.FlatMap

pub record RestingOrder : Type 0 where
  pub order_id : ℤ
  pub user_id : ℤ
  pub volume : ℤ

pub record OrderLocation : Type 0 where
  pub side : Side
  pub price : ℤ
  pub user_id : ℤ

-- The oldest order comes first.
abbrev pub PriceLevel : Type 0
PriceLevel = List RestingOrder

abbrev pub Book : Type 0
Book = List (ℤ × PriceLevel)

-- The comparators of `Bids` (`std::greater`) and `Asks` (`std::less`).
abbrev pub before : Side → ℤ → ℤ → Bool
before buy p q = ltb_ℤ q p
before sell p q = ltb_ℤ p q

-- `std::erase_if` of the orders with this id.
unfoldable pub erase_if : ℤ → PriceLevel → PriceLevel
erase_if id [] = []
erase_if id (o ∷ os) = if o.order_id ==ℤ id then erase_if id os else o ∷ erase_if id os

unfoldable pub erase_from_book : Side → Book → ℤ → ℤ → Book
unfolding FlatMap.find FlatMap.modify FlatMap.erase erase_if
erase_from_book side book price id = elim (FlatMap.find (before side) price book) [
  | none ↦ book
  | some level ↦
      let kept = erase_if id level in
      let book' = FlatMap.modify (before side) price [] (λ _. kept) book in
      if is_empty kept then FlatMap.erase (before side) price book' else book'
]
