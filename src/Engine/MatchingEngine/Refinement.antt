-- ===== src/Engine/MatchingEngine/Refinement.antt =====
-- The engine as two queues by price and time: what `OnOrderAdd` and `OnOrderCancel` do to them.
use toy_exchange.Base.{
  ◌≡◌, refl, List, [], foldl, if◌then◌else◌, Bool-cases, inl, inr, none, some, ◌∙◌,
}
use toy_exchange.Base.Int.{ℤ, pos, ltb_ℤ}
use toy_exchange.Core.Types.{Side, buy, sell, Trade, OrderAdd, OrderCancel}
use toy_exchange.Extern.UnorderedMap.{IsMap}
use toy_exchange.Engine.Book.{erase_from_book, RestingOrder, OrderLocation, Book}
use toy_exchange.Engine.Book.Invariant.{Entry, queue}
use toy_exchange.Engine.Book.Rest.{push_back, insert_entry, queue-push_back}
use toy_exchange.Engine.Book.Cancel.{remove_entry, queue-erase_from_book}
use toy_exchange.Engine.Match.{OrderMap, price_crosses}
use toy_exchange.Engine.Match.Fills.{QueueFills, fill_queue}
use toy_exchange.Engine.Match.Loops.{report, unindex}
use toy_exchange.Engine.Match.Priority.{queue-fill_book}
use toy_exchange.Engine.MatchingEngine.{
  MatchingEngine, opposite, side_book, set_side_book, rest_order, on_order_add, on_order_cancel,
}
use toy_exchange.Engine.MatchingEngine.Sides.{
  side_book-after_match, side_book-update_mid_price, order_index-update_mid_price,
}
use toy_exchange.Engine.MatchingEngine.Add.{filling, after_rest, on_order_add-fill_book}
use toy_exchange.Engine.MatchingEngine.Cancel.{after_erase, on_order_cancel-owner}
use toy_exchange.Engine.MatchingEngine.Invariant.{IsValid, IsValid→at}

abbrev pub resting_of : OrderAdd → ℤ → RestingOrder
resting_of order remaining = record {
  order_id = order.order_id;
  user_id = order.user_id;
  volume = remaining;
}

module _ (m : OrderMap) where
  abbrev pub side_queue : Side → MatchingEngine m → List Entry
  side_queue side e = queue (side_book m side e)

  -- Price-time priority on the queue of the other side.
  abbrev pub specified : MatchingEngine m → OrderAdd → QueueFills
  specified e order =
      fill_queue (price_crosses order.side order.price) order.volume
        (side_queue (opposite order.side) e)

  -- The queue of the order's own side after the call.
  abbrev pub rested_queue : MatchingEngine m → OrderAdd → ℤ → List Entry
  rested_queue e order left =
      if ltb_ℤ (pos 0) left
      then insert_entry order.side order.price (resting_of order left) (side_queue order.side e)
      else side_queue order.side e

  side_book-set_other :
      (s : Side) (own other : Book) (i j : m.Table) (e : MatchingEngine m)
      → let e' : MatchingEngine m = record (set_side_book m (opposite s) other e) {
        order_index = i;
      } in
        let e'' : MatchingEngine m = record (set_side_book m s own e') { order_index = j } in
        (side_book m (opposite s) e'' ≡ other)
        × (side_book m s e'' ≡ own)
        × (side_book m (opposite s) e' ≡ other)
  side_book-set_other buy own other i j e = (refl, refl, refl)
  side_book-set_other sell own other i j e = (refl, refl, refl)

  after_rest-other :
      (e : MatchingEngine m) (order : OrderAdd)
      → side_book m (opposite order.side) (after_rest m e order) ≡ (filling m e order).book
  unfolding rest_order
  after_rest-other e order =
      let sides = λ (own : Book) (j : m.Table).
        side_book-set_other order.side own (filling m e order).book
          (foldl (unindex m) e.order_index (filling m e order).fills) j e in
      elim (Bool-cases (ltb_ℤ (pos 0) (filling m e order).left)) [
        | inl more ↦ rw more (sides _ _).0
        | inr done ↦ rw done (sides [] e.order_index).2
      ]

  after_rest-own :
      (e : MatchingEngine m) (order : OrderAdd)
      → let r = filling m e order in
        let own = side_book m order.side e in
        side_book m order.side (after_rest m e order) ≡ (
          if ltb_ℤ (pos 0) r.left
          then push_back order.side order.price (resting_of order r.left) own
          else own)
  unfolding rest_order
  after_rest-own e order =
      let matched =
        side_book-after_match m order.side (filling m e order).book
          (foldl (unindex m) e.order_index (filling m e order).fills) e in
      elim (Bool-cases (ltb_ℤ (pos 0) (filling m e order).left)) [
        | inl more ↦
            rw more
              ((side_book-set_other order.side _ (filling m e order).book _ _ e).1 ∙ rw matched)
        | inr done ↦ rw done matched
      ]

  -- In a valid engine `OnOrderAdd` refines the two queues: the other side's queue and the trades
  -- are those of price-time priority, and what is left of the order goes into its own side's queue
  -- behind the orders at its price or better. The handler is called once for each fill, in order.
  pub on_order_add-refines :
      {H : Type 0} (on_trade : H → Trade → H) (e : MatchingEngine m) (order : OrderAdd) (h : H)
      → IsValid m e
      → let (e', h') = on_order_add m on_trade e order h in
        let r = specified e order in
        (side_queue (opposite order.side) e' ≡ r.queue)
        × (side_queue order.side e' ≡ rested_queue e order r.left)
        × (h' ≡ foldl (report on_trade order) h r.fills)
  on_order_add-refines on_trade e order h v =
      let at = IsValid→at m order.side e v in
      let other : Book = side_book m (opposite order.side) e in
      let own : Book = side_book m order.side e in
      let left : ℤ = (filling m e order).left in
      rw
        (
          on_order_add-fill_book m e order on_trade h,
          queue-fill_book (price_crosses order.side order.price) order.volume other at.other.orders,
        )
        (
          rw (
            side_book-update_mid_price m (opposite order.side) (after_rest m e order),
            after_rest-other e order,
          ),
          rw
              (
                side_book-update_mid_price m order.side (after_rest m e order),
                after_rest-own e order,
              )
              (elim (Bool-cases (ltb_ℤ (pos 0) left)) [
                | inl more ↦ rw more (
                    queue-push_back order.side order.price (resting_of order left) own at.own.sorted
                      at.own.orders)
                | inr done ↦ rw done
              ]),
          refl,
        )

  erased_sides :
      (s : Side) (book : Book) (i : m.Table) (e : MatchingEngine m)
      → let e' : MatchingEngine m = record (set_side_book m s book e) { order_index = i } in
        (side_book m s e' ≡ book) × (side_book m (opposite s) e' ≡ side_book m (opposite s) e)
  erased_sides buy book i e = (refl, refl)
  erased_sides sell book i e = (refl, refl)

  -- In a valid engine, a cancel whose id is listed with its sender as the owner takes the orders
  -- with that id at its price out of the queue of its side and the id out of the table; the other
  -- side stays as it was.
  pub on_order_cancel-refines :
      (laws : IsMap m) (e : MatchingEngine m) (cancel : OrderCancel) (location : OrderLocation)
      → IsValid m e
      → m.find cancel.order_id e.order_index ≡ some location
      → location.user_id ≡ cancel.user_id
      → let e' = on_order_cancel m e cancel in
        (side_queue location.side e'
          ≡ remove_entry location.price cancel.order_id (side_queue location.side e))
        × (side_queue (opposite location.side) e' ≡ side_queue (opposite location.side) e)
        × (m.find cancel.order_id e'.order_index ≡ none)
  on_order_cancel-refines laws e cancel location v found owner =
      let at = IsValid→at m location.side e v in
      let sides =
        erased_sides location.side
          (erase_from_book location.side (side_book m location.side e) location.price
            cancel.order_id)
          (m.erase cancel.order_id e.order_index) e in
      rw (on_order_cancel-owner m e cancel location found owner) (
        rw (side_book-update_mid_price m location.side (after_erase m e cancel location), sides.0)
            (queue-erase_from_book location.side location.price cancel.order_id
              (side_book m location.side e) at.own.sorted),
        rw (
          side_book-update_mid_price m (opposite location.side) (after_erase m e cancel location),
          sides.1,
        ),
        rw (order_index-update_mid_price m (after_erase m e cancel location))
            (laws.find-erase_self cancel.order_id e.order_index),
      )
