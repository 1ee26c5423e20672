-- ===== src/Engine/MatchingEngine/Index.antt =====
-- `orderIndex_` beside the resting orders of both sides, when no id is used again while its order
-- rests.
use toy_exchange.Base.{
  ◌≡◌, ◌≢◌, refl, List, foldl, Bool, if◌then◌else◌, Bool-cases, inl, inr, some, none, sym, Option,
}
use toy_exchange.Base.Int.{ℤ, pos, ltb_ℤ}
use toy_exchange.Core.Types.{Side, buy, sell, Trade, OrderAdd, OrderCancel}
use toy_exchange.Extern.UnorderedMap.{IsMap}
use toy_exchange.Engine.Book.{OrderLocation}
use toy_exchange.Engine.Book.Invariant.{Entry}
use toy_exchange.Engine.Match.{OrderMap, price_crosses}
use toy_exchange.Engine.Match.Fills.{QueueFills}
use toy_exchange.Engine.Match.Loops.{unindex}
use toy_exchange.Engine.Match.Priority.{queue-fill_book}
use toy_exchange.Engine.Match.Index.{IsTable, find-of-unindexed, fill_queue-IsTable}
use toy_exchange.Engine.Match.IndexMoves.{
  insert_entry-IsTable, put_other-IsTable, remove_entry-IsTable, erase_other-IsTable,
  fills_other-IsTable,
}
use toy_exchange.Engine.MatchingEngine.{
  MatchingEngine, new_engine, opposite, side_book, rest_order, on_order_add, on_order_cancel,
}
use toy_exchange.Engine.MatchingEngine.Sides.{order_index-update_mid_price}
use toy_exchange.Engine.MatchingEngine.Add.{filling, after_rest, on_order_add-fill_book}
use toy_exchange.Engine.MatchingEngine.Cancel.{
  after_erase, on_order_cancel-cases, on_order_cancel-owner,
}
use toy_exchange.Engine.MatchingEngine.Invariant.{IsValid, IsValid→at}
use toy_exchange.Engine.MatchingEngine.Refinement.{
  side_queue, specified, rested_queue, resting_of, on_order_add-refines, on_order_cancel-refines,
}

both_sides {κ} : (P : Side → Type κ) (s t : Side) → P s → P (opposite s) → P t
both_sides P buy buy a b = a
both_sides P buy sell a b = b
both_sides P sell buy a b = b
both_sides P sell sell a b = a

opposite-ne : (s : Side) → s ≢ opposite s
opposite-ne buy = λ e. cc
opposite-ne sell = λ e. cc

none_of {ℓ} : {A : Type ℓ} (o : Option A) → ((a : A) → o ≡ some a → ⊥) → o ≡ none
none_of none h = refl
none_of (some a) h = absurd (h a refl)

module _ (m : OrderMap) where
  -- On each side the table lists the orders of the queue and nothing else.
  abbrev pub IsIndexed : MatchingEngine m → Type 0
  IsIndexed e = (s : Side) → IsTable m s e.order_index (side_queue m s e)

  abbrev pub location : OrderAdd → OrderLocation
  location order = record { side = order.side; price = order.price; user_id = order.user_id }

  abbrev pub filled_index : MatchingEngine m → OrderAdd → m.Table
  filled_index e order = foldl (unindex m) e.order_index (specified m e order).fills

  order_index-after_rest :
      (e : MatchingEngine m) (order : OrderAdd)
      → (after_rest m e order).order_index ≡ (
          let t = foldl (unindex m) e.order_index (filling m e order).fills in
          if ltb_ℤ (pos 0) (filling m e order).left
          then m.put order.order_id (location order) t
          else t)
  unfolding rest_order
  order_index-after_rest e order = elim (Bool-cases (ltb_ℤ (pos 0) (filling m e order).left)) [
    | inl more ↦ rw more
    | inr done ↦ rw done
  ]

  pub order_index-on_order_add :
      {H : Type 0} (on_trade : H → Trade → H) (e : MatchingEngine m) (order : OrderAdd) (h : H)
      → IsValid m e
      → (on_order_add m on_trade e order h).0.order_index ≡ (
          if ltb_ℤ (pos 0) (specified m e order).left
          then m.put order.order_id (location order) (filled_index e order)
          else filled_index e order)
  order_index-on_order_add on_trade e order h v = rw (
    on_order_add-fill_book m e order on_trade h,
    order_index-update_mid_price m (after_rest m e order),
    order_index-after_rest e order,
    queue-fill_book (price_crosses order.side order.price) order.volume
        (side_book m (opposite order.side) e) (IsValid→at m order.side e v).other.orders,
  )

  module _ (laws : IsMap m) where
    -- In a valid engine an order whose id is not in use keeps the table listing exactly the resting
    -- orders, each with its side, price and owner: `OnOrderAdd` takes out the orders that
    -- it fills and puts in what rests.
    pub on_order_add-IsIndexed :
        {H : Type 0} (on_trade : H → Trade → H) (e : MatchingEngine m) (order : OrderAdd) (h : H)
        → IsValid m e
        → m.find order.order_id e.order_index ≡ none
        → IsIndexed e
        → IsIndexed (on_order_add m on_trade e order h).0
    on_order_add-IsIndexed on_trade e order h v fresh i s =
        both_sides
          (λ s.
            IsTable m s (on_order_add m on_trade e order h).0.order_index
              (side_queue m s (on_order_add m on_trade e order h).0))
          order.side s
          (rw (refined.1, index)
            (elim (Bool-cases (ltb_ℤ (pos 0) r.left)) [
              | inl more ↦ rw more (
                  insert_entry-IsTable laws side order.price (resting_of order r.left) t own unused
                    own_filled)
              | inr done ↦ rw done own_filled
            ]))
          (rw (refined.0, index)
            (elim (Bool-cases (ltb_ℤ (pos 0) r.left)) [
              | inl more ↦ rw more (
                  put_other-IsTable laws (opposite side) order.order_id (location order) t r.queue
                    (opposite-ne side) unused other_filled)
              | inr done ↦ rw done other_filled
            ]))
      where
        side : Side
        side = order.side

        crosses : ℤ → Bool
        crosses = price_crosses side order.price

        own : List Entry
        own = side_queue m side e

        other : List Entry
        other = side_queue m (opposite side) e

        r : QueueFills
        r = specified m e order

        t : m.Table
        t = filled_index e order

        refined :
            (side_queue m (opposite side) (on_order_add m on_trade e order h).0 ≡ r.queue)
            × (side_queue m side (on_order_add m on_trade e order h).0
                ≡ rested_queue m e order r.left)
        refined = let f = on_order_add-refines m on_trade e order h v in (f.0, f.1)

        index :
            (on_order_add m on_trade e order h).0.order_index
            ≡ (if ltb_ℤ (pos 0) r.left then m.put order.order_id (location order) t else t)
        index = order_index-on_order_add on_trade e order h v

        unused : m.find order.order_id t ≡ none
        unused = none_of _ (λ loc found.
            absurd (cc (find-of-unindexed laws order.order_id r.fills e.order_index found, fresh)))

        own_filled : IsTable m side t own
        own_filled =
            fills_other-IsTable laws crosses side (opposite side) order.volume e.order_index own
              other (λ q. opposite-ne side (sym q)) (i (opposite side)) (i side)

        other_filled : IsTable m (opposite side) t r.queue
        other_filled =
            fill_queue-IsTable laws crosses (opposite side) order.volume other e.order_index
              (i (opposite side))

    -- In a valid engine `OnOrderCancel` keeps the table listing exactly the resting orders.
    pub on_order_cancel-IsIndexed :
        (e : MatchingEngine m) (cancel : OrderCancel)
        → IsValid m e
        → IsIndexed e
        → IsIndexed (on_order_cancel m e cancel)
    on_order_cancel-IsIndexed e cancel v i =
        on_order_cancel-cases m e cancel IsIndexed i (λ loc found owner.
          rw (← on_order_cancel-owner m e cancel loc found owner) (erased loc found owner))
      where
        index :
            (loc : OrderLocation)
            → m.find cancel.order_id e.order_index ≡ some loc
            → loc.user_id ≡ cancel.user_id
            → (on_order_cancel m e cancel).order_index ≡ m.erase cancel.order_id e.order_index
        index loc found owner = rw (
          on_order_cancel-owner m e cancel loc found owner,
          order_index-update_mid_price m (after_erase m e cancel loc),
        )

        erased :
            (loc : OrderLocation)
            → m.find cancel.order_id e.order_index ≡ some loc
            → loc.user_id ≡ cancel.user_id
            → IsIndexed (on_order_cancel m e cancel)
        erased loc found owner s =
            let f = on_order_cancel-refines m laws e cancel loc v found owner in
            both_sides
              (λ s.
                IsTable m s (on_order_cancel m e cancel).order_index
                  (side_queue m s (on_order_cancel m e cancel)))
              loc.side s
              (rw (f.0, index loc found owner)
                (remove_entry-IsTable laws loc.side cancel.order_id loc e.order_index
                  (side_queue m loc.side e) found (i loc.side)))
              (rw (f.1, index loc found owner)
                (erase_other-IsTable laws (opposite loc.side) cancel.order_id loc e.order_index
                  (side_queue m (opposite loc.side) e) (λ q. opposite-ne loc.side (sym q)) found
                  (i (opposite loc.side))))

    -- A new engine lists nothing.
    pub new_engine-IsIndexed : IsIndexed (new_engine m)
    new_engine-IsIndexed buy = record {
      listed = tt;
      distinct = tt;
      present = λ id loc h _. absurd (cc (laws.find-empty id, h));
    }
    new_engine-IsIndexed sell = record {
      listed = tt;
      distinct = tt;
      present = λ id loc h _. absurd (cc (laws.find-empty id, h));
    }
