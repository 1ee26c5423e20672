-- ===== src/Engine/MatchingEngine/Tests.antt =====
-- The cases of tests/matching_engine_test.cpp as runs of the model, and the theorems at concrete
-- engines.
use toy_exchange.Base.{
  ◌≡◌, refl, List, [], ◌∷◌, ◌++◌, none, some, true, ◌↔◌, arith, All, map, inl, inr, foldl,
}
use toy_exchange.Base.Int.{Fits, ◌<ℤ◌, ℤ, pos, ◌==ℤ◌, ==ℤ→eq, ==ℤ_refl, ◌+ℤ◌, ◌-ℤ◌}
use toy_exchange.Core.Types.{Side, buy, sell, OrderAdd, OrderCancel, Ticker}
use toy_exchange.Extern.UnorderedMap.{IsMap}
use toy_exchange.Extern.AssocMap.{assoc_map, assoc_map-IsMap}
use toy_exchange.Engine.Book.{OrderLocation}
use toy_exchange.Engine.Match.{OrderMap, match_book, price_crosses}
use toy_exchange.Engine.MatchingEngine.{
  MatchingEngine, new_engine, on_order_add, on_order_cancel, mid_price,
}
use toy_exchange.Engine.Book.Cancel.{remove_entry}
use toy_exchange.Engine.Book.Invariant.{Entry}
use toy_exchange.Engine.Match.Fills.{Fill, fill_queue, fill_book}
use toy_exchange.Engine.Match.Loops.{report, unindex, match_book-fill_book}
use toy_exchange.Engine.Match.Index.{HasEntry}
use toy_exchange.Engine.Match.Conservation.{total_volume, Leaves, maker_entry}
use toy_exchange.Engine.MatchingEngine.Apart.{AreBelow}
use toy_exchange.Engine.MatchingEngine.Invariant.{
  IsValid, on_order_add-IsValid, on_order_cancel-IsValid, new_engine-IsValid,
}
use toy_exchange.Engine.MatchingEngine.Refinement.{
  side_queue, specified, rested_queue, on_order_add-refines, on_order_cancel-refines,
}
use toy_exchange.Engine.MatchingEngine.Index.{
  IsIndexed, on_order_add-IsIndexed, on_order_cancel-IsIndexed, new_engine-IsIndexed,
}
use toy_exchange.Engine.MatchingEngine.Ownership.{
  LosesOne, on_order_cancel-LosesOne, on_order_cancel-others, reused_id-cancels,
}
use toy_exchange.Engine.MatchingEngine.Bounds.{
  AllInRange, FillFits, SumFits, on_order_add-AllInRange,
}
use toy_exchange.Engine.MatchingEngine.MidPrice.{best, IsMidAfter, on_order_add-IsMidAfter}
use toy_exchange.Engine.MatchingEngine.Trades.{
  collect, trades, fill_trade, IsFair, total_trades, trades-IsFair, trades_conserve,
  trades_priority,
}

==ℤ_iff : (a b : ℤ) → ((a ==ℤ b) ≡ true) ↔ (a ≡ b)
==ℤ_iff a b = (==ℤ→eq a b, λ e. rw e (==ℤ_refl b))

abbrev pub order_map : OrderMap
order_map = assoc_map ◌==ℤ◌

pub order_map-IsMap : IsMap order_map
order_map-IsMap = assoc_map-IsMap ◌==ℤ◌ ==ℤ_iff

abbrev pub aapl : Ticker
aapl = b'A' ∷ b'A' ∷ b'P' ∷ b'L' ∷ []

abbrev pub make_order : ℤ → ℤ → Side → ℤ → ℤ → OrderAdd
make_order id user side price volume = record {
  order_id = id;
  user_id = user;
  ticker = aapl;
  side = side;
  price = price;
  volume = volume;
}

abbrev pub make_cancel : ℤ → ℤ → OrderCancel
make_cancel id user = record { order_id = id; user_id = user; ticker = aapl }

abbrev pub Engine : Type 0
Engine = MatchingEngine order_map

unfoldable pub add : Engine → OrderAdd → Engine
unfolding on_order_add ◌+ℤ◌ ◌-ℤ◌
add e o = (on_order_add order_map collect e o []).0

-- A sell of 10 at 101 by user 1.
unfoldable pub one_ask : Engine
unfolding add
one_ask = add (new_engine order_map) (make_order (pos 1) (pos 1) sell (pos 101) (pos 10))

partial_fill :
    let o = make_order (pos 2) (pos 2) buy (pos 102) (pos 15) in
    (trades order_map one_ask o
      ≡ record {
        maker_id = pos 1;
        taker_id = pos 2;
        maker_order_id = pos 1;
        taker_order_id = pos 2;
        ticker = aapl;
        taker_side = buy;
        execution_price = pos 101;
        volume = pos 10;
      }
        ∷ [])
    × ((add one_ask o).bids
        ≡ (pos 102, record { order_id = pos 2; user_id = pos 2; volume = pos 5 } ∷ []) ∷ [])
    × ((add one_ask o).asks ≡ [])
    × (mid_price order_map (add one_ask o) ≡ some (pos 102))
unfolding one_ask mid_price
partial_fill = (refl, refl, refl, refl)

-- A buy of 15 at 102 by user 2, which fills the ask and rests with 5.
abbrev big_buy : OrderAdd
big_buy = make_order (pos 2) (pos 2) buy (pos 102) (pos 15)

one_ask-IsValid : IsValid order_map one_ask
unfolding one_ask add
one_ask-IsValid =
    on_order_add-IsValid order_map collect (new_engine order_map)
      (make_order (pos 1) (pos 1) sell (pos 101) (pos 10)) [] (new_engine-IsValid order_map)

one_ask-IsIndexed : IsIndexed order_map one_ask
unfolding one_ask add
one_ask-IsIndexed =
    on_order_add-IsIndexed order_map order_map-IsMap collect (new_engine order_map)
      (make_order (pos 1) (pos 1) sell (pos 101) (pos 10)) [] (new_engine-IsValid order_map) refl
      (new_engine-IsIndexed order_map order_map-IsMap)

abbrev ask_location : OrderLocation
ask_location = record { side = sell; price = pos 101; user_id = pos 1 }

on_order_add-refines_example :
    let (e', ts) = on_order_add order_map collect one_ask big_buy [] in
    let r = specified order_map one_ask big_buy in
    (side_queue order_map sell e' ≡ r.queue)
    × (side_queue order_map buy e' ≡ rested_queue order_map one_ask big_buy r.left)
    × (ts ≡ foldl (report collect big_buy) [] r.fills)
on_order_add-refines_example =
    on_order_add-refines order_map collect one_ask big_buy [] one_ask-IsValid

on_order_cancel-refines_example :
    let e' = on_order_cancel order_map one_ask (make_cancel (pos 1) (pos 1)) in
    (side_queue order_map sell e'
      ≡ remove_entry (pos 101) (pos 1) (side_queue order_map sell one_ask))
    × (side_queue order_map buy e' ≡ side_queue order_map buy one_ask)
    × (order_map.find (pos 1) e'.order_index ≡ none)
unfolding one_ask
on_order_cancel-refines_example =
    on_order_cancel-refines order_map order_map-IsMap one_ask (make_cancel (pos 1) (pos 1))
      ask_location one_ask-IsValid refl refl

on_order_add-IsValid_example :
    IsValid order_map (on_order_add order_map collect one_ask big_buy []).0
on_order_add-IsValid_example =
    on_order_add-IsValid order_map collect one_ask big_buy [] one_ask-IsValid

on_order_cancel-IsValid_example :
    IsValid order_map (on_order_cancel order_map one_ask (make_cancel (pos 1) (pos 1)))
on_order_cancel-IsValid_example =
    on_order_cancel-IsValid order_map one_ask (make_cancel (pos 1) (pos 1)) one_ask-IsValid

trades-IsFair_example :
    let e' = (on_order_add order_map collect one_ask big_buy []).0 in
    All (IsFair big_buy) (trades order_map one_ask big_buy)
    × AreBelow (side_queue order_map buy e') (side_queue order_map sell e')
trades-IsFair_example = trades-IsFair order_map one_ask big_buy one_ask-IsValid

trades_conserve_example :
    let e' = (on_order_add order_map collect one_ask big_buy []).0 in
    let ts = trades order_map one_ask big_buy in
    (total_volume (side_queue order_map sell e') +ℤ total_trades ts
      ≡ total_volume (side_queue order_map sell one_ask))
    × (total_volume (side_queue order_map buy e') +ℤ total_trades ts
        ≡ total_volume (side_queue order_map buy one_ask) +ℤ pos 15)
trades_conserve_example = trades_conserve order_map one_ask big_buy one_ask-IsValid (omega arith)

trades_priority_example :
    (fs : List Fill) × (untouched : List Entry) × (trades order_map one_ask big_buy
      ≡ map (fill_trade big_buy) fs)
    × (side_queue order_map sell one_ask ≡ map maker_entry fs ++ untouched)
    × Leaves fs untouched
        (side_queue order_map sell (on_order_add order_map collect one_ask big_buy []).0)
trades_priority_example = trades_priority order_map one_ask big_buy one_ask-IsValid

on_order_add-IsIndexed_example :
    IsIndexed order_map (on_order_add order_map collect one_ask big_buy []).0
unfolding one_ask
on_order_add-IsIndexed_example =
    on_order_add-IsIndexed order_map order_map-IsMap collect one_ask big_buy [] one_ask-IsValid refl
      one_ask-IsIndexed

on_order_cancel-IsIndexed_example :
    IsIndexed order_map (on_order_cancel order_map one_ask (make_cancel (pos 1) (pos 1)))
on_order_cancel-IsIndexed_example =
    on_order_cancel-IsIndexed order_map order_map-IsMap one_ask (make_cancel (pos 1) (pos 1))
      one_ask-IsValid one_ask-IsIndexed

on_order_cancel-LosesOne_example :
    LosesOne
      (pos 1)
      (pos 1)
      (side_queue order_map sell one_ask)
      (side_queue order_map sell (on_order_cancel order_map one_ask (make_cancel (pos 1) (pos 1))))
unfolding one_ask
on_order_cancel-LosesOne_example =
    on_order_cancel-LosesOne order_map order_map-IsMap one_ask (make_cancel (pos 1) (pos 1))
      ask_location one_ask-IsValid one_ask-IsIndexed refl refl

no_order_of_999 :
    (s : Side) (price : ℤ) → ¬ HasEntry (pos 1) price (pos 999) (side_queue order_map s one_ask)
unfolding one_ask add
no_order_of_999 buy price h = h
no_order_of_999 sell price (inl h) = cc
no_order_of_999 sell price (inr h) = h

on_order_cancel-others_example :
    on_order_cancel order_map one_ask (make_cancel (pos 1) (pos 999)) ≡ one_ask
on_order_cancel-others_example =
    on_order_cancel-others order_map one_ask (make_cancel (pos 1) (pos 999)) one_ask-IsIndexed
      no_order_of_999

-- User 7 sells under the id of user 1's order, at its price.
abbrev same_id : OrderAdd
same_id = make_order (pos 1) (pos 7) sell (pos 101) (pos 1)

reused_id-cancels_example :
    let e' = (on_order_add order_map collect one_ask same_id []).0 in
    ¬ HasEntry
      (pos 1)
      (pos 101)
      (pos 1)
      (side_queue order_map sell (on_order_cancel order_map e' (make_cancel (pos 1) (pos 7))))
unfolding one_ask add fill_queue
reused_id-cancels_example =
    reused_id-cancels order_map order_map-IsMap collect one_ask same_id [] (pos 1) one_ask-IsValid
      refl

on_order_add-IsMidAfter_example :
    IsMidAfter order_map one_ask (on_order_add order_map collect one_ask big_buy []).0
on_order_add-IsMidAfter_example =
    on_order_add-IsMidAfter order_map collect one_ask big_buy [] one_ask-IsValid

match_book-fill_book_example :
    match_book order_map collect big_buy (record {
      remaining = pos 15;
      book = one_ask.asks;
      order_index = one_ask.order_index;
      handled = [];
    })
    ≡ (let r = fill_book (price_crosses buy (pos 102)) (pos 15) one_ask.asks in
        record {
          remaining = r.left;
          book = r.book;
          order_index = foldl (unindex order_map) one_ask.order_index r.fills;
          handled = foldl (report collect big_buy) [] r.fills;
        })
match_book-fill_book_example =
    match_book-fill_book order_map collect big_buy one_ask.asks (pos 15) one_ask.order_index []

one_ask-AllInRange : AllInRange order_map one_ask
unfolding one_ask add
one_ask-AllInRange buy = tt
one_ask-AllInRange sell = ((omega arith, omega arith), tt)

on_order_add-AllInRange_example :
    let e' = (on_order_add order_map collect one_ask big_buy []).0 in
    let r = specified order_map one_ask big_buy in
    AllInRange order_map e'
    × All FillFits r.fills
    × (pos 0 <ℤ r.left → Fits r.left)
    × SumFits (best e'.bids) (best e'.asks)
on_order_add-AllInRange_example =
    on_order_add-AllInRange order_map collect one_ask big_buy [] one_ask-IsValid one_ask-AllInRange
      (omega arith) (omega arith)
