-- ===== src/Engine/MatchingEngine/Entries.antt =====
-- Predicates on the resting orders of an engine, under `OnOrderAdd` and `OnOrderCancel`.
use toy_exchange.Base.{◌≡◌, refl, List, [], ◌∷◌, Bool, ◌&&◌, arith, All, Bool-cases, inl, inr, ◌⊎◌}
use toy_exchange.Base.Int.{ℤ, pos, ltb_ℤ, leb_ℤ, ◌<ℤ◌, ◌≤ℤ◌, ◌-ℤ◌, ◌==ℤ◌, -ℤ_parts}
use toy_exchange.Core.Types.{Side, buy, sell, Trade, OrderAdd, OrderCancel}
use toy_exchange.Extern.UnorderedMap.{IsMap}
use toy_exchange.Engine.Book.{RestingOrder, before}
use toy_exchange.Engine.Book.Invariant.{Entry}
use toy_exchange.Engine.Book.Rest.{insert_entry}
use toy_exchange.Engine.Book.Cancel.{remove_entry}
use toy_exchange.Engine.Match.{OrderMap, price_crosses}
use toy_exchange.Engine.Match.Fills.{fill_queue, reduced}
use toy_exchange.Engine.Match.Conservation.{maker_entry}
use toy_exchange.Engine.MatchingEngine.{MatchingEngine, opposite, on_order_add, on_order_cancel}
use toy_exchange.Engine.MatchingEngine.Cancel.{on_order_cancel-owner, on_order_cancel-cases}
use toy_exchange.Engine.MatchingEngine.Invariant.{IsValid}
use toy_exchange.Engine.MatchingEngine.Refinement.{
  side_queue, specified, resting_of, on_order_add-refines, on_order_cancel-refines,
}

-- What holds of an order holds of what a fill leaves of it.
abbrev pub IsStable {κ} : (Entry → Type κ) → Type κ
IsStable P =
    (price : ℤ) (o : RestingOrder) (traded : ℤ)
    → pos 0 <ℤ traded
    → traded <ℤ o.volume
    → P (price, o)
    → P (price, reduced o traded)

module _ {κ} (P : Entry → Type κ) where
  insert_entry-All :
      (side : Side) (price : ℤ) (o : RestingOrder) (es : List Entry)
      → P (price, o)
      → All P es
      → All P (insert_entry side price o es)
  unfolding insert_entry
  insert_entry-All side price o [] p h = (p, tt)
  insert_entry-All side price o (e ∷ es) p h = elim (Bool-cases (before side price e.0)) [
    | inl b ↦ rw b (p, h)
    | inr b ↦ rw b (h.0, insert_entry-All side price o es p h.1)
  ]

  remove_entry-All : (price id : ℤ) (es : List Entry) → All P es → All P (remove_entry price id es)
  unfolding remove_entry
  remove_entry-All price id [] h = tt
  remove_entry-All price id (e ∷ es) h =
      elim (Bool-cases ((e.0 ==ℤ price) && (e.1.order_id ==ℤ id))) [
        | inl gone ↦ rw gone (remove_entry-All price id es h.1)
        | inr kept ↦ rw kept (h.0, remove_entry-All price id es h.1)
      ]

  module _ (crosses : ℤ → Bool) where
    fill_queue-All :
        IsStable P
        → (remaining : ℤ) (es : List Entry) → All P es
        → All P (fill_queue crosses remaining es).queue
    unfolding fill_queue
    fill_queue-All stable remaining [] h = tt
    fill_queue-All stable remaining ((price, o) ∷ es) h =
        elim (Bool-cases (ltb_ℤ (pos 0) remaining && crosses price)) [
          | inr done ↦ rw done h
          | inl more ↦ rw more (elim (Bool-cases (leb_ℤ o.volume remaining)) [
            | inl whole ↦ rw whole (fill_queue-All stable (remaining -ℤ o.volume) es h.1)
            | inr part ↦ rw part (stable price o remaining (ground arith) (ground arith) h.0, h.1)
          ])
        ]

    pub fills-All :
        (remaining : ℤ) (es : List Entry)
        → All P es
        → All (λ f. P (maker_entry f)) (fill_queue crosses remaining es).fills
    unfolding fill_queue
    fills-All remaining [] h = tt
    fills-All remaining ((price, o) ∷ es) h =
        elim (Bool-cases (ltb_ℤ (pos 0) remaining && crosses price)) [
          | inr done ↦ rw done tt
          | inl more ↦ rw more (elim (Bool-cases (leb_ℤ o.volume remaining)) [
            | inl whole ↦ rw whole (h.0, fills-All (remaining -ℤ o.volume) es h.1)
            | inr part ↦ rw part (h.0, tt)
          ])
        ]

pub left-le_remaining :
    (crosses : ℤ → Bool) (remaining : ℤ) (es : List Entry)
    → All (λ e. pos 0 <ℤ e.1.volume) es
    → (fill_queue crosses remaining es).left ≤ℤ remaining
unfolding fill_queue
left-le_remaining crosses remaining [] h = omega arith
left-le_remaining crosses remaining ((price, o) ∷ es) h =
    ground
      (arith, left-le_remaining crosses (remaining -ℤ o.volume) es h.1, -ℤ_parts remaining o.volume)

Side-cases : (s t : Side) → (s ≡ t) ⊎ (s ≡ opposite t)
Side-cases buy buy = inl refl
Side-cases buy sell = inr refl
Side-cases sell buy = inr refl
Side-cases sell sell = inl refl

module _ (m : OrderMap) (P : Entry → Type 0) where
  -- Every resting order, of both sides.
  abbrev pub AllResting : MatchingEngine m → Type 0
  AllResting e = (s : Side) → All P (side_queue m s e)

  pub on_order_add-AllResting :
      {H : Type 0} (on_trade : H → Trade → H) (e : MatchingEngine m) (order : OrderAdd) (h : H)
      → IsValid m e
      → IsStable P
      → (pos 0 <ℤ (specified m e order).left
          → P (order.price, resting_of order (specified m e order).left))
      → AllResting e
      → AllResting (on_order_add m on_trade e order h).0
  on_order_add-AllResting on_trade e order h v stable rests all s =
      let (other, own, _) = on_order_add-refines m on_trade e order h v in
      elim (Side-cases s order.side) [
        | inl same ↦
            rw (same, own)
              (elim (Bool-cases (ltb_ℤ (pos 0) (specified m e order).left)) [
                | inl more ↦ rw more (
                    insert_entry-All P order.side order.price
                      (resting_of order (specified m e order).left) (side_queue m order.side e)
                      (rests (ground arith)) (all order.side))
                | inr done ↦ rw done (all order.side)
              ])
        | inr opposed ↦
            rw (opposed, other)
              (fill_queue-All P (price_crosses order.side order.price) stable order.volume
                (side_queue m (opposite order.side) e) (all (opposite order.side)))
      ]

  pub on_order_cancel-AllResting :
      (laws : IsMap m) (e : MatchingEngine m) (cancel : OrderCancel)
      → IsValid m e
      → AllResting e
      → AllResting (on_order_cancel m e cancel)
  on_order_cancel-AllResting laws e cancel v all =
      on_order_cancel-cases m e cancel AllResting all λ location found owner.
        rw (← on_order_cancel-owner m e cancel location found owner) (λ s.
          let (own, other, _) = on_order_cancel-refines m laws e cancel location v found owner in
          elim (Side-cases s location.side) [
            | inl same ↦
                rw (same, own)
                  (remove_entry-All P location.price cancel.order_id (side_queue m location.side e)
                    (all location.side))
            | inr opposed ↦ rw (opposed, other) (all (opposite location.side))
          ])
