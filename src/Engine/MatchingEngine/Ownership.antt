-- ===== src/Engine/MatchingEngine/Ownership.antt =====
-- Whose orders a cancel takes out, with ids that are used once and with an id that is used again.
use toy_exchange.Base.{
  ◌≡◌, ◌≢◌, refl, List, [], ◌∷◌, ◌++◌, true, ◌&&◌, All, arith, Bool-cases, Option-cases, inl, inr,
  some, ap,
}
use toy_exchange.Base.Int.{ℤ, pos, ltb_ℤ, ◌==ℤ◌, ==ℤ→eq, ==ℤ_refl}
use toy_exchange.Core.Types.{Side, Trade, OrderAdd, OrderCancel}
use toy_exchange.Extern.UnorderedMap.{IsMap}
use toy_exchange.Engine.Book.{OrderLocation}
use toy_exchange.Engine.Book.Invariant.{Entry}
use toy_exchange.Engine.Book.Cancel.{remove_entry}
use toy_exchange.Engine.Match.{OrderMap}
use toy_exchange.Engine.Match.Index.{id_of, Distinct, HasEntry}
use toy_exchange.Engine.MatchingEngine.{MatchingEngine, on_order_add, on_order_cancel}
use toy_exchange.Engine.MatchingEngine.Cancel.{on_order_cancel-unknown, on_order_cancel-stranger}
use toy_exchange.Engine.MatchingEngine.Invariant.{IsValid, on_order_add-IsValid}
use toy_exchange.Engine.MatchingEngine.Refinement.{side_queue, specified, on_order_cancel-refines}
use toy_exchange.Engine.MatchingEngine.Index.{
  IsIndexed, order_index-on_order_add, location, filled_index,
}

-- `after` is `before` without one order, which has this id and this owner.
abbrev pub LosesOne : ℤ → ℤ → List Entry → List Entry → Type 0
LosesOne id user before after =
    (front : List Entry) × (x : Entry) × (back : List Entry) × (before ≡ front ++ x ∷ back)
    × (after ≡ front ++ back)
    × (id_of x ≡ id)
    × (x.1.user_id ≡ user)

remove_entry-away :
    (price id : ℤ) (es : List Entry) → All (λ x. id_of x ≢ id) es → remove_entry price id es ≡ es
unfolding remove_entry
remove_entry-away price id [] h = refl
remove_entry-away price id (e ∷ es) h = ground (arith, remove_entry-away price id es h.1, h.0)

HasEntry-away :
    (id price user : ℤ) (es : List Entry)
    → All (λ x. id_of x ≢ id) es
    → HasEntry id price user es
    → ⊥
HasEntry-away id price user (e ∷ es) h (inl here) = h.0 here.0
HasEntry-away id price user (e ∷ es) h (inr later) = HasEntry-away id price user es h.1 later
HasEntry-away id price user [] h k = absurd k

HasEntry-remove_entry_self :
    (price id user : ℤ) (es : List Entry) → HasEntry id price user (remove_entry price id es) → ⊥
unfolding remove_entry
HasEntry-remove_entry_self price id user [] h = absurd h
HasEntry-remove_entry_self price id user (e ∷ es) h =
    elim (Bool-cases (e.0 ==ℤ price && e.1.order_id ==ℤ id)) [
      | inl b ↦ HasEntry-remove_entry_self price id user es (rw b at h)
      | inr b ↦ elim (rw b at h) as (λ _. ⊥) [
        | inl (same, at, _) ↦ cc (rw (at, same, ==ℤ_refl price, ==ℤ_refl id) at b)
        | inr later ↦ HasEntry-remove_entry_self price id user es later
      ]
    ]

remove_entry-LosesOne :
    (id price user : ℤ) (es : List Entry)
    → Distinct es
    → HasEntry id price user es
    → LosesOne id user es (remove_entry price id es)
unfolding remove_entry
remove_entry-LosesOne id price user [] d h = absurd h
remove_entry-LosesOne id price user (e ∷ es) d (inl (same, at, owner)) = (
  [],
  e,
  es,
  refl,
  rw (at, same, ==ℤ_refl price, ==ℤ_refl id) (remove_entry-away price id es (rw same at d.0)),
  same,
  owner,
)
remove_entry-LosesOne id price user (e ∷ es) d (inr later) =
    elim (Bool-cases (e.0 ==ℤ price && e.1.order_id ==ℤ id)) [
      | inl b ↦
          let same : id_of e ≡ id = ==ℤ→eq (id_of e) id (ground arith) in
          absurd (HasEntry-away id price user es (rw same at d.0) later)
      | inr b ↦
          let (front, x, back, split, rest, same, owner) =
            remove_entry-LosesOne id price user es d.1 later in
          (e ∷ front, x, back, ap (◌∷◌ e) split, rw b (ap (◌∷◌ e) rest), same, owner)
    ]

module _ (m : OrderMap) (laws : IsMap m) where
  -- In a valid engine whose table lists exactly the resting orders, a cancel by an order's owner
  -- takes that one order out of its side's queue, and keeps all other orders in their places.
  pub on_order_cancel-LosesOne :
      (e : MatchingEngine m) (cancel : OrderCancel) (location : OrderLocation)
      → IsValid m e
      → IsIndexed m e
      → m.find cancel.order_id e.order_index ≡ some location
      → location.user_id ≡ cancel.user_id
      → LosesOne cancel.order_id cancel.user_id
          (side_queue m location.side e)
          (side_queue m location.side (on_order_cancel m e cancel))
  on_order_cancel-LosesOne e cancel location v i found owner =
      let table = i location.side in
      let there = table.present cancel.order_id location found refl in
      rw ((on_order_cancel-refines m laws e cancel location v found owner).0, ← owner)
        (remove_entry-LosesOne cancel.order_id location.price location.user_id
          (side_queue m location.side e) table.distinct there)

module _ (m : OrderMap) where
  -- In an engine whose table lists exactly the resting orders, a cancel by a user who has no order
  -- resting under the id changes nothing.
  pub on_order_cancel-others :
      (e : MatchingEngine m) (cancel : OrderCancel)
      → IsIndexed m e
      → ((s : Side) (price : ℤ)
          → ¬ HasEntry cancel.order_id price cancel.user_id (side_queue m s e))
      → on_order_cancel m e cancel ≡ e
  on_order_cancel-others e cancel i absent =
      elim (Option-cases (m.find cancel.order_id e.order_index)) [
        | inl missing ↦ on_order_cancel-unknown m e cancel missing
        | inr (loc, found) ↦ elim (Bool-cases (loc.user_id ==ℤ cancel.user_id)) [
          | inr stranger ↦ on_order_cancel-stranger m e cancel loc found stranger
          | inl owner ↦ absurd (
              absent loc.side loc.price (
                rw (==ℤ→eq loc.user_id cancel.user_id owner) at
                  ((i loc.side).present cancel.order_id loc found refl)))
        ]
      ]

module _ (m : OrderMap) (laws : IsMap m) where
  abbrev pub cancel_of : OrderAdd → OrderCancel
  cancel_of order = record {
    order_id = order.order_id;
    user_id = order.user_id;
    ticker = order.ticker;
  }

  -- In a valid engine, if some of an order rests, then after its sender's cancel no order with that
  -- id rests at that price, whoever owns it.
  pub reused_id-cancels :
      {H : Type 0} (on_trade : H → Trade → H) (e : MatchingEngine m) (order : OrderAdd) (h : H)
      (victim : ℤ)
      → IsValid m e
      → ltb_ℤ (pos 0) (specified m e order).left ≡ true
      → let e' = (on_order_add m on_trade e order h).0 in
        ¬ HasEntry order.order_id order.price victim
          (side_queue m order.side (on_order_cancel m e' (cancel_of order)))
  reused_id-cancels on_trade e order h victim v rests =
      let e' = (on_order_add m on_trade e order h).0 in
      let found : m.find order.order_id e'.order_index ≡ some (location m order) =
        rw (order_index-on_order_add m on_trade e order h v, rests)
          (laws.find-put_self order.order_id (location m order) (filled_index m e order)) in
      rw
        ((on_order_cancel-refines m laws e' (cancel_of order) (location m order)
          (on_order_add-IsValid m on_trade e order h v) found refl).0)
        (HasEntry-remove_entry_self order.price order.order_id victim (side_queue m order.side e'))
