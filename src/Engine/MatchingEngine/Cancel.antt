-- ===== src/Engine/MatchingEngine/Cancel.antt =====
-- The branches of `OnOrderCancel`.
use toy_exchange.Base.{◌≡◌, false, Bool-cases, Option-cases, inl, inr, none, some}
use toy_exchange.Base.Int.{◌==ℤ◌, ==ℤ→eq, ==ℤ_refl}
use toy_exchange.Core.Types.{OrderCancel}
use toy_exchange.Engine.Book.{erase_from_book, OrderLocation}
use toy_exchange.Engine.Match.{OrderMap}
use toy_exchange.Engine.MatchingEngine.{
  MatchingEngine, side_book, set_side_book, update_mid_price, on_order_cancel,
}

module _ (m : OrderMap) (e : MatchingEngine m) (cancel : OrderCancel) where
  -- The engine without the order, before the new mid price.
  abbrev pub after_erase : OrderLocation → MatchingEngine m
  after_erase location =
      let book =
        erase_from_book location.side (side_book m location.side e) location.price
          cancel.order_id in
      record (set_side_book m location.side book e) {
        order_index = m.erase cancel.order_id e.order_index;
      }

  pub on_order_cancel-unknown :
      m.find cancel.order_id e.order_index ≡ none → on_order_cancel m e cancel ≡ e
  unfolding on_order_cancel
  on_order_cancel-unknown missing = rw (missing, on_order_cancel)

  pub on_order_cancel-stranger :
      (location : OrderLocation)
      → m.find cancel.order_id e.order_index ≡ some location
      → (location.user_id ==ℤ cancel.user_id) ≡ false
      → on_order_cancel m e cancel ≡ e
  unfolding on_order_cancel
  on_order_cancel-stranger location found stranger = rw (found, on_order_cancel) (rw stranger)

  pub on_order_cancel-owner :
      (location : OrderLocation)
      → m.find cancel.order_id e.order_index ≡ some location
      → location.user_id ≡ cancel.user_id
      → on_order_cancel m e cancel ≡ update_mid_price m (after_erase location)
  unfolding on_order_cancel
  on_order_cancel-owner location found owner =
      rw (found, on_order_cancel) (rw (owner, ==ℤ_refl cancel.user_id))

  -- What holds of the engine as it was and of the engine without an order of the caller holds after
  -- the call.
  pub on_order_cancel-cases {κ} :
      (P : MatchingEngine m → Type κ)
      → P e
      → ((location : OrderLocation)
          → m.find cancel.order_id e.order_index ≡ some location
          → location.user_id ≡ cancel.user_id
          → P (update_mid_price m (after_erase location)))
      → P (on_order_cancel m e cancel)
  on_order_cancel-cases P same erased = elim (Option-cases (m.find cancel.order_id e.order_index)) [
    | inl missing ↦ rw (on_order_cancel-unknown missing) same
    | inr (location, found) ↦ elim (Bool-cases (location.user_id ==ℤ cancel.user_id)) [
      | inl owner ↦
          let is_owner = ==ℤ→eq location.user_id cancel.user_id owner in
          rw (on_order_cancel-owner location found is_owner) (erased location found is_owner)
      | inr stranger ↦ rw (on_order_cancel-stranger location found stranger) same
    ]
  ]
