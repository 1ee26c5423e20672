-- ===== src/Engine/Router/Invariant.antt =====
-- What the calls of the router keep of all engines.
use toy_exchange.Base.{
  ◌≡◌, ltb, length, All, All-get_elem?, All-set, length-set, inl, inr, Bool-cases, Option-cases,
}
use toy_exchange.Core.Types.{Trade, OrderAdd, OrderCancel}
use toy_exchange.Engine.Match.{OrderMap}
use toy_exchange.Engine.MatchingEngine.{
  MatchingEngine, on_order_add as engine_add, on_order_cancel as engine_cancel,
}
use toy_exchange.Engine.MatchingEngine.Invariant.{
  IsValid, on_order_add-IsValid, on_order_cancel-IsValid,
}
use toy_exchange.Engine.Router.{ticker_index, Router, on_order_add, on_order_cancel}
use toy_exchange.Engine.Router.Isolation.{engine_of}

module _ (m : OrderMap) where
  abbrev pub AllValid : Router m → Type 0
  AllValid r = All (IsValid m) r.engines

  -- What every call of an engine keeps, a call of the router keeps of all engines.
  pub on_order_add-All :
      (P : MatchingEngine m → Type 0) {H : Type 0} (on_trade : H → Trade → H) (r : Router m)
      (order : OrderAdd) (h : H)
      → ((e : MatchingEngine m) → P e → P (engine_add m on_trade e order h).0)
      → All P r.engines
      → All P (on_order_add m on_trade r order h).0.engines
  unfolding on_order_add
  on_order_add-All P on_trade r order h keep v =
      elim (Bool-cases (ltb (ticker_index order.ticker) (length r.engines))) [
        | inr out ↦ rw out v
        | inl inside ↦ elim (Option-cases (engine_of m r order.ticker)) [
          | inl missing ↦ rw (inside, missing) v
          | inr (e, found) ↦
              rw (inside, found)
                (All-set P r.engines (ticker_index order.ticker) _ v
                  (keep e (All-get_elem? P r.engines (ticker_index order.ticker) e v found)))
        ]
      ]

  pub on_order_cancel-All :
      (P : MatchingEngine m → Type 0) (r : Router m) (cancel : OrderCancel)
      → ((e : MatchingEngine m) → P e → P (engine_cancel m e cancel))
      → All P r.engines
      → All P (on_order_cancel m r cancel).engines
  unfolding on_order_cancel
  on_order_cancel-All P r cancel keep v =
      elim (Bool-cases (ltb (ticker_index cancel.ticker) (length r.engines))) [
        | inr out ↦ rw out v
        | inl inside ↦ elim (Option-cases (engine_of m r cancel.ticker)) [
          | inl missing ↦ rw (inside, missing) v
          | inr (e, found) ↦
              rw (inside, found)
                (All-set P r.engines (ticker_index cancel.ticker) _ v
                  (keep e (All-get_elem? P r.engines (ticker_index cancel.ticker) e v found)))
        ]
      ]

  pub on_order_add-AllValid :
      {H : Type 0} (on_trade : H → Trade → H) (r : Router m) (order : OrderAdd) (h : H)
      → AllValid r
      → AllValid (on_order_add m on_trade r order h).0
  on_order_add-AllValid on_trade r order h =
      on_order_add-All (IsValid m) on_trade r order h
        (λ e. on_order_add-IsValid m on_trade e order h)

  pub on_order_cancel-AllValid :
      (r : Router m) (cancel : OrderCancel) → AllValid r → AllValid (on_order_cancel m r cancel)
  on_order_cancel-AllValid r cancel =
      on_order_cancel-All (IsValid m) r cancel (λ e. on_order_cancel-IsValid m e cancel)

  -- The router keeps as many engines as it has.
  pub length-on_order_add :
      {H : Type 0} (on_trade : H → Trade → H) (r : Router m) (order : OrderAdd) (h : H)
      → length (on_order_add m on_trade r order h).0.engines ≡ length r.engines
  unfolding on_order_add
  length-on_order_add on_trade r order h =
      elim (Bool-cases (ltb (ticker_index order.ticker) (length r.engines))) [
        | inr out ↦ rw out
        | inl inside ↦ elim (Option-cases (engine_of m r order.ticker)) [
          | inl missing ↦ rw (inside, missing)
          | inr (e, found) ↦ rw (inside, found) (length-set r.engines _ _)
        ]
      ]

  pub length-on_order_cancel :
      (r : Router m) (cancel : OrderCancel)
      → length (on_order_cancel m r cancel).engines ≡ length r.engines
  unfolding on_order_cancel
  length-on_order_cancel r cancel =
      elim (Bool-cases (ltb (ticker_index cancel.ticker) (length r.engines))) [
        | inr out ↦ rw out
        | inl inside ↦ elim (Option-cases (engine_of m r cancel.ticker)) [
          | inl missing ↦ rw (inside, missing)
          | inr (e, found) ↦ rw (inside, found) (length-set r.engines _ _)
        ]
      ]
