-- ===== src/Engine/Router/Isolation.antt =====
-- Which engines an order or a cancel touches.
use toy_exchange.Base.{
  ◌≡◌, ◌≢◌, refl, suc, ◌<◌, List, [], ◌∷◌, Option, none, some, false, ltb, length, get_elem?, set,
  get_elem?-set_self, get_elem?-set_ne, get_elem?-lt, All, arith, ap, inl, inr, Bool-cases,
  Option-cases, sym, ◌∙◌, lt→ltb,
}
use toy_exchange.Core.Tickers.{same_ticker→eq}
use toy_exchange.Core.Types.{Ticker, same_ticker, instruments, Trade, OrderAdd, OrderCancel}
use toy_exchange.Engine.Match.{OrderMap}
use toy_exchange.Engine.MatchingEngine.{
  MatchingEngine, on_order_add as engine_add, on_order_cancel as engine_cancel,
}
use toy_exchange.Engine.Router.{
  position, ticker_index, Router, on_order_add, on_order_cancel, mid_price,
}

-- Two tickers at one position of the list are one.
position-inj :
    (s t : Ticker) (ts : List Ticker)
    → position s ts ≡ position t ts
    → position s ts < length ts
    → s ≡ t
unfolding position
position-inj s t [] e h = elim h [ ]
position-inj s t (x ∷ ts) e h = elim (Bool-cases (same_ticker x s)) [
  | inl a ↦ elim (Bool-cases (same_ticker x t)) [
    | inl b ↦ sym (same_ticker→eq x s a) ∙ same_ticker→eq x t b
    | inr b ↦ absurd (ground arith)
  ]
  | inr a ↦ elim (Bool-cases (same_ticker x t)) [
    | inl b ↦ absurd (ground arith)
    | inr b ↦ position-inj s t ts (ground arith) (ground arith)
  ]
]

module _ (m : OrderMap) where
  abbrev pub engine_of : Router m → Ticker → Option (MatchingEngine m)
  engine_of r t = get_elem? r.engines (ticker_index t)

  -- The router has an engine for each instrument.
  abbrev pub IsFull : Router m → Type 0
  IsFull r = length r.engines ≡ length instruments

  set-other :
      (r : Router m) (s t : Ticker) (e e' : MatchingEngine m)
      → IsFull r
      → engine_of r s ≡ some e
      → s ≢ t
      → get_elem? (set r.engines (ticker_index s) e') (ticker_index t) ≡ engine_of r t
  unfolding ticker_index
  set-other r s t e e' full here ne =
      get_elem?-set_ne r.engines {i = ticker_index s} {j = ticker_index t} e' λ same. ne (
        position-inj s t instruments same
          (omega (arith, get_elem?-lt r.engines (ticker_index s) e here, full)))

  -- In a router with an engine for every instrument, an order leaves the engine of every other
  -- ticker as it was.
  pub on_order_add-other :
      {H : Type 0} (on_trade : H → Trade → H) (r : Router m) (order : OrderAdd) (h : H) (t : Ticker)
      → IsFull r
      → order.ticker ≢ t
      → engine_of (on_order_add m on_trade r order h).0 t ≡ engine_of r t
  unfolding on_order_add
  on_order_add-other on_trade r order h t full ne =
      elim (Bool-cases (ltb (ticker_index order.ticker) (length r.engines))) [
        | inr out ↦ rw out
        | inl inside ↦ elim (Option-cases (engine_of r order.ticker)) [
          | inl missing ↦ rw (inside, missing)
          | inr (e, found) ↦ rw (inside, found) (set-other r order.ticker t e _ full found ne)
        ]
      ]

  -- In a router with an engine for every instrument, a cancel leaves the engine of every other
  -- ticker as it was.
  pub on_order_cancel-other :
      (r : Router m) (cancel : OrderCancel) (t : Ticker)
      → IsFull r
      → cancel.ticker ≢ t
      → engine_of (on_order_cancel m r cancel) t ≡ engine_of r t
  unfolding on_order_cancel
  on_order_cancel-other r cancel t full ne =
      elim (Bool-cases (ltb (ticker_index cancel.ticker) (length r.engines))) [
        | inr out ↦ rw out
        | inl inside ↦ elim (Option-cases (engine_of r cancel.ticker)) [
          | inl missing ↦ rw (inside, missing)
          | inr (e, found) ↦ rw (inside, found) (set-other r cancel.ticker t e _ full found ne)
        ]
      ]

  -- If the order's ticker has an engine, that engine does what `MatchingEngine::OnOrderAdd` does,
  -- with its trades.
  pub on_order_add-listed :
      {H : Type 0} (on_trade : H → Trade → H) (r : Router m) (order : OrderAdd) (h : H)
      (e : MatchingEngine m)
      → engine_of r order.ticker ≡ some e
      → let (e', k) = engine_add m on_trade e order h in
        let (r', h') = on_order_add m on_trade r order h in
        (engine_of r' order.ticker ≡ some e') × (h' ≡ k)
  unfolding on_order_add
  on_order_add-listed on_trade r order h e found =
      let inside = get_elem?-lt r.engines (ticker_index order.ticker) e found in
      rw (lt→ltb _ _ inside, found)
        (get_elem?-set_self r.engines (ticker_index order.ticker) _ inside, refl)

  position-unlisted :
      (t : Ticker) (ts : List Ticker) → All (λ x. x ≢ t) ts → position t ts ≡ length ts
  unfolding position
  position-unlisted t [] h = refl
  position-unlisted t (x ∷ ts) h = elim (Bool-cases (same_ticker x t)) [
    | inl e ↦ absurd (h.0 (same_ticker→eq x t e))
    | inr e ↦ rw e (ap suc (position-unlisted t ts h.1))
  ]

  unlisted_out :
      (r : Router m) (t : Ticker)
      → IsFull r
      → All (λ x. x ≢ t) instruments
      → ltb (ticker_index t) (length r.engines) ≡ false
  unfolding ticker_index
  unlisted_out r t full h = ground (arith, position-unlisted t instruments h, full)

  -- In a router with an engine for every instrument, orders and cancels for a ticker that is not an
  -- instrument change nothing and call no handler, and such a ticker has no mid price.
  pub unlisted-dropped :
      {H : Type 0} (on_trade : H → Trade → H) (r : Router m) (order : OrderAdd) (h : H)
      (cancel : OrderCancel)
      → IsFull r
      → All (λ x. x ≢ order.ticker) instruments
      → cancel.ticker ≡ order.ticker
      → (on_order_add m on_trade r order h ≡ (r, h))
        × (on_order_cancel m r cancel ≡ r)
        × (mid_price m r order.ticker ≡ none)
  unfolding on_order_add on_order_cancel mid_price
  unlisted-dropped on_trade r order h cancel full unlisted same =
      let out = unlisted_out r order.ticker full unlisted in (rw out, rw (same, out), rw out)

  pub on_order_cancel-listed :
      (r : Router m) (cancel : OrderCancel) (e : MatchingEngine m)
      → engine_of r cancel.ticker ≡ some e
      → engine_of (on_order_cancel m r cancel) cancel.ticker ≡ some (engine_cancel m e cancel)
  unfolding on_order_cancel
  on_order_cancel-listed r cancel e found =
      let inside = get_elem?-lt r.engines (ticker_index cancel.ticker) e found in
      rw (lt→ltb _ _ inside, found)
        (get_elem?-set_self r.engines (ticker_index cancel.ticker) _ inside)
