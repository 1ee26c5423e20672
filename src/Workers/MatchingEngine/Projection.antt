-- ===== src/Workers/MatchingEngine/Projection.antt =====
-- What a run of the thread does to one ticker, beside a run of that ticker's engine alone.
use toy_exchange.Base.{
  ◌≡◌, ◌≢◌, refl, sym, subst, ◌∙◌, ap, ap₂, List, [], ◌∷◌, ◌++◌, some, if◌then◌else◌, map, inl, inr,
  Bool-cases, append-nil, All-get_elem?,
}
use toy_exchange.Core.Types.{Ticker, same_ticker, Trade, OrderAdd, InboundCommand, add, cancel}
use toy_exchange.Core.Tickers.{same_ticker→eq, same_ticker_iff, same_ticker_refl, same_ticker_ne}
use toy_exchange.Engine.Match.{OrderMap}
use toy_exchange.Engine.Match.Fills.{Fill}
use toy_exchange.Engine.MatchingEngine.{
  MatchingEngine, on_order_add as engine_add, on_order_cancel as engine_cancel,
}
use toy_exchange.Engine.MatchingEngine.Add.{on_order_add-fill_book}
use toy_exchange.Engine.MatchingEngine.Invariant.{IsValid}
use toy_exchange.Engine.MatchingEngine.Refinement.{specified, on_order_add-refines}
use toy_exchange.Engine.MatchingEngine.Trades.{collect, fill_trade, foldl-report}
use toy_exchange.Engine.Router.{Router, ticker_index, on_order_cancel}
use toy_exchange.Engine.Router.Isolation.{
  engine_of, IsFull, on_order_add-other, on_order_cancel-other, on_order_add-listed,
  on_order_cancel-listed,
}
use toy_exchange.Engine.Router.Invariant.{AllValid, length-on_order_add, length-on_order_cancel}
use toy_exchange.Engine.Router.Trades.{fills_of}
use toy_exchange.Net.Wire.{encode_order_add_event}
use toy_exchange.Workers.MatchingEngine.{
  Output, push_event, push_trade, handle, run_matching_engine,
}
use toy_exchange.Workers.MatchingEngine.Events.{command_trades, handle-output, handle-AllValid}

abbrev pub command_ticker : InboundCommand → Ticker
command_ticker (add order) = order.ticker
command_ticker (cancel c) = c.ticker

abbrev pub commands_for : Ticker → List InboundCommand → List InboundCommand
commands_for t [] = []
commands_for t (c ∷ cs) =
    if same_ticker (command_ticker c) t then c ∷ commands_for t cs else commands_for t cs

abbrev pub trades_for : Ticker → List Trade → List Trade
trades_for t [] = []
trades_for t (x ∷ xs) = if same_ticker x.ticker t then x ∷ trades_for t xs else trades_for t xs

trades_for-append :
    (t : Ticker) (xs ys : List Trade) → trades_for t (xs ++ ys) ≡ trades_for t xs ++ trades_for t ys
trades_for-append t [] ys = refl
trades_for-append t (x ∷ xs) ys = elim (Bool-cases (same_ticker x.ticker t)) [
  | inl e ↦ rw e (ap (λ l. x ∷ l) (trades_for-append t xs ys))
  | inr n ↦ rw n (trades_for-append t xs ys)
]

trades_for-same :
    (order : OrderAdd) (fs : List Fill)
    → trades_for order.ticker (map (fill_trade order) fs) ≡ map (fill_trade order) fs
trades_for-same order [] = refl
trades_for-same order (f ∷ fs) =
    rw (same_ticker_refl order.ticker) (ap (λ l. fill_trade order f ∷ l) (trades_for-same order fs))

trades_for-other :
    (t : Ticker) (order : OrderAdd) (fs : List Fill)
    → order.ticker ≢ t
    → trades_for t (map (fill_trade order) fs) ≡ []
trades_for-other t order [] n = refl
trades_for-other t order (f ∷ fs) n =
    rw (same_ticker_ne order.ticker t n) (trades_for-other t order fs n)

module _ (m : OrderMap) where
  -- One engine and the list of its trades, under the commands of its ticker.
  abbrev pub engine_step :
      MatchingEngine m × List Trade → InboundCommand → MatchingEngine m × List Trade
  engine_step (e, ts) (add order) = engine_add m collect e order ts
  engine_step (e, ts) (cancel c) = (engine_cancel m e c, ts)

  abbrev pub run_engine :
      MatchingEngine m × List Trade → List InboundCommand → MatchingEngine m × List Trade
  run_engine s [] = s
  run_engine s (c ∷ cs) = run_engine (engine_step s c) cs

  pub engine_add-handler :
      {H K : Type 0} (f : H → Trade → H) (g : K → Trade → K) (e : MatchingEngine m)
      (order : OrderAdd) (h : H) (k : K)
      → (engine_add m f e order h).0 ≡ (engine_add m g e order k).0
  engine_add-handler f g e order h k =
      rw (on_order_add-fill_book m e order f h, on_order_add-fill_book m e order g k)

  abbrev Agrees : Ticker → Router m → List Trade → MatchingEngine m × List Trade → Type 0
  Agrees t r trades s = (engine_of m r t ≡ some s.0) × (trades_for t trades ≡ s.1)

  add-Agrees :
      (r : Router m) (out : Output) (order : OrderAdd) (e : MatchingEngine m) (ts : List Trade)
      → AllValid m r
      → Agrees order.ticker r out.trades (e, ts)
      → let (r', out') = handle m r out (add order) in
        Agrees order.ticker r' out'.trades (engine_step (e, ts) (add order))
  add-Agrees r out order e ts v (found, same) =
      let start = push_event out (encode_order_add_event order) in
      let valid = All-get_elem? (IsValid m) r.engines (ticker_index order.ticker) e v found in
      let fills = (specified m e order).fills in
      let made = map (fill_trade order) fills in
      let all : command_trades m r (add order) ≡ made = rw (found, fills_of) refl in
      (
        unfold handle in
            ((on_order_add-listed m push_trade r order start e found).0
              ∙ ap some (engine_add-handler push_trade collect e order start ts)),
        ap (λ o. trades_for order.ticker o.trades) (handle-output m r out (add order) v)
            ∙ trades_for-append order.ticker out.trades (command_trades m r (add order))
            ∙ ap₂ ◌++◌ same (ap (trades_for order.ticker) all ∙ trades_for-same order fills)
            ∙ sym
                ((on_order_add-refines m collect e order ts valid).2 ∙ foldl-report order fills ts),
      )

  step-Agrees :
      (t : Ticker) (r : Router m) (out : Output) (c : InboundCommand)
      (s : MatchingEngine m × List Trade)
      → IsFull m r
      → AllValid m r
      → Agrees t r out.trades s
      → let (r', out') = handle m r out c in
        Agrees t r' out'.trades (if same_ticker (command_ticker c) t then engine_step s c else s)
  unfolding handle
  step-Agrees t r out (add order) (e, ts) full v h =
      elim (Bool-cases (same_ticker order.ticker t)) [
        | inl q ↦ rw q (
            subst
              (λ u.
                Agrees u r out.trades (e, ts)
                → Agrees u (handle m r out (add order)).0 (handle m r out (add order)).1.trades
                    (engine_step (e, ts) (add order)))
              (same_ticker→eq order.ticker t q) (add-Agrees r out order e ts v) h)
        | inr q ↦
            let other : order.ticker ≢ t = λ k. cc (q, (same_ticker_iff order.ticker t).1 k) in
            rw q (
              on_order_add-other m push_trade r order _ t full other ∙ h.0,
              ap (λ o. trades_for t o.trades) (handle-output m r out (add order) v)
                  ∙ trades_for-append t out.trades (command_trades m r (add order))
                  ∙ ap₂ ◌++◌ h.1 (trades_for-other t order (fills_of m r order) other)
                  ∙ append-nil ts,
            )
      ]
  step-Agrees t r out (cancel c) (e, ts) full v h = elim (Bool-cases (same_ticker c.ticker t)) [
    | inl q ↦ rw q (
      subst
          (λ u.
            engine_of m r u ≡ some e
            → engine_of m (on_order_cancel m r c) u ≡ some (engine_cancel m e c))
          (same_ticker→eq c.ticker t q) (on_order_cancel-listed m r c e) h.0,
      h.1,
    )
    | inr q ↦
        let other : c.ticker ≢ t = λ k. cc (q, (same_ticker_iff c.ticker t).1 k) in
        rw q (on_order_cancel-other m r c t full other ∙ h.0, h.1)
  ]

  handle-IsFull :
      (r : Router m) (out : Output) (c : InboundCommand)
      → IsFull m r
      → IsFull m (handle m r out c).0
  unfolding handle
  handle-IsFull r out (add order) full = length-on_order_add m push_trade r order _ ∙ full
  handle-IsFull r out (cancel c) full = length-on_order_cancel m r c ∙ full

  run-Agrees :
      (t : Ticker) (r : Router m) (out : Output) (cs : List InboundCommand)
      (s : MatchingEngine m × List Trade)
      → IsFull m r
      → AllValid m r
      → Agrees t r out.trades s
      → let (r', out') = run_matching_engine m r out cs in
        Agrees t r' out'.trades (run_engine s (commands_for t cs))
  unfolding run_matching_engine
  run-Agrees t r out [] s full v h = h
  run-Agrees t r out (c ∷ cs) s full v h =
      let (r', out') = handle m r out c in
      let next = step-Agrees t r out c s full v h in
      let full' = handle-IsFull r out c full in
      let valid' = handle-AllValid m r out c v in
      elim (Bool-cases (same_ticker (command_ticker c) t)) [
        | inl q ↦ rw q (run-Agrees t r' out' cs (engine_step s c) full' valid' (rw q at next))
        | inr q ↦ rw q (run-Agrees t r' out' cs s full' valid' (rw q at next))
      ]

  -- In a router with an engine for every instrument, all of them valid, a run of the thread does to
  -- each ticker's engine, and to the list of its trades, what a run of the ticker's own commands on
  -- that engine alone does, however the commands of the other tickers stand between them.
  pub run_matching_engine-run_engine :
      (t : Ticker) (r : Router m) (out : Output) (cs : List InboundCommand) (e : MatchingEngine m)
      → IsFull m r
      → AllValid m r
      → engine_of m r t ≡ some e
      → let (r', out') = run_matching_engine m r out cs in
        let (e', ts') = run_engine (e, trades_for t out.trades) (commands_for t cs) in
        (engine_of m r' t ≡ some e') × (trades_for t out'.trades ≡ ts')
  run_matching_engine-run_engine t r out cs e full v found =
      run-Agrees t r out cs (e, trades_for t out.trades) full v (found, refl)
