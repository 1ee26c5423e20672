-- ===== src/Exchange/Threads/Schedule.antt =====
-- Runs of the threads of exchange/main.cpp that empty the queues.
use toy_exchange.Base.{
  ◌≡◌, ◌≢◌, refl, sym, ◌∙◌, ap, subst, List, [], ◌∷◌, ◌++◌, Option, none, some, false, All, ◌⊎◌,
  inl, inr, arith,
}
use toy_exchange.Base.Int.{ℤ}
use toy_exchange.Core.Types.{Trade, InboundCommand}
use toy_exchange.Extern.Double.{Double}
use toy_exchange.Extern.UnorderedMap.{IsMap}
use toy_exchange.Engine.Match.{OrderMap}
use toy_exchange.Engine.User.{Inventory}
use toy_exchange.Engine.UserRegistry.{UserRegistry, market_participant_count}
use toy_exchange.Net.Wire.{WireMarketDataMessage}
use toy_exchange.Workers.Drain.{State, Consumer, polling, found_empty, stopped}
use toy_exchange.Workers.MatchingEngine.Pushes.{Push, to_market_data, to_trades, handle_pushes}
use toy_exchange.Workers.Inventory.{settle}
use toy_exchange.Workers.Inventory.Settlement.{HasUsers, settle-total_position}
use toy_exchange.Exchange.Balance.{HasUser}
use toy_exchange.Exchange.Threads.{
  enqueue, dequeue, poll_again, System, Step, match, push_market_data, push_trades, publish,
  publisher_wait, settle_trade, inventory_wait, Steps, here, later,
}
use toy_exchange.Exchange.Threads.Accounts.{IsRun-total_position, queue-HasUsers}
use toy_exchange.Exchange.Threads.Invariant.{IsRun, Steps-IsRun}
use toy_exchange.Exchange.Threads.Quiet.{IsRunning, IsQuiet, Steps-IsQuiet}

pub Consumer-cases : (c : Consumer) → c ≢ stopped → (c ≡ polling) ⊎ (c ≡ found_empty)
Consumer-cases polling h = inl refl
Consumer-cases found_empty h = inr refl
Consumer-cases stopped h = absurd (h refl)

module _ {W : Type 0} (m : OrderMap) (d : Double W) (inv : Inventory W) where
  pub Steps-then :
      {s t u : System m d inv} → Steps m d inv s t → Steps m d inv t u → Steps m d inv s u
  Steps-then r here = r
  Steps-then r (later ss x) = later (Steps-then r ss) x

  pub first : {s t u : System m d inv} → Step m d inv s t → Steps m d inv t u → Steps m d inv s u
  first x ss = Steps-then (later here x) ss

  -- The publisher empties its queue.
  publish_polling :
      (es : List WireMarketDataMessage) (s : System m d inv)
      → s.market_data.consumer ≡ polling
      → s.market_data.queue ≡ es
      → (q : State WireMarketDataMessage) × Steps m d inv s (record s { market_data = q })
        × (q.consumer ≡ polling)
        × (q.queue ≡ [])
  publish_polling [] s p e = (s.market_data, here, p, e)
  publish_polling (v ∷ es) s p e =
      let next = record s { market_data = dequeue s.market_data v es } in
      let (q, ss, p', e') = publish_polling es next p refl in
      (q, first (publish v es p e) ss, p', e')

  pub publish_all :
      (s : System m d inv)
      → IsRunning s.market_data
      → (q : State WireMarketDataMessage) × Steps m d inv s (record s { market_data = q })
        × (q.consumer ≡ polling)
        × (q.queue ≡ [])
  publish_all s (f, c) = elim (Consumer-cases s.market_data.consumer c) [
    | inl p ↦ publish_polling s.market_data.queue s p refl
    | inr p ↦
        let next = record s { market_data = record s.market_data { consumer = polling } } in
        let (q, ss, p', e') = publish_polling s.market_data.queue next refl refl in
        (q, first (publisher_wait (poll_again p f)) ss, p', e')
  ]

  module _ (m_laws : IsMap m) (laws : IsMap inv) where
    -- Nothing has stopped, and the orders name users of the registry.
    abbrev pub IsLive : System m d inv → Type 0
    IsLive s =
        IsRun m d inv s
        × IsQuiet m d inv s
        × All (HasUser market_participant_count) s.inbound.pushed

    pub Steps-IsLive :
        {s t : System m d inv}
        → Steps m d inv s t
        → (t.inbound.finished ≡ false)
        → (t.inbound.pushed ≡ s.inbound.pushed)
        → IsLive s
        → IsLive t
    Steps-IsLive ss f p (run, quiet, known) = (
      Steps-IsRun m d inv ss run,
      Steps-IsQuiet m d inv ss quiet f,
      subst (All (HasUser market_participant_count)) (sym p) known,
    )

    can_settle :
        (s : System m d inv) (t : Trade) (ts : List Trade)
        → IsLive s
        → s.trades.queue ≡ t ∷ ts
        → (users : UserRegistry inv) × (settle d inv s.users t none ≡ some users)
    can_settle s t ts live q =
        let (run, quiet, known) = live in
        let (size, total) = IsRun-total_position m d inv m_laws laws s run known t.ticker in
        let queued = queue-HasUsers m d inv m_laws laws s run known in
        let head = (subst (All (HasUsers market_participant_count)) q queued).0 in
        let (users, settles, length', total') =
          settle-total_position d inv laws s.users t none t.ticker (rw size head) in
        (users, settles)

    -- The inventory thread empties its queue.
    settle_polling :
        (ts : List Trade) (s : System m d inv)
        → IsLive s
        → s.trades.consumer ≡ polling
        → s.trades.queue ≡ ts
        → (q : State Trade) × (users : UserRegistry inv) × (settled : List (Trade × Option ℤ))
          × Steps m d inv s (record s { trades = q; users = users; settled = settled })
          × (q.consumer ≡ polling)
          × (q.queue ≡ [])
    settle_polling [] s live p e = (s.trades, s.users, s.settled, here, p, e)
    settle_polling (t ∷ ts) s live p e =
        let (users, done) = can_settle s t ts live e in
        let x = settle_trade t ts none users p e done in
        let next = record s {
          trades = dequeue s.trades t ts;
          users = users;
          settled = s.settled ++ (t, none) ∷ [];
        } in
        let (q, users', settled', ss, p', e') =
          settle_polling ts next (Steps-IsLive (later here x) live.1.0.0 refl live) p refl in
        (q, users', settled', first x ss, p', e')

    pub settle_all :
        (s : System m d inv)
        → IsLive s
        → (q : State Trade) × (users : UserRegistry inv) × (settled : List (Trade × Option ℤ))
          × Steps m d inv s (record s { trades = q; users = users; settled = settled })
          × (q.consumer ≡ polling)
          × (q.queue ≡ [])
    settle_all s live = elim (Consumer-cases s.trades.consumer live.1.2.1) [
      | inl p ↦ settle_polling s.trades.queue s live p refl
      | inr p ↦
          let next = record s { trades = record s.trades { consumer = polling } } in
          let x = inventory_wait (poll_again p live.1.2.0) in
          let (q, users, settled, ss, p', e') =
            settle_polling s.trades.queue next (Steps-IsLive (later here x) live.1.0.0 refl live)
              refl refl in
          (q, users, settled, first x ss, p', e')
    ]

    -- The matching engine thread makes all its pushes.
    pub flush :
        (ps : List Push) (s : System m d inv)
        → IsLive s
        → s.pending ≡ ps
        → (t : System m d inv) × Steps m d inv s t × (t.inbound ≡ s.inbound) × (t.pending ≡ [])
    flush [] s live e = (s, here, refl, e)
    flush (to_market_data v ∷ ps) s live e =
        let (q, ss, p', e') = publish_all s live.1.1 in
        let x = push_market_data v ps e (rw e' (omega arith)) in
        let next = record s { market_data = enqueue q v; pending = ps } in
        let (t, rest, same, empty) =
          flush ps next (Steps-IsLive (later ss x) live.1.0.0 refl live) refl in
        (t, Steps-then (later ss x) rest, same, empty)
    flush (to_trades v ∷ ps) s live e =
        let (q, users, settled, ss, p', e') = settle_all s live in
        let x = push_trades v ps e (rw e' (omega arith)) in
        let next = record s {
          trades = enqueue q v;
          users = users;
          settled = settled;
          pending = ps;
        } in
        let (t, rest, same, empty) =
          flush ps next (Steps-IsLive (later ss x) live.1.0.0 refl live) refl in
        (t, Steps-then (later ss x) rest, same, empty)

    -- It handles all commands that are queued.
    pub match_all :
        (cs : List InboundCommand) (s : System m d inv)
        → IsLive s
        → s.pending ≡ []
        → s.inbound.consumer ≡ polling
        → s.inbound.queue ≡ cs
        → (t : System m d inv) × Steps m d inv s t
          × (t.pending ≡ [])
          × (t.inbound.consumer ≡ polling)
          × (t.inbound.queue ≡ [])
          × (t.inbound.pushed ≡ s.inbound.pushed)
          × (t.inbound.finished ≡ s.inbound.finished)
    match_all [] s live e p q = (s, here, e, p, q, refl, refl)
    match_all (c ∷ cs) s live e p q =
        let x = match c cs e p q in
        let next = record s {
          inbound = dequeue s.inbound c cs;
          router = (handle_pushes m s.router c).0;
          pending = (handle_pushes m s.router c).1;
        } in
        let (u, ss, same, empty) =
          flush (handle_pushes m s.router c).1 next
            (Steps-IsLive (later here x) live.1.0.0 refl live) refl in
        let before = first x ss in
        let finished = ap (λ q. q.finished) same in
        let pushed = ap (λ q. q.pushed) same in
        let (t, rest, e', p', q', pushed', finished') =
          match_all cs u (Steps-IsLive before (finished ∙ live.1.0.0) pushed live) empty
            (ap (λ q. q.consumer) same ∙ p) (ap (λ q. q.queue) same) in
        (t, Steps-then before rest, e', p', q', pushed' ∙ pushed, finished' ∙ finished)
