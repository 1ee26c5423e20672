-- ===== src/Exchange/Threads/Accounts.antt =====
-- The accounts of the users while the threads of exchange/main.cpp run.
use toy_exchange.Base.{◌≡◌, sym, ◌∙◌, ap, subst, ◌++◌, All, All-front, All-back, length}
use toy_exchange.Base.Int.{pos}
use toy_exchange.Core.Types.{Ticker}
use toy_exchange.Extern.Double.{Double}
use toy_exchange.Extern.UnorderedMap.{IsMap}
use toy_exchange.Engine.Match.{OrderMap}
use toy_exchange.Engine.User.{Inventory}
use toy_exchange.Engine.UserRegistry.{UserRegistry, new_registry, market_participant_count}
use mathlib.Core.Option.{some-injective}
use toy_exchange.Workers.Inventory.Settlement.{
  HasUsers, total_position, run_inventory-total_position,
}
use toy_exchange.Exchange.{with_mids}
use toy_exchange.Exchange.Balance.{HasUser, run-HasUsers, with_mids-All, new_registry-balanced}
use toy_exchange.Exchange.Threads.{System, start_system, Steps}
use toy_exchange.Exchange.Threads.Invariant.{IsRun, start-IsRun, Steps-IsRun}
use toy_exchange.Exchange.Threads.Refinement.{IsRun-run, trades_of}

module _ {W : Type 0} (m : OrderMap) (d : Double W) (inv : Inventory W) (m_laws : IsMap m)
    (laws : IsMap inv) where
  -- Every trade made so far names users of the registry.
  trades-HasUsers :
      (s : System m d inv)
      → IsRun m d inv s
      → All (HasUser market_participant_count) s.inbound.pushed
      → All
          (HasUsers market_participant_count)
          (s.trades.handled ++ (s.trades.queue ++ trades_of s.pending))
  trades-HasUsers s run known =
      let (mids, (commands, router, events, deals, accounts)) = IsRun-run m d inv s run in
      let n = market_participant_count in
      let popped =
        All-front (HasUser n) s.inbound.handled s.inbound.queue
          (subst (All (HasUser n)) commands known) in
      subst (All (HasUsers n)) deals (run-HasUsers m m_laws n s.inbound.handled popped)

  pub queue-HasUsers :
      (s : System m d inv)
      → IsRun m d inv s
      → All (HasUser market_participant_count) s.inbound.pushed
      → All (HasUsers market_participant_count) s.trades.queue
  queue-HasUsers s run known =
      let P = HasUsers market_participant_count in
      All-front P s.trades.queue _ (All-back P s.trades.handled _ (trades-HasUsers s run known))

  pub IsRun-total_position :
      (s : System m d inv)
      → IsRun m d inv s
      → All (HasUser market_participant_count) s.inbound.pushed
      → (t : Ticker)
      → (length s.users ≡ market_participant_count) × (total_position d inv s.users t ≡ pos 0)
  IsRun-total_position s run known t =
      let (mids, (commands, router, events, deals, accounts)) = IsRun-run m d inv s run in
      let n = market_participant_count in
      let (size, empty) = new_registry-balanced d inv laws t in
      let settled = All-front (HasUsers n) s.trades.handled _ (trades-HasUsers s run known) in
      let known_trades = with_mids-All (HasUsers n) s.trades.handled mids settled in
      let (us, done, kept, total) =
        run_inventory-total_position d inv laws (new_registry inv) (with_mids s.trades.handled mids)
          t (rw size known_trades) in
      let same = some-injective _ _ (sym accounts ∙ done) in
      (
        ap (λ (us : UserRegistry inv). length us) same ∙ kept ∙ size,
        ap (λ us. total_position d inv us t) same ∙ total ∙ empty,
      )

  -- In every state that the threads come to, in whatever order they take their steps, when each
  -- command that was pushed names a user of the registry, the registry has its 100 users and they
  -- hold in sum nothing of any ticker.
  pub Steps-total_position :
      (s : System m d inv)
      → Steps m d inv (start_system m d inv) s
      → All (HasUser market_participant_count) s.inbound.pushed
      → (t : Ticker)
      → (length s.users ≡ market_participant_count) × (total_position d inv s.users t ≡ pos 0)
  Steps-total_position s steps known t =
      IsRun-total_position s (Steps-IsRun m d inv steps (start-IsRun m d inv)) known t
