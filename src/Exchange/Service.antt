-- ===== src/Exchange/Service.antt =====
-- From the bytes that the clients send to the accounts: the gateway of common/net/gateway.cpp
-- before the pipeline of exchange/main.cpp.
mod Tests
use toy_exchange.Base.{
  ◌≡◌, refl, sym, ◌∙◌, ap, subst, ℕ, List, [], ◌∷◌, ◌++◌, Option, some, map, All, All-append,
  All-front, All-back, ◌==◌, ==_iff, Bool-cases, inl, inr, length,
}
use toy_exchange.Base.Int.{ℤ, pos}
use toy_exchange.Core.Types.{Ticker, InboundCommand}
use toy_exchange.Extern.Double.{Double}
use toy_exchange.Extern.UnorderedMap.{IsMap}
use toy_exchange.Engine.Match.{OrderMap}
use toy_exchange.Engine.Router.{new_router}
use toy_exchange.Engine.User.{Inventory}
use toy_exchange.Engine.UserRegistry.{UserRegistry, new_registry, market_participant_count}
use toy_exchange.Net.Wire.RoundTrip.{IsStaticString}
use toy_exchange.Net.Gateway.{ConnectionMap, Gateway, handle_events}
use toy_exchange.Net.Gateway.Clients.{IsSendable}
use toy_exchange.Net.Gateway.Clients.Run.{
  Arrival, event_of, Log, all_pushed, pushed_from, IsSynced, AreArrivals, handle_events-serve,
}
use toy_exchange.Workers.Inventory.Settlement.{total_position}
use toy_exchange.Exchange.{run_exchange}
use toy_exchange.Exchange.Balance.{HasUser, run_exchange-balanced}

-- What holds of the commands of each client holds of all that was pushed.
all_pushed-All :
    (P : InboundCommand → Type 0) (log : Log)
    → ((k : ℕ) → All P (pushed_from k log))
    → All P (all_pushed log)
all_pushed-All P [] h = tt
all_pushed-All P ((fd, cs) ∷ log) h =
    let own : All P (cs ++ pushed_from fd log) = rw ((==_iff fd fd).1 refl) at (h fd) in
    let rest : (k : ℕ) → All P (pushed_from k log) = λ k. elim (Bool-cases (k == fd)) [
      | inl e ↦ All-back P cs (pushed_from k log) (rw e at (h k))
      | inr e ↦ rw e at (h k)
    ] in
    All-append P cs (all_pushed log) (All-front P cs _ own) (all_pushed-All P log rest)

module _ (t : ConnectionMap) (t_laws : IsMap t) (make_ticker : List ℕ → Option Ticker)
    (static : IsStaticString make_ticker) {W : Type 0} (m : OrderMap) (m_laws : IsMap m)
    (d : Double W) (inv : Inventory W) (laws : IsMap inv) where
  -- If each connection's buffer and the bytes to come from its client are the messages of some
  -- commands whose orders name users of the registry, with numbers of eight bytes and tickers of at
  -- most 15 characters without NUL, and nothing was pushed yet, then for any sequence of calls of
  -- `ReadFrom` whose reads return the bytes of the clients piece by piece, none more than was asked
  -- for, no call throws; every trade of the commands that were pushed is settled, whatever mid
  -- prices are read; the registry has its 100 users, and of every ticker they hold nothing in sum.
  pub serve-balanced :
      (arrivals : List Arrival) (g : Gateway t) (unread : ℕ → List ℕ)
      (unserved : ℕ → List InboundCommand) (mids : List (Option ℤ)) (ticker : Ticker)
      → g.outbound ≡ []
      → IsSynced t t_laws make_ticker static g unread unserved
      → ((k : ℕ) → All IsSendable (unserved k))
      → ((k : ℕ) → All (HasUser market_participant_count) (unserved k))
      → AreArrivals t t_laws make_ticker static g unread arrivals
      → (g' : Gateway t) × (users : UserRegistry inv) × (handle_events t make_ticker g
            (map event_of arrivals)
          ≡ some g')
        × (run_exchange m d inv (new_router m) (new_registry inv) g'.outbound mids ≡ some users)
        × (length users ≡ market_participant_count)
        × (total_position d inv users ticker ≡ pos 0)
  serve-balanced arrivals g unread unserved mids ticker none_before synced sendable known arrive =
      let P = HasUser market_participant_count in
      let (log, left, g', served, pushed, split, synced') =
        handle_events-serve t t_laws make_ticker static arrivals g unread unserved synced sendable
          arrive in
      let all =
        all_pushed-All P log
          (λ k. All-front P (pushed_from k log) (left k) (subst (All P) (split k) (known k))) in
      let same = pushed ∙ ap (λ cs. cs ++ all_pushed log) none_before in
      let (users, settled, size, total) =
        run_exchange-balanced m m_laws d inv laws g'.outbound mids ticker
          (subst (All P) (sym same) all) in
      (g', users, served, settled, size, total)
