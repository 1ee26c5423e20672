-- ===== src/Exchange/Threads/Shutdown.antt =====
-- The shutdown of exchange/main.cpp, from any state before main sets the first flag.
use toy_exchange.Base.{
  ◌≡◌, refl, sym, ◌∙◌, ap, ap₂, subst, List, ◌++◌, Option, some, false, All, append-nil,
}
use toy_exchange.Base.Int.{ℤ}
use toy_exchange.Extern.Double.{Double}
use toy_exchange.Extern.UnorderedMap.{IsMap}
use toy_exchange.Engine.Match.{OrderMap}
use toy_exchange.Engine.Router.{new_router}
use toy_exchange.Engine.User.{Inventory}
use toy_exchange.Engine.UserRegistry.{new_registry, market_participant_count}
use toy_exchange.Workers.Drain.{polling, stopped}
use toy_exchange.Workers.MatchingEngine.{run_matching_engine}
use toy_exchange.Workers.Inventory.{run_inventory}
use toy_exchange.Exchange.{no_output, with_mids, run_exchange}
use toy_exchange.Exchange.Balance.{HasUser}
use toy_exchange.Exchange.Threads.{
  find_nothing, leave, System, start_system, request_shutdown, stop_gateway, join_gateway,
  finish_gateway, match_wait, join_matching, finish_matching, publisher_wait, inventory_wait, Steps,
  here, later,
}
use toy_exchange.Exchange.Threads.Draining.{IsDrained, drain}
use toy_exchange.Exchange.Threads.Invariant.{IsRun, start-IsRun, Steps-IsRun}
use toy_exchange.Exchange.Threads.Quiet.{start-IsQuiet, Steps-IsQuiet}
use toy_exchange.Exchange.Threads.Refinement.{IsRun-run, events_of, trades_of}
use toy_exchange.Exchange.Threads.Schedule.{Steps-then}

module _ {W : Type 0} (m : OrderMap) (d : Double W) (inv : Inventory W) where
  abbrev pub HasStopped : System m d inv → Type 0
  HasStopped s =
      (s.inbound.consumer ≡ stopped)
      × (s.market_data.consumer ≡ stopped)
      × (s.trades.consumer ≡ stopped)

  -- The steps of main, and those by which the threads find that they are finished.
  stop_all :
      (s : System m d inv)
      → IsDrained m d inv s
      → s.inbound.consumer ≡ polling
      → s.market_data.consumer ≡ polling
      → s.trades.consumer ≡ polling
      → (t : System m d inv) × Steps m d inv s t
        × (t.inbound.pushed ≡ s.inbound.pushed)
        × IsDrained m d inv t
        × HasStopped t
  stop_all s (inbound, pending, events, deals) p q r = (
    _,
    later
        (later
          (later
            (later
              (later
                (later
                  (later
                    (later
                      (later
                        (later (later (later here request_shutdown) (stop_gateway refl))
                          (join_gateway refl))
                        (finish_gateway refl))
                      (match_wait pending (find_nothing p inbound)))
                    (match_wait pending (leave refl refl)))
                  (join_matching refl))
                (finish_matching refl refl))
              (publisher_wait (find_nothing q events)))
            (publisher_wait (leave refl refl)))
          (inventory_wait (find_nothing r deals)))
        (inventory_wait (leave refl refl)),
    refl,
    (inbound, pending, events, deals),
    (refl, refl, refl),
  )

  IsDrained-run :
      (s : System m d inv)
      → IsRun m d inv s
      → IsDrained m d inv s
      → (mids : List (Option ℤ)) × (run_exchange m d inv
            (new_router m)
            (new_registry inv)
            s.inbound.pushed
            mids
          ≡ some s.users)
        × (s.market_data.handled
            ≡ (run_matching_engine m (new_router m) no_output s.inbound.pushed).1.market_data)
  unfolding run_exchange
  IsDrained-run s run (inbound, pending, events, deals) =
      let (mids, (commands, router, told, dealt, accounts)) = IsRun-run m d inv s run in
      let all =
        commands ∙ ap (λ l. s.inbound.handled ++ l) inbound ∙ append-nil s.inbound.handled in
      let traded =
        dealt
        ∙ ap₂ (λ q p. s.trades.handled ++ (q ++ trades_of p)) deals pending
        ∙ append-nil s.trades.handled in
      let heard =
        told
        ∙ ap₂ (λ q p. s.market_data.handled ++ (q ++ events_of p)) events pending
        ∙ append-nil s.market_data.handled in
      (
        mids,
        ap
              (λ cs.
                run_inventory d inv (new_registry inv)
                  (with_mids (run_matching_engine m (new_router m) no_output cs).1.trades mids))
              all
            ∙ ap (λ ts. run_inventory d inv (new_registry inv) (with_mids ts mids)) traded
            ∙ accounts,
        sym heard
            ∙ ap (λ cs. (run_matching_engine m (new_router m) no_output cs).1.market_data)
                (sym all),
      )

  module _ (m_laws : IsMap m) (laws : IsMap inv) where
    -- From every state that the threads come to before the gateway's flag is set, when each command
    -- that was pushed names a user of the registry, there is a run of the threads with no further
    -- push of a command after which every consumer has left its loop, the queues and the pushes
    -- still to be made are empty, the accounts are those of the pipeline run on the commands
    -- pushed, at some mid prices, and what was published is what a run of the matching engine
    -- thread on those commands pushes to the publisher.
    pub shutdown_completes :
        (s : System m d inv)
        → Steps m d inv (start_system m d inv) s
        → s.inbound.finished ≡ false
        → All (HasUser market_participant_count) s.inbound.pushed
        → (t : System m d inv) × Steps m d inv s t
          × (t.inbound.pushed ≡ s.inbound.pushed)
          × HasStopped t
          × IsDrained m d inv t
          × (mids : List (Option ℤ)) × (run_exchange m d inv
                (new_router m)
                (new_registry inv)
                s.inbound.pushed
                mids
              ≡ some t.users)
          × (t.market_data.handled
              ≡ (run_matching_engine m (new_router m) no_output s.inbound.pushed).1.market_data)
    shutdown_completes s steps f known =
        let run = Steps-IsRun m d inv steps (start-IsRun m d inv) in
        let quiet = Steps-IsQuiet m d inv steps (start-IsQuiet m d inv) f in
        let (t, ss, same, drained, p, q, r) = drain m d inv m_laws laws s (run, quiet, known) in
        let (u, rest, same', drained', stop) = stop_all t drained p q r in
        let all = Steps-then m d inv ss rest in
        let (mids, accounts, events) = IsDrained-run u (Steps-IsRun m d inv all run) drained' in
        let pushed = same' ∙ same in
        (
          u,
          all,
          pushed,
          stop,
          drained',
          mids,
          subst
              (λ cs. run_exchange m d inv (new_router m) (new_registry inv) cs mids ≡ some u.users)
              pushed accounts,
          subst
              (λ cs.
                u.market_data.handled
                ≡ (run_matching_engine m (new_router m) no_output cs).1.market_data)
              pushed events,
        )
