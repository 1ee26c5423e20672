-- ===== src/Exchange/Threads/Late.antt =====
-- The race between the loop of common/workers/matching_engine_thread.cpp and the shutdown of
-- exchange/main.cpp: what the gateway pushes after a `pop` that found nothing.
use toy_exchange.Base.{
  ◌≡◌, refl, subst, ◌≤◌, ◌+◌, List, [], ◌∷◌, ◌++◌, length, length-append, append_assoc, append-nil,
  arith,
}
use toy_exchange.Core.Types.{InboundCommand}
use toy_exchange.Extern.Double.{Double}
use toy_exchange.Engine.Match.{OrderMap}
use toy_exchange.Engine.User.{Inventory}
use toy_exchange.Engine.UserRegistry.{new_registry}
use toy_exchange.Workers.Drain.{found_empty, queue_capacity}
use toy_exchange.Exchange.Threads.{
  find_nothing, leave, System, start_system, gateway_push, request_shutdown, stop_gateway,
  join_gateway, finish_gateway, match_wait, join_matching, finish_matching, publisher_wait,
  inventory_wait, Steps, here, later,
}
use toy_exchange.Exchange.Threads.Schedule.{Steps-then}
use toy_exchange.Exchange.Threads.Shutdown.{HasStopped}

module _ {W : Type 0} (m : OrderMap) (d : Double W) (inv : Inventory W) where
  -- The matching engine thread has found nothing, and then `cs` was pushed.
  abbrev waiting : List InboundCommand → System m d inv
  waiting cs =
      let s = start_system m d inv in
      record s { inbound = record s.inbound { queue = cs; pushed = cs; consumer = found_empty } }

  push_commands :
      (ds cs : List InboundCommand)
      → length cs + length ds ≤ queue_capacity
      → Steps m d inv (waiting cs) (waiting (cs ++ ds))
  push_commands [] cs h = rw (append-nil cs) here
  push_commands (c ∷ ds) cs h =
      let rest = push_commands ds (cs ++ c ∷ []) (omega (arith, length-append cs (c ∷ []))) in
      Steps-then m d inv {s = waiting cs} {t = waiting (cs ++ c ∷ [])}
        (later here (gateway_push c refl (omega arith)))
        (subst (λ l. Steps m d inv (waiting (cs ++ c ∷ [])) (waiting l))
          (append_assoc cs (c ∷ []) ds) rest)

  shut_down :
      (cs : List InboundCommand)
      → (t : System m d inv) × Steps m d inv (waiting cs) t
        × HasStopped m d inv t
        × (t.inbound.pushed ≡ cs)
        × (t.inbound.queue ≡ cs)
        × (t.users ≡ new_registry inv)
        × (t.market_data.pushed ≡ [])
  shut_down cs = (
    _,
    later
        (later
          (later
            (later
              (later
                (later
                  (later
                    (later
                      (later (later (later here request_shutdown) (stop_gateway refl))
                        (join_gateway refl))
                      (finish_gateway refl))
                    (match_wait refl (leave refl refl)))
                  (join_matching refl))
                (finish_matching refl refl))
              (publisher_wait (find_nothing refl refl)))
            (publisher_wait (leave refl refl)))
          (inventory_wait (find_nothing refl refl)))
        (inventory_wait (leave refl refl)),
    (refl, refl, refl),
    refl,
    refl,
    refl,
    refl,
  )

  -- Whatever commands fit into the queue, the threads have a run from the start in which exactly
  -- these are pushed, every thread leaves its loop after the ordered shutdown, and yet all of them
  -- are still queued, the accounts are as at the start and nothing was pushed to the publisher.
  pub late_commands-lost :
      (cs : List InboundCommand)
      → length cs ≤ queue_capacity
      → (t : System m d inv) × Steps m d inv (start_system m d inv) t
        × HasStopped m d inv t
        × (t.inbound.pushed ≡ cs)
        × (t.inbound.queue ≡ cs)
        × (t.users ≡ new_registry inv)
        × (t.market_data.pushed ≡ [])
  late_commands-lost cs h =
      let (t, steps, stop, pushed, queued, users, events) = shut_down cs in
      let lost = Steps-then m d inv (push_commands cs [] (omega arith)) steps in
      (
        t,
        Steps-then m d inv {s = start_system m d inv}
            (later here (match_wait refl (find_nothing refl refl))) lost,
        stop,
        pushed,
        queued,
        users,
        events,
      )
