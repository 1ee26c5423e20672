-- ===== src/Exchange/Threads/Invariant.antt =====
-- What the threads of exchange/main.cpp have done in any state, beside one run after the other.
use toy_exchange.Base.{
  ◌≡◌, refl, sym, ◌∙◌, ap, subst, List, [], ◌∷◌, ◌++◌, Option, some, map, map-append, append_assoc,
  Option-cases, inl, inr,
}
use mathlib.Core.Option.{some-injective}
use toy_exchange.Engine.MatchingEngine.Invariant.{new_engine-IsValid}
use toy_exchange.Base.Int.{ℤ}
use toy_exchange.Core.Types.{Trade}
use toy_exchange.Extern.Double.{Double}
use toy_exchange.Engine.Match.{OrderMap}
use toy_exchange.Engine.Router.{Router, new_router}
use toy_exchange.Engine.Router.Invariant.{AllValid}
use toy_exchange.Engine.User.{Inventory}
use toy_exchange.Engine.UserRegistry.{UserRegistry, new_registry}
use toy_exchange.Workers.Drain.{State}
use toy_exchange.Workers.MatchingEngine.{Output, handle, run_matching_engine}
use toy_exchange.Workers.MatchingEngine.Events.{run_matching_engine-output}
use toy_exchange.Workers.MatchingEngine.Pushes.{make_pushes, handle_lem, run_matching_engine-append}
use toy_exchange.Workers.Inventory.{settle, run_inventory}
use toy_exchange.Exchange.{no_output}
use toy_exchange.Exchange.Threads.{
  enqueue, dequeue, Wait, find_nothing, poll_again, leave, System, start_system, Step, gateway_push,
  request_shutdown, stop_gateway, join_gateway, finish_gateway, match, push_market_data,
  push_trades, match_wait, join_matching, finish_matching, publish, publisher_wait, settle_trade,
  inventory_wait, Steps, here, later,
}

-- All that was pushed is handled or queued, once and in order.
abbrev pub IsKept : {A : Type 0} → State A → Type 0
IsKept s = s.pushed ≡ s.handled ++ s.queue

enqueue-IsKept : {A : Type 0} (s : State A) (v : A) → IsKept s → IsKept (enqueue s v)
enqueue-IsKept s v e = rw e (append_assoc s.handled s.queue (v ∷ []))

dequeue-IsKept :
    {A : Type 0} (s : State A) (v : A) (vs : List A)
    → s.queue ≡ v ∷ vs
    → IsKept s
    → IsKept (dequeue s v vs)
dequeue-IsKept s v vs q e =
    e ∙ ap (λ l. s.handled ++ l) q ∙ sym (append_assoc s.handled (v ∷ []) vs)

Wait-handled : {A : Type 0} {s t : State A} → Wait s t → t.handled ≡ s.handled
Wait-handled (find_nothing p q) = refl
Wait-handled (poll_again p q) = refl
Wait-handled (leave p q) = refl

Wait-pushed : {A : Type 0} {s t : State A} → Wait s t → t.pushed ≡ s.pushed
Wait-pushed (find_nothing p q) = refl
Wait-pushed (poll_again p q) = refl
Wait-pushed (leave p q) = refl

Wait-IsKept : {A : Type 0} {s t : State A} → Wait s t → IsKept s → IsKept t
Wait-IsKept (find_nothing p q) e = e
Wait-IsKept (poll_again p q) e = e
Wait-IsKept (leave p q) e = e

module _ {W : Type 0} (d : Double W) (inv : Inventory W) (us' us'' : UserRegistry inv) (t : Trade)
    (mid : Option ℤ) where
  run_inventory-append :
      (us : UserRegistry inv) (ts : List (Trade × Option ℤ))
      → run_inventory d inv us ts ≡ some us'
      → settle d inv us' t mid ≡ some us''
      → run_inventory d inv us (ts ++ (t, mid) ∷ []) ≡ some us''
  unfolding run_inventory
  run_inventory-append us [] e h = rw (some-injective _ _ e, run_inventory, h) refl
  run_inventory-append us ((t', mid') ∷ ts) e h = elim (Option-cases (settle d inv us t' mid')) [
    | inl thrown ↦ absurd (cc (rw (run_inventory, thrown) at e))
    | inr (next, done) ↦
        rw (run_inventory, done) (run_inventory-append next ts (rw (run_inventory, done) at e) h)
  ]

module _ {W : Type 0} (m : OrderMap) (d : Double W) (inv : Inventory W) where
  abbrev pub output : System m d inv → Output
  output s = record { market_data = s.market_data.pushed; trades = s.trades.pushed }

  -- The matching engine thread has run on the commands it popped, up to the pushes that are
  -- pending, and the inventory thread has settled the trades it popped.
  abbrev pub IsRun : System m d inv → Type 0
  IsRun s =
      IsKept s.inbound
      × IsKept s.market_data
      × IsKept s.trades
      × (run_matching_engine m (new_router m) no_output s.inbound.handled
          ≡ (s.router, make_pushes (output s) s.pending))
      × (run_inventory d inv (new_registry inv) s.settled ≡ some s.users)
      × (map (λ t. t.0) s.settled ≡ s.trades.handled)

  pub start-IsRun : IsRun (start_system m d inv)
  unfolding run_matching_engine run_inventory
  start-IsRun = (refl, refl, refl, refl, refl, refl)

  -- Every engine is valid after a run from the start.
  IsRun-AllValid : (s : System m d inv) → IsRun s → AllValid m s.router
  IsRun-AllValid s r =
      let v = new_engine-IsValid m in
      let valid =
        (run_matching_engine-output m (new_router m) no_output s.inbound.handled
          (v, (v, (v, (v, tt))))).2 in
      subst (AllValid m) (ap (λ o. o.0) r.3) valid

  pub Step-IsRun : (s : System m d inv) {t : System m d inv} → Step m d inv s t → IsRun s → IsRun t
  Step-IsRun s (gateway_push c j room) (cs, es, ts, ran, us, ps) =
      (enqueue-IsKept s.inbound c cs, es, ts, ran, us, ps)
  Step-IsRun s request_shutdown r = r
  Step-IsRun s (stop_gateway e) r = r
  Step-IsRun s (join_gateway e) r = r
  Step-IsRun s (finish_gateway j) r = r
  Step-IsRun s (match c rest p k q) (cs, es, ts, ran, us, ps) =
      let valid = IsRun-AllValid s (cs, es, ts, ran, us, ps) in
      let before = ran ∙ ap (λ ps. (s.router, make_pushes (output s) ps)) p in
      (
        dequeue-IsKept s.inbound c rest q cs,
        es,
        ts,
        run_matching_engine-append m (new_router m) no_output s.inbound.handled c
            ∙ ap (λ (o : Router m × Output). handle m o.0 o.1 c) before
            ∙ handle_lem m s.router (output s) c valid,
        us,
        ps,
      )
  Step-IsRun s (push_market_data e rest p room) (cs, es, ts, ran, us, ps) = (
    cs,
    enqueue-IsKept s.market_data e es,
    ts,
    ran ∙ ap (λ ps. (s.router, make_pushes (output s) ps)) p,
    us,
    ps,
  )
  Step-IsRun s (push_trades t rest p room) (cs, es, ts, ran, us, ps) = (
    cs,
    es,
    enqueue-IsKept s.trades t ts,
    ran ∙ ap (λ ps. (s.router, make_pushes (output s) ps)) p,
    us,
    ps,
  )
  Step-IsRun s (match_wait p w) (cs, es, ts, ran, us, ps) = (
    Wait-IsKept w cs,
    es,
    ts,
    subst
        (λ hs.
          run_matching_engine m (new_router m) no_output hs
          ≡ (s.router, make_pushes (output s) s.pending))
        (sym (Wait-handled w)) ran,
    us,
    ps,
  )
  Step-IsRun s (join_matching k) r = r
  Step-IsRun s (finish_matching j k) r = r
  Step-IsRun s (publish e rest k q) (cs, es, ts, ran, us, ps) =
      (cs, dequeue-IsKept s.market_data e rest q es, ts, ran, us, ps)
  Step-IsRun s (publisher_wait w) (cs, es, ts, ran, us, ps) = (
    cs,
    Wait-IsKept w es,
    ts,
    ran
        ∙ ap
            (λ l. (
              s.router,
              make_pushes record { market_data = l; trades = s.trades.pushed } s.pending,
            ))
            (sym (Wait-pushed w)),
    us,
    ps,
  )
  Step-IsRun s (settle_trade t rest mid users k q done) (cs, es, ts, ran, us, ps) = (
    cs,
    es,
    dequeue-IsKept s.trades t rest q ts,
    ran,
    run_inventory-append d inv s.users users t mid (new_registry inv) s.settled us done,
    map-append (λ (x : Trade × Option ℤ). x.0) s.settled ((t, mid) ∷ []) ∙ ap (λ l. l ++ t ∷ []) ps,
  )
  Step-IsRun s (inventory_wait w) (cs, es, ts, ran, us, ps) = (
    cs,
    es,
    Wait-IsKept w ts,
    ran
        ∙ ap
            (λ l. (
              s.router,
              make_pushes record { market_data = s.market_data.pushed; trades = l } s.pending,
            ))
            (sym (Wait-pushed w)),
    us,
    ps ∙ sym (Wait-handled w),
  )

  pub Steps-IsRun : {s t : System m d inv} → Steps m d inv s t → IsRun s → IsRun t
  Steps-IsRun here r = r
  Steps-IsRun (later {t = u} ss x) r = Step-IsRun u x (Steps-IsRun ss r)
