-- ===== src/Exchange/Threads/Quiet.antt =====
-- Before main sets the flag of the gateway, no thread behind it has stopped.
use toy_exchange.Base.{◌≡◌, ◌≢◌, refl, sym, ◌∙◌, false}
use toy_exchange.Extern.Double.{Double}
use toy_exchange.Engine.Match.{OrderMap}
use toy_exchange.Engine.User.{Inventory}
use toy_exchange.Workers.Drain.{State, stopped}
use toy_exchange.Exchange.Threads.{
  Wait, find_nothing, poll_again, leave, System, start_system, Step, gateway_push, request_shutdown,
  stop_gateway, join_gateway, finish_gateway, match, push_market_data, push_trades, match_wait,
  join_matching, finish_matching, publish, publisher_wait, settle_trade, inventory_wait, Steps,
  here, later,
}

-- The flag is not set, and the thread has not stopped.
abbrev pub IsRunning : {A : Type 0} → State A → Type 0
IsRunning s = (s.finished ≡ false) × (s.consumer ≢ stopped)

Wait-IsRunning : {A : Type 0} {s t : State A} → Wait s t → IsRunning s → IsRunning t
Wait-IsRunning (find_nothing p q) (f, c) = (f, λ e. cc)
Wait-IsRunning (poll_again p q) (f, c) = (f, λ e. cc)
Wait-IsRunning (leave p q) (f, c) = cc

Wait-finished : {A : Type 0} {s t : State A} → Wait s t → t.finished ≡ s.finished
Wait-finished (find_nothing p q) = refl
Wait-finished (poll_again p q) = refl
Wait-finished (leave p q) = refl

Wait-joined : {A : Type 0} {s t : State A} → Wait s t → t.joined ≡ s.joined
Wait-joined (find_nothing p q) = refl
Wait-joined (poll_again p q) = refl
Wait-joined (leave p q) = refl

module _ {W : Type 0} (m : OrderMap) (d : Double W) (inv : Inventory W) where
  abbrev pub IsQuiet : System m d inv → Type 0
  IsQuiet s =
      IsRunning s.inbound
      × IsRunning s.market_data
      × IsRunning s.trades
      × (s.market_data.joined ≡ false)
      × (s.trades.joined ≡ false)

  Step-finished :
      (s : System m d inv) {t : System m d inv}
      → Step m d inv s t
      → t.inbound.finished ≡ false
      → s.inbound.finished ≡ false
  Step-finished s (gateway_push c j room) e = e
  Step-finished s request_shutdown e = e
  Step-finished s (stop_gateway r) e = e
  Step-finished s (join_gateway r) e = e
  Step-finished s (finish_gateway j) e = cc
  Step-finished s (match c rest p k q) e = e
  Step-finished s (push_market_data v rest p room) e = e
  Step-finished s (push_trades t rest p room) e = e
  Step-finished s (match_wait p w) e = sym (Wait-finished w) ∙ e
  Step-finished s (join_matching k) e = e
  Step-finished s (finish_matching j k) e = e
  Step-finished s (publish v rest k q) e = e
  Step-finished s (publisher_wait w) e = e
  Step-finished s (settle_trade t rest mid users k q done) e = e
  Step-finished s (inventory_wait w) e = e

  Step-IsQuiet :
      (s : System m d inv) {t : System m d inv}
      → Step m d inv s t
      → t.inbound.finished ≡ false
      → IsQuiet s
      → IsQuiet t
  Step-IsQuiet s (gateway_push c j room) e q = q
  Step-IsQuiet s request_shutdown e q = q
  Step-IsQuiet s (stop_gateway r) e q = q
  Step-IsQuiet s (join_gateway r) e q = q
  Step-IsQuiet s (finish_gateway j) e q = cc
  Step-IsQuiet s (match c rest p k h) e q = q
  Step-IsQuiet s (push_market_data v rest p room) e q = q
  Step-IsQuiet s (push_trades t rest p room) e q = q
  Step-IsQuiet s (match_wait p w) e (a, b, c, j, k) = (Wait-IsRunning w a, b, c, j, k)
  Step-IsQuiet s (join_matching k) e q = absurd (q.0.1 k)
  Step-IsQuiet s (finish_matching j k) e (a, b, c, j', k') = cc
  Step-IsQuiet s (publish v rest k h) e q = q
  Step-IsQuiet s (publisher_wait w) e (a, b, c, j, k) =
      (a, Wait-IsRunning w b, c, Wait-joined w ∙ j, k)
  Step-IsQuiet s (settle_trade t rest mid users k h done) e q = q
  Step-IsQuiet s (inventory_wait w) e (a, b, c, j, k) =
      (a, b, Wait-IsRunning w c, j, Wait-joined w ∙ k)

  pub Steps-IsQuiet :
      {s t : System m d inv}
      → Steps m d inv s t
      → IsQuiet s
      → t.inbound.finished ≡ false
      → IsQuiet t
  Steps-IsQuiet here q e = q
  Steps-IsQuiet (later {t = u} ss x) q e =
      Step-IsQuiet u x e (Steps-IsQuiet ss q (Step-finished u x e))

  pub start-IsQuiet : IsQuiet (start_system m d inv)
  start-IsQuiet = ((refl, λ e. cc), (refl, λ e. cc), (refl, λ e. cc), refl, refl)
