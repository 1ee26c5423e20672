-- ===== src/Exchange/Threads/Draining.antt =====
-- How the threads of exchange/main.cpp come to empty queues.
use toy_exchange.Base.{◌≡◌, refl, ◌∙◌, ap, [], inl, inr}
use toy_exchange.Extern.Double.{Double}
use toy_exchange.Extern.UnorderedMap.{IsMap}
use toy_exchange.Engine.Match.{OrderMap}
use toy_exchange.Engine.User.{Inventory}
use toy_exchange.Workers.Drain.{polling}
use toy_exchange.Exchange.Threads.{poll_again, System, match_wait, Steps, here, later}
use toy_exchange.Exchange.Threads.Schedule.{
  Steps-then, publish_all, IsLive, Steps-IsLive, settle_all, flush, match_all, Consumer-cases,
}

module _ {W : Type 0} (m : OrderMap) (d : Double W) (inv : Inventory W) where
  -- Nothing is queued or pending.
  abbrev pub IsDrained : System m d inv → Type 0
  IsDrained s =
      (s.inbound.queue ≡ []) × (s.pending ≡ []) × (s.market_data.queue ≡ []) × (s.trades.queue ≡ [])

  module _ (m_laws : IsMap m) (laws : IsMap inv) where
    -- The matching engine thread looks at its queue again.
    wake :
        (s : System m d inv)
        → IsLive m d inv m_laws laws s
        → s.pending ≡ []
        → (t : System m d inv) × Steps m d inv s t
          × (t.pending ≡ [])
          × (t.inbound.consumer ≡ polling)
          × (t.inbound.pushed ≡ s.inbound.pushed)
          × (t.inbound.finished ≡ s.inbound.finished)
    wake s live e = elim (Consumer-cases s.inbound.consumer live.1.0.1) [
      | inl p ↦ (s, here, e, p, refl, refl)
      | inr p ↦ (
        record s { inbound = record s.inbound { consumer = polling } },
        later here (match_wait e (poll_again p live.1.0.0)),
        e,
        refl,
        refl,
        refl,
      )
    ]

    -- The matching engine thread makes the pushes of its command and looks at its queue.
    finish_command :
        (s : System m d inv)
        → IsLive m d inv m_laws laws s
        → (t : System m d inv) × Steps m d inv s t
          × (t.pending ≡ [])
          × (t.inbound.consumer ≡ polling)
          × (t.inbound.pushed ≡ s.inbound.pushed)
          × IsLive m d inv m_laws laws t
    finish_command s live =
        let (t, ss, same, empty) = flush m d inv m_laws laws s.pending s live refl in
        let live_t =
          Steps-IsLive m d inv m_laws laws ss (ap (λ q. q.finished) same ∙ live.1.0.0)
            (ap (λ q. q.pushed) same) live in
        let (u, woken, empty', p, pushed, finished) = wake t live_t empty in
        (
          u,
          Steps-then m d inv ss woken,
          empty',
          p,
          pushed ∙ ap (λ q. q.pushed) same,
          Steps-IsLive m d inv m_laws laws woken (finished ∙ live_t.1.0.0) pushed live_t,
        )

    -- It handles all that is queued for it.
    drain_inbound :
        (s : System m d inv)
        → IsLive m d inv m_laws laws s
        → (t : System m d inv) × Steps m d inv s t
          × (t.inbound.queue ≡ [])
          × (t.pending ≡ [])
          × (t.inbound.consumer ≡ polling)
          × (t.inbound.pushed ≡ s.inbound.pushed)
          × IsLive m d inv m_laws laws t
    drain_inbound s live =
        let (t, ss, empty, p, pushed, live_t) = finish_command s live in
        let (u, matched, empty', p', q', pushed', finished') =
          match_all m d inv m_laws laws t.inbound.queue t live_t empty p refl in
        (
          u,
          Steps-then m d inv ss matched,
          q',
          empty',
          p',
          pushed' ∙ pushed,
          Steps-IsLive m d inv m_laws laws matched (finished' ∙ live_t.1.0.0) pushed' live_t,
        )

    -- A live state can be drained.
    pub drain :
        (s : System m d inv)
        → IsLive m d inv m_laws laws s
        → (t : System m d inv) × Steps m d inv s t
          × (t.inbound.pushed ≡ s.inbound.pushed)
          × IsDrained t
          × (t.inbound.consumer ≡ polling)
          × (t.market_data.consumer ≡ polling)
          × (t.trades.consumer ≡ polling)
    drain s live =
        let (t, matched, empty, none_pending, p, pushed, live_t) = drain_inbound s live in
        let (events, published, pe, qe) = publish_all m d inv t live_t.1.1 in
        let live_u = Steps-IsLive m d inv m_laws laws published live_t.1.0.0 refl live_t in
        let (deals, users, settled, dealt, pd, qd) =
          settle_all m d inv m_laws laws (record t { market_data = events }) live_u in
        (
          record t { market_data = events; trades = deals; users = users; settled = settled },
          Steps-then m d inv matched (Steps-then m d inv published dealt),
          pushed,
          (empty, none_pending, qe, qd),
          p,
          pe,
          pd,
        )
