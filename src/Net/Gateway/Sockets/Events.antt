-- ===== src/Net/Gateway/Sockets/Events.antt =====
-- The loop of `Run` with its descriptors beside the loop over what `accept4` and `read` return:
-- common/net/gateway.cpp.
use toy_exchange.Base.{
  ◌≡◌, refl, sym, ◌∙◌, ap, ℕ, zero, suc, List, [], ◌∷◌, Option, none, some, Bool, if◌then◌else◌,
  Bool-cases, Option-cases, inl, inr,
}
use toy_exchange.Core.Types.{Ticker, InboundCommand}
use toy_exchange.Extern.Kernel.{Kernel}
use toy_exchange.Net.Gateway.{
  ReadResult, Connection, ConnectionMap, Gateway, Event, acceptable, readable, start_reading,
  read_loop, dispatch, dispatch_all, accept_connection, accept_connections, read_from, handle_event,
  handle_events,
}
use toy_exchange.Net.Gateway.ReadFrom.{read_from-after, read_from-thrown, read_from-missing}
use toy_exchange.Net.Gateway.Sockets.{
  Arrival, waiting, sent, Process, accept_waiting, dispatch_until, read_client, handle_arrivals,
  handle_arrival,
}

module _ (k : Kernel) (t : ConnectionMap) (make_ticker : List ℕ → Option Ticker)
    (entries : t.Table → List (ℕ × Connection)) where
  abbrev This : Type 0
  This = Process k t make_ticker entries

  -- What an exception leaves is not looked at.
  abbrev pub unless_thrown : This × Bool → Option (Gateway t)
  unless_thrown (p, threw) = if threw then none else some p.gateway

  -- The descriptors that `accept4` returns for `n` clients that wait, one call after the other.
  abbrev pub accepted_fds : k.Files → ℕ → List ℕ
  accepted_fds files zero = []
  accepted_fds files (suc n) = elim (k.open_new files) [
    | none ↦ []
    | some (fd, files') ↦ fd ∷ accepted_fds files' n
  ]

  -- An arrival as `epoll_wait` reports it, with what `accept4` or `read` then returns.
  abbrev pub event_of : k.Files → Arrival → Event
  event_of files (waiting n) = acceptable (accepted_fds files n)
  event_of files (sent fd rs) = readable fd rs

  -- The events of the arrivals, each with the descriptors that are open by then.
  abbrev pub events_of : This → List Arrival → List Event
  events_of p [] = []
  events_of p (a ∷ more) =
      event_of p.held.files a ∷ events_of (handle_arrival k t make_ticker entries p a).0 more

  accept_waiting-accepted_fds :
      (n : ℕ) (p : This)
      → (accept_waiting k t make_ticker entries p n).gateway
        ≡ accept_connections t make_ticker p.gateway (accepted_fds p.held.files n)
  accept_waiting-accepted_fds zero p = refl
  accept_waiting-accepted_fds (suc n) p = elim (Option-cases (k.open_new p.held.files)) [
    | inl e ↦ rw (accept_waiting, accepted_fds, e) refl
    | inr ((fd, files), e) ↦
        let next = record p {
          gateway = accept_connection t make_ticker p.gateway fd;
          held = record p.held { files = files };
        } in
        rw (accept_waiting, accepted_fds, e) (accept_waiting-accepted_fds n next)
  ]

  abbrev all_pushed : List InboundCommand × Option (List ℕ) → Option (List InboundCommand)
  all_pushed (pushed, none) = some pushed
  all_pushed (pushed, some bytes) = none

  dispatch_until-dispatch_all :
      (outbound : List InboundCommand) (ms : List (List ℕ))
      → dispatch_all t make_ticker outbound ms
        ≡ all_pushed (dispatch_until k t make_ticker entries outbound ms)
  unfolding dispatch_all
  dispatch_until-dispatch_all outbound [] = refl
  dispatch_until-dispatch_all outbound (bytes ∷ ms) =
      elim (Option-cases (dispatch t make_ticker outbound bytes)) [
        | inl e ↦ rw (dispatch_all, dispatch_until, e) refl
        | inr (pushed, e) ↦
            rw (dispatch_all, dispatch_until, e) (dispatch_until-dispatch_all pushed ms)
      ]

  read_client-read_from :
      (p : This) (fd : ℕ) (rs : List ReadResult)
      → read_from t make_ticker p.gateway fd rs
        ≡ unless_thrown (read_client k t make_ticker entries p fd rs)
  unfolding read_client
  read_client-read_from p fd rs = elim (Option-cases (t.find fd p.gateway.connections)) [
    | inl e ↦ rw (read_client, e) (read_from-missing t make_ticker p.gateway fd rs e)
    | inr (c, e) ↦
        let r = read_loop (start_reading c) rs in
        let made = dispatch_until k t make_ticker entries p.gateway.outbound r.dispatched in
        let all = dispatch_until-dispatch_all p.gateway.outbound r.dispatched in
        elim (Option-cases made.1) [
          | inl fine ↦
              let ran =
                read_from-after t make_ticker p.gateway fd c rs made.0 e
                  (all ∙ ap (λ o. all_pushed (made.0, o)) fine) in
              rw (read_client, e, fine)
                (ran ∙ elim (Bool-cases r.is_open) [ inl o ↦ rw o refl | inr o ↦ rw o refl ])
          | inr (bytes, threw) ↦
              rw (read_client, e, threw)
                (read_from-thrown t make_ticker p.gateway fd c rs e
                  (all ∙ ap (λ o. all_pushed (made.0, o)) threw))
        ]
  ]

  -- The loop of `Run` over the table of connections alone, on the events of the arrivals with the
  -- descriptors that the kernel gives out, throws when the loop with descriptors does, and else
  -- leaves the same connections and commands.
  pub handle_arrivals-handle_events :
      (p : This) (arrivals : List Arrival)
      → handle_events t make_ticker p.gateway (events_of p arrivals)
        ≡ unless_thrown (handle_arrivals k t make_ticker entries p arrivals)
  unfolding handle_arrivals handle_arrival handle_events handle_event
  handle_arrivals-handle_events p [] = refl
  handle_arrivals-handle_events p (waiting n ∷ more) =
      let next = accept_waiting k t make_ticker entries p n in
      ap (λ g. handle_events t make_ticker g (events_of next more))
        (sym (accept_waiting-accepted_fds n p))
      ∙ handle_arrivals-handle_events next more
  handle_arrivals-handle_events p (sent fd rs ∷ more) =
      let next = read_client k t make_ticker entries p fd rs in
      let ran = handle_arrivals-handle_events next.0 more in
      let read = read_client-read_from p fd rs in
      elim (Bool-cases next.1) [
        | inl threw ↦ rw (handle_events, read, threw) (rw (handle_arrivals, threw) refl)
        | inr fine ↦ rw (handle_events, read, fine) (rw (handle_arrivals, fine) ran)
      ]
