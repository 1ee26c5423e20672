-- ===== src/Net/Gateway/Sockets/Release.antt =====
-- What `Run` and the destructor of common/net/gateway.cpp leave open.
use toy_exchange.Base.{
  ◌≡◌, refl, ◌∙◌, ap, subst, ℕ, List, Option, none, some, Bool, true, if◌then◌else◌, ◌==◌, ◌+◌,
  Bool-cases, Option-cases, inl, inr, arith,
}
use toy_exchange.Core.Types.{Ticker}
use toy_exchange.Extern.Kernel.{Kernel, IsKernel}
use toy_exchange.Extern.UnorderedMap.{IsMap, IsIteration}
use toy_exchange.Net.Descriptors.{
  Held, open_fd, open_fd-AreHeld, AreHeld-eq, IsAsBefore, bit, holds,
}
use toy_exchange.Net.Gateway.{Connection, ConnectionMap}
use toy_exchange.Net.Gateway.Sockets.{
  Arrival, SetUp, Process, construct, handle_arrivals, close_all, serve, poll, run,
}
use toy_exchange.Net.Gateway.Sockets.Tables.{in_table}
use toy_exchange.Net.Gateway.Sockets.Lifetime.{
  IsSound, handle_arrivals-IsSound, close_all-IsAsBefore, close_all-IsSound, construct-IsSound,
}

module _ (k : Kernel) (k_laws : IsKernel k) (t : ConnectionMap) (laws : IsMap t)
    (make_ticker : List ℕ → Option Ticker) (entries : t.Table → List (ℕ × Connection))
    (visits : IsIteration t (λ i j. i == j) entries) (before : k.Files) where
  abbrev This : Type 0
  This = Process k t make_ticker entries

  abbrev destroyed : This → Held k
  destroyed p = (close_all k t make_ticker entries p).held

  abbrev IsFine : This → Type 0
  IsFine p = IsSound k k_laws t laws make_ticker entries visits before p

  -- What is open when the thread has left `Run`, with the destructor where it threw.
  abbrev IsReleased : This × Bool → Type 0
  IsReleased (p, threw) = IsFine p × IsAsBefore k before (if threw then destroyed p else p.held)

  thrown-IsReleased : (p : This) → IsFine p → IsReleased (p, true)
  thrown-IsReleased p sound =
      (sound, close_all-IsAsBefore k k_laws t laws make_ticker entries visits before p sound)

  serve-IsReleased :
      (p : This) (arrivals : List Arrival)
      → IsFine p
      → IsReleased (serve k t make_ticker entries p arrivals)
  unfolding serve
  serve-IsReleased p arrivals sound =
      let next = handle_arrivals k t make_ticker entries p arrivals in
      let kept =
        handle_arrivals-IsSound k k_laws t laws make_ticker entries visits before p arrivals
          sound in
      elim (Bool-cases next.1) [
        | inl threw ↦ rw threw (thrown-IsReleased next.0 kept)
        | inr ran ↦ rw ran (
          close_all-IsSound k k_laws t laws make_ticker entries visits before next.0 kept,
          close_all-IsAsBefore k k_laws t laws make_ticker entries visits before next.0 kept,
        )
      ]

  -- A member that was -1 is set to a descriptor that was made.
  set_epoll-IsFine :
      (p : This) (was_made : Bool) (fd : ℕ) (held : Held k)
      → open_fd k p.held was_made ≡ some (fd, held)
      → p.epoll_fd ≡ none
      → IsFine p
      → IsFine (record p { epoll_fd = some fd; held = held })
  set_epoll-IsFine p was_made fd held opened unset sound =
      AreHeld-eq k held _ _
        (λ n.
          let others = bit (k.is_open before n) in
          let clients = in_table t laws p.gateway.connections n in
          ap (λ o. ((others + (holds p.listen_fd n + holds o n)) + clients) + bit (n == fd)) unset
          ∙ omega arith)
        (open_fd-AreHeld k k_laws p.held was_made fd held _ opened sound)

  set_listen-IsFine :
      (p : This) (was_made : Bool) (fd : ℕ) (held : Held k)
      → open_fd k p.held was_made ≡ some (fd, held)
      → p.listen_fd ≡ none
      → IsFine p
      → IsFine (record p { listen_fd = some fd; held = held })
  set_listen-IsFine p was_made fd held opened unset sound =
      AreHeld-eq k held _ _
        (λ n.
          let others = bit (k.is_open before n) in
          let clients = in_table t laws p.gateway.connections n in
          ap (λ o. ((others + (holds o n + holds p.epoll_fd n)) + clients) + bit (n == fd)) unset
          ∙ omega arith)
        (open_fd-AreHeld k k_laws p.held was_made fd held _ opened sound)

  poll-IsReleased :
      (p : This) (has_epoll : Bool) (arrivals : List Arrival)
      → IsFine p
      → p.epoll_fd ≡ none
      → IsReleased (poll k t make_ticker entries p has_epoll arrivals)
  unfolding poll
  poll-IsReleased p has_epoll arrivals sound unset =
      elim (Option-cases (open_fd k p.held has_epoll)) [
        | inl e ↦
            rw (poll, e)
              (thrown-IsReleased (record p { epoll_fd = none })
                (subst (λ o. IsFine (record p { epoll_fd = o })) unset sound))
        | inr ((fd, held), e) ↦
            rw (poll, e)
              (serve-IsReleased (record p { epoll_fd = some fd; held = held }) arrivals
                (set_epoll-IsFine p has_epoll fd held e unset sound))
      ]

  run-IsReleased :
      (set_up : SetUp) (arrivals : List Arrival)
      → IsReleased
          (run k t make_ticker entries (construct k t make_ticker entries before) set_up arrivals)
  unfolding run
  run-IsReleased set_up arrivals =
      let start = construct k t make_ticker entries before in
      let sound = construct-IsSound k k_laws t laws make_ticker entries visits before in
      elim (Option-cases (open_fd k start.held set_up.has_socket)) [
        | inl e ↦ rw (run, e) (thrown-IsReleased start sound)
        | inr ((fd, held), e) ↦
            let listening = record start { listen_fd = some fd; held = held } in
            let fine = set_listen-IsFine start set_up.has_socket fd held e refl sound in
            elim (Bool-cases set_up.is_bound) [
              | inr b ↦ rw (run, e, b) (thrown-IsReleased listening fine)
              | inl b ↦ elim (Bool-cases set_up.is_listening) [
                | inr l ↦ rw (run, e, b, l) (thrown-IsReleased listening fine)
                | inl l ↦
                    rw (run, e, b, l)
                      (poll-IsReleased listening set_up.has_epoll arrivals fine refl)
              ]
            ]
      ]

  -- However the calls of `Run` succeed and whatever arrives, after `Run`, and the destructor when
  -- `Run` throws, the open descriptors are those that were open before the gateway was made, and
  -- `close` was never called on a descriptor that was not open; and so it is after the destructor
  -- in every case.
  pub run_released :
      (set_up : SetUp) (arrivals : List Arrival)
      → (let (p, threw) =
            run k t make_ticker entries
              (construct k t make_ticker entries before)
              set_up
              arrivals in
          IsAsBefore k before (if threw then destroyed p else p.held)
          × IsAsBefore k before (destroyed p))
  run_released set_up arrivals =
      let (p, threw) =
        run k t make_ticker entries (construct k t make_ticker entries before) set_up arrivals in
      let (sound, released) = run-IsReleased set_up arrivals in
      (released, close_all-IsAsBefore k k_laws t laws make_ticker entries visits before p sound)
