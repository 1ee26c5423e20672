-- ===== src/Net/Gateway/Sockets/Lifetime.antt =====
-- The descriptors of a `Gateway` from its constructor to its destructor: common/net/gateway.cpp.
use toy_exchange.Base.{
  ◌≡◌, sym, ◌∙◌, ap, ℕ, zero, suc, ◌+◌, List, [], ◌∷◌, Option, some, true, ◌==◌, Bool-cases,
  Option-cases, inl, inr, arith,
}
use toy_exchange.Core.Types.{Ticker, InboundCommand}
use toy_exchange.Extern.Kernel.{Kernel, IsKernel}
use toy_exchange.Extern.UnorderedMap.{IsMap, IsIteration, IsDistinct}
use toy_exchange.Net.Descriptors.{
  Held, start-AreHeld, close_fd, open_fd, bit, holds, AreHeld, close_fd-AreHeld, open_fd-AreHeld,
  assoc_last, close_member-AreHeld, bit_self, bit_one, AreHeld-eq, IsAsBefore, AreHeld-IsAsBefore,
}
use toy_exchange.Net.Gateway.{
  ReadResult, Connection, new_connection, accept_connection, start_reading, read_loop,
  ConnectionMap,
}
use toy_exchange.Net.Gateway.Sockets.{
  Arrival, waiting, sent, Process, construct, accept_waiting, fill_buffer, close_client,
  dispatch_until, read_client, handle_arrival, handle_arrivals, close_entries, close_all,
}
use toy_exchange.Net.Gateway.Sockets.Tables.{
  counted, counted_zero, in_table, in_table_new, in_table_stored, in_table_erased, in_entries,
  in_entries_first,
}

module _ (k : Kernel) (k_laws : IsKernel k) (t : ConnectionMap) (laws : IsMap t)
    (make_ticker : List ℕ → Option Ticker) (entries : t.Table → List (ℕ × Connection))
    (visits : IsIteration t (λ i j. i == j) entries) (before : k.Files) where
  abbrev This : Type 0
  This = Process k t make_ticker entries

  abbrev base : ℕ → ℕ
  base n = bit (k.is_open before n)

  -- What the two members hold besides what was open before.
  abbrev members : This → ℕ → ℕ
  members p n = base n + (holds p.listen_fd n + holds p.epoll_fd n)

  -- The open descriptors: those of before, those of the members, and those of the connections.
  abbrev pub IsSound : This → Type 0
  IsSound p = AreHeld k p.held (λ n. members p n + in_table t laws p.gateway.connections n)

  -- A connection that is accepted has a descriptor that none has.
  accepted-IsSound :
      (p : This) (fd : ℕ) (held : Held k)
      → open_fd k p.held true ≡ some (fd, held)
      → IsSound p
      → IsSound (record p { gateway = accept_connection t make_ticker p.gateway fd; held = held })
  accepted-IsSound p fd held opened sound =
      let tbl = p.gateway.connections in
      let more = open_fd-AreHeld k k_laws p.held true fd held _ opened sound in
      let held_before = members p fd + in_table t laws tbl fd in
      let free : 0 ≡ held_before =
        bit_one _ held_before (more.0 fd ∙ ap (λ b. held_before + b) (bit_self fd)) in
      let new = counted_zero (t.find fd tbl) (omega arith) in
      AreHeld-eq k held _ _
        (λ n.
          assoc_last (members p n) _ _
          ∙ ap (λ b. members p n + b) (in_table_new t laws tbl fd new_connection new n))
        more

  accept_waiting-IsSound :
      (n : ℕ) (p : This) → IsSound p → IsSound (accept_waiting k t make_ticker entries p n)
  accept_waiting-IsSound zero p sound = sound
  accept_waiting-IsSound (suc n) p sound = elim (Option-cases (open_fd k p.held true)) [
    | inl e ↦ rw (accept_waiting, e) sound
    | inr ((fd, held), e) ↦
        rw (accept_waiting, e) (accept_waiting-IsSound n _ (accepted-IsSound p fd held e sound))
  ]

  close_client-IsSound :
      (p : This) (fd : ℕ) (c : Connection)
      → t.find fd p.gateway.connections ≡ some c
      → IsSound p
      → IsSound (close_client k t make_ticker entries p fd)
  close_client-IsSound p fd c found sound = close_fd-AreHeld k k_laws p.held fd _ (
      AreHeld-eq k p.held _ _
        (λ n.
          ap (λ b. members p n + b) (in_table_erased t laws p.gateway.connections fd c found n)
          ∙ sym (assoc_last (members p n) _ _))
        sound)

  fill_buffer-IsSound :
      (p : This) (fd : ℕ) (c : Connection) (outbound : List InboundCommand) (bytes : List ℕ)
      → t.find fd p.gateway.connections ≡ some c
      → IsSound p
      → IsSound (fill_buffer k t make_ticker entries p fd outbound bytes)
  fill_buffer-IsSound p fd c outbound bytes found sound =
      AreHeld-eq k p.held _ _
        (λ n.
          ap (λ b. members p n + b) (in_table_stored t laws p.gateway.connections fd c _ found n))
        sound

  read_client-IsSound :
      (p : This) (fd : ℕ) (rs : List ReadResult)
      → IsSound p
      → IsSound (read_client k t make_ticker entries p fd rs).0
  unfolding read_client
  read_client-IsSound p fd rs sound = elim (Option-cases (t.find fd p.gateway.connections)) [
    | inl e ↦ rw (read_client, e) sound
    | inr (c, e) ↦
        let r = read_loop (start_reading c) rs in
        let made = dispatch_until k t make_ticker entries p.gateway.outbound r.dispatched in
        let stored = fill_buffer-IsSound p fd c made.0 r.filled e sound in
        elim (Option-cases made.1) [
          | inl fine ↦
              rw (read_client, e, fine)
                (elim (Bool-cases r.is_open) [
                  | inl o ↦ rw o stored
                  | inr o ↦ rw o (
                      close_client-IsSound
                        (fill_buffer k t make_ticker entries p fd made.0 r.filled) fd _
                        (laws.find-put_self fd _ p.gateway.connections) stored)
                ])
          | inr (bytes, threw) ↦
              rw (read_client, e, threw) (fill_buffer-IsSound p fd c made.0 bytes e sound)
        ]
  ]

  pub handle_arrivals-IsSound :
      (p : This) (arrivals : List Arrival)
      → IsSound p
      → IsSound (handle_arrivals k t make_ticker entries p arrivals).0
  unfolding handle_arrivals handle_arrival
  handle_arrivals-IsSound p [] sound = sound
  handle_arrivals-IsSound p (waiting n ∷ more) sound =
      handle_arrivals-IsSound (accept_waiting k t make_ticker entries p n) more
        (accept_waiting-IsSound n p sound)
  handle_arrivals-IsSound p (sent fd rs ∷ more) sound =
      let next = read_client k t make_ticker entries p fd rs in
      let kept = read_client-IsSound p fd rs sound in
      elim (Bool-cases next.1) [
        | inl threw ↦ rw (handle_arrivals, threw) kept
        | inr ran ↦ rw (handle_arrivals, ran) (handle_arrivals-IsSound next.0 more kept)
      ]

  close_entries-AreHeld :
      (es : List (ℕ × Connection)) (h : Held k) (rest : ℕ → ℕ)
      → IsDistinct (λ i j. i == j) es
      → AreHeld k h (λ n. rest n + in_entries es n)
      → AreHeld k (close_entries k t make_ticker entries h es) rest
  close_entries-AreHeld [] h rest once held = AreHeld-eq k h _ _ (λ n. omega arith) held
  close_entries-AreHeld ((fd, c) ∷ es) h rest (new, once) held =
      close_entries-AreHeld es (close_fd k h fd) rest once (
        close_fd-AreHeld k k_laws h fd _ (
          AreHeld-eq k h _ _
            (λ n.
              ap (λ b. rest n + b) (in_entries_first fd c es new n) ∙ sym (assoc_last (rest n) _ _))
            held))

  pub close_all-IsAsBefore :
      (p : This) → IsSound p → IsAsBefore k before (close_all k t make_ticker entries p).held
  close_all-IsAsBefore p sound =
      let tbl = p.gateway.connections in
      let clients = close_entries-AreHeld (entries tbl) p.held (members p) (visits.distinct tbl) (
        AreHeld-eq k p.held _ _ (λ n. ap (λ o. members p n + counted o) (visits.find-entries n tbl))
          sound) in
      let epoll =
        close_member-AreHeld k k_laws _ p.epoll_fd (λ n. base n + holds p.listen_fd n)
          (AreHeld-eq k _ _ _ (λ n. sym (assoc_last (base n) _ _)) clients) in
      AreHeld-IsAsBefore k before _ (close_member-AreHeld k k_laws _ p.listen_fd base epoll)

  pub construct-IsSound : IsSound (construct k t make_ticker entries before)
  construct-IsSound =
      AreHeld-eq k _ _ _ (λ n. rw (laws.find-empty n) (omega arith)) (start-AreHeld k before)

  pub close_all-IsSound : (p : This) → IsSound p → IsSound (close_all k t make_ticker entries p)
  close_all-IsSound p sound =
      let (same, none_bad) = close_all-IsAsBefore p sound in
      (λ n. rw (same n, laws.find-empty n) (omega arith), none_bad)
