-- ===== src/Net/Gateway/Clients/Run.antt =====
-- A run of the loop of common/net/gateway.cpp over the reads from several clients, in any order.
use toy_exchange.Base.{
  ◌≡◌, ◌≢◌, refl, sym, ◌∙◌, ap, subst, ℕ, ◌<◌, List, [], ◌∷◌, ◌++◌, Option, none, some, Bool, true,
  false, if◌then◌else◌, map, ◌==◌, ==_iff, length, append_assoc, append-nil, All, All-back,
  Bool-cases, inl, inr,
}
use mathlib.Core.Option.{some-injective}
use toy_exchange.Core.Types.{Ticker, InboundCommand}
use toy_exchange.Extern.UnorderedMap.{IsMap}
use toy_exchange.Net.Wire.RoundTrip.{IsStaticString}
use toy_exchange.Net.Gateway.{
  message_size, ReadResult, Connection, start_reading, read_loop, ConnectionMap, Gateway, Event,
  readable, read_from, handle_event, handle_events,
}
use toy_exchange.Net.Gateway.Framing.{join, AreReads, taken}
use toy_exchange.Net.Gateway.Clients.{client_bytes, IsSendable}
use toy_exchange.Net.Gateway.Clients.Streams.{read_from-stream}

-- The reads from a descriptor, and the bytes of its client that are still to come.
pub record Arrival : Type 0 where
  pub fd : ℕ
  pub reads : List ReadResult
  pub more : List ℕ

abbrev pub event_of : Arrival → Event
event_of a = readable a.fd a.reads

abbrev pub update : {A : Type 0} → (ℕ → A) → ℕ → A → ℕ → A
update f fd v k = if k == fd then v else f k

update_ne :
    {A : Type 0} (f : ℕ → A) (fd : ℕ) (v : A) (k : ℕ) → (k == fd) ≡ false → update f fd v k ≡ f k
update_ne f fd v k e = rw e refl

update_self :
    {A : Type 0} (f : ℕ → A) (fd : ℕ) (v : A) (k : ℕ) → (k == fd) ≡ true → update f fd v k ≡ v
update_self f fd v k e = rw e refl

-- The bytes that are still to come in the end.
abbrev pub still_unread : (ℕ → List ℕ) → List Arrival → ℕ → List ℕ
still_unread unread [] = unread
still_unread unread (a ∷ arrivals) = still_unread (update unread a.fd a.more) arrivals

-- What was pushed from each descriptor, call by call.
abbrev pub Log : Type 0
Log = List (ℕ × List InboundCommand)

abbrev pub all_pushed : Log → List InboundCommand
all_pushed [] = []
all_pushed ((fd, cs) ∷ log) = cs ++ all_pushed log

abbrev pub pushed_from : ℕ → Log → List InboundCommand
pushed_from k [] = []
pushed_from k ((fd, cs) ∷ log) = if k == fd then cs ++ pushed_from k log else pushed_from k log

-- A connection that is found is the one that was stored.
held-kept :
    (held c : Connection) (is_open : Bool) (P : Connection → Type 0)
    → (if is_open then some held else none) ≡ some c
    → P held
    → P c
held-kept held c true P e h = subst P (some-injective _ _ e) h
held-kept held c false P e h = cc

-- What was pushed from a descriptor before is in front of what is pushed later.
log-step :
    (unserved : ℕ → List InboundCommand) (fd : ℕ) (pushed left : List InboundCommand) (log : Log)
    (k : ℕ) (rest : List InboundCommand)
    → unserved fd ≡ pushed ++ left
    → update unserved fd left k ≡ pushed_from k log ++ rest
    → unserved k ≡ pushed_from k ((fd, pushed) ∷ log) ++ rest
log-step unserved fd pushed left log k rest split later = elim (Bool-cases (k == fd)) [
  | inl same ↦
      let here = ap unserved ((==_iff k fd).0 same) ∙ split in
      let after = sym (update_self unserved fd left k same) ∙ later in
      rw same
        (here ∙ ap (λ l. pushed ++ l) after ∙ sym (append_assoc pushed (pushed_from k log) rest))
  | inr ne ↦ rw ne (sym (update_ne unserved fd left k ne) ∙ later)
]

module _ (t : ConnectionMap) (laws : IsMap t) (make_ticker : List ℕ → Option Ticker)
    (static : IsStaticString make_ticker) where
  -- Each connection's buffer and the bytes that are still to come are the messages of the commands
  -- of its client that were not pushed yet.
  abbrev pub IsSynced : Gateway t → (ℕ → List ℕ) → (ℕ → List InboundCommand) → Type 0
  IsSynced g unread unserved =
      (fd : ℕ) (c : Connection)
      → t.find fd g.connections ≡ some c
      → (length c.filled < message_size)
        × (c.filled ++ unread fd ≡ join (map client_bytes (unserved fd)))

  -- The calls of `read` return the bytes of the clients piece by piece.
  abbrev pub AreArrivals : Gateway t → (ℕ → List ℕ) → List Arrival → Type 0
  AreArrivals g unread [] = Unit
  AreArrivals g unread (a ∷ arrivals) =
      let rest : Type 0 = elim (read_from t make_ticker g a.fd a.reads) [
        | none ↦ Unit
        | some g' ↦ AreArrivals g' (update unread a.fd a.more) arrivals
      ] in
      (c : Connection) × (t.find a.fd g.connections ≡ some c)
      × AreReads (start_reading c) a.reads
      × (unread a.fd ≡ taken (start_reading c) a.reads ++ a.more)
      × rest

  step-IsSynced :
      (g g' : Gateway t) (unread : ℕ → List ℕ) (unserved : ℕ → List InboundCommand) (fd : ℕ)
      (held : Connection) (is_open : Bool) (more : List ℕ) (left : List InboundCommand)
      → IsSynced g unread unserved
      → t.find fd g'.connections ≡ (if is_open then some held else none)
      → length held.filled < message_size
      → held.filled ++ more ≡ join (map client_bytes left)
      → ((other : ℕ) → other ≢ fd → t.find other g'.connections ≡ t.find other g.connections)
      → IsSynced g' (update unread fd more) (update unserved fd left)
  step-IsSynced g g' unread unserved fd held is_open more left synced mine short rest others k c
        found =
      elim (Bool-cases (k == fd)) [
        | inl same ↦
            let here = sym (ap (λ j. t.find j g'.connections) ((==_iff k fd).0 same)) ∙ found in
            rw same (
              held-kept held c is_open
                (λ d.
                  (length d.filled < message_size)
                  × (d.filled ++ more ≡ join (map client_bytes left)))
                (sym mine ∙ here) (short, rest))
        | inr ne ↦
            let e = others k (λ q. cc (ne, (==_iff k fd).1 q)) in rw ne (synced k c (sym e ∙ found))
      ]

  update-IsSendable :
      (unserved : ℕ → List InboundCommand) (fd : ℕ) (left : List InboundCommand)
      → ((k : ℕ) → All IsSendable (unserved k))
      → All IsSendable left
      → (k : ℕ) → All IsSendable (update unserved fd left k)
  update-IsSendable unserved fd left all h k = elim (Bool-cases (k == fd)) [
    | inl same ↦ rw same h
    | inr ne ↦ rw ne (all k)
  ]

  handle_events-next :
      (g next : Gateway t) (event : Event) (events : List Event)
      → handle_event t make_ticker g event ≡ some next
      → handle_events t make_ticker g (event ∷ events) ≡ handle_events t make_ticker next events
  unfolding handle_events
  handle_events-next g next event events e = rw (handle_events, e) refl

  -- If each connection's buffer and the bytes to come from its client are the messages of some
  -- commands, then for any sequence of calls of `ReadFrom`, whose reads return the bytes of the
  -- clients piece by piece, no call throws; what is pushed is a log of the calls, in their order;
  -- the commands of each client are those that were pushed from it, in order, and then those whose
  -- messages are still in the buffer and to come, if its connection is open. The numbers of the
  -- commands fit in eight bytes, their tickers have at most 15 characters and no NUL, and no read
  -- returns more than was asked for.
  pub handle_events-serve :
      (arrivals : List Arrival) (g : Gateway t) (unread : ℕ → List ℕ)
      (unserved : ℕ → List InboundCommand)
      → IsSynced g unread unserved
      → ((k : ℕ) → All IsSendable (unserved k))
      → AreArrivals g unread arrivals
      → (log : Log) × (left : (ℕ → List InboundCommand)) × (g' : Gateway t) × (handle_events t
            make_ticker g
            (map event_of arrivals)
          ≡ some g')
        × (g'.outbound ≡ g.outbound ++ all_pushed log)
        × ((k : ℕ) → unserved k ≡ pushed_from k log ++ left k)
        × IsSynced g' (still_unread unread arrivals) left
  unfolding handle_events
  handle_events-serve [] g unread unserved synced sendable arrive =
      ([], unserved, g, refl, sym (append-nil g.outbound), λ k. refl, synced)
  handle_events-serve (a ∷ arrivals) g unread unserved synced sendable
        (c, found, reads, bytes, rest) =
      let (short, e) = synced a.fd c found in
      let stream = ap (λ l. c.filled ++ l) (sym bytes) ∙ e in
      let r = read_loop (start_reading c) a.reads in
      let (pushed, left, g', split, done, out, mine, short', rest', others) =
        read_from-stream t make_ticker static laws g a.fd c a.reads (unserved a.fd) a.more found
          short reads stream (sendable a.fd) in
      let next =
        step-IsSynced g g' unread unserved a.fd record { filled = r.filled } r.is_open a.more left
          synced mine short' rest' others in
      let h = All-back IsSendable pushed left (subst (All IsSendable) split (sendable a.fd)) in
      let (log, left', g'', run, outs, lefts, synced') =
        handle_events-serve arrivals g' (update unread a.fd a.more) (update unserved a.fd left) next
          (update-IsSendable unserved a.fd left sendable h) (rw done at rest) in
      (
        (a.fd, pushed) ∷ log,
        left',
        g'',
        handle_events-next g g' (event_of a) (map event_of arrivals) done ∙ run,
        outs ∙ ap (λ l. l ++ all_pushed log) out ∙ append_assoc g.outbound pushed (all_pushed log),
        λ k. log-step unserved a.fd pushed left log k (left' k) split (lefts k),
        synced',
      )
