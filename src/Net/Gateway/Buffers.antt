-- ===== src/Net/Gateway/Buffers.antt =====
-- The buffers of the connections of common/net/gateway.cpp, in any state that `Run` comes to.
use toy_exchange.Base.{
  ◌≡◌, ◌≢◌, refl, sym, subst, ◌∙◌, ℕ, ◌<◌, List, [], ◌∷◌, Option, none, some, ◌==◌, arith, length,
  Option-cases, Bool-cases, inl, inr, ==_iff, ◌⊎◌,
}
use mathlib.Core.Option.{some-injective}
use toy_exchange.Core.Types.{Ticker, InboundCommand}
use toy_exchange.Extern.UnorderedMap.{IsMap}
use toy_exchange.Net.Gateway.{
  message_size, ReadResult, Connection, new_connection, Reading, start_reading, read_loop,
  ConnectionMap, Gateway, Event, acceptable, readable, dispatch_all, accept_connection,
  accept_connections, close_connection, read_from, handle_event, handle_events,
}
use toy_exchange.Net.Gateway.Framing.{AreReads, read_loop-IsFramed}
use toy_exchange.Net.Gateway.ReadFrom.{after, read_from-after, read_from-thrown, read_from-missing}

ℕ-cases : (j k : ℕ) → (j ≡ k) ⊎ (j ≢ k)
ℕ-cases j k = elim (Bool-cases (j == k)) [
  | inl e ↦ inl ((==_iff j k).0 e)
  | inr e ↦ inr (λ q. cc (e, (==_iff j k).1 q))
]

module _ (t : ConnectionMap) (laws : IsMap t) (make_ticker : List ℕ → Option Ticker) where
  -- Every buffer has room for a byte.
  abbrev pub HasRoom : Gateway t → Type 0
  HasRoom g =
      (fd : ℕ) (c : Connection) → t.find fd g.connections ≡ some c → length c.filled < message_size

  put-HasRoom :
      (g : Gateway t) (fd : ℕ) (c : Connection) (out : List InboundCommand)
      → length c.filled < message_size
      → HasRoom g
      → HasRoom (record { connections = t.put fd c g.connections; outbound = out })
  put-HasRoom g fd c out short all other c' found = elim (ℕ-cases other fd) [
    | inl same ↦
        let e =
          sym (laws.find-put_self fd c g.connections)
          ∙ subst (λ k. t.find k (t.put fd c g.connections) ≡ some c') same found in
        subst (λ d. length d.filled < message_size) (some-injective _ _ e) short
    | inr ne ↦ all other c' (sym (laws.find-put_ne other fd c g.connections ne) ∙ found)
  ]

  close_connection-HasRoom :
      (g : Gateway t) (fd : ℕ) → HasRoom g → HasRoom (close_connection t make_ticker g fd)
  close_connection-HasRoom g fd all other c found = elim (ℕ-cases other fd) [
    | inl same ↦ cc (found, same, laws.find-erase_self fd g.connections)
    | inr ne ↦ all other c (sym (laws.find-erase_ne other fd g.connections ne) ∙ found)
  ]

  accept_connections-HasRoom :
      (g : Gateway t) (fds : List ℕ) → HasRoom g → HasRoom (accept_connections t make_ticker g fds)
  accept_connections-HasRoom g [] all = all
  accept_connections-HasRoom g (fd ∷ fds) all =
      accept_connections-HasRoom (accept_connection t make_ticker g fd) fds
        (put-HasRoom g fd new_connection g.outbound (omega arith) all)

  after-HasRoom :
      (g : Gateway t) (fd : ℕ) (r : Reading) (out : List InboundCommand)
      → length r.filled < message_size
      → HasRoom g
      → HasRoom (after t make_ticker g fd r out)
  after-HasRoom g fd r out short all =
      let stored : Connection = record { filled = r.filled } in
      let put = put-HasRoom g fd stored out short all in
      elim (Bool-cases r.is_open) [
        | inl still ↦ rw still put
        | inr closed ↦ rw closed (
            close_connection-HasRoom
              (record { connections = t.put fd stored g.connections; outbound = out }) fd put)
      ]

  -- What the reads of an event return for a connection of the table.
  abbrev pub IsReadable : Gateway t → Event → Type 0
  IsReadable g (acceptable fds) = Unit
  IsReadable g (readable fd rs) = elim (t.find fd g.connections) [
    | none ↦ Unit
    | some c ↦ AreReads (start_reading c) rs
  ]

  read_from-HasRoom :
      (g g' : Gateway t) (fd : ℕ) (rs : List ReadResult)
      → HasRoom g
      → IsReadable g (readable fd rs)
      → read_from t make_ticker g fd rs ≡ some g'
      → HasRoom g'
  read_from-HasRoom g g' fd rs all reads e = elim (Option-cases (t.find fd g.connections)) [
    | inl missing ↦
        subst HasRoom
          (some-injective _ _ (sym (read_from-missing t make_ticker g fd rs missing) ∙ e)) all
    | inr (c, found) ↦
        let r = read_loop (start_reading c) rs in
        let framed =
          read_loop-IsFramed c.filled (start_reading c) rs (refl, tt, all fd c found)
            (rw (IsReadable, found) at reads) in
        elim (Option-cases (dispatch_all t make_ticker g.outbound r.dispatched)) [
          | inl thrown ↦ cc (e, read_from-thrown t make_ticker g fd c rs found thrown)
          | inr (out, pushed) ↦
              let same = sym (read_from-after t make_ticker g fd c rs out found pushed) ∙ e in
              subst HasRoom (some-injective _ _ same) (after-HasRoom g fd r out framed.2 all)
        ]
  ]

  handle_event-HasRoom :
      (g g' : Gateway t) (event : Event)
      → HasRoom g
      → IsReadable g event
      → handle_event t make_ticker g event ≡ some g'
      → HasRoom g'
  unfolding handle_event
  handle_event-HasRoom g g' (acceptable fds) all reads e =
      subst HasRoom (some-injective _ _ e) (accept_connections-HasRoom g fds all)
  handle_event-HasRoom g g' (readable fd rs) all reads e = read_from-HasRoom g g' fd rs all reads e

  -- No read of the loop of `Run` returns more than was asked for, in the states that the loop comes
  -- to.
  abbrev pub AreReadable : Gateway t → List Event → Type 0
  AreReadable g [] = Unit
  AreReadable g (event ∷ events) =
      let rest : Type 0 = elim (handle_event t make_ticker g event) [
        | none ↦ Unit
        | some g' ↦ AreReadable g' events
      ] in
      IsReadable g event × rest

  handle_events-thrown :
      (g : Gateway t) (event : Event) (events : List Event)
      → handle_event t make_ticker g event ≡ none
      → handle_events t make_ticker g (event ∷ events) ≡ none
  unfolding handle_events
  handle_events-thrown g event events e = rw (handle_events, e) refl

  handle_events-next :
      (g next : Gateway t) (event : Event) (events : List Event)
      → handle_event t make_ticker g event ≡ some next
      → handle_events t make_ticker g (event ∷ events) ≡ handle_events t make_ticker next events
  unfolding handle_events
  handle_events-next g next event events e = rw (handle_events, e) refl

  handle_events-HasRoom :
      (g g' : Gateway t) (events : List Event)
      → HasRoom g
      → AreReadable g events
      → handle_events t make_ticker g events ≡ some g'
      → HasRoom g'
  unfolding handle_events
  handle_events-HasRoom g g' [] all reads e = subst HasRoom (some-injective _ _ e) all
  handle_events-HasRoom g g' (event ∷ events) all (now, later) e =
      elim (Option-cases (handle_event t make_ticker g event)) [
        | inl thrown ↦ cc (e, handle_events-thrown g event events thrown)
        | inr (next, done) ↦
            handle_events-HasRoom next g' events (handle_event-HasRoom g next event all now done)
              (rw done at later) (sym (handle_events-next g next event events done) ∙ e)
      ]

  -- In any state that the loop of `Run` comes to from a table whose buffers all hold less than a
  -- message, a connection's buffer does so: a `read` asks for a byte at least. No read returns more
  -- than was asked for.
  pub handle_events-filled_lt :
      (g g' : Gateway t) (events : List Event) (fd : ℕ) (c : Connection)
      → HasRoom g
      → AreReadable g events
      → handle_events t make_ticker g events ≡ some g'
      → t.find fd g'.connections ≡ some c
      → length c.filled < message_size
  handle_events-filled_lt g g' events fd c all reads e found =
      handle_events-HasRoom g g' events all reads e fd c found
