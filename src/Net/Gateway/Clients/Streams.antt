-- ===== src/Net/Gateway/Clients/Streams.antt =====
-- A call of `ReadFrom` of common/net/gateway.cpp in the middle of the stream of bytes that a client
-- sends.
use toy_exchange.Base.{
  ◌≡◌, ◌≢◌, refl, sym, ◌∙◌, ap, ap₂, subst, ℕ, ◌<◌, List, [], ◌∷◌, ◌++◌, Option, none, some,
  if◌then◌else◌, map, arith, length, length-append, append_assoc, All, All-front,
}
use toy_exchange.Core.Types.{Ticker, InboundCommand}
use toy_exchange.Extern.UnorderedMap.{IsMap}
use toy_exchange.Net.Wire.RoundTrip.{IsStaticString}
use toy_exchange.Net.Gateway.{
  message_size, ReadResult, Connection, start_reading, read_loop, ConnectionMap, Gateway, read_from,
}
use toy_exchange.Net.Gateway.Framing.{join, AreReads, taken, read_loop-IsFramed}
use toy_exchange.Net.Gateway.Clients.{client_bytes, IsSendable, length-client_bytes}
use toy_exchange.Net.Gateway.Clients.Pushed.{append-inj, read_from-client}

-- Whole messages in front of a stream of commands are the first of these commands.
abbrev IsPrefix : List (List ℕ) → List ℕ → List InboundCommand → Type 0
IsPrefix ms after cs =
    (pushed : List InboundCommand) × (left : List InboundCommand) × (cs ≡ pushed ++ left)
    × (ms ≡ map client_bytes pushed)
    × (after ≡ join (map client_bytes left))

join-IsPrefix :
    (ms : List (List ℕ)) (after : List ℕ) (cs : List InboundCommand)
    → All (λ m. length m ≡ message_size) ms
    → join ms ++ after ≡ join (map client_bytes cs)
    → IsPrefix ms after cs
join-IsPrefix [] after cs whole e = ([], cs, refl, refl, e)
join-IsPrefix (m ∷ ms) after [] whole e = absurd (
    omega
      (arith, ap length e, length-append (m ++ join ms) after, length-append m (join ms), whole.0))
join-IsPrefix (m ∷ ms) after (c ∷ cs) whole e =
    let same =
      append-inj m (client_bytes c) _ _ (whole.0 ∙ sym (length-client_bytes c))
        (sym (append_assoc m (join ms) after) ∙ e) in
    let (pushed, left, split, framed, rest) = join-IsPrefix ms after cs whole.1 same.1 in
    (c ∷ pushed, left, ap (λ l. c ∷ l) split, ap₂ (λ x xs. x ∷ xs) same.0 framed, rest)

module _ (t : ConnectionMap) (make_ticker : List ℕ → Option Ticker)
    (static : IsStaticString make_ticker) where
  pub read_from-stream :
      (laws : IsMap t) (g : Gateway t) (fd : ℕ) (c : Connection) (rs : List ReadResult)
      (cs : List InboundCommand) (more : List ℕ)
      → t.find fd g.connections ≡ some c
      → length c.filled < message_size
      → AreReads (start_reading c) rs
      → c.filled ++ (taken (start_reading c) rs ++ more) ≡ join (map client_bytes cs)
      → All IsSendable cs
      → let r = read_loop (start_reading c) rs in
        let held : Connection = record { filled = r.filled } in
        (pushed : List InboundCommand) × (left : List InboundCommand) × (g' : Gateway t) × (cs
          ≡ pushed ++ left)
        × (read_from t make_ticker g fd rs ≡ some g')
        × (g'.outbound ≡ g.outbound ++ pushed)
        × (t.find fd g'.connections ≡ (if r.is_open then some held else none))
        × (length r.filled < message_size)
        × (r.filled ++ more ≡ join (map client_bytes left))
        × ((other : ℕ) → other ≢ fd → t.find other g'.connections ≡ t.find other g.connections)
  read_from-stream laws g fd c rs cs more found short reads stream sendable =
      let r = read_loop (start_reading c) rs in
      let framed = read_loop-IsFramed c.filled (start_reading c) rs (refl, tt, short) reads in
      let whole : join r.dispatched ++ (r.filled ++ more) ≡ join (map client_bytes cs) =
        sym (append_assoc (join r.dispatched) r.filled more)
        ∙ ap (λ l. l ++ more) framed.0
        ∙ append_assoc c.filled (taken (start_reading c) rs) more
        ∙ stream in
      let (pushed, left, split, messages, rest) =
        join-IsPrefix r.dispatched (r.filled ++ more) cs framed.1 whole in
      let front = All-front IsSendable pushed left (subst (All IsSendable) split sendable) in
      let read = sym framed.0 ∙ ap (λ ms. join ms ++ r.filled) messages in
      let (g', done, out, mine, others) =
        read_from-client t make_ticker static laws g fd c rs pushed r.filled found short reads read
          framed.2 front in
      (pushed, left, g', split, done, out, mine, framed.2, rest, others)
