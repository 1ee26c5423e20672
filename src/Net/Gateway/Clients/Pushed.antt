-- ===== src/Net/Gateway/Clients/Pushed.antt =====
-- What a call of `ReadFrom` of common/net/gateway.cpp pushes for the bytes that a client sends.
use toy_exchange.Base.{
  ◌≡◌, ◌≢◌, refl, sym, ◌∙◌, ap, ap₂, ℕ, ◌<◌, List, [], ◌∷◌, ◌++◌, Option, none, some, if◌then◌else◌,
  map, arith, length, length-append, append_assoc, append-nil, take, drop, take-append, drop-append,
  All, Bool-cases, inl, inr,
}
use toy_exchange.Core.Types.{Ticker, InboundCommand}
use toy_exchange.Extern.UnorderedMap.{IsMap}
use toy_exchange.Net.Wire.RoundTrip.{IsStaticString}
use toy_exchange.Net.Gateway.{
  message_size, ReadResult, Connection, Reading, start_reading, read_loop, ConnectionMap, Gateway,
  dispatch, dispatch_all, read_from,
}
use toy_exchange.Net.Gateway.ReadFrom.{after, read_from-after}
use toy_exchange.Net.Gateway.Framing.{join, AreReads, taken, read_loop-IsFramed}
use toy_exchange.Net.Gateway.Clients.{
  client_bytes, IsSendable, length-client_bytes, decode-client_bytes,
}

pub too_long :
    (m ms rest rest' : List ℕ)
    → length m ≡ message_size
    → length rest' < message_size
    → rest' ≢ (m ++ ms) ++ rest
too_long m ms rest rest' p s e =
    omega (arith, ap length e, length-append (m ++ ms) rest, length-append m ms)

-- Lists of one length in front of others.
pub append-inj :
    (m n ms ns : List ℕ) → length m ≡ length n → m ++ ms ≡ n ++ ns → (m ≡ n) × (ms ≡ ns)
append-inj m n ms ns size e = (
  sym (take-append m ms) ∙ ap₂ take size e ∙ take-append n ns,
  sym (drop-append m ms) ∙ ap₂ drop size e ∙ drop-append n ns,
)

-- A stream is cut into messages in one way.
join-inj :
    (ms ns : List (List ℕ)) (rest rest' : List ℕ)
    → All (λ m. length m ≡ message_size) ms
    → All (λ m. length m ≡ message_size) ns
    → length rest < message_size
    → length rest' < message_size
    → join ms ++ rest ≡ join ns ++ rest'
    → (ms ≡ ns) × (rest ≡ rest')
join-inj [] [] rest rest' p q s s' e = (refl, e)
join-inj [] (n ∷ ns) rest rest' p q s s' e = absurd (too_long n (join ns) rest' rest q.0 s e)
join-inj (m ∷ ms) [] rest rest' p q s s' e = absurd (too_long m (join ms) rest rest' p.0 s' (sym e))
join-inj (m ∷ ms) (n ∷ ns) rest rest' (pm, pms) (qn, qns) s s' e =
    let same =
      append-inj m n _ _ (pm ∙ sym qn)
        (sym (append_assoc m (join ms) rest) ∙ e ∙ append_assoc n (join ns) rest') in
    let tails = join-inj ms ns rest rest' pms qns s s' same.1 in
    (ap₂ (λ x xs. x ∷ xs) same.0 tails.0, tails.1)

clients-whole :
    (cs : List InboundCommand) → All (λ m. length m ≡ message_size) (map client_bytes cs)
clients-whole [] = tt
clients-whole (c ∷ cs) = (length-client_bytes c, clients-whole cs)

module _ (t : ConnectionMap) (make_ticker : List ℕ → Option Ticker)
    (static : IsStaticString make_ticker) where
  dispatch-client :
      (out : List InboundCommand) (c : InboundCommand)
      → IsSendable c
      → dispatch t make_ticker out (client_bytes c) ≡ some (out ++ c ∷ [])
  unfolding dispatch
  dispatch-client out c p = rw (dispatch, decode-client_bytes make_ticker static c p) refl

  dispatch_all-clients :
      (out cs : List InboundCommand)
      → All IsSendable cs
      → dispatch_all t make_ticker out (map client_bytes cs) ≡ some (out ++ cs)
  unfolding dispatch_all
  dispatch_all-clients out [] p = ap some (sym (append-nil out))
  dispatch_all-clients out (c ∷ cs) (p, ps) =
      rw (dispatch_all, dispatch-client out c p)
        (dispatch_all-clients (out ++ c ∷ []) cs ps ∙ ap some (append_assoc out (c ∷ []) cs))

  -- The connection that `ReadFrom` leaves, and what it dispatched.
  client-framed :
      (c : Connection) (rs : List ReadResult) (cs : List InboundCommand) (rest : List ℕ)
      → length c.filled < message_size
      → AreReads (start_reading c) rs
      → c.filled ++ taken (start_reading c) rs ≡ join (map client_bytes cs) ++ rest
      → length rest < message_size
      → let r = read_loop (start_reading c) rs in
        (r.dispatched ≡ map client_bytes cs) × (r.filled ≡ rest)
  client-framed c rs cs rest short reads stream partial =
      let framed = read_loop-IsFramed c.filled (start_reading c) rs (refl, tt, short) reads in
      join-inj _ _ _ _ framed.1 (clients-whole cs) framed.2 partial (framed.0 ∙ stream)

  after-connections :
      IsMap t
      → (g : Gateway t) (fd : ℕ) (r : Reading) (out : List InboundCommand)
      → let left : Connection = record { filled = r.filled } in
        let g' = after t make_ticker g fd r out in
        (g'.outbound ≡ out)
        × (t.find fd g'.connections ≡ (if r.is_open then some left else none))
        × ((other : ℕ) → other ≢ fd → t.find other g'.connections ≡ t.find other g.connections)
  after-connections laws g fd r out = elim (Bool-cases r.is_open) [
    | inl still ↦
        rw still (refl, laws.find-put_self fd _ _, λ other ne. laws.find-put_ne other fd _ _ ne)
    | inr closed ↦ rw closed (
      refl,
      laws.find-erase_self fd _,
      λ other ne. laws.find-erase_ne other fd _ ne ∙ laws.find-put_ne other fd _ _ ne,
    )
  ]

  -- If a connection's buffer and the bytes that its reads return are the messages of some commands
  -- and less than a message more, a call of `ReadFrom` throws nothing, pushes exactly these
  -- commands in their order and keeps the rest of the bytes, or erases the connection if the stream
  -- ended or failed; it changes no other connection. The numbers of the commands fit in eight bytes
  -- and their tickers have at most 15 characters and no NUL, and no read returns more than was
  -- asked for.
  pub read_from-client :
      (laws : IsMap t) (g : Gateway t) (fd : ℕ) (c : Connection) (rs : List ReadResult)
      (cs : List InboundCommand) (rest : List ℕ)
      → t.find fd g.connections ≡ some c
      → length c.filled < message_size
      → AreReads (start_reading c) rs
      → c.filled ++ taken (start_reading c) rs ≡ join (map client_bytes cs) ++ rest
      → length rest < message_size
      → All IsSendable cs
      → let r = read_loop (start_reading c) rs in
        let left : Connection = record { filled = rest } in
        (g' : Gateway t) × (read_from t make_ticker g fd rs ≡ some g')
        × (g'.outbound ≡ g.outbound ++ cs)
        × (t.find fd g'.connections ≡ (if r.is_open then some left else none))
        × ((other : ℕ) → other ≢ fd → t.find other g'.connections ≡ t.find other g.connections)
  read_from-client laws g fd c rs cs rest found short reads stream partial sendable =
      let r = read_loop (start_reading c) rs in
      let framed = client-framed c rs cs rest short reads stream partial in
      let out = g.outbound ++ cs in
      let pushed =
        ap (dispatch_all t make_ticker g.outbound) framed.0
        ∙ dispatch_all-clients g.outbound cs sendable in
      let done = after-connections laws g fd r out in
      (
        after t make_ticker g fd r out,
        read_from-after t make_ticker g fd c rs out found pushed,
        done.0,
        done.1 ∙ ap (λ bytes. if r.is_open then some record { filled = bytes } else none) framed.1,
        done.2,
      )
