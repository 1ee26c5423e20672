-- ===== src/Net/Gateway/Clients.antt =====
-- The bytes that a client sends for a command, and what `Dispatch` of common/net/gateway.cpp
-- decodes them to.
pub mod Pushed
pub mod Streams
pub mod Run
pub mod Tests
use toy_exchange.Base.{
  ◌≡◌, ◌≢◌, refl, sym, ◌∙◌, ap, ap₂, subst, ℕ, zero, suc, ◌+◌, ◌<◌, ◌≤◌, List, [], ◌∷◌, ◌++◌,
  Option, none, some, Bool, true, false, if◌then◌else◌, map, arith, length, length-append,
  append_assoc, append-nil, take, drop, take-append, drop-append, All, Bool-cases, inl, inr,
}
use toy_exchange.Base.Int.{Fits}
use toy_exchange.Core.Types.{
  Ticker, OrderAdd, OrderCancel, InboundCommand, add, cancel, max_ticker_length,
}
use toy_exchange.Extern.UnorderedMap.{IsMap}
use toy_exchange.Net.Wire.{
  InboundWireMessage, WireOrderAdd, WireOrderCancel, wire_ticker_size, zeros, copy_into,
  encode_ticker, encode_side, decode_order_add, decode_order_cancel, decode_ticker, decode_side,
  decode_inbound_message, order_cancel,
}
use toy_exchange.Net.Wire.RoundTrip.{
  IsStaticString, IsTicker, decode-encode_ticker, decode-encode_side,
}
use toy_exchange.Net.Wire.Bytes.{order_add_bytes, order_cancel_bytes, int64_bytes, message_of_bytes}
use toy_exchange.Net.Wire.Bytes.Layout.{
  FitsAdd, FitsCancel, read-order_add_bytes, read-order_cancel_bytes,
}
use toy_exchange.Net.Gateway.{
  message_size, ReadResult, Connection, Reading, start_reading, read_loop, ConnectionMap, Gateway,
  dispatch, dispatch_all, close_connection, read_from,
}
use toy_exchange.Net.Gateway.Framing.{join, IsFramed, AreReads, taken, read_loop-IsFramed}

abbrev pub wire_add : OrderAdd → WireOrderAdd
wire_add o = record {
  order_id = o.order_id;
  user_id = o.user_id;
  ticker = encode_ticker o.ticker;
  side = encode_side o.side;
  price = o.price;
  volume = o.volume;
}

abbrev pub wire_cancel : OrderCancel → WireOrderCancel
wire_cancel c = record {
  order_id = c.order_id;
  user_id = c.user_id;
  ticker = encode_ticker c.ticker;
}

-- A message of 50 bytes: the type, the member, and zeros behind the shorter member.
-- The union is as long as `WireOrderAdd`.
unfoldable pub client_bytes : InboundCommand → List ℕ
client_bytes (add o) = 0 ∷ (order_add_bytes (wire_add o) ++ [])
client_bytes (cancel c) = 1 ∷ (order_cancel_bytes (wire_cancel c) ++ zeros 17)

-- Numbers of eight bytes, and a ticker of at most 15 characters without NUL.
abbrev pub IsSendable : InboundCommand → Type 0
IsSendable (add o) =
    Fits o.order_id × Fits o.user_id × IsTicker o.ticker × Fits o.price × Fits o.volume
IsSendable (cancel c) = Fits c.order_id × Fits c.user_id × IsTicker c.ticker

pub length-zeros : (n : ℕ) → length (zeros n) ≡ n
length-zeros zero = refl
length-zeros (suc n) = ap suc (length-zeros n)

length-copy_into : (out cs : List ℕ) → length (copy_into out cs) ≡ length out
length-copy_into out [] = refl
length-copy_into [] (c ∷ cs) = refl
length-copy_into (o ∷ out) (c ∷ cs) = ap suc (length-copy_into out cs)

pub length-encode_ticker : (t : Ticker) → length (encode_ticker t) ≡ wire_ticker_size
unfolding encode_ticker
length-encode_ticker t = length-copy_into (zeros wire_ticker_size) t

length-order_add_bytes :
    (w : WireOrderAdd) → length (order_add_bytes w ++ []) ≡ length w.ticker + 33
unfolding int64_bytes
length-order_add_bytes w =
    let from_side = w.side ∷ (int64_bytes w.price ++ int64_bytes w.volume) in
    omega (arith, length-append (w.ticker ++ from_side) [], length-append w.ticker from_side)

length-order_cancel_bytes :
    (w : WireOrderCancel) (rest : List ℕ)
    → length (order_cancel_bytes w ++ rest) ≡ length w.ticker + (16 + length rest)
unfolding int64_bytes
length-order_cancel_bytes w rest = omega (arith, length-append w.ticker rest)

pub length-client_bytes : (c : InboundCommand) → length (client_bytes c) ≡ message_size
unfolding client_bytes
length-client_bytes (add o) =
    omega (arith, length-order_add_bytes (wire_add o), length-encode_ticker o.ticker)
length-client_bytes (cancel c) =
    omega
      (arith, length-order_cancel_bytes (wire_cancel c) (zeros 17), length-encode_ticker c.ticker)

module _ (make_ticker : List ℕ → Option Ticker) (laws : IsStaticString make_ticker) where
  decode_order_add-some :
      (w : WireOrderAdd) (o : OrderAdd)
      → decode_ticker make_ticker w.ticker ≡ some o.ticker
      → w ≡ wire_add o
      → decode_order_add make_ticker w ≡ some o
  unfolding decode_order_add
  decode_order_add-some w o e same =
      rw (decode_order_add, e)
        (ap
            (λ v. some record {
              order_id = v.order_id;
              user_id = v.user_id;
              ticker = o.ticker;
              side = decode_side v.side;
              price = v.price;
              volume = v.volume;
            })
            same
          ∙ ap
              (λ side. some record {
                order_id = o.order_id;
                user_id = o.user_id;
                ticker = o.ticker;
                side = side;
                price = o.price;
                volume = o.volume;
              })
              (decode-encode_side o.side))

  decode_order_cancel-some :
      (w : WireOrderCancel) (c : OrderCancel)
      → decode_ticker make_ticker w.ticker ≡ some c.ticker
      → w ≡ wire_cancel c
      → decode_order_cancel make_ticker w ≡ some c
  unfolding decode_order_cancel
  decode_order_cancel-some w c e same =
      rw (decode_order_cancel, e)
        (ap (λ v. some record { order_id = v.order_id; user_id = v.user_id; ticker = c.ticker })
          same)

  decode-wire_add :
      (o : OrderAdd) → IsTicker o.ticker → decode_order_add make_ticker (wire_add o) ≡ some o
  decode-wire_add o t =
      decode_order_add-some (wire_add o) o (decode-encode_ticker make_ticker laws o.ticker t) refl

  decode-wire_cancel :
      (c : OrderCancel)
      → IsTicker c.ticker
      → decode_order_cancel make_ticker (wire_cancel c) ≡ some c
  decode-wire_cancel c t =
      decode_order_cancel-some (wire_cancel c) c (decode-encode_ticker make_ticker laws c.ticker t)
        refl

  decode-message_add :
      (m : InboundWireMessage) (o : OrderAdd)
      → m.type_byte ≡ 0
      → decode_order_add make_ticker m.order_add ≡ some o
      → decode_inbound_message make_ticker m ≡ some (add o)
  unfolding decode_inbound_message
  decode-message_add m o type e = rw (type, e) refl

  decode-message_cancel :
      (m : InboundWireMessage) (c : OrderCancel)
      → m.type_byte ≡ 1
      → decode_order_cancel make_ticker (order_cancel m) ≡ some c
      → decode_inbound_message make_ticker m ≡ some (cancel c)
  unfolding decode_inbound_message
  decode-message_cancel m c type e = rw (type, e) refl

  pub decode-client_bytes :
      (c : InboundCommand)
      → IsSendable c
      → decode_inbound_message make_ticker (message_of_bytes (client_bytes c)) ≡ some c
  unfolding client_bytes message_of_bytes
  decode-client_bytes (add o) (id, user, t, price, volume) =
      let wire =
        read-order_add_bytes (wire_add o) []
          (id, user, length-encode_ticker o.ticker, price, volume) in
      decode-message_add _ o refl (ap (decode_order_add make_ticker) wire ∙ decode-wire_add o t)
  decode-client_bytes (cancel c) (id, user, t) =
      let wire =
        read-order_cancel_bytes (wire_cancel c) 1 (zeros 17)
          (id, user, length-encode_ticker c.ticker) in
      decode-message_cancel _ c refl
        (ap (decode_order_cancel make_ticker) wire ∙ decode-wire_cancel c t)
