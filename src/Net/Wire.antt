-- ===== src/Net/Wire.antt =====
-- common/net/wire.hpp. A `char` array is the list of its bytes; the fields of 64 bits are their
-- values. Of a union that is read, the bytes are those of its largest member; of a union that is
-- written, the member written is kept.
pub mod RoundTrip
pub mod Bytes
mod Tests
use toy_exchange.Base.{
  ℕ, zero, suc, ◌+◌, List, [], ◌∷◌, Option, none, some, ◌==◌, if◌then◌else◌, take,
}
use toy_exchange.Base.Int.{ℤ}
use toy_exchange.Core.Types.{
  Ticker, max_ticker_length, Side, buy, sell, Trade, OrderAdd, OrderCancel, InboundCommand, add,
  cancel,
}

abbrev pub wire_ticker_size : ℕ
wire_ticker_size = max_ticker_length + 1

pub record WireOrderAdd : Type 0 where
  pub order_id : ℤ
  pub user_id : ℤ
  pub ticker : List ℕ
  pub side : ℕ
  pub price : ℤ
  pub volume : ℤ

pub record WireOrderCancel : Type 0 where
  pub order_id : ℤ
  pub user_id : ℤ
  pub ticker : List ℕ

-- `WireOrderCancel` is packed and has the first fields of `WireOrderAdd`.
pub record InboundWireMessage : Type 0 where
  pub type_byte : ℕ
  pub order_add : WireOrderAdd

-- The member `orderCancel_` of the union.
abbrev pub order_cancel : InboundWireMessage → WireOrderCancel
order_cancel m = record {
  order_id = m.order_add.order_id;
  user_id = m.order_add.user_id;
  ticker = m.order_add.ticker;
}

pub record WireTradeEvent : Type 0 where
  pub maker_id : ℤ
  pub taker_id : ℤ
  pub maker_order_id : ℤ
  pub taker_order_id : ℤ
  pub ticker : List ℕ
  pub taker_side : ℕ
  pub price : ℤ
  pub volume : ℤ

-- `type_` and the member of the union that it names. The events of orders have the fields of the
-- inbound messages.
pub data WireMarketDataMessage : Type 0 where
  order_add_event : WireOrderAdd → WireMarketDataMessage
  order_cancel_event : WireOrderCancel → WireMarketDataMessage
  trade_event : WireTradeEvent → WireMarketDataMessage

-- `memset` to 0.
abbrev pub zeros : ℕ → List ℕ
zeros zero = []
zeros (suc n) = 0 ∷ zeros n

-- `memcpy` to the front of an array; what would be written past its end is undefined, and dropped.
abbrev pub copy_into : List ℕ → List ℕ → List ℕ
copy_into out [] = out
copy_into [] (c ∷ cs) = []
copy_into (o ∷ out) (c ∷ cs) = c ∷ copy_into out cs

unfoldable pub encode_ticker : Ticker → List ℕ
encode_ticker ticker = copy_into (zeros wire_ticker_size) ticker

abbrev pub strnlen : List ℕ → ℕ → ℕ
strnlen cs zero = 0
strnlen [] (suc n) = 0
strnlen (zero ∷ cs) (suc n) = 0
strnlen (suc c ∷ cs) (suc n) = suc (strnlen cs n)

abbrev pub encode_side : Side → ℕ
encode_side buy = 0
encode_side sell = 1

abbrev pub decode_side : ℕ → Side
decode_side b = if b == 0 then buy else sell

-- `make_ticker` is the constructor of `boost::static_string` from characters and their number;
-- `none` is the exception it throws.
module _ (make_ticker : List ℕ → Option Ticker) where
  unfoldable pub decode_ticker : List ℕ → Option Ticker
  decode_ticker cs = make_ticker (take (strnlen cs wire_ticker_size) cs)

  unfoldable pub decode_order_add : WireOrderAdd → Option OrderAdd
  unfolding decode_ticker
  decode_order_add w = elim (decode_ticker w.ticker) [
    | none ↦ none
    | some t ↦ some record {
      order_id = w.order_id;
      user_id = w.user_id;
      ticker = t;
      side = decode_side w.side;
      price = w.price;
      volume = w.volume;
    }
  ]

  unfoldable pub decode_order_cancel : WireOrderCancel → Option OrderCancel
  unfolding decode_ticker
  decode_order_cancel w = elim (decode_ticker w.ticker) [
    | none ↦ none
    | some t ↦ some record { order_id = w.order_id; user_id = w.user_id; ticker = t }
  ]

  unfoldable pub decode_inbound_message : InboundWireMessage → Option InboundCommand
  unfolding decode_order_add decode_order_cancel
  decode_inbound_message m =
      if m.type_byte == 0
      then (elim (decode_order_add m.order_add) [ none ↦ none | some o ↦ some (add o) ])
      else (elim (decode_order_cancel (order_cancel m)) [ none ↦ none | some c ↦ some (cancel c) ])

unfoldable pub encode_order_add_event : OrderAdd → WireMarketDataMessage
unfolding encode_ticker
encode_order_add_event order = order_add_event record {
  order_id = order.order_id;
  user_id = order.user_id;
  ticker = encode_ticker order.ticker;
  side = encode_side order.side;
  price = order.price;
  volume = order.volume;
}

unfoldable pub encode_order_cancel_event : OrderCancel → WireMarketDataMessage
unfolding encode_ticker
encode_order_cancel_event c =
    order_cancel_event
      record { order_id = c.order_id; user_id = c.user_id; ticker = encode_ticker c.ticker }

unfoldable pub encode_trade_event : Trade → WireMarketDataMessage
unfolding encode_ticker
encode_trade_event t = trade_event record {
  maker_id = t.maker_id;
  taker_id = t.taker_id;
  maker_order_id = t.maker_order_id;
  taker_order_id = t.taker_order_id;
  ticker = encode_ticker t.ticker;
  taker_side = encode_side t.taker_side;
  price = t.execution_price;
  volume = t.volume;
}
