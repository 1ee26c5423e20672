-- ===== src/Net/Wire/Tests.antt =====
-- The theorems on the wire format for the ticker AAPL, with a constructor that checks the length.
use toy_exchange.Base.{
  ◌≡◌, refl, ℕ, ◌<◌, List, [], ◌∷◌, Option, none, some, arith, length, leb, if◌then◌else◌, All,
}
use toy_exchange.Base.Int.{pos}
use toy_exchange.Core.Types.{Ticker, max_ticker_length, sell, OrderAdd, OrderCancel, add, cancel}
use toy_exchange.Net.Wire.{
  InboundWireMessage, decode_inbound_message, encode_order_add_event, encode_order_cancel_event,
}
use toy_exchange.Net.Wire.RoundTrip.{
  IsStaticString, IsTicker, read_event, read-encode_event, decode_inbound_message-total, command_of,
  decode_inbound_message-throws,
}

abbrev make_ticker : List ℕ → Option Ticker
make_ticker cs = if leb (length cs) max_ticker_length then some cs else none

make_ticker-IsStaticString : IsStaticString make_ticker
make_ticker-IsStaticString = (λ cs h. ground arith, λ cs h. ground arith)

abbrev aapl : Ticker
aapl = b'A' ∷ b'A' ∷ b'P' ∷ b'L' ∷ []

aapl-IsTicker : IsTicker aapl
aapl-IsTicker = (omega arith, (omega arith, (omega arith, (omega arith, (omega arith, tt)))))

abbrev order : OrderAdd
order = record {
  order_id = pos 1;
  user_id = pos 2;
  ticker = aapl;
  side = sell;
  price = pos 101;
  volume = pos 10;
}

abbrev order_gone : OrderCancel
order_gone = record { order_id = pos 1; user_id = pos 2; ticker = aapl }

read-encode_event_example :
    (read_event make_ticker (encode_order_add_event order) ≡ some (add order))
    × (read_event make_ticker (encode_order_cancel_event order_gone) ≡ some (cancel order_gone))
read-encode_event_example =
    read-encode_event make_ticker make_ticker-IsStaticString order order_gone aapl-IsTicker
      aapl-IsTicker

-- Type 7, side 9, and bytes after the NUL.
abbrev odd_message : InboundWireMessage
odd_message = record {
  type_byte = 7;
  order_add = record {
    order_id = pos 1;
    user_id = pos 2;
    ticker = b'A' ∷ b'A' ∷ b'P' ∷ b'L' ∷ 0 ∷ b'X' ∷ [];
    side = 9;
    price = pos 101;
    volume = pos 10;
  };
}

-- A sell, as its side is not 0.
abbrev odd_order : InboundWireMessage
odd_order = record odd_message { type_byte = 0 }

decode_inbound_message-total_example :
    decode_inbound_message make_ticker odd_order
    ≡ some (command_of odd_order.type_byte odd_order.order_add.side odd_order.order_add aapl)
decode_inbound_message-total_example =
    decode_inbound_message-total make_ticker make_ticker-IsStaticString odd_order aapl (b'X' ∷ [])
      aapl-IsTicker refl

odd_order_sells :
    command_of odd_order.type_byte odd_order.order_add.side odd_order.order_add aapl ≡ add order
odd_order_sells = refl

abbrev four_x : List ℕ → List ℕ
four_x cs = b'X' ∷ b'X' ∷ b'X' ∷ b'X' ∷ cs

abbrev full_message : InboundWireMessage
full_message = record {
  type_byte = 0;
  order_add = record odd_message.order_add { ticker = four_x (four_x (four_x (four_x []))) };
}

full_nonzero : All (λ c. 0 < c) full_message.order_add.ticker
full_nonzero =
    four (four_x (four_x (four_x []))) (four (four_x (four_x [])) (four (four_x []) (four [] tt)))
  where
    four : (cs : List ℕ) → All (λ c. 0 < c) cs → All (λ c. 0 < c) (four_x cs)
    four cs h = (omega arith, (omega arith, (omega arith, (omega arith, h))))

decode_inbound_message-throws_example : decode_inbound_message make_ticker full_message ≡ none
decode_inbound_message-throws_example =
    decode_inbound_message-throws make_ticker make_ticker-IsStaticString full_message refl
      full_nonzero
