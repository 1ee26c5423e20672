-- ===== src/Net/Wire/Bytes.antt =====
-- The packed structs of common/net/wire.hpp as bytes: fields of eight bytes in two's complement,
-- least significant byte first, as on the hosts that the program and its clients run on.
pub mod Layout
use toy_exchange.Base.{
  ℕ, zero, suc, ◌+◌, ◌-◌, ◌*◌, ◌/◌, ◌%◌, ◌^◌, List, [], ◌∷◌, ◌++◌, Option, none, some,
  if◌then◌else◌, ltb, take, drop,
}
use toy_exchange.Base.Int.{ℤ, pos, negsuc}
use toy_exchange.Net.Wire.{
  WireOrderAdd, WireOrderCancel, WireTradeEvent, InboundWireMessage, WireMarketDataMessage,
  wire_ticker_size, order_add_event, order_cancel_event, trade_event,
}

abbrev pub le_bytes : ℕ → ℕ → List ℕ
le_bytes zero n = []
le_bytes (suc k) n = (n % 256) ∷ le_bytes k (n / 256)

abbrev pub of_le_bytes : List ℕ → ℕ
of_le_bytes [] = 0
of_le_bytes (b ∷ bs) = b + 256 * of_le_bytes bs

-- The pattern of an `int64_t`, and the `int64_t` of a pattern.
abbrev pub word_of : ℤ → ℕ
word_of (pos n) = n
word_of (negsuc n) = 2 ^ 64 - 1 - n

abbrev pub signed64 : ℕ → ℤ
signed64 w = if ltb w (2 ^ 63) then pos w else negsuc (2 ^ 64 - 1 - w)

unfoldable pub int64_bytes : ℤ → List ℕ
int64_bytes a = le_bytes 8 (word_of a)

abbrev pub read_int64 : List ℕ → ℤ
read_int64 bytes = signed64 (of_le_bytes (take 8 bytes))

abbrev pub first : List ℕ → ℕ
first [] = 0
first (b ∷ bs) = b

abbrev pub order_add_bytes : WireOrderAdd → List ℕ
order_add_bytes w =
    int64_bytes w.order_id
    ++ (int64_bytes w.user_id
        ++ (w.ticker ++ (w.side ∷ (int64_bytes w.price ++ int64_bytes w.volume))))

abbrev pub order_cancel_bytes : WireOrderCancel → List ℕ
order_cancel_bytes w = int64_bytes w.order_id ++ (int64_bytes w.user_id ++ w.ticker)

abbrev pub trade_bytes : WireTradeEvent → List ℕ
trade_bytes w =
    int64_bytes w.maker_id
    ++ (int64_bytes w.taker_id
        ++ (int64_bytes w.maker_order_id
            ++ (int64_bytes w.taker_order_id
                ++ (w.ticker ++ (w.taker_side ∷ (int64_bytes w.price ++ int64_bytes w.volume))))))

-- The bytes of a field are where those of the fields before it end.
abbrev pub read_order_add : List ℕ → WireOrderAdd
read_order_add bytes =
    let from_user = drop 8 bytes in
    let from_ticker = drop 8 from_user in
    let from_side = drop wire_ticker_size from_ticker in
    let from_price = drop 1 from_side in
    record {
      order_id = read_int64 bytes;
      user_id = read_int64 from_user;
      ticker = take wire_ticker_size from_ticker;
      side = first from_side;
      price = read_int64 from_price;
      volume = read_int64 (drop 8 from_price);
    }

-- `reinterpret_cast<const InboundWireMessage*>` of a full buffer.
unfoldable pub message_of_bytes : List ℕ → InboundWireMessage
message_of_bytes bytes = record {
  type_byte = first bytes;
  order_add = read_order_add (drop 1 bytes);
}

-- `reinterpret_cast<const char*>` of a message: `type_`, the member of the union, and the bytes of
-- the union behind a shorter member, which the member does not determine.
unfoldable pub bytes_of_message : WireMarketDataMessage → List ℕ → List ℕ
bytes_of_message (order_add_event w) unused = 0 ∷ (order_add_bytes w ++ unused)
bytes_of_message (order_cancel_event w) unused = 1 ∷ (order_cancel_bytes w ++ unused)
bytes_of_message (trade_event w) unused = 2 ∷ (trade_bytes w ++ unused)
