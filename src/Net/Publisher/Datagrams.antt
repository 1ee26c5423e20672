-- ===== src/Net/Publisher/Datagrams.antt =====
-- The datagrams of common/net/market_data_publisher.cpp, as a subscriber reads them.
use toy_exchange.Base.{
  ◌≡◌, refl, sym, ◌∙◌, ap, ap₂, subst, ℕ, zero, suc, List, [], ◌∷◌, ◌++◌, Option, none, some, Bool,
  true, if◌then◌else◌, map, All, All-append, map-append, arith, length, length-append, append_assoc,
  append-nil, take, drop, Bool-cases, inl, inr,
}
use toy_exchange.Base.Int.{Fits}
use toy_exchange.Net.Wire.{
  WireTradeEvent, WireMarketDataMessage, order_add_event, order_cancel_event, trade_event,
  wire_ticker_size, order_cancel,
}
use toy_exchange.Net.Wire.Bytes.{
  read_int64, first, int64_bytes, trade_bytes, read_order_add, message_of_bytes, bytes_of_message,
}
use toy_exchange.Net.Wire.Bytes.Layout.{
  FitsAdd, FitsCancel, read-int64_bytes, drop-int64_bytes, take-ticker, drop-ticker,
  read-order_add_bytes, read-order_cancel_bytes,
}
use toy_exchange.Net.Publisher.{Popped, send_message, run_publisher}

abbrev pub read_trade : List ℕ → WireTradeEvent
read_trade bytes =
    let from_taker = drop 8 bytes in
    let from_maker_order = drop 8 from_taker in
    let from_taker_order = drop 8 from_maker_order in
    let from_ticker = drop 8 from_taker_order in
    let from_side = drop wire_ticker_size from_ticker in
    let from_price = drop 1 from_side in
    record {
      maker_id = read_int64 bytes;
      taker_id = read_int64 from_taker;
      maker_order_id = read_int64 from_maker_order;
      taker_order_id = read_int64 from_taker_order;
      ticker = take wire_ticker_size from_ticker;
      taker_side = first from_side;
      price = read_int64 from_price;
      volume = read_int64 (drop 8 from_price);
    }

-- A subscriber's view of a datagram: the member of the union that the first byte names.
abbrev pub read_datagram : List ℕ → Option WireMarketDataMessage
read_datagram [] = none
read_datagram (zero ∷ bytes) = some (order_add_event (read_order_add bytes))
read_datagram (suc zero ∷ bytes) =
    some (order_cancel_event (order_cancel (message_of_bytes (1 ∷ bytes))))
read_datagram (suc (suc n) ∷ bytes) = some (trade_event (read_trade bytes))

abbrev pub FitsTrade : WireTradeEvent → Type 0
FitsTrade w =
    Fits w.maker_id
    × Fits w.taker_id
    × Fits w.maker_order_id
    × Fits w.taker_order_id
    × (length w.ticker ≡ wire_ticker_size)
    × Fits w.price
    × Fits w.volume

abbrev pub FitsMessage : WireMarketDataMessage → Type 0
FitsMessage (order_add_event w) = FitsAdd w
FitsMessage (order_cancel_event w) = FitsCancel w
FitsMessage (trade_event w) = FitsTrade w

-- How much shorter the member is than the union of 65 bytes.
abbrev pub padding_size : WireMarketDataMessage → ℕ
padding_size (order_add_event w) = 16
padding_size (order_cancel_event w) = 33
padding_size (trade_event w) = 0

abbrev pub IsPadded : Popped → Type 0
IsPadded p = length p.padding ≡ padding_size p.msg

abbrev pub IsPublishable : Popped → Type 0
IsPublishable p = FitsMessage p.msg × IsPadded p

read-trade_bytes :
    (w : WireTradeEvent) (rest : List ℕ) → FitsTrade w → read_trade (trade_bytes w ++ rest) ≡ w
read-trade_bytes w rest (maker, taker, maker_order, taker_order, size, price, volume) =
    let from_volume = int64_bytes w.volume ++ rest in
    let from_price = int64_bytes w.price ++ from_volume in
    let from_side = w.taker_side ∷ from_price in
    let from_ticker = w.ticker ++ from_side in
    let from_taker_order = int64_bytes w.taker_order_id ++ from_ticker in
    let from_maker_order = int64_bytes w.maker_order_id ++ from_taker_order in
    let from_taker = int64_bytes w.taker_id ++ from_maker_order in
    let all : trade_bytes w ++ rest ≡ int64_bytes w.maker_id ++ from_taker = simp append_assoc in
    rw
      (
        all,
        drop-int64_bytes w.maker_id from_taker,
        drop-int64_bytes w.taker_id from_maker_order,
        drop-int64_bytes w.maker_order_id from_taker_order,
        drop-int64_bytes w.taker_order_id from_ticker,
        drop-ticker w.ticker from_side size,
        drop-int64_bytes w.price from_volume,
      )
      (rw
        (
          read-int64_bytes w.maker_id from_taker maker,
          read-int64_bytes w.taker_id from_maker_order taker,
          read-int64_bytes w.maker_order_id from_taker_order maker_order,
          read-int64_bytes w.taker_order_id from_ticker taker_order,
          take-ticker w.ticker from_side size,
          read-int64_bytes w.price from_volume price,
          read-int64_bytes w.volume rest volume,
        )
        refl)

-- A subscriber reads the message back, whatever stands behind its member.
read-bytes_of_message :
    (msg : WireMarketDataMessage) (padding : List ℕ) (was_sent : Bool)
    → IsPublishable record { msg = msg; padding = padding; was_sent = was_sent }
    → read_datagram (bytes_of_message msg padding) ≡ some msg
unfolding bytes_of_message
read-bytes_of_message (order_add_event w) padding sent (fits, size) =
    ap (λ v. some (order_add_event v)) (read-order_add_bytes w padding fits)
read-bytes_of_message (order_cancel_event w) padding sent (fits, size) =
    ap (λ v. some (order_cancel_event v)) (read-order_cancel_bytes w 1 padding fits)
read-bytes_of_message (trade_event w) padding sent (fits, size) =
    ap (λ v. some (trade_event v)) (read-trade_bytes w padding fits)

-- `sizeof(WireMarketDataMessage)`: one byte of type, and the packed `WireTradeEvent`.
abbrev pub datagram_size : ℕ
datagram_size = 66

length-bytes_of_message :
    (msg : WireMarketDataMessage) (padding : List ℕ) (was_sent : Bool)
    → IsPublishable record { msg = msg; padding = padding; was_sent = was_sent }
    → length (bytes_of_message msg padding) ≡ datagram_size
unfolding bytes_of_message int64_bytes
length-bytes_of_message (order_add_event w) padding sent (fits, size) =
    let from_side = w.side ∷ (int64_bytes w.price ++ int64_bytes w.volume) in
    omega (
      arith,
      length-append (w.ticker ++ from_side) padding,
      length-append w.ticker from_side,
      fits.2,
      size,
    )
length-bytes_of_message (order_cancel_event w) padding sent (fits, size) =
    omega (arith, length-append w.ticker padding, fits.2, size)
length-bytes_of_message (trade_event w) padding sent (fits, size) =
    let from_side = w.taker_side ∷ (int64_bytes w.price ++ int64_bytes w.volume) in
    omega (
      arith,
      length-append (w.ticker ++ from_side) padding,
      length-append w.ticker from_side,
      fits.4,
      size,
    )

-- The messages whose `sendto` returned a length.
abbrev pub sent : List Popped → List WireMarketDataMessage
sent [] = []
sent (p ∷ ps) = if p.was_sent then p.msg ∷ sent ps else sent ps

-- What subscribers read, and that every datagram has the size of a message.
abbrev pub ArePublished : List (List ℕ) → List WireMarketDataMessage → Type 0
ArePublished datagrams msgs =
    (map read_datagram datagrams ≡ map some msgs) × All (λ d. length d ≡ datagram_size) datagrams

send_message-ArePublished :
    (datagrams : List (List ℕ)) (msgs : List WireMarketDataMessage) (p : Popped)
    → p.was_sent ≡ true
    → IsPublishable p
    → ArePublished datagrams msgs
    → ArePublished (send_message datagrams p) (msgs ++ p.msg ∷ [])
unfolding send_message
send_message-ArePublished datagrams msgs p ok fits (read, size) =
    let bytes = bytes_of_message p.msg p.padding in
    rw ok (
      map-append read_datagram datagrams (bytes ∷ [])
          ∙ ap₂ (λ xs x. xs ++ x ∷ []) read (read-bytes_of_message p.msg p.padding p.was_sent fits)
          ∙ sym (map-append some msgs (p.msg ∷ [])),
      All-append _ datagrams (bytes ∷ []) size
          (length-bytes_of_message p.msg p.padding p.was_sent fits, tt),
    )

-- The datagrams of `Run` are read by a subscriber as exactly the messages popped whose `sendto` did
-- not fail, in their order, whatever the bytes behind a shorter member; each has 66 bytes. The
-- fields of the messages fit in their arrays and numbers of eight bytes.
pub run_publisher-ArePublished :
    (datagrams : List (List ℕ)) (msgs : List WireMarketDataMessage) (ps : List Popped)
    → All IsPublishable ps
    → ArePublished datagrams msgs
    → ArePublished (run_publisher datagrams ps) (msgs ++ sent ps)
unfolding run_publisher send_message
run_publisher-ArePublished datagrams msgs [] fits before = rw (append-nil msgs) before
run_publisher-ArePublished datagrams msgs (p ∷ ps) (fit, fits) before =
    elim (Bool-cases p.was_sent) [
      | inl ok ↦
          let next = send_message-ArePublished datagrams msgs p ok fit before in
          subst (ArePublished _)
            (append_assoc msgs (p.msg ∷ []) (sent ps)
              ∙ ap (λ b. msgs ++ (if b then p.msg ∷ sent ps else sent ps)) (sym ok))
            (run_publisher-ArePublished (send_message datagrams p) (msgs ++ p.msg ∷ []) ps fits
              next)
      | inr failed ↦
          rw (send_message, failed) (run_publisher-ArePublished datagrams msgs ps fits before)
    ]
