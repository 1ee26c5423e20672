-- ===== src/Net/Publisher/Tests.antt =====
-- Two messages of which the second is lost, and the bytes of the first.
use toy_exchange.Base.{
  ◌≡◌, refl, ℕ, List, [], ◌∷◌, ◌++◌, true, false, Option, none, some, if◌then◌else◌,
}
use toy_exchange.Base.Int.{pos, negsuc}
use toy_exchange.Core.Types.{same_ticker}
use toy_exchange.Extern.FileTable.{file_table, file_table-IsKernel}
use toy_exchange.Net.Descriptors.{start_held, IsAsBefore}
use toy_exchange.Net.Publisher.Socket.{construct, leave_scope, construct_released}
use toy_exchange.Net.Wire.{order_cancel_event, trade_event, zeros}
use toy_exchange.Net.Wire.Bytes.{int64_bytes, bytes_of_message}
use toy_exchange.Net.Publisher.{Popped, send_message, run_publisher}

-- `AA`, and 14 bytes of 0.
abbrev aa : List ℕ
aa = b'A' ∷ b'A' ∷ zeros 14

abbrev gone : Popped
gone = record {
  msg = order_cancel_event record { order_id = pos 258; user_id = negsuc 0; ticker = aa };
  padding = zeros 33;
  was_sent = true;
}

abbrev dealt : Popped
dealt = record {
  msg = trade_event record {
    maker_id = pos 1;
    taker_id = pos 2;
    maker_order_id = pos 3;
    taker_order_id = pos 4;
    ticker = aa;
    taker_side = 1;
    price = pos 100;
    volume = pos 5;
  };
  padding = [];
  was_sent = false;
}

bytes_of_gone :
    run_publisher [] (gone ∷ dealt ∷ [])
    ≡ (1
        ∷ 2
        ∷ 1
        ∷ 0
        ∷ 0
        ∷ 0
        ∷ 0
        ∷ 0
        ∷ 0
        ∷ 255
        ∷ 255
        ∷ 255
        ∷ 255
        ∷ 255
        ∷ 255
        ∷ 255
        ∷ 255
        ∷ (aa ++ zeros 33))
      ∷ []
unfolding run_publisher send_message bytes_of_message int64_bytes
bytes_of_gone = refl

-- 239.1.1.1, to which exchange/main.cpp publishes; `inet_pton` below reads no other text.
abbrev multicast_text : List ℕ
multicast_text = b'2' ∷ b'3' ∷ b'9' ∷ b'.' ∷ b'1' ∷ b'.' ∷ b'1' ∷ b'.' ∷ b'1' ∷ []

abbrev inet_pton : List ℕ → Option ℕ
inet_pton text = if same_ticker text multicast_text then some 4009820417 else none

construct_released_example : IsAsBefore file_table (1 ∷ 0 ∷ []) (
    leave_scope file_table inet_pton (
      construct file_table inet_pton true
        (start_held file_table (1 ∷ 0 ∷ []))
        true
        multicast_text
        30001))
construct_released_example =
    construct_released file_table inet_pton file_table-IsKernel true (1 ∷ 0 ∷ []) true
      multicast_text 30001
