-- ===== src/Core/Types.antt =====
-- common/core/types.hpp, common/core/messages.hpp and common/net/inbound_command.hpp. `StrongType`
-- keeps its value and is dropped: prices, volumes and ids are integers. A ticker is the sequence of
-- its characters' codes.
use toy_exchange.Base.{ℕ, List, [], ◌∷◌, Bool, true, false, ◌&&◌, ◌==◌}
use toy_exchange.Base.Int.{ℤ}

abbrev pub price_multiplier : ℕ
price_multiplier = 1_000_000

abbrev pub max_ticker_length : ℕ
max_ticker_length = 15

abbrev pub Ticker : Type 0
Ticker = List ℕ

-- `operator==` of two tickers.
unfoldable pub same_ticker : Ticker → Ticker → Bool
same_ticker [] [] = true
same_ticker [] (d ∷ ds) = false
same_ticker (c ∷ cs) [] = false
same_ticker (c ∷ cs) (d ∷ ds) = (c == d) && same_ticker cs ds

-- AAPL, GOOG, MSFT, AMZN
abbrev pub instruments : List Ticker
instruments =
    (b'A' ∷ b'A' ∷ b'P' ∷ b'L' ∷ [])
    ∷ (b'G' ∷ b'O' ∷ b'O' ∷ b'G' ∷ [])
    ∷ (b'M' ∷ b'S' ∷ b'F' ∷ b'T' ∷ [])
    ∷ (b'A' ∷ b'M' ∷ b'Z' ∷ b'N' ∷ [])
    ∷ []

pub data Side : Type 0 where
  buy sell : Side

-- Of the queue that no thread of the program uses.
pub record Order : Type 0 where
  pub user_id : ℤ
  pub order_id : ℤ
  pub price : ℤ
  pub volume : ℤ

pub record Trade : Type 0 where
  pub maker_id : ℤ
  pub taker_id : ℤ
  pub maker_order_id : ℤ
  pub taker_order_id : ℤ
  pub ticker : Ticker
  pub taker_side : Side
  pub execution_price : ℤ
  pub volume : ℤ

pub record OrderAdd : Type 0 where
  pub order_id : ℤ
  pub user_id : ℤ
  pub ticker : Ticker
  pub side : Side
  pub price : ℤ
  pub volume : ℤ

pub record OrderCancel : Type 0 where
  pub order_id : ℤ
  pub user_id : ℤ
  pub ticker : Ticker

pub data InboundCommand : Type 0 where
  add : OrderAdd → InboundCommand
  cancel : OrderCancel → InboundCommand
