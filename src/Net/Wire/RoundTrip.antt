-- ===== src/Net/Wire/RoundTrip.antt =====
-- Encoding and decoding of common/net/wire.hpp, one after the other, and decoding of any message.
use toy_exchange.Base.{
  ◌≡◌, refl, ap, ◌∙◌, ℕ, zero, suc, ◌≤◌, ◌<◌, List, [], ◌∷◌, ◌++◌, Option, none, some, arith,
  length, All, take,
}
use toy_exchange.Core.Types.{
  Ticker, max_ticker_length, Side, buy, sell, OrderAdd, OrderCancel, InboundCommand, add, cancel,
}
use toy_exchange.Net.Wire.{
  wire_ticker_size, InboundWireMessage, WireOrderAdd, WireMarketDataMessage, order_add_event,
  order_cancel_event, trade_event, zeros, copy_into, encode_ticker, strnlen, encode_side,
  decode_side, decode_ticker, decode_order_add, decode_order_cancel, decode_inbound_message,
  encode_order_add_event, encode_order_cancel_event,
}

-- What the documentation of `boost::static_string` says of the constructor.
abbrev pub IsStaticString : (List ℕ → Option Ticker) → Type 0
IsStaticString make =
    ((cs : List ℕ) → length cs ≤ max_ticker_length → make cs ≡ some cs)
    × ((cs : List ℕ) → max_ticker_length < length cs → make cs ≡ none)

-- A ticker of the program: at most 15 characters, none of them NUL.
abbrev pub IsTicker : Ticker → Type 0
IsTicker t = (length t ≤ max_ticker_length) × All (λ c. 0 < c) t

take-strnlen_copy :
    (t : Ticker) (n : ℕ)
    → length t < n
    → All (λ c. 0 < c) t
    → take (strnlen (copy_into (zeros n) t) n) (copy_into (zeros n) t) ≡ t
take-strnlen_copy [] zero h p = refl
take-strnlen_copy [] (suc n) h p = refl
take-strnlen_copy (c ∷ cs) zero h p = elim h [ ]
take-strnlen_copy (zero ∷ cs) (suc n) h p = elim p.0 [ ]
take-strnlen_copy (suc c ∷ cs) (suc n) h p =
    ap (λ r. suc c ∷ r) (take-strnlen_copy cs n (omega arith) p.1)

-- Characters, a NUL and whatever follows.
take-strnlen_nul :
    (t rest : List ℕ) (n : ℕ)
    → length t < n
    → All (λ c. 0 < c) t
    → take (strnlen (t ++ 0 ∷ rest) n) (t ++ 0 ∷ rest) ≡ t
take-strnlen_nul [] rest zero h p = refl
take-strnlen_nul [] rest (suc n) h p = refl
take-strnlen_nul (c ∷ cs) rest zero h p = elim h [ ]
take-strnlen_nul (zero ∷ cs) rest (suc n) h p = elim p.0 [ ]
take-strnlen_nul (suc c ∷ cs) rest (suc n) h p =
    ap (λ r. suc c ∷ r) (take-strnlen_nul cs rest n (omega arith) p.1)

take-strnlen_full :
    (cs : List ℕ) (n : ℕ) → length cs ≡ n → All (λ c. 0 < c) cs → take (strnlen cs n) cs ≡ cs
take-strnlen_full [] zero h p = refl
take-strnlen_full [] (suc n) h p = refl
take-strnlen_full (c ∷ cs) zero h p = absurd (omega arith)
take-strnlen_full (zero ∷ cs) (suc n) h p = elim p.0 [ ]
take-strnlen_full (suc c ∷ cs) (suc n) h p =
    ap (λ r. suc c ∷ r) (take-strnlen_full cs n (omega arith) p.1)

pub decode-encode_side : (s : Side) → decode_side (encode_side s) ≡ s
decode-encode_side buy = refl
decode-encode_side sell = refl

module _ (make_ticker : List ℕ → Option Ticker) where
  -- How a subscriber reads an event of an order: as the inbound message with the same fields.
  abbrev pub read_event : WireMarketDataMessage → Option InboundCommand
  read_event (order_add_event w) = elim (decode_order_add make_ticker w) [
    | none ↦ none
    | some o ↦ some (add o)
  ]
  read_event (order_cancel_event w) = elim (decode_order_cancel make_ticker w) [
    | none ↦ none
    | some c ↦ some (cancel c)
  ]
  read_event (trade_event w) = none

abbrev side_of : ℕ → Side
side_of zero = buy
side_of (suc n) = sell

decode_side-side_of : (b : ℕ) → decode_side b ≡ side_of b
decode_side-side_of zero = refl
decode_side-side_of (suc n) = ground arith

-- What a message stands for, by its type and the byte of its side.
abbrev pub command_of : ℕ → ℕ → WireOrderAdd → Ticker → InboundCommand
command_of zero side w t = add record {
  order_id = w.order_id;
  user_id = w.user_id;
  ticker = t;
  side = side_of side;
  price = w.price;
  volume = w.volume;
}
command_of (suc n) side w t =
    cancel record { order_id = w.order_id; user_id = w.user_id; ticker = t }

module _ (make_ticker : List ℕ → Option Ticker) (laws : IsStaticString make_ticker) where
  pub decode-encode_ticker :
      (t : Ticker) → IsTicker t → decode_ticker make_ticker (encode_ticker t) ≡ some t
  unfolding decode_ticker encode_ticker
  decode-encode_ticker t (short, p) =
      ap make_ticker (take-strnlen_copy t wire_ticker_size (omega arith) p) ∙ laws.0 t short

  -- The event of an order or of a cancel whose ticker has at most 15 characters and no NUL, read as
  -- the inbound message of the same fields, is that order or cancel.
  pub read-encode_event :
      (order : OrderAdd) (c : OrderCancel)
      → IsTicker order.ticker
      → IsTicker c.ticker
      → (read_event make_ticker (encode_order_add_event order) ≡ some (add order))
        × (read_event make_ticker (encode_order_cancel_event c) ≡ some (cancel c))
  unfolding decode_order_add decode_order_cancel encode_order_add_event encode_order_cancel_event
  read-encode_event order c p q = (
    rw (read_event, decode-encode_ticker order.ticker p, decode-encode_side order.side) refl,
    rw (read_event, decode-encode_ticker c.ticker q) refl,
  )

  decode-command_of :
      (type_byte : ℕ) (w : WireOrderAdd) (t : Ticker)
      → decode_ticker make_ticker w.ticker ≡ some t
      → decode_inbound_message make_ticker record { type_byte = type_byte; order_add = w }
        ≡ some (command_of type_byte w.side w t)
  unfolding decode_inbound_message decode_order_add decode_order_cancel
  decode-command_of zero w t decoded = rw (decoded, decode_side-side_of w.side) refl
  decode-command_of (suc n) w t decoded = ground arith

  -- Every inbound message whose ticker has at most 15 characters before a NUL is decoded, whatever
  -- its other bytes: type 0 is an order and any other type a cancel, side 0 is a buy and any other
  -- side a sell.
  pub decode_inbound_message-total :
      (m : InboundWireMessage) (t rest : List ℕ)
      → IsTicker t
      → m.order_add.ticker ≡ t ++ 0 ∷ rest
      → decode_inbound_message make_ticker m
        ≡ some (command_of m.type_byte m.order_add.side m.order_add t)
  unfolding decode_ticker
  decode_inbound_message-total m t rest (short, p) e =
      let decoded : decode_ticker make_ticker m.order_add.ticker ≡ some t = rw e (
        ap make_ticker (take-strnlen_nul t rest wire_ticker_size (omega arith) p)
        ∙ laws.0 t short) in
      decode-command_of m.type_byte m.order_add t decoded

  -- A message whose ticker has no NUL among its 16 bytes makes decoding throw, whatever its type.
  pub decode_inbound_message-throws :
      (m : InboundWireMessage)
      → length m.order_add.ticker ≡ wire_ticker_size
      → All (λ c. 0 < c) m.order_add.ticker
      → decode_inbound_message make_ticker m ≡ none
  unfolding decode_inbound_message decode_ticker
  decode_inbound_message-throws m full p =
      let thrown : decode_ticker make_ticker m.order_add.ticker ≡ none =
        ap make_ticker (take-strnlen_full m.order_add.ticker wire_ticker_size full p)
        ∙ laws.1 m.order_add.ticker (omega (arith, full)) in
      ground (arith, thrown)
