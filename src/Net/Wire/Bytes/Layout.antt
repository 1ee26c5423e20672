-- ===== src/Net/Wire/Bytes/Layout.antt =====
-- What the bytes of a message are read back as.
use toy_exchange.Base.{
  ◌≡◌, refl, ◌∙◌, ap, subst, ℕ, ◌^◌, ◌<◌, List, ◌∷◌, ◌++◌, arith, length, take, drop, take-append,
  drop-append, append_assoc,
}
use toy_exchange.Base.Int.{ℤ, pos, negsuc, Fits}
use toy_exchange.Net.Wire.{WireOrderAdd, WireOrderCancel, wire_ticker_size, order_cancel}
use toy_exchange.Net.Wire.Bytes.{
  le_bytes, of_le_bytes, word_of, signed64, int64_bytes, read_int64, order_add_bytes,
  order_cancel_bytes, read_order_add, message_of_bytes,
}

of_le-le_bytes : (n : ℕ) → n < 2 ^ 64 → of_le_bytes (le_bytes 8 n) ≡ n
of_le-le_bytes n h = omega arith

signed64-word_of : (a : ℤ) → Fits a → signed64 (word_of a) ≡ a
signed64-word_of (pos n) h = ground arith
signed64-word_of (negsuc n) h = ground arith

word_of-lt : (a : ℤ) → Fits a → word_of a < 2 ^ 64
word_of-lt (pos n) h = omega arith
word_of-lt (negsuc n) h = omega arith

pub read-int64_bytes : (a : ℤ) (rest : List ℕ) → Fits a → read_int64 (int64_bytes a ++ rest) ≡ a
unfolding int64_bytes
read-int64_bytes a rest h =
    ap signed64 (of_le-le_bytes (word_of a) (word_of-lt a h)) ∙ signed64-word_of a h

pub drop-int64_bytes : (a : ℤ) (rest : List ℕ) → drop 8 (int64_bytes a ++ rest) ≡ rest
unfolding int64_bytes
drop-int64_bytes a rest = refl

-- What an array of the wire format and a number of eight bytes can hold.
abbrev pub FitsAdd : WireOrderAdd → Type 0
FitsAdd w =
    Fits w.order_id
    × Fits w.user_id
    × (length w.ticker ≡ wire_ticker_size)
    × Fits w.price
    × Fits w.volume

abbrev pub FitsCancel : WireOrderCancel → Type 0
FitsCancel w = Fits w.order_id × Fits w.user_id × (length w.ticker ≡ wire_ticker_size)

pub take-ticker :
    (t rest : List ℕ) → length t ≡ wire_ticker_size → take wire_ticker_size (t ++ rest) ≡ t
take-ticker t rest e = subst (λ n. take n (t ++ rest) ≡ t) e (take-append t rest)

pub drop-ticker :
    (t rest : List ℕ) → length t ≡ wire_ticker_size → drop wire_ticker_size (t ++ rest) ≡ rest
drop-ticker t rest e = subst (λ n. drop n (t ++ rest) ≡ rest) e (drop-append t rest)

pub read-order_add_bytes :
    (w : WireOrderAdd) (rest : List ℕ) → FitsAdd w → read_order_add (order_add_bytes w ++ rest) ≡ w
read-order_add_bytes w rest (id, user, size, price, volume) =
    let from_volume = int64_bytes w.volume ++ rest in
    let from_price = int64_bytes w.price ++ from_volume in
    let from_side = w.side ∷ from_price in
    let from_ticker = w.ticker ++ from_side in
    let from_user = int64_bytes w.user_id ++ from_ticker in
    let all : order_add_bytes w ++ rest ≡ int64_bytes w.order_id ++ from_user = simp append_assoc in
    rw
      (
        all,
        drop-int64_bytes w.order_id from_user,
        drop-int64_bytes w.user_id from_ticker,
        drop-ticker w.ticker from_side size,
        drop-int64_bytes w.price from_volume,
      )
      (rw
        (
          read-int64_bytes w.order_id from_user id,
          read-int64_bytes w.user_id from_ticker user,
          take-ticker w.ticker from_side size,
          read-int64_bytes w.price from_volume price,
          read-int64_bytes w.volume rest volume,
        )
        refl)

pub read-order_cancel_bytes :
    (w : WireOrderCancel) (b : ℕ) (rest : List ℕ)
    → FitsCancel w
    → order_cancel (message_of_bytes (b ∷ (order_cancel_bytes w ++ rest))) ≡ w
unfolding message_of_bytes
read-order_cancel_bytes w b rest (id, user, size) =
    let from_ticker = w.ticker ++ rest in
    let from_user = int64_bytes w.user_id ++ from_ticker in
    let all : order_cancel_bytes w ++ rest ≡ int64_bytes w.order_id ++ from_user =
      simp append_assoc in
    rw (all, drop-int64_bytes w.order_id from_user, drop-int64_bytes w.user_id from_ticker)
      (rw
        (
          read-int64_bytes w.order_id from_user id,
          read-int64_bytes w.user_id from_ticker user,
          take-ticker w.ticker rest size,
        )
        refl)
