-- ===== src/Net/Gateway/Framing.antt =====
-- How `ReadFrom` of common/net/gateway.cpp cuts the stream of a connection into messages.
use toy_exchange.Base.{
  ◌≡◌, refl, sym, ◌∙◌, ap, ℕ, ◌-◌, ◌≤◌, ◌<◌, List, [], ◌∷◌, ◌++◌, if◌then◌else◌, ltb, ◌==◌, length,
  length-append, append_assoc, append-nil, All, All-append, arith, Bool-cases, inl, inr, ==_iff,
}
use toy_exchange.Net.Gateway.{
  message_size, ReadResult, received, end_of_stream, would_block, failed, Reading, receive,
  read_loop,
}

abbrev pub join : List (List ℕ) → List ℕ
join [] = []
join (m ∷ ms) = m ++ join ms

join-append : (ms ns : List (List ℕ)) → join (ms ++ ns) ≡ join ms ++ join ns
join-append [] ns = refl
join-append (m ∷ ms) ns =
    ap (λ l. m ++ l) (join-append ms ns) ∙ sym (append_assoc m (join ms) (join ns))

-- The stream cut into messages: whole ones were dispatched in order, and the rest is in the buffer.
abbrev pub IsFramed : List ℕ → Reading → Type 0
IsFramed stream c =
    (join c.dispatched ++ c.filled ≡ stream)
    × All (λ m. length m ≡ message_size) c.dispatched
    × (length c.filled < message_size)

-- `read` returns no more bytes than it was asked for.
abbrev pub IsRead : Reading → List ℕ → Type 0
IsRead c bytes = length bytes ≤ message_size - length c.filled

receive-IsFramed :
    (stream : List ℕ) (c : Reading) (bytes : List ℕ)
    → IsFramed stream c
    → IsRead c bytes
    → IsFramed (stream ++ bytes) (receive c bytes)
unfolding receive
receive-IsFramed stream c bytes (e, whole, short) fits =
    let buffer = c.filled ++ bytes in
    let size = length-append c.filled bytes in
    let all : join c.dispatched ++ buffer ≡ stream ++ bytes =
      sym (append_assoc (join c.dispatched) c.filled bytes) ∙ ap (λ l. l ++ bytes) e in
    elim (Bool-cases (length buffer == message_size)) [
      | inl full ↦ rw full (
        append-nil (join (c.dispatched ++ buffer ∷ []))
            ∙ join-append c.dispatched (buffer ∷ [])
            ∙ ap (λ l. join c.dispatched ++ l) (append-nil buffer)
            ∙ all,
        All-append _ c.dispatched (buffer ∷ []) whole ((==_iff _ _).0 full, tt),
        omega arith,
      )
      | inr part ↦ rw part (all, whole, ground (arith, size))
    ]

-- The bytes that a call of `ReadFrom` takes from the stream, and that each of its reads returns no
-- more than was asked for.
abbrev pub taken : Reading → List ReadResult → List ℕ
taken c (received bytes ∷ rs) =
    let rest = taken (receive c bytes) rs in
    bytes ++ (if ltb (length bytes) (message_size - length c.filled) then [] else rest)
taken c _ = []

abbrev pub AreReads : Reading → List ReadResult → Type 0
AreReads c [] = Unit
AreReads c (received bytes ∷ rs) = IsRead c bytes × AreReads (receive c bytes) rs
AreReads c (r ∷ rs) = AreReads c rs

-- A call of `ReadFrom` on a framed connection frames the stream with all bytes that it takes: it
-- dispatches each message of 50 bytes once, in order, and keeps the rest, however the reads cut it,
-- if none returns more than was asked for.
pub read_loop-IsFramed :
    (stream : List ℕ) (c : Reading) (rs : List ReadResult)
    → IsFramed stream c
    → AreReads c rs
    → IsFramed (stream ++ taken c rs) (read_loop c rs)
unfolding read_loop
read_loop-IsFramed stream c [] f r = rw (append-nil stream) f
read_loop-IsFramed stream c (received bytes ∷ rs) f (fits, r) =
    let next = receive-IsFramed stream c bytes f fits in
    elim (Bool-cases (ltb (length bytes) (message_size - length c.filled))) [
      | inl short ↦ rw (short, append-nil bytes) next
      | inr full ↦
          rw (full, sym (append_assoc stream bytes (taken (receive c bytes) rs)))
            (read_loop-IsFramed (stream ++ bytes) (receive c bytes) rs next r)
    ]
read_loop-IsFramed stream c (end_of_stream ∷ rs) f r = rw (append-nil stream) f
read_loop-IsFramed stream c (would_block ∷ rs) f r = rw (append-nil stream) f
read_loop-IsFramed stream c (failed ∷ rs) f r = rw (append-nil stream) f
