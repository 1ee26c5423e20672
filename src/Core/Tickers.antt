-- ===== src/Core/Tickers.antt =====
-- `operator==` of tickers, and when two tickers are one.
use toy_exchange.Base.{
  ◌≡◌, ◌≢◌, refl, [], ◌∷◌, true, false, ◌⊎◌, ◌↔◌, inl, inr, arith, ap₂, ==_iff, Bool-cases,
}
use toy_exchange.Core.Types.{Ticker, same_ticker}

pub same_ticker→eq : (s t : Ticker) → same_ticker s t ≡ true → s ≡ t
unfolding same_ticker
same_ticker→eq [] [] h = refl
same_ticker→eq [] (d ∷ ds) h = cc
same_ticker→eq (c ∷ cs) [] h = cc
same_ticker→eq (c ∷ cs) (d ∷ ds) h =
    ap₂ ◌∷◌ ((==_iff c d).0 (ground arith)) (same_ticker→eq cs ds (ground arith))

pub same_ticker_refl : (t : Ticker) → same_ticker t t ≡ true
unfolding same_ticker
same_ticker_refl [] = refl
same_ticker_refl (c ∷ cs) = ground (arith, same_ticker_refl cs)

pub same_ticker_iff : (s t : Ticker) → (same_ticker s t ≡ true) ↔ (s ≡ t)
same_ticker_iff s t = (same_ticker→eq s t, λ e. rw e (same_ticker_refl t))

pub Ticker-cases : (s t : Ticker) → (s ≡ t) ⊎ (s ≢ t)
Ticker-cases s t = elim (Bool-cases (same_ticker s t)) [
  | inl e ↦ inl (same_ticker→eq s t e)
  | inr e ↦ inr (λ q. cc (e, (same_ticker_iff s t).1 q))
]

pub tickers_differ : (s t : Ticker) → same_ticker s t ≡ false → s ≢ t
tickers_differ s t h e = cc (h, (same_ticker_iff s t).1 e)

pub same_ticker_ne : (s t : Ticker) → s ≢ t → same_ticker s t ≡ false
same_ticker_ne s t n = elim (Bool-cases (same_ticker s t)) [
  | inl e ↦ absurd (n (same_ticker→eq s t e))
  | inr e ↦ e
]
