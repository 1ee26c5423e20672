-- ===== src/Engine/UserRegistry/Snapshot/Totals.antt =====
-- The positions in the rows of a snapshot.
use toy_exchange.Base.{
  ◌≡◌, refl, ap, ◌∙◌, List, [], ◌∷◌, ◌++◌, none, if◌then◌else◌, map, Bool-cases, inl, inr,
}
use toy_exchange.Base.Int.{ℤ, pos, ◌+ℤ◌, int_laws}
use toy_exchange.Core.Types.{Ticker, same_ticker}
use toy_exchange.Core.Tickers.{same_ticker_iff}
use toy_exchange.Extern.UnorderedMap.{lookup, IsDistinct}
use toy_exchange.Engine.User.{Holding, volume_at}
use toy_exchange.Engine.UserRegistry.Snapshot.{Row, row_of}

-- The positions in the rows of a ticker.
abbrev pub total_rows : {W : Type 0} → Ticker → List (Row W) → ℤ
total_rows t [] = pos 0
total_rows t (r ∷ rs) =
    if same_ticker t r.ticker then r.position +ℤ total_rows t rs else total_rows t rs

module _ {W : Type 0} (t : Ticker) where
  pub total_rows-append :
      (xs ys : List (Row W)) → total_rows t (xs ++ ys) ≡ total_rows t xs +ℤ total_rows t ys
  total_rows-append [] ys = omega int_laws
  total_rows-append (x ∷ xs) ys = elim (Bool-cases (same_ticker t x.ticker)) [
    | inl same ↦ rw (same, total_rows-append xs ys) (omega int_laws)
    | inr other ↦ rw (other, total_rows-append xs ys) refl
  ]

  total_rows-missing :
      (id : ℤ) (es : List (Ticker × Holding W))
      → lookup same_ticker t es ≡ none
      → total_rows t (map (row_of id) es) ≡ pos 0
  total_rows-missing id [] e = refl
  total_rows-missing id ((k, h) ∷ es) e = elim (Bool-cases (same_ticker t k)) [
    | inl same ↦ absurd (cc (rw same at e))
    | inr other ↦ rw other (total_rows-missing id es (rw other at e))
  ]

  pub total_rows-distinct :
      (id : ℤ) (es : List (Ticker × Holding W))
      → IsDistinct same_ticker es
      → total_rows t (map (row_of id) es) ≡ volume_at (lookup same_ticker t es)
  total_rows-distinct id [] d = refl
  total_rows-distinct id ((k, h) ∷ es) (new, d) = elim (Bool-cases (same_ticker t k)) [
    | inl same ↦
        let gone = ap (λ j. lookup same_ticker j es) ((same_ticker_iff t k).0 same) ∙ new in
        rw (same, total_rows-missing id es gone) (omega int_laws)
    | inr other ↦ rw other (total_rows-distinct id es d)
  ]
