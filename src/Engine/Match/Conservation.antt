-- ===== src/Engine/Match/Conservation.antt =====
-- What the fills of one order add up to, and whom they reach: facts of `fill_queue`, which `Match`
-- realises.
use toy_exchange.Base.{
  ◌≡◌, refl, List, [], ◌∷◌, ◌++◌, Bool, true, false, ◌&&◌, arith, Bool-cases, inl, inr, All, map,
  ◌⊎◌, ap,
}
use toy_exchange.Base.Int.{ℤ, pos, ltb_ℤ, leb_ℤ, ◌-ℤ◌, ◌+ℤ◌, ◌<ℤ◌, ◌≤ℤ◌, int_laws, -ℤ_parts}
use toy_exchange.Engine.Book.Invariant.{Entry}
use toy_exchange.Engine.Match.Fills.{Fill, reduced, fill_queue}

abbrev pub total_traded : List Fill → ℤ
total_traded [] = pos 0
total_traded (f ∷ fs) = f.traded +ℤ total_traded fs

abbrev pub total_volume : List Entry → ℤ
total_volume [] = pos 0
total_volume (e ∷ es) = e.1.volume +ℤ total_volume es

abbrev pub maker_entry : Fill → Entry
maker_entry f = (f.price, f.maker)

abbrev pub IsPositive : Entry → Type 0
IsPositive e = pos 0 <ℤ e.1.volume

-- A fill of at least one share, of no more than the maker had.
abbrev pub IsPartOfMaker : Fill → Type 0
IsPartOfMaker f = (pos 0 <ℤ f.traded) × (f.traded ≤ℤ f.maker.volume)

-- Every fill but the last takes all of its maker; the last may leave a rest, which keeps its place.
abbrev pub Leaves : List Fill → List Entry → List Entry → Type 0
Leaves [] untouched after = after ≡ untouched
Leaves (f ∷ []) untouched after =
    ((f.traded ≡ f.maker.volume) × (after ≡ untouched))
    ⊎ ((f.traded <ℤ f.maker.volume) × (after ≡ (f.price, reduced f.maker f.traded) ∷ untouched))
Leaves (f ∷ g ∷ fs) untouched after = (f.traded ≡ f.maker.volume) × Leaves (g ∷ fs) untouched after

Leaves-cons :
    (f : Fill) (fs : List Fill) (untouched after : List Entry)
    → f.traded ≡ f.maker.volume
    → Leaves fs untouched after
    → Leaves (f ∷ fs) untouched after
Leaves-cons f [] untouched after e h = inl (e, h)
Leaves-cons f (g ∷ fs) untouched after e h = (e, h)

module _ (crosses : ℤ → Bool) where
  -- The wanted volume is what was traded and what is left.
  pub left-total_traded :
      (remaining : ℤ) (es : List Entry)
      → let r = fill_queue crosses remaining es in r.left +ℤ total_traded r.fills ≡ remaining
  unfolding fill_queue
  left-total_traded remaining [] = omega int_laws
  left-total_traded remaining ((price, o) ∷ es) =
      let ih = left-total_traded (remaining -ℤ o.volume) es in grind int_laws

  -- The resting volume falls by what was traded.
  pub total_volume-total_traded :
      (remaining : ℤ) (es : List Entry)
      → let r = fill_queue crosses remaining es in
        total_volume r.queue +ℤ total_traded r.fills ≡ total_volume es
  unfolding fill_queue
  total_volume-total_traded remaining [] = omega int_laws
  total_volume-total_traded remaining ((price, o) ∷ es) =
      let ih = total_volume-total_traded (remaining -ℤ o.volume) es in grind int_laws

  pub left_nonneg :
      (remaining : ℤ) (es : List Entry)
      → pos 0 ≤ℤ remaining
      → pos 0 ≤ℤ (fill_queue crosses remaining es).left
  unfolding fill_queue
  left_nonneg remaining [] h = h
  left_nonneg remaining ((price, o) ∷ es) h =
      ground (arith, left_nonneg (remaining -ℤ o.volume) es, -ℤ_parts remaining o.volume)

  pub fills-crosses :
      (remaining : ℤ) (es : List Entry)
      → All (λ f. crosses f.price ≡ true) (fill_queue crosses remaining es).fills
  unfolding fill_queue
  fills-crosses remaining [] = tt
  fills-crosses remaining ((price, o) ∷ es) =
      ground (arith, fills-crosses (remaining -ℤ o.volume) es)

  pub fills-IsPartOfMaker :
      (remaining : ℤ) (es : List Entry)
      → All IsPositive es
      → All IsPartOfMaker (fill_queue crosses remaining es).fills
  unfolding fill_queue
  fills-IsPartOfMaker remaining [] h = tt
  fills-IsPartOfMaker remaining ((price, o) ∷ es) h =
      ground (arith, fills-IsPartOfMaker (remaining -ℤ o.volume) es h.1)

  -- With volume left, the queue is used up or its first price does not cross.
  abbrev pub IsStuck : List Entry → Type 0
  IsStuck [] = Unit
  IsStuck (e ∷ es) = crosses e.0 ≡ false

  pub left-IsStuck :
      (remaining : ℤ) (es : List Entry)
      → let r = fill_queue crosses remaining es in pos 0 <ℤ r.left → IsStuck r.queue
  unfolding fill_queue
  left-IsStuck remaining [] h = tt
  left-IsStuck remaining ((price, o) ∷ es) h =
      ground (arith, left-IsStuck (remaining -ℤ o.volume) es)

  -- The makers are the first orders of the queue, in its order; the orders behind them stay.
  pub fills-Leaves :
      (remaining : ℤ) (es : List Entry)
      → let r = fill_queue crosses remaining es in
        (untouched : List Entry) × (es ≡ map maker_entry r.fills ++ untouched)
        × Leaves r.fills untouched r.queue
  unfolding fill_queue
  fills-Leaves remaining [] = ([], refl, refl)
  fills-Leaves remaining ((price, o) ∷ es) =
      elim (Bool-cases (ltb_ℤ (pos 0) remaining && crosses price)) [
        | inr done ↦ rw done ((price, o) ∷ es, refl, refl)
        | inl more ↦ rw more (elim (Bool-cases (leb_ℤ o.volume remaining)) [
          | inl whole ↦
              let (untouched, e, l) = fills-Leaves (remaining -ℤ o.volume) es in
              rw whole (untouched, ap (◌∷◌ (price, o)) e, Leaves-cons _ _ untouched _ refl l)
          | inr part ↦ rw part (es, refl, inr (ground arith, refl))
        ])
      ]
