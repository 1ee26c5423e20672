-- ===== src/Engine/Book/Invariant.antt =====
-- What holds of the book of a side between two calls, and the order of prices on each side.
use toy_exchange.Base.{
  ◌≡◌, refl, List, [], ◌∷◌, ◌++◌, true, false, is_empty, arith, All, All-weaken, All-append,
}
use toy_exchange.Base.Int.{ℤ, pos, ◌<ℤ◌, ◌==ℤ◌}
use toy_exchange.Core.Types.{Side, buy, sell}
use toy_exchange.Engine.Book.{RestingOrder, PriceLevel, Book, before}

abbrev pub Entry : Type 0
Entry = ℤ × RestingOrder

-- Every price comes before all later ones.
abbrev pub IsSorted : Side → Book → Type 0
IsSorted side [] = Unit
IsSorted side ((price, level) ∷ rest) =
    All (λ l. before side price l.0 ≡ true) rest × IsSorted side rest

abbrev pub HasOrders : ℤ × PriceLevel → Type 0
HasOrders l = is_empty l.1 ≡ false

abbrev pub HasVolume : RestingOrder → Type 0
HasVolume o = pos 0 <ℤ o.volume

pub record IsBook (side : Side) (book : Book) : Type 0 where
  pub sorted : IsSorted side book
  pub orders : All HasOrders book
  pub volumes : All (λ l. All HasVolume l.1) book

abbrev pub entries : ℤ → PriceLevel → List Entry
entries price [] = []
entries price (o ∷ os) = (price, o) ∷ entries price os

-- The resting orders of one side, best price first, oldest first at one price.
abbrev pub queue : Book → List Entry
queue [] = []
queue ((price, level) ∷ rest) = entries price level ++ queue rest

pub before_trans :
    (side : Side) (p q r : ℤ)
    → before side p q ≡ true
    → before side q r ≡ true
    → before side p r ≡ true
before_trans buy p q r h k = ground arith
before_trans sell p q r h k = ground arith

pub before-asym : (side : Side) (p q : ℤ) → before side p q ≡ true → before side q p ≡ false
before-asym buy p q h = ground arith
before-asym sell p q h = ground arith

pub before-connex :
    (side : Side) (p q : ℤ) → before side p q ≡ false → before side q p ≡ false → p ≡ q
before-connex buy p q h k = ground arith
before-connex sell p q h k = ground arith

pub before-ne_left : (side : Side) (p q : ℤ) → before side p q ≡ true → (p ==ℤ q) ≡ false
before-ne_left buy p q h = ground arith
before-ne_left sell p q h = ground arith

pub before-ne_right : (side : Side) (p q : ℤ) → before side p q ≡ true → (q ==ℤ p) ≡ false
before-ne_right buy p q h = ground arith
before-ne_right sell p q h = ground arith

pub is_empty→nil : (level : PriceLevel) → is_empty level ≡ true → level ≡ []
is_empty→nil [] e = refl
is_empty→nil (o ∷ os) e = cc

-- A price before the first one is before all.
pub before-All :
    (side : Side) (p q : ℤ) (rest : Book)
    → before side p q ≡ true
    → All (λ l. before side q l.0 ≡ true) rest
    → All (λ l. before side p l.0 ≡ true) rest
before-All side p q rest h = All-weaken rest (λ l. before_trans side p q l.0 h)

pub All-entries {κ} :
    (P : Entry → Type κ) (price : ℤ) (level : PriceLevel)
    → All (λ o. P (price, o)) level
    → All P (entries price level)
All-entries P price [] h = tt
All-entries P price (o ∷ os) h = (h.0, All-entries P price os h.1)

-- What holds of every order at its price holds of every entry of the queue.
pub All-queue {κ} :
    (P : Entry → Type κ) (book : Book)
    → All (λ l. All (λ o. P (l.0, o)) l.1) book
    → All P (queue book)
All-queue P [] h = tt
All-queue P ((price, level) ∷ rest) h =
    All-append P (entries price level) (queue rest) (All-entries P price level h.0)
      (All-queue P rest h.1)
