-- ===== src/Engine/MatchingEngine/Apart.antt =====
-- The prices of the two sides of a valid engine.
use toy_exchange.Base.{◌≡◌, List, [], ◌∷◌, false, All, All-weaken, arith}
use toy_exchange.Base.Int.{ℤ, ◌<ℤ◌}
use toy_exchange.Core.Types.{buy}
use toy_exchange.Engine.Book.{Book}
use toy_exchange.Engine.Book.Invariant.{Entry, queue, All-queue}
use toy_exchange.Engine.Match.{price_crosses}
use toy_exchange.Engine.MatchingEngine.Invariant.{Uncrossed}

All-always {κ} : {A : Type 0} {P : Type κ} (xs : List A) → P → All (λ _. P) xs
All-always [] p = tt
All-always (x ∷ xs) p = (p, All-always xs p)

-- Every price of the one list is below every price of the other.
abbrev pub AreBelow : List Entry → List Entry → Type 0
AreBelow bids asks = All (λ (b : Entry). All (λ (a : Entry). b.0 <ℤ a.0) asks) bids

pub not_crossing→lt : (bid ask : ℤ) → price_crosses buy bid ask ≡ false → bid <ℤ ask
not_crossing→lt bid ask h = ground arith

queue-above :
    (bid : ℤ) (asks : Book)
    → All (λ a. price_crosses buy bid a.0 ≡ false) asks
    → All (λ (a : Entry). bid <ℤ a.0) (queue asks)
queue-above bid asks apart =
    All-queue (λ (a : Entry). bid <ℤ a.0) asks
      (All-weaken asks (λ a h. All-always a.1 (not_crossing→lt bid a.0 h)) apart)

pub queue-AreBelow :
    (bids asks : Book) → Uncrossed buy bids asks → AreBelow (queue bids) (queue asks)
queue-AreBelow bids asks apart =
    All-queue (λ (b : Entry). All (λ (a : Entry). b.0 <ℤ a.0) (queue asks)) bids
      (All-weaken bids (λ b h. All-always b.1 (queue-above b.0 asks h)) apart)
