-- ===== src/Exchange/Balance.antt =====
-- The shares of all users together, from the start of the program to its end.
use toy_exchange.Base.{
  ◌≡◌, refl, ◌∙◌, ap, ℕ, zero, suc, ◌+◌, ◌<◌, List, [], ◌∷◌, Option, some, All, length,
}
use toy_exchange.Base.Int.{ℤ, pos, ◌<ℤ◌, ◌≤ℤ◌, int_laws}
use toy_exchange.Core.Types.{Ticker, Trade, OrderAdd, InboundCommand, add, cancel}
use toy_exchange.Extern.UnorderedMap.{IsMap}
use toy_exchange.Extern.Double.{Double}
use toy_exchange.Engine.Book.Invariant.{Entry}
use toy_exchange.Engine.Match.{OrderMap}
use toy_exchange.Engine.MatchingEngine.Refinement.{resting_of}
use toy_exchange.Engine.Router.{new_router}
use toy_exchange.Engine.User.{Inventory, position}
use toy_exchange.Engine.UserRegistry.{
  UserRegistry, size_t_of, make_users, new_registry, market_participant_count,
}
use toy_exchange.Workers.MatchingEngine.{run_matching_engine}
use toy_exchange.Workers.MatchingEngine.Resting.{new_router-IsSound, trades-All}
use toy_exchange.Workers.Inventory.Settlement.{
  HasUsers, total_position, run_inventory-total_position,
}
use toy_exchange.Exchange.{no_output, with_mids, run_exchange}

-- The user of a resting order, and of a command that adds one, is one of the first `n`.
abbrev pub IsOwned : ℕ → Entry → Type 0
IsOwned n e = size_t_of e.1.user_id < n

abbrev pub HasUser : ℕ → InboundCommand → Type 0
HasUser n (add order) = size_t_of order.user_id < n
HasUser n (cancel c) = Unit

IsOwned-rests :
    (n : ℕ) (order : OrderAdd) (left : ℤ)
    → HasUser n (add order)
    → pos 0 <ℤ left
    → left ≤ℤ order.volume
    → IsOwned n (order.price, resting_of order left)
IsOwned-rests n order left u more most = u

-- Every trade of a run from the start is between such users.
pub run-HasUsers :
    (m : OrderMap) (laws : IsMap m) (n : ℕ) (cs : List InboundCommand)
    → All (HasUser n) cs
    → All (HasUsers n) (run_matching_engine m (new_router m) no_output cs).1.trades
run-HasUsers m laws n cs u =
    trades-All m laws (IsOwned n) (HasUser n) (λ _ _ _ _ _ p. p) (IsOwned-rests n) (HasUsers n)
      (λ order f taker maker part. (maker, taker)) (new_router m) no_output cs u
      (new_router-IsSound m laws (IsOwned n) (HasUser n) (λ _ _ _ _ _ p. p) (IsOwned-rests n)) tt

pub with_mids-All :
    (P : Trade → Type 0) (ts : List Trade) (mids : List (Option ℤ))
    → All P ts
    → All (λ t. P t.0) (with_mids ts mids)
with_mids-All P [] mids h = tt
with_mids-All P (t ∷ ts) [] h = (h.0, with_mids-All P ts [] h.1)
with_mids-All P (t ∷ ts) (mid ∷ mids) h = (h.0, with_mids-All P ts mids h.1)

module _ {W : Type 0} (d : Double W) (inv : Inventory W) (laws : IsMap inv) where
  length-make_users : (count i : ℕ) → length (make_users inv count i) ≡ count
  unfolding make_users
  length-make_users zero i = refl
  length-make_users (suc count) i = ap suc (length-make_users count (i + 1))

  total_position-make_users :
      (count i : ℕ) (t : Ticker) → total_position d inv (make_users inv count i) t ≡ pos 0
  unfolding make_users position
  total_position-make_users zero i t = refl
  total_position-make_users (suc count) i t =
      rw (laws.find-empty t, total_position-make_users count (i + 1) t) (omega int_laws)

  pub new_registry-balanced :
      (t : Ticker)
      → (length (new_registry inv) ≡ market_participant_count)
        × (total_position d inv (new_registry inv) t ≡ pos 0)
  unfolding new_registry
  new_registry-balanced t = (
    length-make_users market_participant_count 0,
    total_position-make_users market_participant_count 0 t,
  )

module _ {W : Type 0} (m : OrderMap) (m_laws : IsMap m) (d : Double W) (inv : Inventory W)
    (laws : IsMap inv) where
  -- From the start of the program: whatever commands come, if the orders name users of the
  -- registry, and whatever mid prices are read, every trade is settled, no user is lost, and of
  -- every ticker the users together hold nothing, what one has bought another having sold.
  pub run_exchange-balanced :
      (commands : List InboundCommand) (mids : List (Option ℤ)) (t : Ticker)
      → All (HasUser market_participant_count) commands
      → (users : UserRegistry inv) × (run_exchange m d inv
            (new_router m)
            (new_registry inv)
            commands
            mids
          ≡ some users)
        × (length users ≡ market_participant_count)
        × (total_position d inv users t ≡ pos 0)
  unfolding run_exchange
  run_exchange-balanced commands mids t h =
      let trades = (run_matching_engine m (new_router m) no_output commands).1.trades in
      let (size, empty) = new_registry-balanced d inv laws t in
      let known = run-HasUsers m m_laws market_participant_count commands h in
      let (users, settled, kept, total) =
        run_inventory-total_position d inv laws (new_registry inv) (with_mids trades mids) t
          (rw size (with_mids-All (HasUsers market_participant_count) trades mids known)) in
      (users, settled, kept ∙ size, total ∙ empty)
