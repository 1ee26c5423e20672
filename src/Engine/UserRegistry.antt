-- ===== src/Engine/UserRegistry.antt =====
-- `class UserRegistry` of common/engine/user_registry.hpp.
pub mod Snapshot
use toy_exchange.Base.{ℕ, zero, suc, ◌+◌, ◌-◌, ◌^◌, List, [], ◌∷◌, Option, get_elem?}
use toy_exchange.Base.Int.{ℤ, pos, negsuc}
use toy_exchange.Engine.User.{Inventory, User}

abbrev pub market_participant_count : ℕ
market_participant_count = 100

-- `static_cast<std::size_t>` of an `int64_t`.
abbrev pub size_t_of : ℤ → ℕ
size_t_of (pos n) = n
size_t_of (negsuc n) = 2 ^ 64 - 1 - n

module _ {W : Type 0} (inv : Inventory W) where
  abbrev pub UserRegistry : Type 0
  UserRegistry = List (User inv)

  -- The constructor's loop, with `count` rounds to go.
  unfoldable pub make_users : ℕ → ℕ → UserRegistry
  make_users zero i = []
  make_users (suc count) i = record { id = pos i; inventory = inv.empty } ∷ make_users count (i + 1)

  unfoldable pub new_registry : UserRegistry
  unfolding make_users
  new_registry = make_users market_participant_count 0

  -- `none` is the `std::out_of_range` of `at`.
  unfoldable pub get : UserRegistry → ℤ → Option (User inv)
  get users id = get_elem? users (size_t_of id)
