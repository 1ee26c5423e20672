-- ===== src/Engine/FlatMap.antt =====
-- `std::flat_map`: a list of keys and values, in the order of the comparator `before`.
use toy_exchange.Base.{List, [], ◌∷◌, Option, none, some, Bool, if◌then◌else◌}

module _ {K V : Type 0} (before : K → K → Bool) where
  unfoldable pub find : K → List (K × V) → Option V
  find k [] = none
  find k ((j, v) ∷ m) = if before j k then find k m else if before k j then none else some v

  -- A write through `map[key]`, which first puts `fresh` where the key is missing.
  unfoldable pub modify : K → V → (V → V) → List (K × V) → List (K × V)
  modify k fresh f [] = (k, f fresh) ∷ []
  modify k fresh f ((j, v) ∷ m) =
      if before j k
      then (j, v) ∷ modify k fresh f m
      else if before k j
      then (k, f fresh) ∷ (j, v) ∷ m
      else (j, f v) ∷ m

  unfoldable pub erase : K → List (K × V) → List (K × V)
  erase k [] = []
  erase k ((j, v) ∷ m) =
      if before j k then (j, v) ∷ erase k m else if before k j then (j, v) ∷ m else m
