-- ===== src/Extern/UnorderedMap.antt =====
-- `ankerl::unordered_dense::map`, which stands outside the repository: the operations that the
-- program calls, and what its documentation says of them.
use toy_exchange.Base.{Option, none, some, ◌≡◌, ◌≢◌, List, [], ◌∷◌, Bool, if◌then◌else◌}

pub record UnorderedMap (K V : Type 0) : Type 1 where
  pub Table : Type 0
  pub empty : Table
  pub find : K → Table → Option V
  -- `table[key] = value`
  pub put : K → V → Table → Table
  pub erase : K → Table → Table

pub record IsMap {K V : Type 0} (m : UnorderedMap K V) : Type 0 where
  pub find-empty : (k : K) → m.find k m.empty ≡ none
  pub find-put_self : (k : K) (v : V) (t : m.Table) → m.find k (m.put k v t) ≡ some v
  pub find-put_ne : (j k : K) (v : V) (t : m.Table) → j ≢ k → m.find j (m.put k v t) ≡ m.find j t
  pub find-erase_self : (k : K) (t : m.Table) → m.find k (m.erase k t) ≡ none
  pub find-erase_ne : (j k : K) (t : m.Table) → j ≢ k → m.find j (m.erase k t) ≡ m.find j t

module _ {K V : Type 0} (same : K → K → Bool) where
  abbrev pub lookup : K → List (K × V) → Option V
  lookup k [] = none
  lookup k ((j, v) ∷ es) = if same k j then some v else lookup k es

  abbrev pub IsDistinct : List (K × V) → Type 0
  IsDistinct [] = Unit
  IsDistinct ((k, v) ∷ es) = (lookup k es ≡ none) × IsDistinct es

-- What an iteration over a table visits: every key that the table has, once.
pub record IsIteration {K V : Type 0} (m : UnorderedMap K V) (same : K → K → Bool)
    (entries : m.Table → List (K × V)) : Type 0 where
  pub find-entries : (k : K) (t : m.Table) → m.find k t ≡ lookup same k (entries t)
  pub distinct : (t : m.Table) → IsDistinct same (entries t)
