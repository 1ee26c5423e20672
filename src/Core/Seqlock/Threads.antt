-- ===== src/Core/Seqlock/Threads.antt =====
-- `Store` and `Load` of common/core/seqlock.hpp step by step, with one writer and one reader that
-- interleave. The value is copied word by word, so that a reader can see a part of a store. The
-- counter does not wrap.
pub mod Untorn
mod Tests
use toy_exchange.Base.{
  ℕ, suc, ◌+◌, ◌%◌, ◌<◌, ◌≡◌, ◌≢◌, List, [], ◌∷◌, ◌++◌, some, ◌⊎◌, length, get_elem?, set,
}

-- Where `Store` stands: not called, or with the first `i` words of `value_` written.
pub data Writer : Type 0 where
  idle : Writer
  writing : List ℕ → ℕ → Writer

-- Where `Load` stands: before its first load of the sequence, with that load and the words of
-- `result` that it has copied, or returned.
pub data Reader : Type 0 where
  ready : Reader
  copying : ℕ → List ℕ → Reader
  returned : List ℕ → Reader

pub record Shared : Type 0 where
  pub sequence : ℕ
  -- `value_`
  pub words : List ℕ
  -- The argument of the last `Store` that has returned, or the first value.
  pub stored : List ℕ
  pub writer : Writer
  pub reader : Reader

abbrev pub unused : List ℕ → Shared
unused v = record { sequence = 0; words = v; stored = v; writer = idle; reader = ready }

pub data Step : Shared → Shared → Type 0 where
  begin_store :
      (s : Shared) (v : List ℕ)
      → s.writer ≡ idle
      → length v ≡ length s.words
      → Step s (record s { sequence = s.sequence + 1; writer = writing v 0 })
  write_word :
      (s : Shared) (v : List ℕ) (i w : ℕ)
      → s.writer ≡ writing v i
      → get_elem? v i ≡ some w
      → Step s (record s { words = set s.words i w; writer = writing v (suc i) })
  end_store :
      (s : Shared) (v : List ℕ) (i : ℕ)
      → s.writer ≡ writing v i
      → i ≡ length v
      → Step s (record s { sequence = s.sequence + 1; stored = v; writer = idle })
  load_before :
      (s : Shared) → s.reader ≡ ready → Step s (record s { reader = copying s.sequence [] })
  copy_word :
      (s : Shared) (before : ℕ) (copied : List ℕ) (w : ℕ)
      → s.reader ≡ copying before copied
      → get_elem? s.words (length copied) ≡ some w
      → Step s (record s { reader = copying before (copied ++ w ∷ []) })
  retry :
      (s : Shared) (before : ℕ) (copied : List ℕ)
      → s.reader ≡ copying before copied
      → length copied ≡ length s.words
      → (before ≢ s.sequence) ⊎ (before % 2 ≢ 0)
      → Step s (record s { reader = ready })
  return_result :
      (s : Shared) (before : ℕ) (copied : List ℕ)
      → s.reader ≡ copying before copied
      → length copied ≡ length s.words
      → before ≡ s.sequence
      → before % 2 ≡ 0
      → Step s (record s { reader = returned copied })

pub data Steps : Shared → Shared → Type 0 where
  done : (s : Shared) → Steps s s
  step : (s t u : Shared) → Step s t → Steps t u → Steps s u
