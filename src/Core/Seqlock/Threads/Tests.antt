-- ===== src/Core/Seqlock/Threads/Tests.antt =====
-- A load of two words after a store of them.
use toy_exchange.Base.{◌≡◌, refl, List, [], ◌∷◌, ℕ}
use toy_exchange.Core.Seqlock.Threads.{
  idle, writing, copying, Shared, unused, begin_store, write_word, end_store, load_before,
  copy_word, return_result, returned, Steps, done, step,
}
use toy_exchange.Core.Seqlock.Threads.Untorn.{load-untorn}

abbrev new_words : List ℕ
new_words = 3 ∷ 4 ∷ []

abbrev start : Shared
start = unused (1 ∷ 2 ∷ [])

-- The lock in the middle of the store.
abbrev half_stored : Shared
half_stored = record start { sequence = 1; words = 3 ∷ 2 ∷ []; writer = writing new_words 1 }

abbrev all_written : Shared
all_written = record half_stored { words = new_words; writer = writing new_words 2 }

abbrev stored : Shared
stored = record all_written { sequence = 2; stored = new_words; writer = idle }

abbrev loading : List ℕ → Shared
loading copied = record stored { reader = copying 2 copied }

loaded : Steps start (loading new_words)
loaded =
    let begun = record start { sequence = 1; writer = writing new_words 0 } in
    step start begun _ (begin_store start new_words refl refl) (
      step begun half_stored _ (write_word begun new_words 0 3 refl refl) (
        step half_stored all_written _ (write_word half_stored new_words 1 4 refl refl) (
          step all_written stored _ (end_store all_written new_words 2 refl refl) (
            step stored (loading []) _ (load_before stored refl) (
              step (loading []) (loading (3 ∷ [])) _ (copy_word (loading []) 2 [] 3 refl refl) (
                step (loading (3 ∷ [])) (loading new_words) _
                  (copy_word (loading (3 ∷ [])) 2 (3 ∷ []) 4 refl refl)
                  (done (loading new_words))))))))

abbrev result_returned : Shared
result_returned = record (loading new_words) { reader = returned new_words }

load-untorn_example : (new_words ≡ result_returned.stored) × (result_returned.writer ≡ idle)
load-untorn_example =
    load-untorn (1 ∷ 2 ∷ []) (loading new_words) result_returned new_words loaded
      (return_result (loading new_words) 2 new_words refl refl refl refl) (λ e. cc) refl
