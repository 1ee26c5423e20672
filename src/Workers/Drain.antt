-- ===== src/Workers/Drain.antt =====
-- How a thread drains its queue until its producer has finished: the loops of
-- common/workers/inventory_thread.cpp, common/workers/matching_engine_thread.cpp and
-- common/net/market_data_publisher.cpp, whose `pop` and whose `load` of the flag are two steps,
-- with the steps of the producer and of exchange/main.cpp, which sets the flag once the producer
-- has been joined.
pub mod Shutdown
mod Tests
use toy_exchange.Base.{ℕ, ◌<◌, ◌≡◌, List, [], ◌∷◌, ◌++◌, Bool, true, false, length}

-- `QUEUE_CAPACITY`
abbrev pub queue_capacity : ℕ
queue_capacity = 4096

-- Where the consumer's loop stands: before `pop`, between a `pop` that found nothing and the `load`
-- of the flag, or past the `break`.
pub data Consumer : Type 0 where
  polling found_empty stopped : Consumer

pub record State (A : Type 0) : Type 0 where
  pub queue : List A
  -- What was pushed and what was handled, from the first on.
  pub pushed : List A
  pub handled : List A
  -- The producer thread has ended, and the flag has been stored.
  pub joined : Bool
  pub finished : Bool
  pub consumer : Consumer

module _ {A : Type 0} where
  abbrev pub initial : State A
  initial = record {
    queue = [];
    pushed = [];
    handled = [];
    joined = false;
    finished = false;
    consumer = polling;
  }

  pub data Step : State A → State A → Type 0 where
    -- A full queue refuses the push, and `PushBlocking` tries again.
    push :
        (s : State A) (v : A)
        → s.joined ≡ false
        → length s.queue < queue_capacity
        → Step s (record s { queue = s.queue ++ v ∷ []; pushed = s.pushed ++ v ∷ [] })
    join : (s : State A) → Step s (record s { joined = true })
    finish : (s : State A) → s.joined ≡ true → Step s (record s { finished = true })
    pop :
        (s : State A) (v : A) (vs : List A)
        → s.consumer ≡ polling
        → s.queue ≡ v ∷ vs
        → Step s (record s { queue = vs; handled = s.handled ++ v ∷ [] })
    find_empty :
        (s : State A)
        → s.consumer ≡ polling
        → s.queue ≡ []
        → Step s (record s { consumer = found_empty })
    retry :
        (s : State A)
        → s.consumer ≡ found_empty
        → s.finished ≡ false
        → Step s (record s { consumer = polling })
    stop :
        (s : State A)
        → s.consumer ≡ found_empty
        → s.finished ≡ true
        → Step s (record s { consumer = stopped })

  pub data Steps : State A → State A → Type 0 where
    done : (s : State A) → Steps s s
    step : (s t u : State A) → Step s t → Steps t u → Steps s u
