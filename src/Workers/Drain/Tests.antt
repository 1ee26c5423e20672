-- ===== src/Workers/Drain/Tests.antt =====
-- The theorems on draining at a queue of numbers.
use toy_exchange.Base.{◌≡◌, refl, ℕ, [], ◌∷◌, true, arith}
use toy_exchange.Workers.Drain.{
  found_empty, stopped, State, initial, push, join, finish, pop, find_empty, stop, Steps, done,
  step,
}
use toy_exchange.Workers.Drain.Shutdown.{stop_drained}

abbrev one_pushed : State ℕ
one_pushed = record initial { queue = 7 ∷ []; pushed = 7 ∷ [] }

-- The producer is gone and the flag is set.
abbrev closing : State ℕ
closing = record one_pushed { joined = true; finished = true }

abbrev closed : State ℕ
closed = record closing { queue = []; handled = 7 ∷ []; consumer = stopped }

close-Steps : Steps closing closed
close-Steps =
    let popped = record closing { queue = []; handled = 7 ∷ [] } in
    let empty = record popped { consumer = found_empty } in
    step closing popped closed (pop closing 7 [] refl refl) (
      step popped empty closed (find_empty popped refl refl)
        (step empty closed closed (stop empty refl refl) (done closed)))

closing-Steps : Steps initial closing
closing-Steps =
    let joined = record one_pushed { joined = true } in
    step initial one_pushed closing (push initial 7 refl (omega arith)) (
      step one_pushed joined closing (join one_pushed)
        (step joined closing closing (finish joined refl) (done closing)))

stop_drained_example :
    (closed.queue ≡ []) × (closed.pushed ≡ closing.pushed) × (closed.handled ≡ closing.pushed)
stop_drained_example = stop_drained closing-Steps close-Steps refl refl refl
