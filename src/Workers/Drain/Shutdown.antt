-- ===== src/Workers/Drain/Shutdown.antt =====
-- What a drained queue delivers, and what is left in it when the consumer stops.
use toy_exchange.Base.{
  ◌≡◌, refl, subst, sym, ◌∙◌, ap, ◌+◌, ◌≤◌, List, [], ◌∷◌, ◌++◌, true, false, arith, length,
  length-append, ◌⊎◌, inl, inr, append_assoc, append-nil,
}
use toy_exchange.Workers.Drain.{
  polling, found_empty, stopped, State, initial, Step, push, join, finish, pop, find_empty, retry,
  stop, Steps, done, step, queue_capacity,
}

module _ {A : Type 0} where
  -- Every value pushed is handled or still queued, once and in order, and the flag follows the
  -- join.
  abbrev pub IsFifo : State A → Type 0
  IsFifo s = (s.pushed ≡ s.handled ++ s.queue) × (s.finished ≡ true → s.joined ≡ true)

  Step-IsFifo : {s t : State A} → Step s t → IsFifo s → IsFifo t
  Step-IsFifo (push s v _ _) (e, f) = (rw e (append_assoc s.handled s.queue (v ∷ [])), f)
  Step-IsFifo (join s) (e, f) = (e, λ _. refl)
  Step-IsFifo (finish s j) (e, f) = (e, λ _. j)
  Step-IsFifo (pop s v vs _ q) (e, f) =
      (e ∙ ap (λ q. s.handled ++ q) q ∙ sym (append_assoc s.handled (v ∷ []) vs), f)
  Step-IsFifo (find_empty s _ _) i = i
  Step-IsFifo (retry s _ _) i = i
  Step-IsFifo (stop s _ _) i = i

  -- A run keeps it so: what was pushed is what was handled followed by what is queued, and the flag
  -- is set only after the join.
  Steps-IsFifo : {s t : State A} → Steps s t → IsFifo s → IsFifo t
  Steps-IsFifo (done s) i = i
  Steps-IsFifo (step s t u a b) i = Steps-IsFifo b (Step-IsFifo a i)

  -- With the flag set before the `pop` that finds nothing, the queue stays empty from then on.
  abbrev pub IsDraining : List A → State A → Type 0
  IsDraining pushed s =
      (s.joined ≡ true)
      × (s.finished ≡ true)
      × (s.pushed ≡ pushed)
      × ((s.consumer ≡ polling) ⊎ (s.queue ≡ []))

  Step-IsDraining :
      {s t : State A} (pushed : List A) → Step s t → IsDraining pushed s → IsDraining pushed t
  Step-IsDraining pushed (push s v j _) d = cc (j, d.0)
  Step-IsDraining pushed (join s) (j, f, p, d) = (refl, f, p, d)
  Step-IsDraining pushed (finish s _) (j, f, p, d) = (j, refl, p, d)
  Step-IsDraining pushed (pop s v vs c q) (j, f, p, d) = (j, f, p, inl c)
  Step-IsDraining pushed (find_empty s c q) (j, f, p, d) = (j, f, p, inr q)
  Step-IsDraining pushed (retry s c g) (j, f, p, d) = cc
  Step-IsDraining pushed (stop s c _) (j, f, p, inl e) = cc
  Step-IsDraining pushed (stop s c _) (j, f, p, inr e) = (j, f, p, inr e)

  Steps-IsDraining :
      {s t : State A} (pushed : List A) → Steps s t → IsDraining pushed s → IsDraining pushed t
  Steps-IsDraining pushed (done s) i = i
  Steps-IsDraining pushed (step s t u a b) i =
      Steps-IsDraining pushed b (Step-IsDraining pushed a i)

  drained_from :
      {s t : State A}
      → Steps s t
      → IsFifo s
      → s.finished ≡ true
      → s.consumer ≡ polling
      → t.consumer ≡ stopped
      → (t.queue ≡ []) × (t.pushed ≡ s.pushed) × (t.handled ≡ s.pushed)
  drained_from {s} {t} r (e, f) fin p st =
      let (j, g, same, rest) = Steps-IsDraining s.pushed r (f fin, fin, refl, inl p) in
      let (e', f') = Steps-IsFifo r (e, f) in
      elim rest [
        | inl q ↦ cc
        | inr q ↦
            (q, same, sym (append-nil t.handled) ∙ ap (λ q. t.handled ++ q) (sym q) ∙ sym e' ∙ same)
      ]

  -- In any run from the start: if at some moment the flag is set and the consumer is about to
  -- `pop`, then once the consumer has stopped, nothing more was pushed, the queue is empty, and it
  -- has handled all that was pushed, in order.
  pub stop_drained :
      {s t : State A}
      → Steps initial s
      → Steps s t
      → s.finished ≡ true
      → s.consumer ≡ polling
      → t.consumer ≡ stopped
      → (t.queue ≡ []) × (t.pushed ≡ s.pushed) × (t.handled ≡ s.pushed)
  stop_drained before after fin p st =
      drained_from after (Steps-IsFifo before (refl, λ e. cc)) fin p st

  -- From a state with the flag set and the consumer about to `pop` a run leads to its stop.
  stop_reached :
      (s : State A)
      → s.finished ≡ true
      → s.consumer ≡ polling
      → (t : State A) × Steps s t × (t.consumer ≡ stopped)
  stop_reached s fin p = drain s.queue s refl fin p
    where
      drain :
          (vs : List A) (s : State A)
          → s.queue ≡ vs
          → s.finished ≡ true
          → s.consumer ≡ polling
          → (t : State A) × Steps s t × (t.consumer ≡ stopped)
      drain [] s q fin p =
          let s' = record s { consumer = found_empty } in
          let t = record s' { consumer = stopped } in
          (t, step s s' t (find_empty s p q) (step s' t t (stop s' refl fin) (done t)), refl)
      drain (v ∷ vs) s q fin p =
          let s' = record s { queue = vs; handled = s.handled ++ v ∷ [] } in
          let (t, r, st) = drain vs s' refl fin p in (t, step s s' t (pop s v vs p q) r, st)

  Steps-then : {s t u : State A} → Steps s t → Steps t u → Steps s u
  Steps-then (done s) r = r
  Steps-then (step s t u a b) r = step s t _ a (Steps-then b r)

  -- The consumer has found nothing, and then `vs` was pushed.
  abbrev waiting : List A → State A
  waiting vs = record {
    queue = vs;
    pushed = vs;
    handled = [];
    joined = false;
    finished = false;
    consumer = found_empty;
  }

  push_all :
      (ws vs : List A)
      → length vs + length ws ≤ queue_capacity
      → Steps (waiting vs) (waiting (vs ++ ws))
  push_all [] vs h = rw (append-nil vs) (done (waiting vs))
  push_all (w ∷ ws) vs h =
      let pushed = waiting (vs ++ w ∷ []) in
      let rest = push_all ws (vs ++ w ∷ []) (omega (arith, length-append vs (w ∷ []))) in
      step (waiting vs) pushed _ (push (waiting vs) w refl (omega arith))
        (subst (λ l. Steps pushed (waiting l)) (append_assoc vs (w ∷ []) ws) rest)

  -- Whatever values fit into the queue, there is a run from the start in which exactly they are
  -- pushed, the producer is joined before the flag is set, and the consumer stops with all of them
  -- unhandled: they were pushed between its `pop` and its `load`.
  late_pushes-lost :
      (vs : List A)
      → length vs ≤ queue_capacity
      → (t : State A) × Steps initial t
        × (t.consumer ≡ stopped)
        × (t.pushed ≡ vs)
        × (t.queue ≡ vs)
        × (t.handled ≡ [])
  late_pushes-lost vs h =
      let joined = record (waiting vs) { joined = true } in
      let finished = record joined { finished = true } in
      let t = record finished { consumer = stopped } in
      let found : Steps initial (waiting []) =
        step initial (waiting []) _ (find_empty initial refl refl) (done (waiting [])) in
      let ended = step (waiting vs) joined t (join (waiting vs)) (
        step joined finished t (finish joined refl)
          (step finished t t (stop finished refl refl) (done t))) in
      (
        t,
        Steps-then found (Steps-then (push_all vs [] (omega (arith, h))) ended),
        refl,
        refl,
        refl,
        refl,
      )
