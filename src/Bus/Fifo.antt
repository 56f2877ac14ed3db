-- ===== src/Bus/Fifo.antt =====
-- Every order of pushes and pops by any threads, up to and past a shutdown: nothing is lost,
-- duplicated or reordered.
use dobby_ai.Base.{
  ◌≤◌, ◌≡◌, refl, sym, ap, ◌∙◌, Bool, true, false, Option, some, List, [], ◌∷◌, ◌++◌, append_assoc,
}
use dobby_ai.Bus.{
  bus_queue_depth, Bq, Push, push_waits, rejected, pushed, Pop, pop_waits, drained, popped, bq_init,
  q_push, q_pop,
}
use dobby_ai.Bus.Queue.{
  IsValid, contents, init-IsValid, PushSpec, full, closed, room, q_push-PushSpec, PopSpec, empty,
  ended, oldest, q_pop-PopSpec,
}

-- What the threads do: each step is one call that returns, or the shutdown.
pub data Op (A : Type 0) : Type 0 where
  push : A → Op A
  pop : Op A
  shutdown : Op A

-- The queue with what has been accepted and what has been handed out so far, the oldest first.
pub record Trace (A : Type 0) : Type 0 where
  pub queue : Bq A
  pub shut_down : Bool
  pub accepted : List (Option A)
  pub consumed : List (Option A)

module _ {A : Type 0} where
  abbrev pub start : Trace A
  start = record { queue = bq_init; shut_down = false; accepted = []; consumed = [] }

  abbrev pub after_push : Trace A → A → Push A → Trace A
  after_push t item push_waits = t
  after_push t item rejected = t
  after_push t item (pushed q) = record t { queue = q; accepted = t.accepted ++ (some item ∷ []) }

  abbrev pub after_pop : Trace A → Pop A → Trace A
  after_pop t pop_waits = t
  after_pop t drained = t
  after_pop t (popped item q) = record t { queue = q; consumed = t.consumed ++ (item ∷ []) }

  -- A call that would wait changes nothing, and is made again later in the schedule.
  unfoldable pub step : Trace A → Op A → Trace A
  step t (push item) = after_push t item (q_push t.queue item t.shut_down)
  step t pop = after_pop t (q_pop t.queue t.shut_down)
  step t shutdown = record t { shut_down = true }

  unfoldable pub run : Trace A → List (Op A) → Trace A
  run t [] = t
  run t (op ∷ ops) = run (step t op) ops

  pub record Inv (t : Trace A) : Type 0 where
    pub valid : IsValid t.queue
    pub balanced : t.accepted ≡ t.consumed ++ contents t.queue

  push-Inv :
      (t : Trace A) (item : A) (r : Push A)
      → Inv t
      → PushSpec t.queue item t.shut_down r
      → Inv (after_push t item r)
  push-Inv t item push_waits i (full _ _) = i
  push-Inv t item rejected i (closed _) = i
  push-Inv t item (pushed _) i (room q less o v e) = record {
    valid = v;
    balanced =
        ap (λ xs. xs ++ (some item ∷ [])) i.balanced
        ∙ append_assoc t.consumed (contents t.queue) (some item ∷ [])
        ∙ ap (◌++◌ t.consumed) (sym e);
  }

  pop-Inv : (t : Trace A) (r : Pop A) → Inv t → PopSpec t.queue t.shut_down r → Inv (after_pop t r)
  pop-Inv t pop_waits i (empty _ _) = i
  pop-Inv t drained i (ended _ _) = i
  pop-Inv t (popped _ _) i (oldest item q v e) = record {
    valid = v;
    balanced =
        i.balanced
        ∙ ap (◌++◌ t.consumed) e
        ∙ sym (append_assoc t.consumed (item ∷ []) (contents q));
  }

  step-Inv : (t : Trace A) (op : Op A) → Inv t → Inv (step t op)
  unfolding step
  step-Inv t (push item) i = push-Inv t item _ i (q_push-PushSpec t.queue item t.shut_down i.valid)
  step-Inv t pop i = pop-Inv t _ i (q_pop-PopSpec t.queue t.shut_down i.valid)
  step-Inv t shutdown i = record { valid = i.valid; balanced = i.balanced }

  run-Inv : (ops : List (Op A)) (t : Trace A) → Inv t → Inv (run t ops)
  unfolding run
  run-Inv [] t i = i
  run-Inv (op ∷ ops) t i = run-Inv ops (step t op) (step-Inv t op i)

  start-Inv : Inv start
  start-Inv = record { valid = init-IsValid; balanced = unfold bq_init in refl }

  -- In every schedule of pushes, pops and shutdowns, what was accepted is what was handed out
  -- followed by what the queue still holds, in this order, and the queue never holds more than 64.
  pub bus_fifo :
      (ops : List (Op A))
      → let t = run start ops in
        (t.accepted ≡ t.consumed ++ contents t.queue) × (t.queue.count ≤ bus_queue_depth)
  bus_fifo ops = let i = run-Inv ops start start-Inv in (i.balanced, i.valid.bounded)
