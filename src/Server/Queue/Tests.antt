-- ===== src/Server/Queue/Tests.antt =====
-- The theorems on multi_thread_server/src/queue.c at a queue of two items, with a freed node.
use linux_system.Prelude.{ℕ, ◌≡◌, refl, true, false, none, some, List, [], ◌∷◌, ◌++◌, arith}
use linux_system.Server.Map.{einval}
use linux_system.Server.Queue.{
  Queue, QueueOutcome, enqueue, take_front, dequeue, returned, waits, invalidate_queue, cell,
}
use linux_system.Server.Queue.Chain.{Chain, live}
use linux_system.Server.Queue.Fifo.{Content, Holds, enqueue-Holds, dequeue-Holds}
use linux_system.Server.Queue.Drain.{invalidate_queue-take_front}
use linux_system.Server.Queue.Threads.{
  System, Step, enqueue_step, wait_step, take_step, run, run-Holds, enqueued,
}

-- 10 and 11 stand in the queue; a node before them was freed.
abbrev two_items : Queue
two_items = record {
  store =
      none
      ∷ some (record { item = 10; next = some 2 })
      ∷ some (record { item = 11; next = none })
      ∷ [];
  front = some 1;
  rear = some 2;
  items = 2;
  invalid = false;
}

abbrev items_ten : List ℕ
items_ten = 10 ∷ 11 ∷ []

two_items-Holds : Holds two_items 0 (10 ∷ 11 ∷ [])
unfolding Content Chain cell live
two_items-Holds = record {
  usable = refl;
  content = (1, 2, refl, refl, (2, omega arith, refl, (refl, refl)));
  nodes = refl;
  count = refl;
}

-- A thread stands behind the semaphore.
abbrev one_waiting : Queue
one_waiting = record two_items { items = 1 }

one_waiting-Holds : Holds one_waiting 1 (10 ∷ 11 ∷ [])
unfolding Content Chain cell live
one_waiting-Holds = record {
  usable = refl;
  content = (1, 2, refl, refl, (2, omega arith, refl, (refl, refl)));
  nodes = refl;
  count = refl;
}

enqueue-Holds_example :
    ((q' : Queue) × (enqueue (some two_items) (some 12) true
        ≡ some (record { self = some q'; returns = true; errno = none }))
      × Holds q' 0 ((10 ∷ 11 ∷ []) ++ (12 ∷ [])))
    × (enqueue (some two_items) none true
        ≡ some (record { self = some two_items; returns = false; errno = some einval }))
    × (enqueue (some two_items) (some 12) false
        ≡ some (record { self = some two_items; returns = false; errno = none }))
enqueue-Holds_example = enqueue-Holds 12 two_items-Holds

dequeue-Holds_example :
    (items_ten ≡ [] → dequeue (some two_items) ≡ waits)
    × ((x : ℕ) (rest : List ℕ)
        → items_ten ≡ x ∷ rest
        → (q' : Queue) × (dequeue (some two_items) ≡ returned (some q') (some x) none)
          × Holds q' 0 rest)
dequeue-Holds_example = dequeue-Holds two_items-Holds

invalidate_queue-take_front_example :
    (o : QueueOutcome) × (q' : Queue) × (invalidate_queue (some one_waiting)
      ≡ some (o, 10 ∷ 11 ∷ []))
    × (o.self ≡ some q')
    × (take_front q' ≡ none)
invalidate_queue-take_front_example = invalidate_queue-take_front one_waiting-Holds

abbrev some_steps : List Step
some_steps = wait_step ∷ enqueue_step 12 ∷ take_step ∷ wait_step ∷ take_step ∷ take_step ∷ []

abbrev start : System
start = record { queue = one_waiting; waiting = 1; received = [] }

run-Holds_example :
    (s' : System) × (xs' : List ℕ) × (run (some start) some_steps ≡ some s')
    × Holds s'.queue s'.waiting xs'
    × (s'.received ++ xs' ≡ ([] ++ (10 ∷ 11 ∷ [])) ++ enqueued some_steps)
run-Holds_example = run-Holds some_steps start (10 ∷ 11 ∷ []) one_waiting-Holds
