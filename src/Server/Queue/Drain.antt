-- ===== src/Server/Queue/Drain.antt =====
-- `invalidate_queue` of multi_thread_server/src/queue.c, and what it does to a thread that has
-- passed the semaphore in `dequeue`.
use linux_system.Prelude.{
  ℕ, zero, suc, ◌+◌, ◌≤◌, ◌<◌, ◌≡◌, refl, Bool, true, false, Option, none, some, List, [], ◌∷◌,
  arith, length,
}
use linux_system.Server.Map.{einval}
use linux_system.Server.Queue.{
  Store, Queue, QueueOutcome, enqueue, take_front, dequeue, returned, drain, invalidate_queue,
}
use linux_system.Server.Queue.Chain.{live}
use linux_system.Server.Queue.Fifo.{Content, Holds, take_front-Content}

live-le : (s : Store) → live s ≤ length s
unfolding live
live-le [] = omega arith
live-le (none ∷ s) = omega (arith, live-le s)
live-le (some _ ∷ s) = omega (arith, live-le s)

front_of_Content :
    (q : Queue) (x : ℕ) (xs : List ℕ) → Content q (x ∷ xs) → (p : ℕ) × (q.front ≡ some p)
unfolding Content
front_of_Content q x xs (p, _, e, _, _) = (p, e)

drain-end : (fuel : ℕ) (q : Queue) → q.front ≡ none → drain (suc fuel) q ≡ some (q, [])
unfolding drain
drain-end fuel q e = ground arith

drain-step :
    (fuel : ℕ) (q q' q'' : Queue) (p x : ℕ) (xs : List ℕ)
    → q.front ≡ some p
    → take_front q ≡ some (q', x)
    → drain fuel q' ≡ some (q'', xs)
    → drain (suc fuel) q ≡ some (q'', x ∷ xs)
unfolding drain
drain-step fuel q q' q'' p x xs e t d = ground arith

-- The loop of `invalidate_queue` frees every node and destroys the items in their order.
drain-Content :
    (fuel : ℕ) (q : Queue) (xs : List ℕ)
    → Content q xs
    → length xs < fuel
    → (q' : Queue) × (drain fuel q ≡ some (q', xs)) × (live q'.store + length xs ≡ live q.store)
unfolding Content
drain-Content zero q xs h lt = absurd (omega arith)
drain-Content (suc fuel) q [] h lt = (q, drain-end fuel q h, omega arith)
drain-Content (suc fuel) q (x ∷ xs) h lt =
    let (p, at_front) = front_of_Content q x xs h in
    let (q', taken, content, nodes, _, _, _) = take_front-Content q x xs h in
    let (q'', drained, left) = drain-Content fuel q' xs content (omega arith) in
    (q'', drain-step fuel q q' q'' p x xs at_front taken drained, omega (arith, nodes, left))

invalidate_queue-drain :
    (q q' : Queue) (xs : List ℕ)
    → q.invalid ≡ false
    → drain (suc (length q.store)) q ≡ some (q', xs)
    → invalidate_queue (some q)
      ≡ some (
        record {
          self = some (record q' { front = none; rear = none; invalid = true });
          returns = true;
          errno = none;
        },
        xs,
      )
unfolding invalidate_queue
invalidate_queue-drain q q' xs u d = ground arith

enqueue_refused :
    (q : Queue) (item : Option ℕ) (memory : Bool)
    → q.invalid ≡ true
    → enqueue (some q) item memory
      ≡ some (record { self = some q; returns = false; errno = some einval })
unfolding enqueue
enqueue_refused q none memory e = refl
enqueue_refused q (some z) memory e = ground arith

-- `invalidate_queue` of a queue with the items `xs` ends and returns true. It destroys each item
-- once, in the order of the queue, and frees every node. From then on every function fails with
-- EINVAL and leaves the queue as it is.
invalidate_queue-refuses :
    {q : Queue} {waiting : ℕ} {xs : List ℕ}
    → Holds q waiting xs
    → (q' : Queue) × (invalidate_queue (some q)
        ≡ some (record { self = some q'; returns = true; errno = none }, xs))
      × (live q'.store ≡ 0)
      × ((item : Option ℕ) (memory : Bool)
          → enqueue (some q') item memory
            ≡ some (record { self = some q'; returns = false; errno = some einval }))
      × (dequeue (some q') ≡ returned (some q') none (some einval))
      × (invalidate_queue (some q')
          ≡ some (record { self = some q'; returns = false; errno = some einval }, []))
unfolding enqueue dequeue invalidate_queue
invalidate_queue-refuses {q} {waiting} {xs} h =
    let (q', drained, left) =
      drain-Content (suc (length q.store)) q xs h.content
        (omega (arith, h.nodes, live-le q.store)) in
    (
      record q' { front = none; rear = none; invalid = true },
      invalidate_queue-drain q q' xs h.usable drained,
      omega (arith, left, h.nodes),
      λ item memory. enqueue_refused _ item memory refl,
      refl,
      refl,
    )

-- A thread that has passed the semaphore when another one invalidates the queue takes the first
-- node of a queue that has none: it reads through NULL.
pub invalidate_queue-take_front :
    {q : Queue} {waiting : ℕ} {xs : List ℕ}
    → Holds q (suc waiting) xs
    → (o : QueueOutcome) × (q' : Queue) × (invalidate_queue (some q) ≡ some (o, xs))
      × (o.self ≡ some q')
      × (take_front q' ≡ none)
unfolding take_front
invalidate_queue-take_front {q} {waiting} {xs} h =
    let (q', drained, _) =
      drain-Content (suc (length q.store)) q xs h.content
        (omega (arith, h.nodes, live-le q.store)) in
    (
      record {
        self = some (record q' { front = none; rear = none; invalid = true });
        returns = true;
        errno = none;
      },
      record q' { front = none; rear = none; invalid = true },
      invalidate_queue-drain q q' xs h.usable drained,
      refl,
      refl,
    )
