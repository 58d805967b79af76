-- ===== src/Server/Queue/Threads.antt =====
-- Threads on one queue of multi_thread_server/src/queue.c. A call of `enqueue` is one step; one of
-- `dequeue` is two, the wait on the semaphore and the section behind it. The steps of different
-- threads come in any order.
use linux_system.Prelude.{
  ℕ, ◌+◌, ◌-◌, ◌≡◌, refl, sym, ap, ◌∙◌, inl, inr, true, false, Option, none, some, List, [], ◌∷◌,
  ◌++◌, arith, ◌==◌, if◌then◌else◌, append_assoc, append-nil, Bool-cases,
}
use linux_system.Server.Queue.{Queue, enqueue, take_front}
use linux_system.Server.Queue.Fifo.{Holds, Content-items, enqueue-Holds, take_front-Content}

-- A step of some thread.
pub data Step : Type 0 where
  enqueue_step : ℕ → Step
  wait_step take_step : Step

-- The queue, the number of threads between the two steps of `dequeue`, and the items that
-- `dequeue` has returned so far.
pub record System : Type 0 where
  pub queue : Queue
  pub waiting : ℕ
  pub received : List ℕ

-- A step that a thread cannot take now leaves the system as it is: the semaphore is 0, or no
-- thread stands behind it. `none` is an access to no node.
pub step : System → Step → Option System
step s (enqueue_step z) = elim (enqueue (some s.queue) (some z) true) [
  | none ↦ none
  | some o ↦ elim o.self [ none ↦ none | some q ↦ some (record s { queue = q }) ]
]
step s wait_step =
    if s.queue.items == 0
    then some s
    else some
        (record s { queue = record s.queue { items = s.queue.items - 1 }; waiting = s.waiting + 1 })
step s take_step = if s.waiting == 0 then some s else elim (take_front s.queue) [
  | none ↦ none
  | some (q, item) ↦
      some (record { queue = q; waiting = s.waiting - 1; received = s.received ++ (item ∷ []) })
]

pub run : Option System → List Step → Option System
run s [] = s
run none (t ∷ ts) = none
run (some s) (t ∷ ts) = run (step s t) ts

-- The items that the steps enqueue.
pub enqueued : List Step → List ℕ
enqueued [] = []
enqueued (enqueue_step z ∷ ts) = z ∷ enqueued ts
enqueued (wait_step ∷ ts) = enqueued ts
enqueued (take_step ∷ ts) = enqueued ts

abbrev new_items : Step → List ℕ
new_items (enqueue_step z) = z ∷ []
new_items wait_step = []
new_items take_step = []

-- After a step the received items and the content are those from before and the new one.
abbrev Steps : System → Step → List ℕ → Type 0
Steps s t xs =
    (s' : System) × (xs' : List ℕ) × (step s t ≡ some s')
    × Holds s'.queue s'.waiting xs'
    × (s'.received ++ xs' ≡ (s.received ++ xs) ++ new_items t)

step-enqueue :
    (s : System) (z : ℕ) (xs : List ℕ) → Holds s.queue s.waiting xs → Steps s (enqueue_step z) xs
unfolding step
step-enqueue s z xs h =
    let ((q, runs, holds), _, _) = enqueue-Holds z h in
    (
      record s { queue = q },
      xs ++ (z ∷ []),
      ground arith,
      holds,
      sym (append_assoc s.received xs (z ∷ [])),
    )

step-wait : (s : System) (xs : List ℕ) → Holds s.queue s.waiting xs → Steps s wait_step xs
unfolding step
step-wait s xs h = elim (Bool-cases (s.queue.items == 0)) [
  | inl e ↦ (s, xs, ground arith, h, sym (append-nil (s.received ++ xs)))
  | inr e ↦ (
    record s { queue = record s.queue { items = s.queue.items - 1 }; waiting = s.waiting + 1 },
    xs,
    ground arith,
    record {
      usable = h.usable;
      content = Content-items s.queue xs (s.queue.items - 1) h.content;
      nodes = h.nodes;
      count = ground (arith, h.count);
    },
    sym (append-nil (s.received ++ xs)),
  )
]

take_one :
    (s : System) (xs : List ℕ)
    → (s.waiting == 0) ≡ false
    → Holds s.queue s.waiting xs
    → Steps s take_step xs
unfolding step
take_one s [] e h = absurd (ground (arith, h.count))
take_one s (x ∷ xs) e h =
    let (q, runs, content, nodes, items, same, _) = take_front-Content s.queue x xs h.content in
    (
      record { queue = q; waiting = s.waiting - 1; received = s.received ++ (x ∷ []) },
      xs,
      ground arith,
      record {
        usable = same ∙ h.usable;
        content = content;
        nodes = omega (arith, nodes, h.nodes);
        count = ground (arith, items, h.count);
      },
      append_assoc s.received (x ∷ []) xs ∙ sym (append-nil (s.received ++ (x ∷ xs))),
    )

step-take : (s : System) (xs : List ℕ) → Holds s.queue s.waiting xs → Steps s take_step xs
step-take s xs h = elim (Bool-cases (s.waiting == 0)) [
  | inl e ↦ (s, xs, (unfold step in ground arith), h, sym (append-nil (s.received ++ xs)))
  | inr e ↦ take_one s xs e h
]

step-Holds : (s : System) (t : Step) (xs : List ℕ) → Holds s.queue s.waiting xs → Steps s t xs
step-Holds s (enqueue_step z) xs h = step-enqueue s z xs h
step-Holds s wait_step xs h = step-wait s xs h
step-Holds s take_step xs h = step-take s xs h

enqueued-cons : (t : Step) (ts : List Step) → enqueued (t ∷ ts) ≡ new_items t ++ enqueued ts
unfolding enqueued
enqueued-cons (enqueue_step z) ts = refl
enqueued-cons wait_step ts = refl
enqueued-cons take_step ts = refl

run-step :
    (s s' : System) (t : Step) (ts : List Step)
    → step s t ≡ some s'
    → run (some s) (t ∷ ts) ≡ run (some s') ts
unfolding run
run-step s s' t ts e = ap (λ o. run o ts) e

-- However the threads interleave, no step reads through a pointer that holds no node, the queue
-- stays in its invariant, and the items come out in the order in which they went in: those
-- received and those in the queue are those from the start and then those enqueued since. The
-- steps are those of `enqueue` and `dequeue`; none of them invalidates the queue.
pub run-Holds :
    (ts : List Step) (s : System) (xs : List ℕ)
    → Holds s.queue s.waiting xs
    → (s' : System) × (xs' : List ℕ) × (run (some s) ts ≡ some s')
      × Holds s'.queue s'.waiting xs'
      × (s'.received ++ xs' ≡ (s.received ++ xs) ++ enqueued ts)
unfolding run enqueued
run-Holds [] s xs h = (s, xs, refl, h, sym (append-nil (s.received ++ xs)))
run-Holds (t ∷ ts) s xs h =
    let (s₁, xs₁, first, h₁, order₁) = step-Holds s t xs h in
    let (s₂, xs₂, rest, h₂, order₂) = run-Holds ts s₁ xs₁ h₁ in
    (
      s₂,
      xs₂,
      run-step s s₁ t ts first ∙ rest,
      h₂,
      order₂
          ∙ ap (λ l. l ++ enqueued ts) order₁
          ∙ append_assoc (s.received ++ xs) (new_items t) (enqueued ts)
          ∙ ap (λ l. (s.received ++ xs) ++ l) (sym (enqueued-cons t ts)),
    )
