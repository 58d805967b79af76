-- ===== src/Server/Queue.antt =====
-- The functions of multi_thread_server/src/queue.c, a linked queue with a semaphore. The nodes
-- stand in a store, where a pointer is an index; a freed cell is `none`, and `calloc` takes a new
-- cell. A queue pointer is `none` for NULL. `dequeue` is two steps, the wait on the semaphore and
-- the section behind it that holds the lock, because other threads can run in between.
pub mod Chain
pub mod Fifo
pub mod Drain
pub mod Threads
mod Tests
use linux_system.Prelude.{
  ℕ, zero, suc, ◌+◌, ◌-◌, Bool, true, false, ◌&&◌, Option, none, some, List, [], ◌∷◌, ◌++◌, ◌==◌,
  if◌then◌else◌, length, get_or, set,
}
use linux_system.Server.Map.{Errno, einval}

-- `queue_node_t`
pub record QueueNode : Type 0 where
  pub item : ℕ
  pub next : Option ℕ

abbrev pub Store : Type 0
Store = List (Option QueueNode)

-- `queue_t`, with the store of its nodes. `items` is the count of the semaphore.
pub record Queue : Type 0 where
  pub store : Store
  pub front : Option ℕ
  pub rear : Option ℕ
  pub items : ℕ
  pub invalid : Bool

pub cell : Store → ℕ → Option QueueNode
cell store p = get_or store p none

-- What a call of `enqueue` or `invalidate_queue` leaves behind.
pub record QueueOutcome : Type 0 where
  pub self : Option Queue
  pub returns : Bool
  pub errno : Option Errno

abbrev fails : Option Queue → QueueOutcome
fails self = record { self = self; returns = false; errno = some einval }

-- `create_queue`: whether the memory, the semaphore and the mutex are given.
pub create_queue : Bool → Bool → Bool → Option Queue
create_queue memory semaphore mutex =
    if memory && semaphore && mutex
    then some (record { store = []; front = none; rear = none; items = 0; invalid = false })
    else none

-- `self->rear->next = tmp`; `none` is a write through a pointer that holds no node.
pub set_next : Store → Option ℕ → ℕ → Option Store
set_next store none tmp = none
set_next store (some r) tmp = elim (cell store r) [
  | none ↦ none
  | some node ↦ some (set store r (some (record node { next = some tmp })))
]

-- The section of `enqueue` that holds the lock: `tmp` is linked at the rear.
pub link : Queue → Store → ℕ → Option Queue
link q store tmp = elim q.front [
  | none ↦ some (record q { store = store; front = some tmp; rear = some tmp; items = q.items + 1 })
  | some _ ↦ elim (set_next store q.rear tmp) [
    | none ↦ none
    | some linked ↦ some (record q { store = linked; rear = some tmp; items = q.items + 1 })
  ]
]

-- `memory` says whether `calloc` succeeds. The outer `none` is an access to no node.
pub enqueue : Option Queue → Option ℕ → Bool → Option QueueOutcome
enqueue none item memory = some (fails none)
enqueue (some q) none memory = some (fails (some q))
enqueue (some q) (some item) memory =
    if q.invalid
    then some (fails (some q))
    else if memory
    then elim (link q (q.store ++ (some (record { item = item; next = none }) ∷ []))
        (length q.store)) [
          | none ↦ none
          | some q' ↦ some (record { self = some q'; returns = true; errno = none })
        ]
    else some (record { self = some q; returns = false; errno = none })

-- The section of `dequeue` behind the semaphore: the front node is unlinked and freed. `none` is
-- an access to no node.
pub take_front : Queue → Option (Queue × ℕ)
take_front q = elim q.front [
  | none ↦ none
  | some p ↦ elim (cell q.store p) [
    | none ↦ none
    | some node ↦ some (record q { store = set q.store p none; front = node.next }, node.item)
  ]
]

-- `dequeue` of a thread that no other thread disturbs.
pub data Dequeued : Type 0 where
  returned : Option Queue → Option ℕ → Option Errno → Dequeued
  waits fault : Dequeued

pub dequeue : Option Queue → Dequeued
dequeue none = returned none none (some einval)
dequeue (some q) =
    if q.invalid
    then returned (some q) none (some einval)
    else if q.items == 0
    then waits
    else elim (take_front (record q { items = q.items - 1 })) [
      | none ↦ fault
      | some (q', item) ↦ returned (some q') (some item) none
    ]

-- The loop of `invalidate_queue`, on fuel: the queue left and the items given to the destructor.
pub drain : ℕ → Queue → Option (Queue × List ℕ)
drain zero q = none
drain (suc fuel) q = elim q.front [
  | none ↦ some (q, [])
  | some p ↦ elim (take_front q) [
    | none ↦ none
    | some (q', item) ↦ elim (drain fuel q') [
      | none ↦ none
      | some (q'', more) ↦ some (q'', item ∷ more)
    ]
  ]
]

-- As many rounds as cells in the store, and one that meets NULL.
pub invalidate_queue : Option Queue → Option (QueueOutcome × List ℕ)
invalidate_queue none = some (fails none, [])
invalidate_queue (some q) =
    if q.invalid then some (fails (some q), []) else elim (drain (suc (length q.store)) q) [
      | none ↦ none
      | some (q', destroyed) ↦ some (
        record {
          self = some (record q' { front = none; rear = none; invalid = true });
          returns = true;
          errno = none;
        },
        destroyed,
      )
    ]
