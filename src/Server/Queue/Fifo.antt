-- ===== src/Server/Queue/Fifo.antt =====
-- A queue of multi_thread_server/src/queue.c as a list of items, and the invariant that ties the
-- two. `waiting` threads have passed the semaphore in `dequeue` and have not yet taken an item.
use linux_system.Prelude.{
  ℕ, suc, ◌+◌, ◌-◌, ◌≡◌, refl, ap, subst, ◌∙◌, Bool, true, false, ◌&&◌, none, some, List, [], ◌∷◌,
  ◌++◌, arith, ◌==◌, length, set, length-set, length-append,
}
use linux_system.Server.Map.{einval}
use linux_system.Server.Queue.{
  Store, Queue, cell, create_queue, set_next, link, enqueue, take_front, dequeue, returned, waits,
}
use linux_system.Server.Queue.Chain.{
  Chain, cell-append_left, cell-append_new, Chain-free, Chain-linked, Chain-rear, cell-lt, linked,
  live, live-append, live-free, live-rewrite,
}

-- The items that the front pointer leads to.
unfoldable pub Content : Queue → List ℕ → Type 0
Content q [] = q.front ≡ none
Content q (x ∷ xs) = (p r : ℕ) × (q.front ≡ some p) × (q.rear ≡ some r) × Chain q.store r p x xs

-- The queue is usable, holds the items `xs`, has freed all other nodes, and counts its items but
-- those that waiting threads will take.
pub record Holds (q : Queue) (waiting : ℕ) (xs : List ℕ) : Type 0 where
  pub usable : q.invalid ≡ false
  pub content : Content q xs
  pub nodes : live q.store ≡ length xs
  pub count : q.items + waiting ≡ length xs

-- `create_queue` returns an empty queue in its invariant if the memory, the semaphore and the
-- mutex are given, and NULL otherwise.
pub create_queue-Holds :
    (memory semaphore mutex : Bool)
    → ((memory && semaphore && mutex) ≡ true
        → (q : Queue) × (create_queue memory semaphore mutex ≡ some q) × Holds q 0 [])
      × ((memory && semaphore && mutex) ≡ false → create_queue memory semaphore mutex ≡ none)
unfolding create_queue Content live
create_queue-Holds memory semaphore mutex = (
  λ e. (
    record { store = []; front = none; rear = none; items = 0; invalid = false },
    rw e refl,
    record { usable = refl; content = refl; nodes = refl; count = refl },
  ),
  λ e. rw e refl,
)

set_next-linked :
    (s : Store) (r last z : ℕ)
    → cell s r ≡ some (record { item = last; next = none })
    → set_next (s ++ (some (record { item = z; next = none }) ∷ [])) (some r) (length s)
      ≡ some (linked s r last z)
unfolding set_next
set_next-linked s r last z at_r =
    ground
      (arith, cell-append_left s r (some (record { item = z; next = none })) (cell-lt s r _ at_r))

-- The content does not depend on the count of the semaphore.
pub Content-items :
    (q : Queue) (xs : List ℕ) (n : ℕ) → Content q xs → Content (record q { items = n }) xs
unfolding Content
Content-items q [] n h = h
Content-items q (x ∷ xs) n h = h

no_items : (q : Queue) (xs : List ℕ) → Holds q 0 xs → xs ≡ [] → (q.items == 0) ≡ true
no_items q xs h e = ground (arith, h.count, ap length e)

some_items :
    (q : Queue) (xs : List ℕ) (x : ℕ) (rest : List ℕ)
    → Holds q 0 xs
    → xs ≡ x ∷ rest
    → (q.items == 0) ≡ false
some_items q xs x rest h e = ground (arith, h.count, ap length e)

link-Content :
    (q : Queue) (z : ℕ) (xs : List ℕ)
    → Content q xs
    → (q' : Queue) × (link q
          (q.store ++ (some (record { item = z; next = none }) ∷ []))
          (length q.store)
        ≡ some q')
      × Content q' (xs ++ (z ∷ []))
      × (live q'.store ≡ suc (live q.store))
      × (q'.items ≡ q.items + 1)
      × (q'.invalid ≡ q.invalid)
unfolding Content Chain link
link-Content q z [] e = (
  record q {
    store = q.store ++ (some (record { item = z; next = none }) ∷ []);
    front = some (length q.store);
    rear = some (length q.store);
    items = q.items + 1;
  },
  rw e refl,
  (length q.store, length q.store, refl, refl, (refl, cell-append_new q.store _)),
  live-append q.store _,
  refl,
  refl,
)
link-Content q z (x ∷ xs) (p, r, at_front, at_rear, chain) =
    let (le, last, at_r) = Chain-rear q.store r p x xs chain in
    let lt = cell-lt q.store r _ at_r in
    (
      record q {
        store = linked q.store r last z;
        rear = some (length q.store);
        items = q.items + 1;
      },
      ground (arith, set_next-linked q.store r last z at_r),
      (p, length q.store, at_front, refl, Chain-linked q.store r p x last z xs at_r chain),
      live-rewrite _ r _ _ (cell-append_left q.store r _ lt ∙ at_r) ∙ live-append q.store _,
      refl,
      refl,
    )

-- `enqueue` of an item with memory at hand returns true and puts the item behind the others, in
-- one new node. It fails with EINVAL for a NULL item and, where `calloc` fails, it returns false;
-- then the queue is as before.
pub enqueue-Holds :
    {q : Queue} {waiting : ℕ} {xs : List ℕ} (z : ℕ)
    → Holds q waiting xs
    → ((q' : Queue) × (enqueue (some q) (some z) true
          ≡ some (record { self = some q'; returns = true; errno = none }))
        × Holds q' waiting (xs ++ (z ∷ [])))
      × (enqueue (some q) none true
          ≡ some (record { self = some q; returns = false; errno = some einval }))
      × (enqueue (some q) (some z) false
          ≡ some (record { self = some q; returns = false; errno = none }))
unfolding enqueue
enqueue-Holds {q} {waiting} {xs} z h =
    let (q', runs, content, nodes, items, same) = link-Content q z xs h.content in
    (
      (
        q',
        ground (arith, h.usable),
        record {
          usable = same ∙ h.usable;
          content = content;
          nodes = omega (arith, nodes, h.nodes, length-append xs (z ∷ []));
          count = omega (arith, items, h.count, length-append xs (z ∷ []));
        },
      ),
      refl,
      rw h.usable refl,
    )

-- The section of `dequeue` behind the semaphore finds a node, and takes and frees the first.
pub take_front-Content :
    (q : Queue) (x : ℕ) (xs : List ℕ)
    → Content q (x ∷ xs)
    → (q' : Queue) × (take_front q ≡ some (q', x))
      × Content q' xs
      × (suc (live q'.store) ≡ live q.store)
      × (q'.items ≡ q.items)
      × (q'.invalid ≡ q.invalid)
      × (length q'.store ≡ length q.store)
unfolding Content Chain take_front
take_front-Content q x [] (p, r, at_front, at_rear, (e, at_p)) = (
  record q { store = set q.store p none; front = none },
  ground arith,
  refl,
  live-free q.store p _ at_p,
  refl,
  refl,
  length-set q.store p none,
)
take_front-Content q x (y ∷ ys) (p, r, at_front, at_rear, (n, lt, at_p, rest)) = (
  record q { store = set q.store p none; front = some n },
  ground arith,
  (n, r, refl, at_rear, Chain-free q.store p r n y ys lt rest),
  live-free q.store p _ at_p,
  refl,
  refl,
  length-set q.store p none,
)

-- `dequeue` without other threads: it waits if the queue is empty, and otherwise returns the item
-- that is longest in the queue, takes it out, and frees its node.
pub dequeue-Holds :
    {q : Queue} {xs : List ℕ}
    → Holds q 0 xs
    → (xs ≡ [] → dequeue (some q) ≡ waits)
      × ((x : ℕ) (rest : List ℕ)
          → xs ≡ x ∷ rest
          → (q' : Queue) × (dequeue (some q) ≡ returned (some q') (some x) none) × Holds q' 0 rest)
unfolding dequeue
dequeue-Holds {q} {xs} h = (
  λ e. rw (h.usable, no_items q xs h e) refl,
  λ x rest e.
      let q₁ = record q { items = q.items - 1 } in
      let (q', runs, content, nodes, items, same, _) =
        take_front-Content q₁ x rest
          (subst (Content q₁) e (Content-items q xs (q.items - 1) h.content)) in
      (
        q',
        ground (arith, h.usable, some_items q xs x rest h e),
        record {
          usable = same ∙ h.usable;
          content = content;
          nodes = omega (arith, nodes, h.nodes, ap length e);
          count = omega (arith, items, h.count, ap length e);
        },
      ),
)
