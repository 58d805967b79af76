-- ===== src/Server/Queue/Chain.antt =====
-- The list that the nodes of a queue of multi_thread_server/src/queue.c form. New nodes have
-- larger addresses, so the addresses grow along the list and no node comes twice.
use linux_system.Prelude.{
  ℕ, zero, suc, ◌≤◌, ◌<◌, ◌≡◌, ◌≢◌, refl, sym, ap, ◌∙◌, Option, none, some, List, [], ◌∷◌, ◌++◌,
  arith, length, set, length-append, get_or-set_self, get_or-set_ne,
}
use linux_system.Server.Queue.{QueueNode, Store, cell}

-- From `p` to `r` the nodes hold `x` and then `xs`, and the last one points nowhere.
unfoldable pub Chain : Store → ℕ → ℕ → ℕ → List ℕ → Type 0
Chain s r p x [] = (p ≡ r) × (cell s p ≡ some (record { item = x; next = none }))
Chain s r p x (y ∷ ys) =
    (n : ℕ) × (p < n) × (cell s p ≡ some (record { item = x; next = some n })) × Chain s r n y ys

-- How many cells hold a node.
unfoldable pub live : Store → ℕ
live [] = 0
live (none ∷ s) = live s
live (some _ ∷ s) = suc (live s)

pub live-append : (s : Store) (n : QueueNode) → live (s ++ (some n ∷ [])) ≡ suc (live s)
unfolding live
live-append [] n = refl
live-append (none ∷ s) n = live-append s n
live-append (some _ ∷ s) n = ap suc (live-append s n)

pub live-free :
    (s : Store) (p : ℕ) (n : QueueNode) → cell s p ≡ some n → suc (live (set s p none)) ≡ live s
unfolding live cell
live-free [] p n h = absurd (ground arith)
live-free (none ∷ s) zero n h = absurd (ground arith)
live-free (some _ ∷ s) zero n h = refl
live-free (none ∷ s) (suc p) n h = live-free s p n h
live-free (some _ ∷ s) (suc p) n h = ap suc (live-free s p n h)

pub live-rewrite :
    (s : Store) (p : ℕ) (n m : QueueNode) → cell s p ≡ some n → live (set s p (some m)) ≡ live s
unfolding live cell
live-rewrite [] p n m h = absurd (ground arith)
live-rewrite (none ∷ s) zero n m h = absurd (ground arith)
live-rewrite (some _ ∷ s) zero n m h = refl
live-rewrite (none ∷ s) (suc p) n m h = live-rewrite s p n m h
live-rewrite (some _ ∷ s) (suc p) n m h = ap suc (live-rewrite s p n m h)

-- A cell with a node is inside the store.
pub cell-lt : (s : Store) (p : ℕ) (n : QueueNode) → cell s p ≡ some n → p < length s
unfolding cell
cell-lt [] p n h = absurd (ground arith)
cell-lt (_ ∷ s) zero n h = omega arith
cell-lt (_ ∷ s) (suc p) n h = omega (arith, cell-lt s p n h)

pub cell-append_left :
    (s : Store) (p : ℕ) (n : Option QueueNode) → p < length s → cell (s ++ (n ∷ [])) p ≡ cell s p
unfolding cell
cell-append_left [] p n h = absurd (omega arith)
cell-append_left (_ ∷ s) zero n h = refl
cell-append_left (_ ∷ s) (suc p) n h = cell-append_left s p n (omega arith)

pub cell-append_new : (s : Store) (n : Option QueueNode) → cell (s ++ (n ∷ [])) (length s) ≡ n
unfolding cell
cell-append_new [] n = refl
cell-append_new (_ ∷ s) n = cell-append_new s n

cell-set_ne : (s : Store) (i j : ℕ) (v : Option QueueNode) → i ≢ j → cell (set s i v) j ≡ cell s j
unfolding cell
cell-set_ne s i j v h = get_or-set_ne s i j v none h

cell-set_self : (s : Store) (i : ℕ) (v : Option QueueNode) → i < length s → cell (set s i v) i ≡ v
unfolding cell
cell-set_self s i v h = get_or-set_self s i v none h

-- The ends of a chain.
pub Chain-rear :
    (s : Store) (r p x : ℕ) (xs : List ℕ)
    → Chain s r p x xs
    → (p ≤ r) × (last : ℕ) × (cell s r ≡ some (record { item = last; next = none }))
unfolding Chain
Chain-rear s r p x [] (e, h) = (omega arith, x, ap (cell s) (sym e) ∙ h)
Chain-rear s r p x (y ∷ ys) (n, lt, _, rest) =
    let (le, last, h) = Chain-rear s r n y ys rest in (omega arith, last, h)

pub Chain-front :
    (s : Store) (r p x : ℕ) (xs : List ℕ)
    → Chain s r p x xs
    → (n : Option ℕ) × (cell s p ≡ some (record { item = x; next = n }))
unfolding Chain
Chain-front s r p x [] (_, h) = (none, h)
Chain-front s r p x (y ∷ ys) (n, _, h, _) = (some n, h)

-- Freeing a cell before the chain.
pub Chain-free :
    (s : Store) (i r p x : ℕ) (xs : List ℕ)
    → i < p
    → Chain s r p x xs
    → Chain (set s i none) r p x xs
unfolding Chain
Chain-free s i r p x [] lt (e, h) = (e, cell-set_ne s i p none (λ f. omega arith) ∙ h)
Chain-free s i r p x (y ∷ ys) lt (n, lt', h, rest) = (
  n,
  lt',
  cell-set_ne s i p none (λ f. omega arith) ∙ h,
  Chain-free s i r n y ys (omega arith) rest,
)

-- The store in which `enqueue` has linked a new node with `z` behind the rear, which held `last`.
abbrev pub linked : Store → ℕ → ℕ → ℕ → Store
linked s r last z =
    set (s ++ (some (record { item = z; next = none }) ∷ [])) r
      (some (record { item = last; next = some (length s) }))

new_cell :
    (s : Store) (r last z : ℕ)
    → r < length s
    → cell (linked s r last z) (length s) ≡ some (record { item = z; next = none })
new_cell s r last z h =
    cell-set_ne (s ++ (_ ∷ [])) r (length s) _ (λ e. omega arith) ∙ cell-append_new s _

old_cell :
    (s : Store) (r last z p : ℕ) → r < length s → p < r → cell (linked s r last z) p ≡ cell s p
old_cell s r last z p h lt =
    cell-set_ne (s ++ (_ ∷ [])) r p _ (λ e. omega arith) ∙ cell-append_left s p _ (omega arith)

rear_cell :
    (s : Store) (r last z : ℕ)
    → r < length s
    → cell (linked s r last z) r ≡ some (record { item = last; next = some (length s) })
rear_cell s r last z h =
    cell-set_self (s ++ (_ ∷ [])) r _
      (omega (arith, length-append s (some (record { item = z; next = none }) ∷ [])))

item_of_cell :
    (s : Store) (p r last x : ℕ)
    → p ≡ r
    → cell s r ≡ some (record { item = last; next = none })
    → cell s p ≡ some (record { item = x; next = none })
    → last ≡ x
item_of_cell s p r last x e at_r at_p = ground (arith, sym at_r ∙ ap (cell s) (sym e) ∙ at_p)

pub Chain-linked :
    (s : Store) (r p x last z : ℕ) (xs : List ℕ)
    → cell s r ≡ some (record { item = last; next = none })
    → Chain s r p x xs
    → Chain (linked s r last z) (length s) p x (xs ++ (z ∷ []))
unfolding Chain
Chain-linked s r p x last z [] at_r (e, h) =
    let lt = cell-lt s r _ at_r in
    let same : last ≡ x = item_of_cell s p r last x e at_r h in
    (
      length s,
      omega arith,
      ap (cell (linked s r last z)) e
          ∙ rear_cell s r last z lt
          ∙ ap (λ i. some (record { item = i; next = some (length s) })) same,
      (refl, new_cell s r last z lt),
    )
Chain-linked s r p x last z (y ∷ ys) at_r (n, lt, h, rest) = (
  n,
  lt,
  old_cell s r last z p (cell-lt s r _ at_r) (omega (arith, (Chain-rear s r n y ys rest).0)) ∙ h,
  Chain-linked s r n y last z ys at_r rest,
)
