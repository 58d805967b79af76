-- ===== src/Allocator/Layout.antt =====
-- The heap of dynamic_memory_allocator/src/sfmm.c as a row of blocks: where they lie, what their
-- headers and footers say, and which of them stand in a free list.
use linux_system.Prelude.{
  ℕ, ◌+◌, ◌%◌, ◌^◌, ◌≤◌, ◌<◌, ◌≡◌, refl, sym, subst, Bool, ◌&&◌, List, [], ◌∷◌, ◌++◌, ◌==◌,
  if◌then◌else◌, arith, All,
}
use linux_system.Allocator.{Mem, Heap, list_of_size}
use linux_system.Allocator.Fields.{Reads}
use linux_system.Allocator.FreeList.{IsList}

-- A block with the allocated bit of its header, and whether it stands in the free list of its size.
-- At rest these are opposites; within a call a block may be in neither state.
pub record Block : Type 0 where
  pub at : ℕ
  pub size : ℕ
  pub bit : ℕ
  pub in_list : Bool
  pub pad : ℕ
  pub requested : ℕ

-- The blocks lie side by side from `p` to `e`.
unfoldable pub Tiles : ℕ → List Block → ℕ → Type 0
Tiles p [] e = p ≡ e
Tiles p (b ∷ bs) e = (b.at ≡ p) × (32 ≤ b.size) × (b.size % 16 ≡ 0) × Tiles (p + b.size) bs e

-- What the memory says of a block.
abbrev pub Agrees : Mem → Block → Type 0
Agrees m b = Reads m b.at b.size b.bit b.pad b.requested

unfoldable pub occurrences : ℕ → List ℕ → ℕ
occurrences x [] = 0
occurrences x (y ∷ ys) = (if x == y then 1 else 0) + occurrences x ys

abbrev pub one_if : Bool → ℕ
one_if b = if b then 1 else 0

-- How many blocks begin at `x`: one or none.
unfoldable pub starts : ℕ → List Block → ℕ
starts x [] = 0
starts x (b ∷ bs) = one_if (x == b.at) + starts x bs

-- How many of them stand in the list `n`.
abbrev pub is_in_list : ℕ → ℕ → Block → Bool
is_in_list n x b = b.in_list && (list_of_size b.size == n) && (x == b.at)

unfoldable pub listed_at : ℕ → ℕ → List Block → ℕ
listed_at n x [] = 0
listed_at n x (b ∷ bs) = one_if (is_in_list n x b) + listed_at n x bs

-- A heap of less than 2 GB that does not end near the last address.
pub record IsSmall (h : Heap) : Type 0 where
  pub span : h.end_of_heap < h.start_of_heap + 2 ^ 31
  pub high : h.end_of_heap < 2 ^ 63

-- The heap consists of the blocks `bs`, of which the listed ones stand in the list of their size.
pub record IsHeap (h : Heap) (bs : List Block) (lists : ℕ → List ℕ) : Type 0 where
  pub pos : 0 < h.start_of_heap
  pub tiles : Tiles h.start_of_heap bs h.end_of_heap
  pub agrees : All (Agrees h.mem) bs
  pub chained : (n : ℕ) → IsList h n (lists n)
  pub same : (n x : ℕ) → occurrences x (lists n) ≡ listed_at n x bs

-- Rows of blocks, joined and parted.
pub Tiles-append :
    (p : ℕ) (cs bs : List Block) (e : ℕ)
    → Tiles p (cs ++ bs) e
    → (q : ℕ) × Tiles p cs q × Tiles q bs e
unfolding Tiles
Tiles-append p [] bs e t = (p, refl, t)
Tiles-append p (c ∷ cs) bs e (f, le, rows, t) =
    let (q, t₁, t₂) = Tiles-append (p + c.size) cs bs e t in (q, (f, le, rows, t₁), t₂)

pub Tiles-join :
    (p : ℕ) (cs bs : List Block) (q e : ℕ) → Tiles p cs q → Tiles q bs e → Tiles p (cs ++ bs) e
unfolding Tiles
Tiles-join p [] bs q e f t = subst (λ r. Tiles r bs e) (sym f) t
Tiles-join p (c ∷ cs) bs q e (f, le, rows, t₁) t =
    (f, le, rows, Tiles-join (p + c.size) cs bs q e t₁ t)

pub Tiles-le : (p : ℕ) (bs : List Block) (e : ℕ) → Tiles p bs e → p ≤ e
unfolding Tiles
Tiles-le p [] e f = omega arith
Tiles-le p (b ∷ bs) e (f, le, rows, t) = omega (arith, Tiles-le (p + b.size) bs e t)

-- Every block of a row lies between its ends.
abbrev pub Within : ℕ → ℕ → Block → Type 0
Within p e b = (p ≤ b.at) × (b.at + b.size ≤ e) × (32 ≤ b.size)

Within-mono : (p p' e : ℕ) (bs : List Block) → p' ≤ p → All (Within p e) bs → All (Within p' e) bs
Within-mono p p' e [] le h = tt
Within-mono p p' e (b ∷ bs) le ((h₁, h₂, h₃), h) =
    ((omega arith, h₂, h₃), Within-mono p p' e bs le h)

pub Tiles-Within : (p : ℕ) (bs : List Block) (e : ℕ) → Tiles p bs e → All (Within p e) bs
unfolding Tiles
Tiles-Within p [] e t = tt
Tiles-Within p (b ∷ bs) e (f, le, rows, t) = (
  (omega arith, omega (arith, Tiles-le (p + b.size) bs e t), le),
  Within-mono (p + b.size) p e bs (omega arith) (Tiles-Within (p + b.size) bs e t),
)

pub listed_at-append :
    (n x : ℕ) (cs bs : List Block) → listed_at n x (cs ++ bs) ≡ listed_at n x cs + listed_at n x bs
unfolding listed_at
listed_at-append n x [] bs = omega arith
listed_at-append n x (c ∷ cs) bs = omega (arith, listed_at-append n x cs bs)

pub starts-append : (x : ℕ) (cs bs : List Block) → starts x (cs ++ bs) ≡ starts x cs + starts x bs
unfolding starts
starts-append x [] bs = omega arith
starts-append x (c ∷ cs) bs = omega (arith, starts-append x cs bs)

pub occurrences-append :
    (x : ℕ) (xs ys : List ℕ) → occurrences x (xs ++ ys) ≡ occurrences x xs + occurrences x ys
unfolding occurrences
occurrences-append x [] ys = omega arith
occurrences-append x (y ∷ xs) ys = omega (arith, occurrences-append x xs ys)

pub listed_at-starts : (n x : ℕ) (bs : List Block) → listed_at n x bs ≤ starts x bs
unfolding listed_at starts
listed_at-starts n x [] = omega arith
listed_at-starts n x (b ∷ bs) = ground (arith, listed_at-starts n x bs)
