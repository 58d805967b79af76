-- ===== src/Allocator/Rounds.antt =====
-- The rounds of the loop of `sf_malloc` of dynamic_memory_allocator/src/sfmm.c, with the pages that
-- the system has left.
use linux_system.Prelude.{
  ℕ, zero, suc, ◌+◌, ◌*◌, ◌^◌, ◌≤◌, ◌<◌, ◌≡◌, ◌⊎◌, refl, sym, ap, subst, ◌∙◌, inl, inr, Bool, true,
  false, List, [], ◌∷◌, ◌++◌, append_assoc, if◌then◌else◌, arith, All, Bool-cases, some, none,
  length, length-append, ◌==◌,
}
use linux_system.Allocator.{Mem, Heap, list_of_size, fit, no_fit, fits, find_fit, place}
use linux_system.Allocator.Calls.{Util, Ended, enomem, returned, extend_heap, malloc_loop}
use linux_system.Allocator.Layout.{Block, IsHeap}
use linux_system.Allocator.Changes.{flagged}
use linux_system.Allocator.Writing.{block_of}
use linux_system.Allocator.Coalescing.{AtRest}
use linux_system.Allocator.Search.{first_fit, searched, searches}
use linux_system.Allocator.Lowering.{page}
use linux_system.Allocator.Growth.{extended, Grows, extend_heap-IsHeap}
use linux_system.Allocator.Misses.{length-listed}

-- The last block after a page has been added.
pub extended-last :
    (e : ℕ) (front : List Block) (l : Block)
    → (front' : List Block) × (l' : Block) × (extended e front l ≡ front' ++ (l' ∷ []))
      × (l'.in_list ≡ true)
      × (l'.bit ≡ 0)
      × (l'.size ≡ (if l.in_list then l.size + 4096 else 4096))
      × (length front' ≤ length front + 1)
extended-last e front l = elim (Bool-cases l.in_list) [
  | inl listed ↦ (
    front,
    flagged (block_of l.at (l.size + 4096) 0 0 0 false) true,
    rw listed refl,
    refl,
    refl,
    rw listed refl,
    omega arith,
  )
  | inr used ↦ (
    front ++ (l ∷ []),
    page e true,
    subst
        (λ v.
          front
            ++ (if v
                then flagged (block_of l.at (l.size + 4096) 0 0 0 false) true ∷ []
                else l ∷ page e true ∷ [])
          ≡ (front ++ (l ∷ [])) ++ (page e true ∷ []))
        (sym used) (sym (append_assoc front (l ∷ []) (page e true ∷ []))),
    refl,
    refl,
    rw used refl,
    omega (arith, length-append front (l ∷ [])),
  )
]

pub first_fit-cases :
    (m : Mem) (asize : ℕ) (xs : List ℕ)
    → (first_fit m asize xs ≡ no_fit) ⊎ ((p : ℕ) × (first_fit m asize xs ≡ fit p))
unfolding first_fit
first_fit-cases m asize [] = inl refl
first_fit-cases m asize (x ∷ xs) = elim (Bool-cases (fits m asize x)) [
  | inl e ↦ inr (x, rw e refl)
  | inr e ↦ rw e (first_fit-cases m asize xs)
]

-- A system whose `sf_sbrk` adds a page as long as one is left, and then fails. The first page begins
-- at `base`; before it get_heap_start() is 0.
pub record Budget {S : Type 0} (u : Util S) (base : ℕ) : Type 0 where
  pub left : S → ℕ
  pub after : S → S
  pub failed : S → S
  pub some_left : (s : S) (n : ℕ) → left s ≡ suc n → left (after s) ≡ n
  pub given : (s : S) (n : ℕ) → left s ≡ suc n → u.sf_sbrk s ≡ (after s, true)
  pub refused : (s : S) → left s ≡ 0 → u.sf_sbrk s ≡ (failed s, false)
  pub first_start :
      (s : S) (n : ℕ) → left s ≡ suc n → u.get_heap_start s ≡ 0 → u.get_heap_start (after s) ≡ base
  pub first_end :
      (s : S) (n : ℕ)
      → left s ≡ suc n
      → u.get_heap_start s ≡ 0
      → u.get_heap_end (after s) ≡ base + 4096
  pub same_start :
      (s : S) (n : ℕ)
      → left s ≡ suc n
      → 0 < u.get_heap_start s
      → u.get_heap_start (after s) ≡ u.get_heap_start s
  pub new_end :
      (s : S) (n : ℕ)
      → left s ≡ suc n
      → 0 < u.get_heap_start s
      → u.get_heap_end (after s) ≡ u.get_heap_end s + 4096

-- The heap that the program has is that of the system, its blocks are at rest, and the last one has
-- taken in `k` pages.
pub record Ready {S : Type 0} (u : Util S) (s : S) (h : Heap) (front : List Block) (l : Block)
    (lists : ℕ → List ℕ) : Type 0 where
  pub row : IsHeap h (front ++ (l ∷ [])) lists
  pub rest : All AtRest (front ++ (l ∷ []))
  pub its_start : u.get_heap_start s ≡ h.start_of_heap
  pub its_end : u.get_heap_end s ≡ h.end_of_heap

-- The call returns what `place` makes of a block that the search finds in a heap at rest, which
-- begins at `low` and ends at `high` at the most.
abbrev pub Serves : {S : Type 0} → Ended S → ℕ → ℕ → ℕ → Type 0
Serves {S} outcome size low high =
    (h : Heap) × (s : S) × (bs : List Block) × (lists : ℕ → List ℕ) × (p : ℕ) × IsHeap h bs lists
    × All AtRest bs
    × (first_fit h.mem (size + 16) (searched lists (list_of_size (size + 16))) ≡ fit p)
    × (outcome ≡ returned (place h p size) s (p + 8) none)
    × (h.start_of_heap ≡ low)
    × (h.end_of_heap ≤ high)

-- The call returns NULL and sets `sf_errno` to ENOMEM, with a heap at rest from `low` to `high` in
-- which the search finds nothing.
abbrev pub Refuses : {S : Type 0} → Ended S → ℕ → ℕ → ℕ → Type 0
Refuses {S} outcome size low high =
    (h : Heap) × (s : S) × (bs : List Block) × (lists : ℕ → List ℕ) × IsHeap h bs lists
    × All AtRest bs
    × (first_fit h.mem (size + 16) (searched lists (list_of_size (size + 16))) ≡ no_fit)
    × (outcome ≡ returned h s 0 (some enomem))
    × (h.start_of_heap ≡ low)
    × (h.end_of_heap ≡ high)

pub page_taken :
    (k : ℕ) (v : Bool) (size size' : ℕ)
    → (0 < k → (v ≡ true) × (4096 * k ≤ size))
    → size' ≡ (if v then size + 4096 else 4096)
    → 4096 * suc k ≤ size'
page_taken zero v size size' h e = ground arith
page_taken (suc k) v size size' h e = let (a, b) = h (omega arith) in ground arith

module _ {S : Type 0} (u : Util S) (base : ℕ) (system : Budget u base) where
  pub loop-extends :
      (fuel long : ℕ) (h h' : Heap) (s s' : S) (size : ℕ)
      → find_fit long h size ≡ no_fit
      → extend_heap u h s ≡ (some h', s')
      → malloc_loop u (suc fuel) long h s size ≡ malloc_loop u fuel long h' s' size
  unfolding malloc_loop
  loop-extends fuel long h h' s s' size e f =
      rw (malloc_loop, e, f) (ap (λ r. malloc_loop u fuel long h' r.1 size) f)

  pub loop-fit :
      (fuel long : ℕ) (h : Heap) (s : S) (size p : ℕ)
      → find_fit long h size ≡ fit p
      → malloc_loop u (suc fuel) long h s size ≡ returned (place h p size) s (p + 8) none
  unfolding malloc_loop
  loop-fit fuel long h s size p e = rw (malloc_loop, e) refl

  -- No page is left: `extend_heap` gives NULL.
  pub extend_heap-none :
      (h : Heap) (s s' : S)
      → u.sf_sbrk s ≡ (s', false)
      → 0 < h.start_of_heap
      → extend_heap u h s ≡ (none, s')
  unfolding extend_heap
  extend_heap-none h s s' f pos =
      let t : (h.start_of_heap == 0) ≡ false = ground arith in rw (f, t) refl

  pub loop-refuses :
      (fuel long : ℕ) (h : Heap) (s s' : S) (size : ℕ)
      → find_fit long h size ≡ no_fit
      → extend_heap u h s ≡ (none, s')
      → malloc_loop u (suc fuel) long h s size ≡ returned h s' 0 (some enomem)
  unfolding malloc_loop
  loop-refuses fuel long h s s' size e f =
      rw (malloc_loop, e, f) (ap (λ r. returned h r.1 0 (some enomem)) f)

  pub grows :
      (s : S) (h : Heap) (n : ℕ)
      → u.get_heap_start s ≡ h.start_of_heap
      → u.get_heap_end s ≡ h.end_of_heap
      → 0 < h.start_of_heap
      → system.left s ≡ suc n
      → Grows u s (system.after s) h
  grows s h n start end pos more = record {
    sbrk = system.given s n more;
    old_end = end;
    same_start = system.same_start s n more (omega arith) ∙ start;
    new_end = system.new_end s n more (omega arith) ∙ ap (λ e. e + 4096) end;
  }

  -- One more page.
  pub Ready-extended :
      (s : S) (h : Heap) (front : List Block) (l : Block) (lists : ℕ → List ℕ) (n : ℕ)
      → Ready u s h front l lists
      → system.left s ≡ suc n
      → h.end_of_heap + 4096 < h.start_of_heap + 2 ^ 31
      → h.end_of_heap + 4096 < 2 ^ 63
      → (h' : Heap) × (front' : List Block) × (l' : Block) × (lists' : ℕ → List ℕ) × (extend_heap u
            h s
          ≡ (some h', system.after s))
        × Ready u (system.after s) h' front' l' lists'
        × (h'.start_of_heap ≡ h.start_of_heap)
        × (h'.end_of_heap ≡ h.end_of_heap + 4096)
        × (l'.in_list ≡ true)
        × (l'.size ≡ (if l.in_list then l.size + 4096 else 4096))
        × (length front' ≤ length front + 1)
  Ready-extended s h front l lists n r more span high =
      let g = grows s h n r.its_start r.its_end r.row.pos more in
      let (h', lists', steps, ok', rest', start', end') =
        extend_heap-IsHeap u s (system.after s) h front l lists r.row r.rest
          (record { span = span; high = high }) g in
      let (front', l', e, listed, free, size, len) = extended-last h.end_of_heap front l in
      (
        h',
        front',
        l',
        lists',
        steps,
        record {
          row = subst (λ r. IsHeap h' r lists') e ok';
          rest = subst (λ r. All AtRest r) e rest';
          its_start = g.same_start ∙ sym start';
          its_end = g.new_end ∙ sym end';
        },
        start',
        end',
        listed,
        size,
        len,
      )

  -- The search of a heap, by its result.
  pub searching :
      (long : ℕ) (s : S) (h : Heap) (front : List Block) (l : Block) (lists : ℕ → List ℕ) (size : ℕ)
      → Ready u s h front l lists
      → 16 ≤ size
      → size ≤ 16384
      → length front + 1 < long
      → find_fit long h size
        ≡ first_fit h.mem (size + 16) (searched lists (list_of_size (size + 16)))
  searching long s h front l lists size r least most enough =
      let ok = r.row in
      searches long h size lists ok.chained
        (λ n.
          let le =
            length-listed n (front ++ (l ∷ [])) (lists n)
              (λ x. let e = ok.same n x in omega arith) in
          let sum = length-append front (l ∷ []) in omega arith)
        least most

  -- A round of the loop that finds a block.
  pub serving :
      (fuel long : ℕ) (s : S) (h : Heap) (front : List Block) (l : Block) (lists : ℕ → List ℕ)
      (size p low high : ℕ)
      → Ready u s h front l lists
      → find_fit long h size
        ≡ first_fit h.mem (size + 16) (searched lists (list_of_size (size + 16)))
      → first_fit h.mem (size + 16) (searched lists (list_of_size (size + 16))) ≡ fit p
      → h.start_of_heap ≡ low
      → h.end_of_heap ≤ high
      → Serves (malloc_loop u (suc fuel) long h s size) size low high
  serving fuel long s h front l lists size p low high r search e at_low under = (
    h,
    s,
    front ++ (l ∷ []),
    lists,
    p,
    r.row,
    r.rest,
    e,
    loop-fit fuel long h s size p (search ∙ e),
    at_low,
    under,
  )
