-- ===== src/Allocator/Allocation.antt =====
-- `sf_malloc` of dynamic_memory_allocator/src/sfmm.c where a free block has room.
use linux_system.Prelude.{
  ℕ, suc, ◌+◌, ◌-◌, ◌%◌, ◌≤◌, ◌<◌, ◌≡◌, ◌≢◌, ◌⊎◌, refl, subst, ◌∙◌, inl, inr, true, false, List,
  ◌∷◌, ◌++◌, ◌==◌, ltb, leb, arith, All, Bool-cases, none, length,
}
use linux_system.Allocator.{Heap, fit, bytes_of, list_of_size, find_fit, place, size_of, pad_of}
use linux_system.Allocator.Calls.{Util, returned, sf_malloc, malloc_loop, sf_free}
use linux_system.Allocator.Layout.{Block, IsHeap, IsSmall}
use linux_system.Allocator.Geometry.{All-split, All-append}
use linux_system.Allocator.Relisting.{
  SameBounds, remove-SameBounds, insert-SameBounds, middle-Agrees, IsSmall-kept,
}
use linux_system.Allocator.Search.{first_fit, searched, searches}
use linux_system.Allocator.Coalescing.{AtRest}
use linux_system.Allocator.Freeing.{IsFilled, sf_free-IsHeap}
use linux_system.Allocator.Writing.{block_of}
use linux_system.Allocator.Placing.{placed, place-IsHeap}
use linux_system.Allocator.Found.{first_fit-fits, searched-listed, listed_at-split}

filled : (size : ℕ) → (pad_of size ≡ 1) ⊎ (size + 16 ≡ size_of size)
filled size = elim (Bool-cases (size % 16 == 0)) [
  | inl e ↦ inr (rw e refl)
  | inr e ↦ inl (rw e refl)
]

-- The new block, and what `sf_free` asks of it.
placed-split :
    (b : Block) (size : ℕ) (back : List Block)
    → (c : Block) × (back' : List Block) × (placed b size ++ back ≡ c ∷ back')
      × (c.at ≡ b.at)
      × (c.bit ≡ 1)
      × IsFilled c
placed-split b size back = elim (Bool-cases (ltb b.size (size + 32))) [
  | inl e ↦ (block_of b.at b.size size 1 1 false, back, rw e refl, refl, refl, inl refl)
  | inr e ↦ (
    block_of b.at (size_of size) size 1 (pad_of size) false,
    block_of (b.at + size_of size) (b.size - size_of size) 0 0 0 true ∷ back,
    rw e refl,
    refl,
    refl,
    filled size,
  )
]

placed-AtRest : (b : Block) (size : ℕ) → All AtRest (placed b size)
placed-AtRest b size = elim (Bool-cases (ltb b.size (size + 32))) [
  | inl e ↦ rw e (refl, tt)
  | inr e ↦ rw e (refl, (refl, tt))
]

place-SameBounds : (h : Heap) (p size : ℕ) → SameBounds h (place h p size)
unfolding place
place-SameBounds h p size = elim (Bool-cases (ltb (bytes_of h.mem p) (size + 32))) [
  | inl e ↦ rw e (remove-SameBounds _ p)
  | inr e ↦ rw e (
    (insert-SameBounds _ _).0 ∙ (remove-SameBounds h p).0,
    (insert-SameBounds _ _).1 ∙ (remove-SameBounds h p).1,
  )
]

module _ {S : Type 0} (u : Util S) (s : S) where
  -- What `place` leaves can be given back.
  placed-frees :
      (h : Heap) (front : List Block) (b : Block) (back : List Block) (lists : ℕ → List ℕ)
      (size p : ℕ)
      → IsHeap h (front ++ (placed b size ++ back)) lists
      → All AtRest (front ++ (placed b size ++ back))
      → b.at ≡ p
      → IsSmall h
      → (h' : Heap) × (sf_free u h s (p + 8) ≡ returned h' s 0 none)
  placed-frees h front b back lists size p ok rest at_p lt =
      let (c, back', split, at_c, used, full) = placed-split b size back in
      let (h', frees, _, _, _) =
        sf_free-IsHeap u s h front c back' lists (subst (λ r. IsHeap h (front ++ r) lists) split ok)
          (subst (λ r. All AtRest (front ++ r)) split rest) used full lt in
      (h', subst (λ a. sf_free u h s (a + 8) ≡ returned h' s 0 none) (at_c ∙ at_p) frees)

  malloc-fit :
      (fuel long : ℕ) (h : Heap) (size p : ℕ)
      → 0 < size
      → size ≤ 16384
      → find_fit long h size ≡ fit p
      → sf_malloc u (suc fuel) long h s size ≡ returned (place h p size) s (p + 8) none
  unfolding sf_malloc malloc_loop
  malloc-fit fuel long h size p pos le e =
      let large : ltb 16384 size ≡ false = ground arith in
      let small : leb size 0 ≡ false = ground arith in rw (large, small, malloc_loop, e) refl

  -- In a heap between two calls, of less than 2 GB and ending below 2 ^ 63, where the search finds a
  -- block and no block leaves a splinter behind, `sf_malloc` of 16 bytes to four pages returns the payload of that block, which
  -- has room. The heap is then the same row with this block used, as a whole or split, all lists
  -- linked right, and `sf_free` of the pointer returns.
  pub sf_malloc-IsHeap :
      (fuel long : ℕ) (h : Heap) (bs : List Block) (lists : ℕ → List ℕ) (size p : ℕ)
      → IsHeap h bs lists
      → All AtRest bs
      → 16 ≤ size
      → size ≤ 16384
      → IsSmall h
      → ((n : ℕ) → length (lists n) < long)
      → All (λ b. b.size ≢ size_of size + 16) bs
      → first_fit h.mem (size + 16) (searched lists (list_of_size (size + 16))) ≡ fit p
      → (front : List Block) × (b : Block) × (back : List Block) × (h' : Heap) × (bs
          ≡ front ++ (b ∷ back))
        × (b.at ≡ p)
        × (b.in_list ≡ true)
        × (size + 16 ≤ b.size)
        × (sf_malloc u (suc fuel) long h s size ≡ returned h' s (p + 8) none)
        × ((lists' : ℕ → List ℕ) × IsHeap h' (front ++ (placed b size ++ back)) lists')
        × All AtRest (front ++ (placed b size ++ back))
        × ((h'' : Heap) × (sf_free u h' s (p + 8) ≡ returned h'' s 0 none))
  sf_malloc-IsHeap fuel long h bs lists size p ok rest least most lt lengths no_splinter found_p =
      let (occurs, fits_p) =
        first_fit-fits h.mem (size + 16) (searched lists (list_of_size (size + 16))) p found_p in
      let (n, in_n) = searched-listed lists (list_of_size (size + 16)) p occurs in
      let (front, b, back, split, at_p, listed) =
        listed_at-split n p bs (subst (λ c. 0 < c) (ok.same n p) in_n) in
      let ok_b = subst (λ r. IsHeap h r lists) split ok in
      let (rest_f, (rest_b, rest_back)) =
        All-split AtRest front (b ∷ back) (subst (λ r. All AtRest r) split rest) in
      let (_, (whole, _)) =
        All-split (λ c. c.size ≢ size_of size + 16) front (b ∷ back)
          (subst (λ r. All (λ c. c.size ≢ size_of size + 16) r) split no_splinter) in
      let size_p : bytes_of h.mem p ≡ b.size =
        subst (λ a. bytes_of h.mem a ≡ b.size) at_p
          (middle-Agrees h front b back lists ok_b).size_reads in
      let room : size + 16 ≤ b.size = ground arith in
      let (lists', ok') =
        place-IsHeap h front b back lists size ok_b listed (omega arith) room lt whole in
      let rest' =
        All-append AtRest front (placed b size ++ back) rest_f
          (All-append AtRest (placed b size) back (placed-AtRest b size) rest_back) in
      let kept =
        subst (λ a. IsHeap (place h a size) (front ++ (placed b size ++ back)) lists') at_p ok' in
      let search : find_fit long h size ≡ fit p =
        searches long h size lists ok.chained lengths least most ∙ found_p in
      (
        front,
        b,
        back,
        place h p size,
        split,
        at_p,
        listed,
        room,
        malloc-fit fuel long h size p (omega arith) most search,
        (lists', kept),
        rest',
        placed-frees (place h p size) front b back lists' size p kept rest' at_p
            (IsSmall-kept h (place h p size) (place-SameBounds h p size) lt),
      )
