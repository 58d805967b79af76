-- ===== src/Allocator/Growth.antt =====
-- A new page at the end of the heap of dynamic_memory_allocator/src/sfmm.c: `extend_heap` and
-- `coalescing_with_lower_address`.
use linux_system.Prelude.{
  ℕ, ◌+◌, ◌<◌, ◌≡◌, refl, subst, ◌∙◌, true, false, List, [], ◌∷◌, ◌++◌, append_assoc, ◌==◌, arith,
  All, some,
}
use linux_system.Allocator.{Heap, insert_seg_free_list, coalescing_with_lower_address}
use linux_system.Allocator.Calls.{Util, new_page, extend_heap}
use linux_system.Allocator.Layout.{Block, IsHeap, IsSmall}
use linux_system.Allocator.Geometry.{All-split, All-append}
use linux_system.Allocator.Relisting.{insert-SameBounds, IsHeap-enlist, IsSmall-kept}
use linux_system.Allocator.Coalescing.{AtRest}
use linux_system.Allocator.Lowering.{
  page, grown, grown-IsHeap, lowered, coalescing_with_lower_address-IsHeap, lowered-AtRest,
  lower-SameBounds,
}

-- What `sf_sbrk` does where it succeeds on the heap of the program.
pub record Grows {S : Type 0} (u : Util S) (s s' : S) (h : Heap) : Type 0 where
  pub sbrk : u.sf_sbrk s ≡ (s', true)
  pub old_end : u.get_heap_end s ≡ h.end_of_heap
  pub same_start : u.get_heap_start s' ≡ h.start_of_heap
  pub new_end : u.get_heap_end s' ≡ h.end_of_heap + 4096

-- The row after `extend_heap`.
abbrev pub extended : ℕ → List Block → Block → List Block
extended e front l = front ++ lowered l (page e true ∷ [])

module _ {S : Type 0} (u : Util S) (s s' : S) where
  extend-steps :
      (h : Heap)
      → Grows u s s' h
      → 0 < h.start_of_heap
      → extend_heap u h s ≡ (
        some (
            coalescing_with_lower_address
              (insert_seg_free_list (grown h) h.end_of_heap)
              h.end_of_heap),
        s',
      )
  unfolding extend_heap new_page
  extend-steps h g pos =
      let t : (h.start_of_heap == 0) ≡ false = ground arith in
      rw (g.sbrk, t, g.old_end, g.same_start, g.new_end) refl

  -- Where `sf_sbrk` adds a page, `extend_heap` on a heap at rest of at least one block, which with the
  -- page is of less than 2 GB and ends below 2 ^ 63, adds
  -- the page to the last block, if that is free, and else as a free block in the last list.
  pub extend_heap-IsHeap :
      (h : Heap) (front : List Block) (l : Block) (lists : ℕ → List ℕ)
      → IsHeap h (front ++ (l ∷ [])) lists
      → All AtRest (front ++ (l ∷ []))
      → IsSmall (grown h)
      → Grows u s s' h
      → (h' : Heap) × (lists' : ℕ → List ℕ) × (extend_heap u h s ≡ (some h', s'))
        × IsHeap h' (extended h.end_of_heap front l) lists'
        × All AtRest (extended h.end_of_heap front l)
        × (h'.start_of_heap ≡ h.start_of_heap)
        × (h'.end_of_heap ≡ h.end_of_heap + 4096)
  unfolding insert_seg_free_list
  extend_heap-IsHeap h front l lists ok rest lt g =
      let e = h.end_of_heap in
      let ok₁_p = grown-IsHeap h (front ++ (l ∷ [])) lists ok in
      let (lists₂, ok₂) =
        IsHeap-enlist (grown h) (front ++ (l ∷ [])) (page e false) [] lists ok₁_p refl in
      let h₂ = insert_seg_free_list (grown h) e in
      let ok₂_l =
        subst (λ r. IsHeap h₂ r lists₂) (append_assoc front (l ∷ []) (page e true ∷ [])) ok₂ in
      let (rest_f, (rest_l, _)) = All-split AtRest front (l ∷ []) rest in
      let (lists₃, ok₃) =
        coalescing_with_lower_address-IsHeap h₂ front l (page e true) [] lists₂ ok₂_l rest_l
          (refl, tt) (IsSmall-kept (grown h) h₂ (insert-SameBounds (grown h) e) lt) in
      (
        coalescing_with_lower_address h₂ e,
        lists₃,
        extend-steps h g ok.pos,
        ok₃,
        All-append AtRest front (lowered l (page e true ∷ [])) rest_f
            (lowered-AtRest l (page e true ∷ []) rest_l (refl, tt)),
        (lower-SameBounds h₂ e).0 ∙ (insert-SameBounds (grown h) e).0,
        (lower-SameBounds h₂ e).1 ∙ (insert-SameBounds (grown h) e).1,
      )
