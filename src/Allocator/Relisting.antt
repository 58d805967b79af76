-- ===== src/Allocator/Relisting.antt =====
-- insert_seg_free_list and remove_seg_free_list of dynamic_memory_allocator/src/sfmm.c on a block of
-- the heap.
use linux_system.Prelude.{
  ℕ, ◌+◌, ◌%◌, ◌≤◌, ◌<◌, ◌≡◌, refl, sym, subst, ◌∙◌, true, false, List, ◌∷◌, ◌++◌, arith,
}
use linux_system.Allocator.{
  Heap, list_of_size, remove_seg_free_list_helper, insert_seg_free_list_helper,
  remove_seg_free_list, insert_seg_free_list,
}
use linux_system.Allocator.Segments.{Spread}
use linux_system.Allocator.FreeList.{IsList, insert-Leaves}
use linux_system.Allocator.Removal.{remove-Leaves}
use linux_system.Allocator.Layout.{
  Block, Tiles, Agrees, occurrences, starts, is_in_list, IsHeap, IsSmall, listed_at-starts,
  Tiles-append, Tiles-le,
}
use linux_system.Allocator.Geometry.{Spread-starts, All-split}
use linux_system.Allocator.Changes.{set_list, flagged, IsHeap-relink, listed_somewhere}
use linux_system.Allocator.Counts.{
  listed_at-middle, occurring-split, other_list, unlisted_same, listed_same, joining, joining_other,
}

-- What the heap knows of one of its blocks.
pub middle-Agrees :
    (h : Heap) (front : List Block) (b : Block) (back : List Block) (lists : ℕ → List ℕ)
    → IsHeap h (front ++ (b ∷ back)) lists
    → Agrees h.mem b
middle-Agrees h front b back lists ok = (All-split (Agrees h.mem) front (b ∷ back) ok.agrees).1.0

pub middle-size :
    (h : Heap) (front : List Block) (b : Block) (back : List Block) (lists : ℕ → List ℕ)
    → IsHeap h (front ++ (b ∷ back)) lists
    → (h.start_of_heap ≤ b.at) × (32 ≤ b.size) × (b.size % 16 ≡ 0) × (b.at + b.size ≤ h.end_of_heap)
unfolding Tiles
middle-size h front b back lists ok =
    let (q, t, (f, le, rows, t')) =
      Tiles-append h.start_of_heap front (b ∷ back) h.end_of_heap ok.tiles in
    let lo = Tiles-le h.start_of_heap front q t in
    let hi = Tiles-le (q + b.size) back h.end_of_heap t' in (omega arith, le, rows, omega arith)

-- A block of a list, taken out of it.
pub IsHeap-unlist :
    (h : Heap) (front : List Block) (b : Block) (back : List Block) (lists : ℕ → List ℕ)
    → IsHeap h (front ++ (b ∷ back)) lists
    → b.in_list ≡ true
    → (lists' : ℕ → List ℕ) × IsHeap
        (remove_seg_free_list h b.at)
        (front ++ (flagged b false ∷ back))
        lists'
unfolding remove_seg_free_list
IsHeap-unlist h front b back lists ok listed =
    let bs = front ++ (b ∷ back) in
    let n = list_of_size b.size in
    let here : is_in_list n b.at b ≡ true = ground arith in
    let occurs : 0 < occurrences b.at (lists n) =
      ground (arith, ok.same n b.at, listed_at-middle front b back n b.at) in
    let (ys, zs, e) = occurring-split b.at (lists n) occurs in
    let spread : Spread (lists n) =
      Spread-starts h.start_of_heap bs h.end_of_heap (lists n) ok.tiles
        (λ x. let s = ok.same n x in let le = listed_at-starts n x bs in omega arith) in
    let left =
      remove-Leaves h n b.at ys zs (subst (IsList h n) e (ok.chained n)) (subst Spread e spread) in
    (
      set_list lists n (ys ++ zs),
      subst
          (λ s.
            IsHeap (remove_seg_free_list_helper h b.at (list_of_size s))
              (front ++ (flagged b false ∷ back)) (set_list lists n (ys ++ zs)))
          (sym (middle-Agrees h front b back lists ok).size_reads)
          (IsHeap-relink h (remove_seg_free_list_helper h b.at n) front b false back lists n
            (ys ++ (b.at ∷ zs)) (ys ++ zs) ok left
            (λ y occ.
              listed_somewhere h bs lists n y ok (subst (λ l. 0 < occurrences y l) (sym e) occ))
            (λ k x y ne of_x occ.
              other_list h bs lists k n x y ok ne of_x
                (subst (λ l. 0 < occurrences y l) (sym e) occ))
            (unlisted_same h front b back lists n ys zs ok listed refl e)),
    )

-- A free block that stands in no list, put into that of its size.
pub IsHeap-enlist :
    (h : Heap) (front : List Block) (b : Block) (back : List Block) (lists : ℕ → List ℕ)
    → IsHeap h (front ++ (b ∷ back)) lists
    → b.in_list ≡ false
    → (lists' : ℕ → List ℕ) × IsHeap
        (insert_seg_free_list h b.at)
        (front ++ (flagged b true ∷ back))
        lists'
unfolding insert_seg_free_list
IsHeap-enlist h front b back lists ok unlisted =
    let bs = front ++ (b ∷ back) in
    let n = list_of_size b.size in
    let inside : (y : ℕ) → occurrences y (b.at ∷ lists n) ≤ starts y bs =
      λ y. joining h front b back lists n ok unlisted y in
    let (lo, _, _, _) = middle-size h front b back lists ok in
    let left =
      insert-Leaves h b.at n (lists n) (ok.chained n)
        (Spread-starts h.start_of_heap bs h.end_of_heap (b.at ∷ lists n) ok.tiles inside)
        (omega (arith, ok.pos)) in
    (
      set_list lists n (b.at ∷ lists n),
      subst
          (λ s.
            IsHeap (insert_seg_free_list_helper h b.at (list_of_size s))
              (front ++ (flagged b true ∷ back)) (set_list lists n (b.at ∷ lists n)))
          (sym (middle-Agrees h front b back lists ok).size_reads)
          (IsHeap-relink h (insert_seg_free_list_helper h b.at n) front b true back lists n
            (b.at ∷ lists n) (b.at ∷ lists n) ok left (λ y occ. omega (arith, inside y))
            (λ k x y ne of_x occ.
              joining_other h front b back lists k n x y ok unlisted ne of_x occ)
            (listed_same h front b back lists n ok unlisted refl)),
    )

-- The bounds of the heap stay.
abbrev pub SameBounds : Heap → Heap → Type 0
SameBounds h h' = (h'.start_of_heap ≡ h.start_of_heap) × (h'.end_of_heap ≡ h.end_of_heap)

pub SameBounds-trans : (h h₁ h₂ : Heap) → SameBounds h h₁ → SameBounds h₁ h₂ → SameBounds h h₂
SameBounds-trans h h₁ h₂ (a, b) (c, d) = (c ∙ a, d ∙ b)

pub remove-SameBounds : (h : Heap) (p : ℕ) → SameBounds h (remove_seg_free_list h p)
unfolding remove_seg_free_list remove_seg_free_list_helper
remove-SameBounds h p = (ground arith, ground arith)

pub insert-SameBounds : (h : Heap) (p : ℕ) → SameBounds h (insert_seg_free_list h p)
unfolding insert_seg_free_list insert_seg_free_list_helper
insert-SameBounds h p = (ground arith, ground arith)

pub IsSmall-kept : (h h' : Heap) → SameBounds h h' → IsSmall h → IsSmall h'
IsSmall-kept h h' (same_start, same_end) small =
    let span = small.span in
    let high = small.high in record { span = omega arith; high = omega arith }
