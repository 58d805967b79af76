-- ===== src/Allocator/Splinter.antt =====
-- `place` of dynamic_memory_allocator/src/sfmm.c where 16 bytes of the block are left over.
use linux_system.Prelude.{
  ℕ, ◌+◌, ◌-◌, ◌≤◌, ◌<◌, ◌≡◌, ◌≢◌, ◌⊎◌, sym, subst, inl, inr, true, false, List, [], ◌∷◌, ◌++◌,
  ◌==◌, arith, Bool-cases, ltb,
}
use linux_system.Allocator.{
  Heap, bytes_of, list_of_size, remove_seg_free_list, insert_seg_free_list,
  insert_seg_free_list_helper, place, pad_of, size_of,
}
use linux_system.Allocator.Segments.{Seg}
use linux_system.Allocator.Layout.{Block, IsHeap, starts, occurrences, starts-append}
use linux_system.Allocator.Geometry.{starts-Within}
use linux_system.Allocator.Changes.{flagged, listed_somewhere}
use linux_system.Allocator.Relisting.{middle-Agrees, IsHeap-unlist}
use linux_system.Allocator.Writing.{middle-Tiles, split_mem}
use linux_system.Allocator.Placing.{place-split}

-- No block begins inside another.
no_interior :
    (h : Heap) (front : List Block) (b : Block) (back : List Block) (lists : ℕ → List ℕ) (x : ℕ)
    → IsHeap h (front ++ (b ∷ back)) lists
    → b.at < x
    → x < b.at + b.size
    → starts x (front ++ (b ∷ back)) ≡ 0
unfolding starts
no_interior h front b back lists x ok lo hi =
    let (tf, tb) = middle-Tiles h front b back lists ok in
    let parts = starts-append x front (b ∷ back) in
    elim (Bool-cases (ltb 0 (starts x front))) [
      | inl e ↦
          let (_, below) = starts-Within x h.start_of_heap front b.at tf (ground arith) in
          absurd (omega arith)
      | inr e ↦ elim (Bool-cases (ltb 0 (starts x back))) [
        | inl f ↦
            let (above, _) = starts-Within x (b.at + b.size) back h.end_of_heap tb (ground arith) in
            absurd (omega arith)
        | inr f ↦ ground arith
      ]
    ]

first_node :
    (h : Heap) (n : ℕ) (xs : List ℕ) (l : ℕ)
    → Seg h.mem 0 (h.head n) xs l 0
    → (k : ℕ) → (0 < occurrences (h.head n) xs → 0 < k)
    → (h.head n ≡ 0) ⊎ (0 < k)
unfolding Seg occurrences
first_node h n [] l (_, e) k known = inl e
first_node h n (x ∷ xs) l (e, _, _, _) k known = inr (known (ground arith))

-- The head of a list is NULL or a block.
head_starts :
    (h : Heap) (bs : List Block) (lists : ℕ → List ℕ) (n : ℕ)
    → IsHeap h bs lists
    → (h.head n ≡ 0) ⊎ (0 < starts (h.head n) bs)
unfolding Seg occurrences
head_starts h bs lists n ok =
    let (l, s) = ok.chained n in
    let known = listed_somewhere h bs lists n (h.head n) ok in
    first_node h n (lists n) l s (starts (h.head n) bs) known

inserted_prev :
    (h : Heap) (q n : ℕ) → h.head n ≢ q → (insert_seg_free_list_helper h q n).mem (q + 16) ≡ 0
unfolding insert_seg_free_list_helper
inserted_prev h q n ne = elim (Bool-cases (h.head n == 0)) [
  | inl e ↦ rw e (ground arith)
  | inr e ↦ rw e (ground arith)
]

-- Where 16 bytes of a listed block are left over, `place` inserts them as a free block whose `prev`
-- lies behind it: the word behind the block, which is the header of the next one, becomes 0.
pub place-splinter :
    (h : Heap) (front : List Block) (b : Block) (back : List Block) (lists : ℕ → List ℕ) (size : ℕ)
    → IsHeap h (front ++ (b ∷ back)) lists
    → b.in_list ≡ true
    → 0 < size_of size
    → size + 32 ≤ b.size
    → b.size ≡ size_of size + 16
    → (place h b.at size).mem (b.at + b.size) ≡ 0
unfolding insert_seg_free_list
place-splinter h front b back lists size ok listed pos room splinter =
    let bs = size_of size in
    let q = b.at + bs in
    let (lists₁, ok₁) = IsHeap-unlist h front b back lists ok listed in
    let h₁ = remove_seg_free_list h b.at in
    let m₃ = split_mem h₁.mem b.at bs size 1 (pad_of size) (b.size - bs) 0 0 0 in
    let h₂ = record h₁ { mem = m₃ } in
    let none_at =
      no_interior h₁ front (flagged b false) back lists₁ q ok₁ (omega arith) (omega arith) in
    let apart : (n : ℕ) → h₁.head n ≢ q = λ n e.
      elim (head_starts h₁ (front ++ (flagged b false ∷ back)) lists₁ n ok₁) [
        | inl null ↦ omega arith
        | inr start ↦
            let at_q = subst (λ x. 0 < starts x (front ++ (flagged b false ∷ back))) e start in
            omega arith
      ] in
    let size_b = (middle-Agrees h front b back lists ok).size_reads in
    subst (λ k. k.mem (b.at + b.size) ≡ 0)
      (sym (place-split h b.at b.size size size_b (ground arith)))
      (subst (λ a. (insert_seg_free_list h₂ q).mem a ≡ 0) (omega arith)
        (inserted_prev h₂ q (list_of_size (bytes_of m₃ q)) (apart (list_of_size (bytes_of m₃ q)))))
