-- ===== src/Allocator/Placing.antt =====
-- `place` of dynamic_memory_allocator/src/sfmm.c on the blocks of the heap.
use linux_system.Prelude.{
  ℕ, ◌+◌, ◌-◌, ◌%◌, ◌^◌, ◌≤◌, ◌<◌, ◌≡◌, ◌≢◌, refl, sym, subst, inl, inr, Bool, true, false, List,
  [], ◌∷◌, ◌++◌, append_assoc, ◌==◌, if◌then◌else◌, arith, Bool-cases, ltb,
}
use linux_system.Allocator.{
  Heap, bytes_of, write_block, remove_seg_free_list, insert_seg_free_list, place, pad_of, size_of,
}
use linux_system.Allocator.Layout.{Block, IsHeap, IsSmall}
use linux_system.Allocator.Changes.{flagged}
use linux_system.Allocator.Relisting.{middle-Agrees, middle-size, IsHeap-unlist, IsHeap-enlist}
use linux_system.Allocator.Writing.{block_of, split_mem, IsHeap-rewrite, IsHeap-split}

-- The blocks that `place` makes of a free one.
abbrev pub placed : Block → ℕ → List Block
placed b size =
    if ltb b.size (size + 32)
    then block_of b.at b.size size 1 1 false ∷ []
    else block_of b.at (size_of size) size 1 (pad_of size) false
      ∷ block_of (b.at + size_of size) (b.size - size_of size) 0 0 0 true
      ∷ []

-- Where the free block behind a used one would have 16 bytes, less than its links take.
abbrev pub IsSplinter : Block → ℕ → Type 0
IsSplinter b size = b.size ≡ size_of size + 16

abbrev whole_of : Heap → ℕ → ℕ → ℕ → Heap
whole_of h p old size = remove_seg_free_list (record h { mem = write_block h.mem p old size 1 1 }) p

abbrev pub split_of : Heap → ℕ → ℕ → ℕ → Heap
split_of h p old size =
    let h₁ = remove_seg_free_list h p in
    insert_seg_free_list
      (record h₁ {
        mem = split_mem h₁.mem p (size_of size) size 1 (pad_of size) (old - size_of size) 0 0 0;
      })
      (p + size_of size)

place-whole :
    (h : Heap) (p old size : ℕ)
    → bytes_of h.mem p ≡ old
    → ltb old (size + 32) ≡ true
    → place h p size ≡ whole_of h p old size
unfolding place
place-whole h p old size e t = rw (e, t) refl

pub place-split :
    (h : Heap) (p old size : ℕ)
    → bytes_of h.mem p ≡ old
    → ltb old (size + 32) ≡ false
    → place h p size ≡ split_of h p old size
unfolding place
place-split h p old size e t = rw (e, t) refl

-- Bounds on what is split off.
pub size_of-bounds :
    (size : ℕ)
    → 0 < size
    → (32 ≤ size_of size)
      × (size + 16 ≤ size_of size)
      × (size_of size ≤ size + 31)
      × (size_of size % 16 ≡ 0)
size_of-bounds size pos = elim (Bool-cases (size % 16 == 0)) [
  | inl e ↦ rw e (ground arith, ground arith, ground arith, ground arith)
  | inr e ↦ rw e (ground arith, ground arith, ground arith, ground arith)
]

sixteens : (bs old : ℕ) → bs % 16 ≡ 0 → old % 16 ≡ 0 → bs < old → old ≢ bs + 16 → bs + 32 ≤ old
sixteens bs old e f lt ne = omega arith

pub left_over :
    (size old : ℕ)
    → 0 < size
    → size + 32 ≤ old
    → old % 16 ≡ 0
    → old ≢ size_of size + 16
    → size_of size + 32 ≤ old
left_over size old pos le rows ne =
    let (_, _, _, rows_bs) = size_of-bounds size pos in
    let (_, _, most, _) = size_of-bounds size pos in
    sixteens (size_of size) old rows_bs rows (omega arith) ne

pub pad_of-bit : (size : ℕ) → pad_of size ≤ 1
pad_of-bit size = ground arith

whole-IsHeap :
    (h : Heap) (front : List Block) (b : Block) (back : List Block) (lists : ℕ → List ℕ) (size : ℕ)
    → IsHeap h (front ++ (b ∷ back)) lists
    → b.in_list ≡ true
    → b.size < 2 ^ 31
    → size < 2 ^ 32
    → (lists' : ℕ → List ℕ) × IsHeap
        (whole_of h b.at b.size size)
        (front ++ (block_of b.at b.size size 1 1 false ∷ back))
        lists'
whole-IsHeap h front b back lists size ok listed lt fits =
    let (_, least, rows, hi) = middle-size h front b back lists ok in
    let ok₁ =
      IsHeap-rewrite h front b back lists size 1 1 ok
        (record {
          rows = rows;
          least = omega arith;
          most = lt;
          bit = omega arith;
          pad_bit = omega arith;
        })
        least fits in
    IsHeap-unlist (record h { mem = write_block h.mem b.at b.size size 1 1 }) front
      (block_of b.at b.size size 1 1 b.in_list) back lists ok₁ listed

split-IsHeap :
    (h : Heap) (front : List Block) (b : Block) (back : List Block) (lists : ℕ → List ℕ) (size : ℕ)
    → IsHeap h (front ++ (b ∷ back)) lists
    → b.in_list ≡ true
    → 0 < size
    → size_of size + 32 ≤ b.size
    → b.size < 2 ^ 31
    → (lists' : ℕ → List ℕ) × IsHeap
        (split_of h b.at b.size size)
        (front
          ++ (block_of b.at (size_of size) size 1 (pad_of size) false
              ∷ block_of (b.at + size_of size) (b.size - size_of size) 0 0 0 true
              ∷ back))
        lists'
split-IsHeap h front b back lists size ok listed pos room lt =
    let (_, least, rows, hi) = middle-size h front b back lists ok in
    let (bs_least, bs_room, bs_most, bs_rows) = size_of-bounds size pos in
    let bs = size_of size in
    let used = block_of b.at bs size 1 (pad_of size) false in
    let free = block_of (b.at + bs) (b.size - bs) 0 0 0 false in
    let (lists₁, ok₁) = IsHeap-unlist h front b back lists ok listed in
    let h₁ = remove_seg_free_list h b.at in
    let ok₂ =
      IsHeap-split bs size 1 (pad_of size) (b.size - bs) 0 0 0 h₁ front (flagged b false) back
        lists₁ ok₁ refl (omega arith)
        (record {
          rows = bs_rows;
          least = omega arith;
          most = omega arith;
          bit = omega arith;
          pad_bit = pad_of-bit size;
        })
        (record {
          rows = omega arith;
          least = omega arith;
          most = omega arith;
          bit = omega arith;
          pad_bit = omega arith;
        })
        bs_least (omega arith) (omega arith) (omega arith) in
    let h₂ = record h₁ {
      mem = split_mem h₁.mem b.at bs size 1 (pad_of size) (b.size - bs) 0 0 0;
    } in
    let (lists₃, ok₃) =
      IsHeap-enlist h₂ (front ++ (used ∷ [])) free back lists₁
        (subst (λ r. IsHeap h₂ r lists₁) (sym (append_assoc front (used ∷ []) (free ∷ back))) ok₂)
        refl in
    (
      lists₃,
      subst (λ r. IsHeap (split_of h b.at b.size size) r lists₃)
          (append_assoc front (used ∷ []) (flagged free true ∷ back)) ok₃,
    )

-- `place` of a request on a block of a free list that has room for it. Where what is left over is not
-- a splinter of 16 bytes, the heap is then the same row of blocks with this one used, as a whole or
-- up to the size of the request; the rest is a free block in the list of its own size.
pub place-IsHeap :
    (h : Heap) (front : List Block) (b : Block) (back : List Block) (lists : ℕ → List ℕ) (size : ℕ)
    → IsHeap h (front ++ (b ∷ back)) lists
    → b.in_list ≡ true
    → 0 < size
    → size + 16 ≤ b.size
    → IsSmall h
    → b.size ≢ size_of size + 16
    → (lists' : ℕ → List ℕ) × IsHeap (place h b.at size) (front ++ (placed b size ++ back)) lists'
place-IsHeap h front b back lists size ok listed pos room lt no_splinter =
    let (lo, least, rows, hi) = middle-size h front b back lists ok in
    let small : b.size < 2 ^ 31 = omega (arith, lt.span) in
    let old = (middle-Agrees h front b back lists ok).size_reads in
    let Placed : Bool → Type 0 = λ v.
      (lists' : ℕ → List ℕ) × IsHeap (place h b.at size)
        (front
          ++ ((if v
                then block_of b.at b.size size 1 1 false ∷ []
                else block_of b.at (size_of size) size 1 (pad_of size) false
                  ∷ block_of (b.at + size_of size) (b.size - size_of size) 0 0 0 true
                  ∷ [])
              ++ back))
        lists' in
    elim (Bool-cases (ltb b.size (size + 32))) [
      | inl e ↦
          let (lists', ok') =
            whole-IsHeap h front b back lists size ok listed small (omega arith) in
          subst Placed (sym e) (
            lists',
            subst (λ k. IsHeap k (front ++ (block_of b.at b.size size 1 1 false ∷ back)) lists')
                (sym (place-whole h b.at b.size size old e)) ok',
          )
      | inr e ↦
          let rest = left_over size b.size pos (ground arith) rows no_splinter in
          let (lists', ok') = split-IsHeap h front b back lists size ok listed pos rest small in
          subst Placed (sym e) (
            lists',
            subst
                (λ k.
                  IsHeap k
                    (front
                      ++ (block_of b.at (size_of size) size 1 (pad_of size) false
                          ∷ block_of (b.at + size_of size) (b.size - size_of size) 0 0 0 true
                          ∷ back))
                    lists')
                (sym (place-split h b.at b.size size old e)) ok',
          )
    ]
