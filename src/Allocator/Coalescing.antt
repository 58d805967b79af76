-- ===== src/Allocator/Coalescing.antt =====
-- `coalescing_with_higher_address` of dynamic_memory_allocator/src/sfmm.c on the blocks of the heap.
use linux_system.Prelude.{
  ℕ, ◌+◌, ◌^◌, ◌<◌, ◌≡◌, ◌≢◌, ◌⊎◌, refl, sym, ap, subst, ◌∙◌, inl, inr, Bool, true, false, List, [],
  ◌∷◌, ◌++◌, append_assoc, ◌==◌, if◌then◌else◌, arith, All, Bool-cases,
}
use linux_system.Allocator.{
  Heap, allocated, bytes_of, plus, write_block, remove_seg_free_list,
  coalescing_with_higher_address,
}
use linux_system.Allocator.Layout.{Block, Tiles, IsHeap, IsSmall, Tiles-le}
use linux_system.Allocator.Changes.{flagged}
use linux_system.Allocator.Relisting.{middle-Agrees, middle-size, IsHeap-unlist}
use linux_system.Allocator.Writing.{middle-Tiles, block_of, NoneListed-two, IsHeap-merge}

-- Between two calls the free blocks are those in the lists.
abbrev pub AtRest : Block → Type 0
AtRest b = (b.bit ≡ (if b.in_list then 0 else 1))

-- A free block that takes in the one behind it, if that is free.
abbrev pub absorbed : Block → List Block → Block
absorbed b [] = b
absorbed b (c ∷ back) = if c.in_list then block_of b.at (b.size + c.size) 0 0 0 false else b

abbrev pub beyond : List Block → List Block
beyond [] = []
beyond (c ∷ back) = if c.in_list then back else c ∷ back

pub alone-higher :
    (h : Heap) (p : ℕ)
    → (allocated (h.mem (plus p (bytes_of h.mem p))) ≡ 1)
      ⊎ (plus p (bytes_of h.mem p) ≡ h.end_of_heap)
    → coalescing_with_higher_address h p ≡ h
unfolding coalescing_with_higher_address
alone-higher h p (inl e) =
    let t : (allocated (h.mem (plus p (bytes_of h.mem p))) == 1) ≡ true = ground arith in rw t refl
alone-higher h p (inr e) = elim (Bool-cases (allocated (h.mem (plus p (bytes_of h.mem p))) == 1)) [
  | inl t ↦ rw t refl
  | inr n ↦
      let t : (plus p (bytes_of h.mem p) == h.end_of_heap) ≡ true = ground arith in rw (n, t) refl
]

abbrev pub merged_with : Heap → ℕ → ℕ → ℕ → Heap
merged_with h p size q =
    let h₁ = remove_seg_free_list h q in
    record h₁ { mem = write_block h₁.mem p (size + bytes_of h₁.mem q) 0 0 0 }

pub merging-higher :
    (h : Heap) (p size : ℕ)
    → bytes_of h.mem p ≡ size
    → allocated (h.mem (p + size)) ≡ 0
    → p + size ≢ h.end_of_heap
    → p + size < 2 ^ 64
    → coalescing_with_higher_address h p ≡ merged_with h p size (p + size)
unfolding coalescing_with_higher_address
merging-higher h p size e free inside high =
    let at_q : plus p (bytes_of h.mem p) ≡ p + size = ap (λ s. plus p s) e ∙ omega arith in
    subst (λ s. coalescing_with_higher_address h p ≡ merged_with h p s (p + size)) e
      (subst (λ q. coalescing_with_higher_address h p ≡ merged_with h p (bytes_of h.mem p) q) at_q
        (let n : (allocated (h.mem (plus p (bytes_of h.mem p))) == 1) ≡ false =
            subst (λ q. (allocated (h.mem q) == 1) ≡ false) (sym at_q) (ground arith) in
          let t : (plus p (bytes_of h.mem p) == h.end_of_heap) ≡ false =
            subst (λ q. (q == h.end_of_heap) ≡ false) (sym at_q) (ground arith) in
          rw (n, t) refl))

-- Rows with the same blocks.
pub regroup :
    (front : List Block) (b : Block) (back : List Block)
    → (front ++ (b ∷ [])) ++ back ≡ front ++ (b ∷ back)
regroup front b back = append_assoc front (b ∷ []) back

-- Two blocks of a small heap.
below :
    (h : Heap) (front : List Block) (b c : Block) (back : List Block) (lists : ℕ → List ℕ)
    → IsHeap h (front ++ (b ∷ c ∷ back)) lists
    → IsSmall h
    → (b.size + c.size < 2 ^ 31) × (b.at + b.size < 2 ^ 63)
unfolding Tiles
below h front b c back lists ok small =
    let (lo, _, _, _) = middle-size h front b (c ∷ back) lists ok in
    let (_, (behind_b, _, _, t)) = middle-Tiles h front b (c ∷ back) lists ok in
    let hi = Tiles-le (b.at + b.size + c.size) back h.end_of_heap t in
    (omega (arith, small.span), omega (arith, small.high))

-- The block behind is free: both become one.
pub higher-free :
    (h : Heap) (front : List Block) (b c : Block) (back : List Block) (lists : ℕ → List ℕ)
    → IsHeap h (front ++ (b ∷ c ∷ back)) lists
    → b.in_list ≡ false
    → c.in_list ≡ true
    → c.bit ≡ 0
    → IsSmall h
    → (lists' : ℕ → List ℕ) × IsHeap
        (coalescing_with_higher_address h b.at)
        (front ++ (block_of b.at (b.size + c.size) 0 0 0 false ∷ back))
        lists'
unfolding Tiles
higher-free h front b c back lists ok unlisted listed free small =
    let (lt, high) = below h front b c back lists ok small in
    let new = block_of b.at (b.size + c.size) 0 0 0 false in
    let (_, (behind_b, c_least, c_rows, _)) = middle-Tiles h front b (c ∷ back) lists ok in
    let (_, b_least, b_rows, _) = middle-size h front b (c ∷ back) lists ok in
    let ok_c = subst (λ r. IsHeap h r lists) (sym (regroup front b (c ∷ back))) ok in
    let agree_b = middle-Agrees h front b (c ∷ back) lists ok in
    let agree_c = middle-Agrees h (front ++ (b ∷ [])) c back lists ok_c in
    let (_, _, _, c_below) = middle-size h (front ++ (b ∷ [])) c back lists ok_c in
    let (lists₁, ok₁) = IsHeap-unlist h (front ++ (b ∷ [])) c back lists ok_c listed in
    let h₁ = remove_seg_free_list h c.at in
    let c₁ = flagged c false in
    let ok₁_b = subst (λ r. IsHeap h₁ r lists₁) (regroup front b (c₁ ∷ back)) ok₁ in
    let (tf, (_, _, _, tb)) = middle-Tiles h₁ front b (c₁ ∷ back) lists₁ ok₁_b in
    let merged =
      IsHeap-merge h₁ front (b ∷ c₁ ∷ []) back lists₁ b.at (b.size + c.size) 0 0 0 ok₁_b
        (NoneListed-two b c₁ unlisted refl) tf
        (subst (λ e. Tiles e back h₁.end_of_heap) (omega arith) tb)
        (record {
          rows = omega arith;
          least = omega arith;
          most = lt;
          bit = omega arith;
          pad_bit = omega arith;
        })
        (omega arith) (omega arith) in
    let at_c : IsHeap (merged_with h b.at b.size c.at) (front ++ (new ∷ back)) lists₁ =
      subst
        (λ s.
          IsHeap (record h₁ { mem = write_block h₁.mem b.at (b.size + s) 0 0 0 })
            (front ++ (new ∷ back)) lists₁)
        (sym (middle-Agrees h₁ (front ++ (b ∷ [])) c₁ back lists₁ ok₁).size_reads) merged in
    let free_c : allocated (h.mem (b.at + b.size)) ≡ 0 =
      subst (λ a. allocated (h.mem a) ≡ 0) behind_b (agree_c.allocated_reads ∙ free) in
    (
      lists₁,
      subst (λ k. IsHeap k (front ++ (new ∷ back)) lists₁)
          (sym (
            merging-higher h b.at b.size agree_b.size_reads free_c (λ e. omega arith)
              (omega arith)))
          (subst (λ a. IsHeap (merged_with h b.at b.size a) (front ++ (new ∷ back)) lists₁) behind_b
            at_c),
    )

-- There is no block behind, or it is used.
pub higher-last :
    (h : Heap) (front : List Block) (b : Block) (lists : ℕ → List ℕ)
    → IsHeap h (front ++ (b ∷ [])) lists
    → IsSmall h
    → coalescing_with_higher_address h b.at ≡ h
unfolding Tiles
higher-last h front b lists ok small =
    let (_, last) = middle-Tiles h front b [] lists ok in
    let size_b = (middle-Agrees h front b [] lists ok).size_reads in
    alone-higher h b.at (inr (ap (λ s. plus b.at s) size_b ∙ omega (arith, small.high)))

pub higher-used :
    (h : Heap) (front : List Block) (b c : Block) (back : List Block) (lists : ℕ → List ℕ)
    → IsHeap h (front ++ (b ∷ c ∷ back)) lists
    → c.bit ≡ 1
    → IsSmall h
    → coalescing_with_higher_address h b.at ≡ h
unfolding Tiles
higher-used h front b c back lists ok used small =
    let (_, high) = below h front b c back lists ok small in
    let (_, (behind_b, _, _, _)) = middle-Tiles h front b (c ∷ back) lists ok in
    let ok_c = subst (λ r. IsHeap h r lists) (sym (regroup front b (c ∷ back))) ok in
    let size_b = (middle-Agrees h front b (c ∷ back) lists ok).size_reads in
    let bit_c = (middle-Agrees h (front ++ (b ∷ [])) c back lists ok_c).allocated_reads in
    alone-higher h b.at (
      inl
        (ap (λ a. allocated (h.mem a)) (ap (λ s. plus b.at s) size_b ∙ omega arith) ∙ bit_c ∙ used))

-- `coalescing_with_higher_address` on a free block that stands in no list.
pub coalescing_with_higher_address-IsHeap :
    (h : Heap) (front : List Block) (b : Block) (back : List Block) (lists : ℕ → List ℕ)
    → IsHeap h (front ++ (b ∷ back)) lists
    → b.in_list ≡ false
    → All AtRest back
    → IsSmall h
    → (lists' : ℕ → List ℕ) × IsHeap
        (coalescing_with_higher_address h b.at)
        (front ++ (absorbed b back ∷ beyond back))
        lists'
coalescing_with_higher_address-IsHeap h front b [] lists ok unlisted rest lt = (
  lists,
  subst (λ k. IsHeap k (front ++ (b ∷ [])) lists) (sym (higher-last h front b lists ok lt)) ok,
)
coalescing_with_higher_address-IsHeap h front b (c ∷ back) lists ok unlisted (rest_c, rest) lt =
    let Merged : Bool → Type 0 = λ v.
      (lists' : ℕ → List ℕ) × IsHeap (coalescing_with_higher_address h b.at)
        (front
          ++ ((if v then block_of b.at (b.size + c.size) 0 0 0 false else b)
              ∷ (if v then back else c ∷ back)))
        lists' in
    elim (Bool-cases c.in_list) [
      | inl e ↦
          subst Merged (sym e) (higher-free h front b c back lists ok unlisted e (ground arith) lt)
      | inr e ↦ subst Merged (sym e) (
        lists,
        subst (λ k. IsHeap k (front ++ (b ∷ c ∷ back)) lists)
            (sym (higher-used h front b c back lists ok (ground arith) lt)) ok,
      )
    ]
