-- ===== src/Allocator/Freeing.antt =====
-- `coalescing_with_higher_address` and `sf_free` of dynamic_memory_allocator/src/sfmm.c against a
-- release of blocks in the row.
use linux_system.Prelude.{
  ℕ, ◌+◌, ◌-◌, ◌%◌, ◌^◌, ◌≤◌, ◌<◌, ◌≡◌, ◌⊎◌, refl, sym, subst, ◌∙◌, inl, inr, Bool, true, false,
  not, ◌&&◌, ◌||◌, List, [], ◌∷◌, ◌++◌, ◌==◌, if◌then◌else◌, arith, All, Bool-cases, ltb, none,
}
use linux_system.Allocator.{
  Heap, allocated, block_size, bytes_of, plus, minus, write_block, insert_seg_free_list,
  coalescing_with_higher_address,
}
use linux_system.Allocator.Calls.{Util, returned, aborted, is_invalid, to_header, release, sf_free}
use linux_system.Allocator.Fields.{shifted_back}
use linux_system.Allocator.Layout.{Block, Agrees, IsHeap, IsSmall}
use linux_system.Allocator.Geometry.{All-split, All-append}
use linux_system.Allocator.Changes.{flagged}
use linux_system.Allocator.Relisting.{middle-Agrees, middle-size, IsHeap-enlist, IsSmall-kept}
use linux_system.Allocator.Writing.{middle-Tiles, block_of, NoneListed-one, IsHeap-merge}
use linux_system.Allocator.Coalescing.{
  AtRest, absorbed, beyond, coalescing_with_higher_address-IsHeap,
}

pub absorbed-at : (b : Block) (back : List Block) → (absorbed b back).at ≡ b.at
absorbed-at b [] = refl
absorbed-at b (c ∷ back) = ground arith

pub absorbed-unlisted :
    (b : Block) (back : List Block) → b.in_list ≡ false → (absorbed b back).in_list ≡ false
absorbed-unlisted b [] e = e
absorbed-unlisted b (c ∷ back) e = ground arith

release-steps :
    (h : Heap) (p size : ℕ)
    → bytes_of h.mem p ≡ size
    → release h p
      ≡ insert_seg_free_list
          (coalescing_with_higher_address (record h { mem = write_block h.mem p size 0 0 0 }) p)
          p
unfolding release
release-steps h p size e = rw e refl

-- A block of the program, given back.
pub release-IsHeap :
    (h : Heap) (front : List Block) (b : Block) (back : List Block) (lists : ℕ → List ℕ)
    → IsHeap h (front ++ (b ∷ back)) lists
    → b.in_list ≡ false
    → All AtRest back
    → IsSmall h
    → (lists' : ℕ → List ℕ) × IsHeap
        (release h b.at)
        (front ++ (flagged (absorbed (block_of b.at b.size 0 0 0 false) back) true ∷ beyond back))
        lists'
release-IsHeap h front b back lists ok unlisted rest lt =
    let (lo, least, rows, hi) = middle-size h front b back lists ok in
    let loose = block_of b.at b.size 0 0 0 false in
    let h₁ = record h { mem = write_block h.mem b.at b.size 0 0 0 } in
    let (tf, tb) = middle-Tiles h front b back lists ok in
    let ok₁ : IsHeap h₁ (front ++ (loose ∷ back)) lists =
      IsHeap-merge h front (b ∷ []) back lists b.at b.size 0 0 0 ok (NoneListed-one b unlisted) tf
        tb
        (record {
          rows = rows;
          least = omega arith;
          most = omega (arith, lt.span);
          bit = omega arith;
          pad_bit = omega arith;
        })
        least (omega arith) in
    let (lists₂, ok₂) =
      coalescing_with_higher_address-IsHeap h₁ front loose back lists ok₁ refl rest
        (IsSmall-kept h h₁ (refl, refl) lt) in
    let whole = absorbed loose back in
    let (lists₃, ok₃) =
      IsHeap-enlist (coalescing_with_higher_address h₁ b.at) front whole (beyond back) lists₂ ok₂
        (absorbed-unlisted loose back refl) in
    (
      lists₃,
      subst (λ k. IsHeap k (front ++ (flagged whole true ∷ beyond back)) lists₃)
          (sym (release-steps h b.at b.size (middle-Agrees h front b back lists ok).size_reads))
          (subst
            (λ p.
              IsHeap (insert_seg_free_list (coalescing_with_higher_address h₁ b.at) p)
                (front ++ (flagged whole true ∷ beyond back)) lists₃)
            (absorbed-at loose back) ok₃),
    )

-- What `sf_free` asks of the block that it is given: a footer whose `requested_size` fills the
-- payload, or the padded bit.
abbrev pub IsFilled : Block → Type 0
IsFilled b = (b.pad ≡ 1) ⊎ (b.requested + 16 ≡ b.size)

pub valid-used :
    (h : Heap) (b : Block)
    → Agrees h.mem b
    → b.bit ≡ 1
    → IsFilled b
    → 0 < h.start_of_heap
    → h.start_of_heap ≤ b.at
    → b.at + b.size ≤ h.end_of_heap
    → 32 ≤ b.size
    → b.size < 2 ^ 31
    → h.end_of_heap < 2 ^ 63
    → is_invalid h b.at ≡ false
unfolding is_invalid
valid-used h b r used filled pos lo hi least small high =
    let bit_hd = r.allocated_reads in
    let bit_ft = r.footer_allocated in
    let pad_hd = r.padded_reads in
    let pad_ft = r.footer_padded in
    let req = r.footer_requested in
    let size_ft =
      shifted_back (block_size (h.mem (b.at + b.size - 8))) b.size (omega arith) r.footer_size
        small in
    let at_ft : minus (plus b.at b.size) 8 ≡ b.at + b.size - 8 = omega arith in
    let not_null : (b.at == 0) ≡ false = ground arith in
    let above : ltb b.at h.start_of_heap ≡ false = ground arith in
    let inside : ltb h.end_of_heap b.at ≡ false = ground arith in
    let same_pad : (b.pad == b.pad) ≡ true = ground arith in
    let fills : (not ((b.requested + 16) % 2 ^ 32 == b.size) && not (b.pad == 1)) ≡ false =
      elim filled [ inl e ↦ ground arith | inr e ↦ ground arith ] in
    rw
      (
        r.size_reads, at_ft, bit_hd, pad_hd, bit_ft, pad_ft, req, size_ft, used, not_null, above,
        inside, same_pad,
      )
      fills

fourth_test : (a b c d e f : Bool) → (a || b || c || true || d || e || f) ≡ true
fourth_test true b c d e f = refl
fourth_test false true c d e f = refl
fourth_test false false true d e f = refl
fourth_test false false false d e f = refl

invalid-free : (h : Heap) (p : ℕ) → allocated (h.mem p) ≡ 0 → is_invalid h p ≡ true
unfolding is_invalid
invalid-free h p free =
    let t : (allocated (h.mem p) == 0) ≡ true = ground arith in
    rw t (fourth_test (p == 0) (ltb p h.start_of_heap) (ltb h.end_of_heap p) _ _ _)

pub header_of : (p : ℕ) → p < 2 ^ 63 → to_header (p + 8) ≡ p
header_of p lt = omega arith

pub absorbed-bit : (b : Block) (back : List Block) → b.bit ≡ 0 → (absorbed b back).bit ≡ 0
absorbed-bit b [] e = e
absorbed-bit b (c ∷ back) e = ground arith

pub beyond-AtRest : (back : List Block) → All AtRest back → All AtRest (beyond back)
beyond-AtRest [] h = tt
beyond-AtRest (c ∷ back) (hc, h) = elim (Bool-cases c.in_list) [
  | inl e ↦ rw e h
  | inr e ↦ subst (λ v. All AtRest (if v then back else c ∷ back)) (sym e) (hc, h)
]

-- The row of blocks after a call of `sf_free`.
abbrev pub freed : List Block → Block → List Block → List Block
freed front b back =
    front ++ (flagged (absorbed (block_of b.at b.size 0 0 0 false) back) true ∷ beyond back)

module _ {S : Type 0} (u : Util S) (s : S) where
  free-valid :
      (h : Heap) (p : ℕ)
      → p < 2 ^ 63
      → is_invalid h p ≡ false
      → sf_free u h s (p + 8) ≡ returned (release h p) s 0 none
  unfolding sf_free
  free-valid h p lt ok =
      subst
        (λ q.
          (if is_invalid h q then aborted else returned (release h q) s 0 none)
          ≡ returned (release h p) s 0 none)
        (sym (header_of p lt)) (rw ok refl)

  free-invalid :
      (h : Heap) (p : ℕ) → p < 2 ^ 63 → is_invalid h p ≡ true → sf_free u h s (p + 8) ≡ aborted
  unfolding sf_free
  free-invalid h p lt bad =
      subst (λ q. (if is_invalid h q then aborted else returned (release h q) s 0 none) ≡ aborted)
        (sym (header_of p lt)) (rw bad refl)

  -- In a heap between two calls, of less than 2 GB and ending below 2 ^ 63, `sf_free` of a block of
  -- the program whose footer is filled returns. The heap is then the same row of blocks, with this block free and in the list of
  -- its size, and with the block behind taken in where that was free; all lists are linked right.
  -- A second `sf_free` of the pointer aborts.
  pub sf_free-IsHeap :
      (h : Heap) (front : List Block) (b : Block) (back : List Block) (lists : ℕ → List ℕ)
      → IsHeap h (front ++ (b ∷ back)) lists
      → All AtRest (front ++ (b ∷ back))
      → b.bit ≡ 1
      → IsFilled b
      → IsSmall h
      → (h' : Heap) × (sf_free u h s (b.at + 8) ≡ returned h' s 0 none)
        × ((lists' : ℕ → List ℕ) × IsHeap h' (freed front b back) lists')
        × All AtRest (freed front b back)
        × (sf_free u h' s (b.at + 8) ≡ aborted)
  sf_free-IsHeap h front b back lists ok rest used filled lt =
      let (rest_f, (rest_b, rest_back)) = All-split AtRest front (b ∷ back) rest in
      let (lo, least, rows, hi) = middle-size h front b back lists ok in
      let high : b.at < 2 ^ 63 = omega (arith, lt.high) in
      let agree = middle-Agrees h front b back lists ok in
      let loose = block_of b.at b.size 0 0 0 false in
      let whole = absorbed loose back in
      let (lists', ok') = release-IsHeap h front b back lists ok (ground arith) rest_back lt in
      let free_now = absorbed-bit loose back refl in
      let at_b = absorbed-at loose back in
      let agree' =
        middle-Agrees (release h b.at) front (flagged whole true) (beyond back) lists' ok' in
      let bit_0 : allocated ((release h b.at).mem b.at) ≡ 0 =
        subst (λ a. allocated ((release h b.at).mem a) ≡ 0) at_b
          (agree'.allocated_reads ∙ free_now) in
      (
        release h b.at,
        free-valid h b.at high
            (valid-used h b agree used filled ok.pos lo hi least (omega (arith, lt.span)) lt.high),
        (lists', ok'),
        All-append AtRest front (flagged whole true ∷ beyond back) rest_f
            (free_now, beyond-AtRest back rest_back),
        free-invalid (release h b.at) b.at high (invalid-free (release h b.at) b.at bit_0),
      )
