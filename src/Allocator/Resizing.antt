-- ===== src/Allocator/Resizing.antt =====
-- `sf_realloc` of dynamic_memory_allocator/src/sfmm.c where the block has room for the new size.
use linux_system.Prelude.{
  ℕ, ◌+◌, ◌-◌, ◌^◌, ◌≤◌, ◌<◌, ◌≡◌, refl, sym, ap, subst, ◌∙◌, inl, inr, true, false, List, [], ◌∷◌,
  ◌++◌, ◌==◌, if◌then◌else◌, arith, All, none, ltb, Bool-cases, append_assoc,
}
use linux_system.Allocator.{Heap, bytes_of, pad_of, size_of, write_block}
use linux_system.Allocator.Calls.{
  Util, returned, aborted, is_invalid, payload, sf_free, shrink_block, resize, sf_realloc,
}
use linux_system.Allocator.Layout.{Block, IsHeap, IsSmall}
use linux_system.Allocator.Geometry.{All-split, All-append}
use linux_system.Allocator.Relisting.{middle-Agrees, middle-size, IsSmall-kept}
use linux_system.Allocator.Writing.{
  block_of, split_mem, middle-Tiles, NoneListed-one, IsHeap-merge, IsHeap-split,
}
use linux_system.Allocator.Coalescing.{AtRest}
use linux_system.Allocator.Freeing.{IsFilled, freed, header_of, valid-used, sf_free-IsHeap}
use linux_system.Allocator.Placing.{size_of-bounds, pad_of-bit}

-- The row after a block has been cut down to `size` bytes.
abbrev pub kept_whole : List Block → Block → ℕ → ℕ → List Block → List Block
kept_whole front b size pad back = front ++ (block_of b.at b.size size 1 pad false ∷ back)

abbrev pub cut : List Block → Block → ℕ → List Block → List Block
cut front b size back =
    freed (front ++ (block_of b.at (size_of size) size 1 (pad_of size) false ∷ []))
      (block_of (b.at + size_of size) (b.size - size_of size) 1 1 1 false) back

abbrev pub resized : List Block → Block → ℕ → List Block → List Block
resized front b size back =
    if ltb size (b.size - 16)
    then if ltb (b.size - 16 - size) 32
      then kept_whole front b size 1 back
      else cut front b size back
    else kept_whole front b size (pad_of size) back

kept-IsHeap :
    (h : Heap) (front : List Block) (b : Block) (back : List Block) (lists : ℕ → List ℕ)
    (size pad : ℕ)
    → IsHeap h (front ++ (b ∷ back)) lists
    → b.in_list ≡ false
    → b.size < 2 ^ 31
    → size < 2 ^ 32
    → pad ≤ 1
    → IsHeap
        (record h { mem = write_block h.mem b.at b.size size 1 pad })
        (kept_whole front b size pad back)
        lists
kept-IsHeap h front b back lists size pad ok unlisted lt fits bit =
    let (_, least, rows, _) = middle-size h front b back lists ok in
    let (tf, tb) = middle-Tiles h front b back lists ok in
    IsHeap-merge h front (b ∷ []) back lists b.at b.size size 1 pad ok (NoneListed-one b unlisted)
      tf tb
      (record { rows = rows; least = omega arith; most = lt; bit = omega arith; pad_bit = bit })
      least fits

kept-AtRest :
    (front : List Block) (b : Block) (back : List Block) (size pad : ℕ)
    → All AtRest (front ++ (b ∷ back))
    → All AtRest (kept_whole front b size pad back)
kept-AtRest front b back size pad rest =
    let (rest_f, (_, rest_back)) = All-split AtRest front (b ∷ back) rest in
    All-append AtRest front (block_of b.at b.size size 1 pad false ∷ back) rest_f (refl, rest_back)

module _ {S : Type 0} (u : Util S) (s : S) where
  -- The rest of the block is given to `sf_free`.
  cut-IsHeap :
      (h : Heap) (front : List Block) (b : Block) (back : List Block) (lists : ℕ → List ℕ)
      (size : ℕ)
      → IsHeap h (front ++ (b ∷ back)) lists
      → All AtRest (front ++ (b ∷ back))
      → b.in_list ≡ false
      → IsSmall h
      → 0 < size
      → size + 48 ≤ b.size
      → (h' : Heap) × (lists' : ℕ → List ℕ) × (sf_free u
            (record h {
              mem =
                  split_mem h.mem b.at
                    (size_of size)
                    size
                    1
                    (pad_of size)
                    (b.size - size_of size)
                    1
                    1
                    1;
            })
            s
            (b.at + size_of size + 8)
          ≡ returned h' s 0 none)
        × IsHeap h' (cut front b size back) lists'
        × All AtRest (cut front b size back)
  cut-IsHeap h front b back lists size ok rest unlisted lt pos room =
      let bs = size_of size in
      let (lo, least, rows, hi) = middle-size h front b back lists ok in
      let small : b.size < 2 ^ 31 = omega (arith, lt.span) in
      let (bs_least, bs_room, bs_most, bs_rows) = size_of-bounds size pos in
      let used = block_of b.at bs size 1 (pad_of size) false in
      let left = block_of (b.at + bs) (b.size - bs) 1 1 1 false in
      let h₁ = record h {
        mem = split_mem h.mem b.at bs size 1 (pad_of size) (b.size - bs) 1 1 1;
      } in
      let ok₁ =
        IsHeap-split bs size 1 (pad_of size) (b.size - bs) 1 1 1 h front b back lists ok unlisted
          (omega arith)
          (record {
            rows = bs_rows;
            least = omega arith;
            most = omega arith;
            bit = omega arith;
            pad_bit = pad_of-bit size;
          })
          (record {
            rows = omega arith;
            least = omega arith;
            most = omega arith;
            bit = omega arith;
            pad_bit = omega arith;
          })
          bs_least (omega arith) (omega arith) (omega arith) in
      let (rest_f, (_, rest_back)) = All-split AtRest front (b ∷ back) rest in
      let rest₁ : All AtRest (front ++ (used ∷ left ∷ back)) =
        All-append AtRest front (used ∷ left ∷ back) rest_f (refl, (refl, rest_back)) in
      let regroup = sym (append_assoc front (used ∷ []) (left ∷ back)) in
      let (h', frees, (lists', ok'), rest', _) =
        sf_free-IsHeap u s h₁ (front ++ (used ∷ [])) left back lists
          (subst (λ r. IsHeap h₁ r lists) regroup ok₁) (subst (λ r. All AtRest r) regroup rest₁)
          refl (inl refl) (IsSmall-kept h h₁ (refl, refl) lt) in
      (h', lists', frees, ok', rest')

  shrink-whole :
      (h : Heap) (p old size : ℕ)
      → bytes_of h.mem p ≡ old
      → ltb (payload old - size) 32 ≡ true
      → shrink_block u h s p size
        ≡ returned (record h { mem = write_block h.mem p old size 1 1 }) s (p + 8) none
  unfolding shrink_block
  shrink-whole h p old size e t = rw (e, t) refl

  shrink-split :
      (h h' : Heap) (p old size q : ℕ)
      → bytes_of h.mem p ≡ old
      → ltb (payload old - size) 32 ≡ false
      → sf_free u
          (record h {
            mem = split_mem h.mem p (size_of size) size 1 (pad_of size) (old - size_of size) 1 1 1;
          })
          s
          (p + size_of size + 8)
        ≡ returned h' s q none
      → shrink_block u h s p size ≡ returned h' s (p + 8) none
  unfolding shrink_block
  shrink-split h h' p old size q e t f = rw (e, t, f) refl

  realloc-resize :
      (fuel long : ℕ) (h : Heap) (p size : ℕ)
      → p < 2 ^ 63
      → is_invalid h p ≡ false
      → sf_realloc u fuel long h s (p + 8) size ≡ resize u fuel long h s p size
  unfolding sf_realloc
  realloc-resize fuel long h p size lt ok =
      subst
        (λ q.
          (if is_invalid h q then aborted else resize u fuel long h s q size)
          ≡ resize u fuel long h s p size)
        (sym (header_of p lt)) (rw ok refl)

  resize-shrinks :
      (fuel long : ℕ) (h : Heap) (p size : ℕ)
      → 0 < size
      → size < payload (bytes_of h.mem p)
      → resize u fuel long h s p size ≡ shrink_block u h s p size
  unfolding resize
  resize-shrinks fuel long h p size pos lt =
      let null : (size == 0) ≡ false = ground arith in
      let a : ltb (payload (bytes_of h.mem p)) size ≡ false = ground arith in
      let b : ltb size (payload (bytes_of h.mem p)) ≡ true = ground arith in rw (null, a, b) refl

  resize-same :
      (fuel long : ℕ) (h : Heap) (p size : ℕ)
      → 0 < size
      → size ≡ payload (bytes_of h.mem p)
      → resize u fuel long h s p size
        ≡ returned
            (record h { mem = write_block h.mem p (bytes_of h.mem p) size 1 (pad_of size) })
            s
            (p + 8)
            none
  unfolding resize
  resize-same fuel long h p size pos e =
      let null : (size == 0) ≡ false = ground arith in
      let a : ltb (payload (bytes_of h.mem p)) size ≡ false = ground arith in
      let b : ltb size (payload (bytes_of h.mem p)) ≡ false = ground arith in rw (null, a, b) refl

  -- In a heap at rest, of less than 2 GB and ending below 2 ^ 63, `sf_realloc` of a used block whose
  -- footer is filled, to a size
  -- from 1 byte to its payload, returns the same pointer. The heap is then the same row of blocks
  -- with the new size in this block's footer; where 32 bytes or more of the payload are not needed,
  -- they are cut off and freed, together with the block behind if that was free.
  pub sf_realloc-IsHeap :
      (fuel long : ℕ) (h : Heap) (front : List Block) (b : Block) (back : List Block)
      (lists : ℕ → List ℕ) (size : ℕ)
      → IsHeap h (front ++ (b ∷ back)) lists
      → All AtRest (front ++ (b ∷ back))
      → b.bit ≡ 1
      → IsFilled b
      → IsSmall h
      → 0 < size
      → size + 16 ≤ b.size
      → (h' : Heap) × (lists' : ℕ → List ℕ) × (sf_realloc u fuel long h s (b.at + 8) size
          ≡ returned h' s (b.at + 8) none)
        × IsHeap h' (resized front b size back) lists'
        × All AtRest (resized front b size back)
  sf_realloc-IsHeap fuel long h front b back lists size ok rest used filled lt pos room =
      let (lo, least, rows, hi) = middle-size h front b back lists ok in
      let agree = middle-Agrees h front b back lists ok in
      let (_, (rest_b, _)) = All-split AtRest front (b ∷ back) rest in
      let unlisted : b.in_list ≡ false = ground arith in
      let size_b = agree.size_reads in
      let below_2_gb : b.size < 2 ^ 31 = omega (arith, lt.span) in
      let pay : payload b.size ≡ b.size - 16 = omega arith in
      let pay_h : payload (bytes_of h.mem b.at) ≡ b.size - 16 = ap (λ o. payload o) size_b ∙ pay in
      let tested =
        realloc-resize fuel long h b.at size (omega (arith, lt.high))
          (valid-used h b agree used filled ok.pos lo hi least below_2_gb lt.high) in
      elim (Bool-cases (ltb size (b.size - 16))) [
        | inr e ↦
            let same : size ≡ b.size - 16 = ground arith in
            let result =
              kept-IsHeap h front b back lists size (pad_of size) ok unlisted (omega arith)
                (omega arith) (pad_of-bit size) in
            rw e (
              record h { mem = write_block h.mem b.at b.size size 1 (pad_of size) },
              lists,
              tested
                  ∙ resize-same fuel long h b.at size pos (same ∙ sym pay_h)
                  ∙ ap
                      (λ o.
                        returned (record h { mem = write_block h.mem b.at o size 1 (pad_of size) })
                          s (b.at + 8) none)
                      size_b,
              result,
              kept-AtRest front b back size (pad_of size) rest,
            )
        | inl e ↦
            let smaller =
              resize-shrinks fuel long h b.at size pos
                (subst (λ o. size < o) (sym pay_h) (ground arith)) in
            elim (Bool-cases (ltb (b.size - 16 - size) 32)) [
              | inl small ↦
                  let t = ap (λ o. ltb (o - size) 32) pay ∙ small in
                  rw (e, small)
                    (
                      record h { mem = write_block h.mem b.at b.size size 1 1 },
                      lists,
                      tested ∙ smaller ∙ shrink-whole h b.at b.size size size_b t,
                      kept-IsHeap h front b back lists size 1 ok unlisted (omega arith)
                          (omega arith) (omega arith),
                      kept-AtRest front b back size 1 rest,
                    )
              | inr large ↦
                  let t = ap (λ o. ltb (o - size) 32) pay ∙ large in
                  let (h', lists', frees, ok', rest') =
                    cut-IsHeap h front b back lists size ok rest unlisted lt pos (ground arith) in
                  rw (e, large)
                    (
                      h',
                      lists',
                      tested ∙ smaller ∙ shrink-split h h' b.at b.size size 0 size_b t frees,
                      ok',
                      rest',
                    )
            ]
      ]
