-- ===== src/Allocator/Supply.antt =====
-- `sf_malloc` of dynamic_memory_allocator/src/sfmm.c with the pages that are left: its loop ends.
use linux_system.Prelude.{
  ℕ, zero, suc, ◌+◌, ◌*◌, ◌^◌, ◌≤◌, ◌<◌, ◌≡◌, ◌⊎◌, refl, sym, subst, ◌∙◌, inl, inr, true, false,
  List, [], ◌∷◌, ◌++◌, arith, Bool-cases, length, ltb, leb,
}
use linux_system.Allocator.{Heap, list_of_size}
use linux_system.Allocator.Calls.{Util, malloc_loop, sf_malloc}
use linux_system.Allocator.Layout.{Block}
use linux_system.Allocator.Geometry.{All-split}
use linux_system.Allocator.Coalescing.{AtRest}
use linux_system.Allocator.Search.{searched}
use linux_system.Allocator.Misses.{last-found}
use linux_system.Allocator.Rounds.{
  Budget, Ready, Serves, Refuses, first_fit-cases, page_taken, loop-extends, extend_heap-none,
  loop-refuses, Ready-extended, searching, serving,
}

module _ {S : Type 0} (u : Util S) (base : ℕ) (system : Budget u base) where
  -- The loop with `j` pages left, where the last block has taken in `k`.
  pub loop-Serves :
      (j k long : ℕ) (s : S) (h : Heap) (front : List Block) (l : Block) (lists : ℕ → List ℕ)
      (size low high : ℕ)
      → Ready u s h front l lists
      → system.left s ≡ j
      → h.start_of_heap ≡ low
      → h.end_of_heap + 4096 * j ≡ high
      → high < low + 2 ^ 31
      → high < 2 ^ 63
      → (0 < k → (l.in_list ≡ true) × (4096 * k ≤ l.size))
      → 16 ≤ size
      → size ≤ 16384
      → length front + 1 + j < long
      → Serves (malloc_loop u (suc j) long h s size) size low high
        ⊎ (Refuses (malloc_loop u (suc j) long h s size) size low high
            × (4096 * (k + j) < size + 16))
  loop-Serves zero k long s h front l lists size low high r none_left at_low at_high span below last
        least most enough =
      let search = searching u base system long s h front l lists size r least most (omega arith) in
      elim (first_fit-cases h.mem (size + 16) (searched lists (list_of_size (size + 16)))) [
        | inr hit ↦
            let (p, e) = hit in
            inl (
              serving u base system zero long s h front l lists size p low high r search e at_low
                (omega arith))
        | inl miss ↦
            let (_, (rest_l, _)) = All-split AtRest front (l ∷ []) r.rest in
            inr (
              (
                h,
                system.failed s,
                front ++ (l ∷ []),
                lists,
                r.row,
                r.rest,
                miss,
                loop-refuses u base system zero long h s (system.failed s) size (search ∙ miss) (
                    extend_heap-none u base system h s (system.failed s)
                      (system.refused s none_left) r.row.pos),
                at_low,
                omega arith,
              ),
              elim (Bool-cases (ltb (4096 * (k + 0)) (size + 16))) [
                | inl short ↦ ground arith
                | inr enough_left ↦
                    let (listed, large) = last (ground arith) in
                    absurd (
                      last-found h front l lists size r.row listed (ground arith) least
                        (ground arith) miss)
              ],
            )
      ]
  loop-Serves (suc j) k long s h front l lists size low high r more at_low at_high span below last
        least most enough =
      let search = searching u base system long s h front l lists size r least most (omega arith) in
      elim (first_fit-cases h.mem (size + 16) (searched lists (list_of_size (size + 16)))) [
        | inr hit ↦
            let (p, e) = hit in
            inl (
              serving u base system (suc j) long s h front l lists size p low high r search e at_low
                (omega arith))
        | inl miss ↦
            let (h', front', l', lists', steps, r', start', end', listed', size', len) =
              Ready-extended u base system s h front l lists j r more (omega arith) (omega arith) in
            subst
              (λ o.
                Serves o size low high
                ⊎ (Refuses o size low high × (4096 * (k + suc j) < size + 16)))
              (sym (
                loop-extends u base system (suc j) long h h' s (system.after s) size (search ∙ miss)
                  steps))
              (subst
                (λ t.
                  Serves (malloc_loop u (suc j) long h' (system.after s) size) size low high
                  ⊎ (Refuses (malloc_loop u (suc j) long h' (system.after s) size) size low high
                      × (4096 * t < size + 16)))
                (let e : suc k + j ≡ k + suc j = omega arith in e)
                (loop-Serves j (suc k) long (system.after s) h' front' l' lists' size low high r'
                  (system.some_left s j more) (start' ∙ at_low) (omega arith) span below
                  (λ _. (listed', page_taken k l.in_list l.size l'.size last size')) least most
                  (omega arith)))
      ]

  -- On a heap at rest of at least one block, where `sf_sbrk` adds a page as long as one is left, `sf_malloc` of 16 bytes to four pages ends within one
  -- round of its loop more than there are pages left. It returns what `place` makes of a block that
  -- the search finds in a heap at rest, or, where the pages left together have less room than the
  -- size with header and footer, it may return NULL with ENOMEM: all pages are then taken and the
  -- search finds nothing. The heap with the pages left has less than 2 GB and ends below 2 ^ 63.
  pub sf_malloc-Serves :
      (j long : ℕ) (s : S) (h : Heap) (front : List Block) (l : Block) (lists : ℕ → List ℕ)
      (size : ℕ)
      → Ready u s h front l lists
      → system.left s ≡ j
      → h.end_of_heap + 4096 * j < h.start_of_heap + 2 ^ 31
      → h.end_of_heap + 4096 * j < 2 ^ 63
      → 16 ≤ size
      → size ≤ 16384
      → length front + 1 + j < long
      → Serves (sf_malloc u (suc j) long h s size) size h.start_of_heap (h.end_of_heap + 4096 * j)
        ⊎ (Refuses
              (sf_malloc u (suc j) long h s size)
              size
              h.start_of_heap
              (h.end_of_heap + 4096 * j)
            × (4096 * j < size + 16))
  unfolding sf_malloc
  sf_malloc-Serves j long s h front l lists size r its_left span below least most enough =
      let large : ltb 16384 size ≡ false = ground arith in
      let small : leb size 0 ≡ false = ground arith in
      let looped =
        loop-Serves j 0 long s h front l lists size h.start_of_heap (h.end_of_heap + 4096 * j) r
          its_left refl refl span below (λ lt. absurd (omega arith)) least most enough in
      rw (large, small)
        (elim looped [
          | inl served ↦ inl served
          | inr (refused, short) ↦ inr (refused, omega arith)
        ])
