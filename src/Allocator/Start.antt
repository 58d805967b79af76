-- ===== src/Allocator/Start.antt =====
-- The first call of `sf_malloc` of dynamic_memory_allocator/src/sfmm.c, on a heap without a page.
use linux_system.Prelude.{
  ℕ, suc, ◌+◌, ◌*◌, ◌^◌, ◌≤◌, ◌<◌, ◌≡◌, ◌⊎◌, refl, sym, subst, ◌∙◌, inl, inr, true, false, List, [],
  ◌==◌, arith, some, ltb, leb, if◌then◌else◌, Bool-cases,
}
use linux_system.Allocator.{
  Mem, Heap, bytes_of, insert_seg_free_list, fit, no_fit, find_fit, list_of_size,
}
use linux_system.Allocator.Calls.{Util, extend_heap, new_page, malloc_loop, sf_malloc}
use linux_system.Allocator.Segments.{Seg}
use linux_system.Allocator.Layout.{Block, Tiles, IsHeap, occurrences, listed_at}
use linux_system.Allocator.Relisting.{IsHeap-enlist, insert-SameBounds, middle-Agrees, middle-size}
use linux_system.Allocator.Search.{first_fit, searched, searches}
use linux_system.Allocator.Found.{first_fit-fits, searched-listed, listed_at-split}
use linux_system.Allocator.Lowering.{page, grown, grown-IsHeap}
use linux_system.Allocator.Rounds.{Budget, Ready, Serves, Refuses, loop-extends}
use linux_system.Allocator.Supply.{loop-Serves}

-- The heap at the start of the program.
pub record IsFresh {S : Type 0} (u : Util S) (s : S) (h : Heap) : Type 0 where
  pub unset : h.start_of_heap ≡ 0
  pub no_lists : (n : ℕ) → h.head n ≡ 0
  pub no_page : u.get_heap_start s ≡ 0

abbrev bounded : Heap → ℕ → Heap
bounded h p = record h { start_of_heap = p; end_of_heap = p }

-- A heap of no blocks.
bounded-IsHeap :
    (h : Heap) (p : ℕ) → 0 < p → ((n : ℕ) → h.head n ≡ 0) → IsHeap (bounded h p) [] (λ n. [])
unfolding Tiles Seg occurrences listed_at
bounded-IsHeap h p pos heads = record {
  pos = pos;
  tiles = refl;
  agrees = tt;
  chained = λ n. (0, (refl, heads n));
  same = λ n x. refl;
}

-- A search of empty lists.
nothing : (k : ℕ) (m : Mem) (asize : ℕ) → first_fit m asize (searched (λ n. []) k) ≡ no_fit
unfolding first_fit
nothing k m asize = elim (Bool-cases (k == 0)) [
  | inl e ↦ rw e refl
  | inr n₀ ↦ elim (Bool-cases (k == 1)) [
    | inl e ↦ rw (n₀, e) refl
    | inr n₁ ↦ elim (Bool-cases (k == 2)) [
      | inl e ↦ rw (n₀, n₁, e) refl
      | inr n₂ ↦ rw (n₀, n₁, n₂) refl
    ]
  ]
]

-- What the search finds lies in the heap.
found-room :
    (h : Heap) (bs : List Block) (lists : ℕ → List ℕ) (size p : ℕ)
    → IsHeap h bs lists
    → first_fit h.mem (size + 16) (searched lists (list_of_size (size + 16))) ≡ fit p
    → h.start_of_heap + size + 16 ≤ h.end_of_heap
found-room h bs lists size p ok found_p =
    let (occurs, fits_p) =
      first_fit-fits h.mem (size + 16) (searched lists (list_of_size (size + 16))) p found_p in
    let (n, in_n) = searched-listed lists (list_of_size (size + 16)) p occurs in
    let (front, b, back, split, at_p, _) =
      listed_at-split n p bs (subst (λ c. 0 < c) (ok.same n p) in_n) in
    let ok_b = subst (λ r. IsHeap h r lists) split ok in
    let (lo, _, _, hi) = middle-size h front b back lists ok_b in
    let size_p : bytes_of h.mem p ≡ b.size =
      subst (λ a. bytes_of h.mem a ≡ b.size) at_p
        (middle-Agrees h front b back lists ok_b).size_reads in
    let room : size + 16 ≤ b.size = ground arith in omega arith

module _ {S : Type 0} (u : Util S) (base : ℕ) (system : Budget u base) (pos : 0 < base) where
  -- The first page.
  first_page : Heap → Heap
  first_page h = insert_seg_free_list (grown (bounded h base)) base

  extend_heap-first :
      (h : Heap) (s : S) (n : ℕ)
      → IsFresh u s h
      → system.left s ≡ suc n
      → extend_heap u h s ≡ (some (first_page h), system.after s)
  unfolding extend_heap new_page first_page
  extend_heap-first h s n fresh more =
      let t : (h.start_of_heap == 0) ≡ true = ground (arith, fresh.unset) in
      rw
        (
          system.given s n more,
          t,
          system.first_start s n more fresh.no_page,
          system.first_end s n more fresh.no_page,
        )
        refl

  first_page-Ready :
      (h : Heap) (s : S) (n : ℕ)
      → IsFresh u s h
      → system.left s ≡ suc n
      → (lists : ℕ → List ℕ) × Ready u (system.after s) (first_page h) [] (page base true) lists
  unfolding first_page
  first_page-Ready h s n fresh more =
      let (lists, ok) =
        IsHeap-enlist (grown (bounded h base)) [] (page base false) [] (λ n. [])
          (grown-IsHeap (bounded h base) [] (λ n. []) (bounded-IsHeap h base pos fresh.no_lists))
          refl in
      let (same_start, same_end) = insert-SameBounds (grown (bounded h base)) base in
      (
        lists,
        record {
          row = ok;
          rest = (refl, tt);
          its_start = system.first_start s n more fresh.no_page ∙ sym same_start;
          its_end = system.first_end s n more fresh.no_page ∙ sym same_end;
        },
      )

  fresh-no_fit :
      (long : ℕ) (h : Heap) (s : S) (size : ℕ)
      → IsFresh u s h
      → 16 ≤ size
      → size ≤ 16384
      → 0 < long
      → find_fit long h size ≡ no_fit
  unfolding first_fit Seg
  fresh-no_fit long h s size fresh least most enough =
      searches long h size (λ n. []) (λ n. (0, (refl, fresh.no_lists n))) (λ n. enough) least most
      ∙ nothing (list_of_size (size + 16)) h.mem (size + 16)

  -- The loop from the start of the program.
  first_loop :
      (n long : ℕ) (s : S) (h : Heap) (size : ℕ)
      → IsFresh u s h
      → system.left s ≡ suc n
      → 4096 * suc n < 2 ^ 31
      → base + 4096 * suc n < 2 ^ 63
      → 16 ≤ size
      → size ≤ 16384
      → suc n < long
      → let outcome = malloc_loop u (suc (suc n)) long h s size in
        Serves outcome size base (base + 4096 * suc n)
        ⊎ (Refuses outcome size base (base + 4096 * suc n) × (4096 * suc n < size + 16))
  first_loop n long s h size fresh more span below least most enough =
      let (lists, ready) = first_page-Ready h s n fresh more in
      let ends = sym ready.its_end ∙ system.first_end s n more fresh.no_page in
      let starts = sym ready.its_start ∙ system.first_start s n more fresh.no_page in
      let top = base + 4096 * suc n in
      let looped =
        loop-Serves u base system n 1 long (system.after s) (first_page h) [] (page base true) lists
          size base top ready (system.some_left s n more) starts (omega arith) (omega arith) below
          (λ _. (refl, omega arith)) least most (omega arith) in
      subst (λ o. Serves o size base top ⊎ (Refuses o size base top × (4096 * suc n < size + 16)))
        (sym (
          loop-extends u base system (suc n) long h (first_page h) s (system.after s) size
            (fresh-no_fit long h s size fresh least most (omega arith))
            (extend_heap-first h s n fresh more)))
        (elim looped [
          | inl served ↦ inl served
          | inr (refused, short) ↦ inr (refused, omega arith)
        ])

  -- At the start of the program, where `sf_sbrk` adds a page as long as one is left, there are some, and they are less than 2 GB that
  -- end below 2 ^ 63, `sf_malloc` of 16 bytes to four pages ends within one round of its loop more
  -- than there are pages. Where all pages together have room for the size with header and footer, it
  -- returns what `place` makes of a block that the search finds in a heap at rest; where they have
  -- not, it returns NULL with ENOMEM, with all pages taken.
  pub first-Serves :
      (n long : ℕ) (s : S) (h : Heap) (size : ℕ)
      → IsFresh u s h
      → system.left s ≡ suc n
      → 4096 * suc n < 2 ^ 31
      → base + 4096 * suc n < 2 ^ 63
      → 16 ≤ size
      → size ≤ 16384
      → suc n < long
      → let outcome = sf_malloc u (suc (suc n)) long h s size in
        if leb (size + 16) (4096 * suc n)
        then Serves outcome size base (base + 4096 * suc n)
        else Refuses outcome size base (base + 4096 * suc n)
  unfolding sf_malloc
  first-Serves n long s h size fresh more span below least most enough =
      let large : ltb 16384 size ≡ false = ground arith in
      let small : leb size 0 ≡ false = ground arith in
      let looped = first_loop n long s h size fresh more span below least most enough in
      elim (Bool-cases (leb (size + 16) (4096 * suc n))) [
        | inl room ↦
            rw (large, small, room)
              (elim looped [ inl served ↦ served | inr (_, short) ↦ absurd (ground arith) ])
        | inr short ↦
            rw (large, small, short)
              (elim looped [
                | inl (h', s', bs, lists, p, ok, _, hit, _, at_base, under) ↦
                    let inside = found-room h' bs lists size p ok hit in absurd (ground arith)
                | inr (refused, _) ↦ refused
              ])
      ]
