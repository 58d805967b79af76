-- ===== src/Allocator/CallTests.antt =====
-- The calls of dynamic_memory_allocator/src/sfmm.c on small heaps.
use linux_system.Prelude.{
  ℕ, zero, suc, ◌+◌, ◌*◌, ◌^◌, ◌<◌, ◌≡◌, refl, inr, true, false, List, [], ◌∷◌, ◌++◌, ◌==◌,
  if◌then◌else◌, arith, length, ◌-◌, ltb, ◌⊎◌, All, none, ◌≤◌,
}
use linux_system.Allocator.{Heap, shifted, list_of_size, place}
use linux_system.Allocator.Segments.{Seg}
use linux_system.Allocator.FreeList.{IsList}
use linux_system.Allocator.Calls.{Util, returned, aborted, sf_free, sf_malloc}
use linux_system.Allocator.Layout.{Block, Tiles, IsHeap, IsSmall, occurrences, listed_at}
use linux_system.Allocator.Coalescing.{AtRest}
use linux_system.Allocator.Freeing.{freed, sf_free-IsHeap}
use linux_system.Allocator.Placing.{placed}
use linux_system.Allocator.Splinter.{place-splinter}
use linux_system.Allocator.Allocation.{sf_malloc-IsHeap}
use linux_system.Allocator.Search.{first_fit}
use linux_system.Allocator.Calls.{sf_realloc, extend_heap}
use linux_system.Allocator.Resizing.{resized, sf_realloc-IsHeap}
use linux_system.Allocator.Growth.{extended, extend_heap-IsHeap}
use linux_system.Allocator.Rounds.{Budget, Serves, Refuses}
use linux_system.Allocator.Supply.{sf_malloc-Serves}
use linux_system.Allocator.Start.{first-Serves}
use linux_system.Prelude.{some}

-- A used block of 64 bytes, a free one of 96 and a used one of 32, from 64.
abbrev head_at_128 : ℕ → ℕ
head_at_128 zero = 128
head_at_128 (suc n) = 0

abbrev three_blocks : Heap
three_blocks = record {
  mem = λ a.
      if a == 64
      then 65
      else if a == 120
      then 65 + 48 * 2 ^ 32
      else if a == 128
      then 96
      else if a == 216
      then 96
      else if a == 224
      then 33
      else if a == 248
      then 33 + 16 * 2 ^ 32
      else 0;
  head = head_at_128;
  start_of_heap = 64;
  end_of_heap = 256;
}

abbrev first_used : Block
first_used = record { at = 64; size = 64; bit = 1; in_list = false; pad = 0; requested = 48 }

abbrev second_free : Block
second_free = record { at = 128; size = 96; bit = 0; in_list = true; pad = 0; requested = 0 }

abbrev third_used : Block
third_used = record { at = 224; size = 32; bit = 1; in_list = false; pad = 0; requested = 16 }

abbrev row : List Block
row = first_used ∷ second_free ∷ third_used ∷ []

abbrev list_at_128 : ℕ → List ℕ
list_at_128 zero = 128 ∷ []
list_at_128 (suc n) = []

one_listed : (n : ℕ) → IsList three_blocks n (list_at_128 n)
unfolding Seg
one_listed zero = (128, (refl, omega arith, refl, (refl, refl)))
one_listed (suc n) = (0, (refl, refl))

one_counted : (n x : ℕ) → occurrences x (list_at_128 n) ≡ listed_at n x row
unfolding occurrences listed_at list_of_size
one_counted zero x = ground arith
one_counted (suc n) x = ground arith

row-IsHeap : IsHeap three_blocks row list_at_128
unfolding Tiles shifted
row-IsHeap = record {
  pos = omega arith;
  tiles = (refl, omega arith, refl, (refl, omega arith, refl, (refl, omega arith, refl, refl)));
  agrees = (
    record {
      size_reads = refl;
      allocated_reads = refl;
      padded_reads = refl;
      footer_size = refl;
      footer_allocated = refl;
      footer_padded = refl;
      footer_requested = refl;
    },
    (
      record {
        size_reads = refl;
        allocated_reads = refl;
        padded_reads = refl;
        footer_size = refl;
        footer_allocated = refl;
        footer_padded = refl;
        footer_requested = refl;
      },
      (
        record {
          size_reads = refl;
          allocated_reads = refl;
          padded_reads = refl;
          footer_size = refl;
          footer_allocated = refl;
          footer_padded = refl;
          footer_requested = refl;
        },
        tt,
      ),
    ),
  );
  chained = one_listed;
  same = one_counted;
}

-- The break as a number of pages from 64.
abbrev pages : Util ℕ
pages = record {
  sf_sbrk = λ s. (s + 1, true);
  get_heap_start = λ s. 64;
  get_heap_end = λ s. 64 + s * 4096;
}

three_blocks-IsSmall : IsSmall three_blocks
three_blocks-IsSmall = record { span = omega arith; high = omega arith }

sf_free-IsHeap_example :
    (h' : Heap) × (sf_free pages three_blocks 1 72 ≡ returned h' 1 0 none)
    × ((lists' : ℕ → List ℕ) × IsHeap h'
          (freed [] first_used (second_free ∷ third_used ∷ []))
          lists')
    × All AtRest (freed [] first_used (second_free ∷ third_used ∷ []))
    × (sf_free pages h' 1 72 ≡ aborted)
sf_free-IsHeap_example =
    sf_free-IsHeap pages 1 three_blocks [] first_used (second_free ∷ third_used ∷ []) list_at_128
      row-IsHeap (refl, (refl, (refl, tt))) refl (inr refl) three_blocks-IsSmall

place-splinter_example : (place three_blocks 128 64).mem 224 ≡ 0
place-splinter_example =
    place-splinter three_blocks (first_used ∷ []) second_free (third_used ∷ []) list_at_128 64
      row-IsHeap refl (omega arith) (omega arith) refl

one_length : (n : ℕ) → length (list_at_128 n) < 2
one_length zero = omega arith
one_length (suc n) = omega arith

sf_malloc-IsHeap_example :
    (front : List Block) × (b : Block) × (back : List Block) × (h' : Heap) × (row
      ≡ front ++ (b ∷ back))
    × (b.at ≡ 128)
    × (b.in_list ≡ true)
    × (40 + 16 ≤ b.size)
    × (sf_malloc pages 1 2 three_blocks 1 40 ≡ returned h' 1 136 none)
    × ((lists' : ℕ → List ℕ) × IsHeap h' (front ++ (placed b 40 ++ back)) lists')
    × All AtRest (front ++ (placed b 40 ++ back))
    × ((h'' : Heap) × (sf_free pages h' 1 136 ≡ returned h'' 1 0 none))
unfolding first_fit list_of_size shifted
sf_malloc-IsHeap_example =
    sf_malloc-IsHeap pages 1 0 2 three_blocks row list_at_128 40 128 row-IsHeap
      (refl, (refl, (refl, tt))) (omega arith) (omega arith) three_blocks-IsSmall one_length
      ((λ e. omega arith), ((λ e. omega arith), ((λ e. omega arith), tt))) refl

sf_realloc-IsHeap_example :
    (h' : Heap) × (lists' : ℕ → List ℕ) × (sf_realloc pages 1 2 three_blocks 1 72 8
      ≡ returned h' 1 72 none)
    × IsHeap h' (resized [] first_used 8 (second_free ∷ third_used ∷ [])) lists'
    × All AtRest (resized [] first_used 8 (second_free ∷ third_used ∷ []))
sf_realloc-IsHeap_example =
    sf_realloc-IsHeap pages 1 1 2 three_blocks [] first_used (second_free ∷ third_used ∷ [])
      list_at_128 8 row-IsHeap (refl, (refl, (refl, tt))) refl (inr refl) three_blocks-IsSmall
      (omega arith) (omega arith)

-- Four pages behind the three blocks.
abbrev pages_behind : Util ℕ
pages_behind = record {
  sf_sbrk = λ s. if ltb s 4 then (s + 1, true) else (s, false);
  get_heap_start = λ s. 64;
  get_heap_end = λ s. 256 + s * 4096;
}

extend_heap-IsHeap_example :
    (h' : Heap) × (lists' : ℕ → List ℕ) × (extend_heap pages_behind three_blocks 0 ≡ (some h', 1))
    × IsHeap h' (extended 256 (first_used ∷ second_free ∷ []) third_used) lists'
    × All AtRest (extended 256 (first_used ∷ second_free ∷ []) third_used)
    × (h'.start_of_heap ≡ 64)
    × (h'.end_of_heap ≡ 256 + 4096)
extend_heap-IsHeap_example =
    extend_heap-IsHeap pages_behind 0 1 three_blocks (first_used ∷ second_free ∷ []) third_used
      list_at_128 row-IsHeap (refl, (refl, (refl, tt)))
      (record { span = omega arith; high = omega arith })
      (record { sbrk = refl; old_end = refl; same_start = refl; new_end = refl })

more_left : (s n : ℕ) → 4 - s ≡ suc n → ltb s 4 ≡ true
more_left s n e = ground arith

none_left : (s : ℕ) → 4 - s ≡ 0 → ltb s 4 ≡ false
none_left s e = ground arith

behind-Budget : Budget pages_behind 64
behind-Budget = record {
  left = λ s. 4 - s;
  after = λ s. s + 1;
  failed = λ s. s;
  some_left = λ s n e. omega arith;
  given = λ s n e. let t = more_left s n e in rw t refl;
  refused = λ s e. let t = none_left s e in rw t refl;
  first_start = λ s n e z. refl;
  first_end = λ s n e z. absurd (omega arith);
  same_start = λ s n e pos. refl;
  new_end = λ s n e pos. omega arith;
}

sf_malloc-Serves_example :
    let outcome = sf_malloc pages_behind 5 9 three_blocks 0 4000 in
    Serves outcome 4000 64 (256 + 4096 * 4)
    ⊎ (Refuses outcome 4000 64 (256 + 4096 * 4) × (4096 * 4 < 4000 + 16))
unfolding behind-Budget
sf_malloc-Serves_example =
    sf_malloc-Serves pages_behind 64 behind-Budget 4 9 0 three_blocks
      (first_used ∷ second_free ∷ []) third_used list_at_128 4000
      (record {
        row = row-IsHeap;
        rest = (refl, (refl, (refl, tt)));
        its_start = refl;
        its_end = refl;
      })
      refl (omega arith) (omega arith) (omega arith) (omega arith) (omega arith)

-- Four pages in all, the first at 64.
abbrev four_pages : Util ℕ
four_pages = record {
  sf_sbrk = λ s. if ltb s 4 then (s + 1, true) else (s, false);
  get_heap_start = λ s. if s == 0 then 0 else 64;
  get_heap_end = λ s. if s == 0 then 0 else 64 + s * 4096;
}

four_pages-Budget : Budget four_pages 64
four_pages-Budget = record {
  left = λ s. 4 - s;
  after = λ s. s + 1;
  failed = λ s. s;
  some_left = λ s n e. omega arith;
  given = λ s n e. let t = more_left s n e in rw t refl;
  refused = λ s e. let t = none_left s e in rw t refl;
  first_start = λ s n e z. ground arith;
  first_end = λ s n e z. ground arith;
  same_start = λ s n e pos. ground arith;
  new_end = λ s n e pos. ground arith;
}

abbrev no_heap : Heap
no_heap = record { mem = λ a. 0; head = λ n. 0; start_of_heap = 0; end_of_heap = 0 }

first-Serves_example : Refuses (sf_malloc four_pages 5 9 no_heap 0 16384) 16384 64 (64 + 4096 * 4)
unfolding four_pages-Budget
first-Serves_example =
    first-Serves four_pages 64 four_pages-Budget (omega arith) 3 9 0 no_heap 16384
      (record { unset = refl; no_lists = λ n. refl; no_page = refl }) refl (omega arith)
      (omega arith) (omega arith) (omega arith) (omega arith)
