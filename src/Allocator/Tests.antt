-- ===== src/Allocator/Tests.antt =====
-- The theorems on dynamic_memory_allocator/src/sfmm.c at small heaps.
use linux_system.Prelude.{
  ℕ, zero, suc, ◌+◌, ◌-◌, ◌<◌, ◌≡◌, ◌≢◌, refl, inl, List, [], ◌∷◌, ◌==◌, if◌then◌else◌, arith,
  length,
}
use linux_system.Allocator.{
  Heap, fit, shifted, two_zeroes, upper, write_block, remove_seg_free_list_helper, find_fit,
  list_of_size,
}
use linux_system.Allocator.Fields.{Reads, write_block-Reads}
use linux_system.Allocator.Segments.{Spread, Seg}
use linux_system.Allocator.FreeList.{IsList, Leaves}
use linux_system.Allocator.Removal.{remove-Leaves}
use linux_system.Allocator.Search.{first_fit, find_fit-first_fit}

abbrev head_of_three : ℕ → ℕ
head_of_three zero = 64
head_of_three (suc n) = 0

-- Free blocks of 64 bytes at 64, 192 and 320 in the first list.
abbrev three_free : Heap
three_free = record {
  mem = λ a.
      if a == 64
      then 64
      else if a == 72
      then 192
      else if a == 192
      then 64
      else if a == 200
      then 320
      else if a == 208
      then 64
      else if a == 320
      then 64
      else if a == 336
      then 192
      else 0;
  head = head_of_three;
  start_of_heap = 64;
  end_of_heap = 4160;
}

abbrev lists_of_three : ℕ → List ℕ
lists_of_three zero = 64 ∷ 192 ∷ 320 ∷ []
lists_of_three (suc n) = []

three_free-IsList : (n : ℕ) → IsList three_free n (lists_of_three n)
unfolding Seg
three_free-IsList zero = (
  320,
  (refl, omega arith, refl, (refl, omega arith, refl, (refl, omega arith, refl, (refl, refl)))),
)
three_free-IsList (suc n) = (0, (refl, refl))

apart_three : Spread (64 ∷ 192 ∷ 320 ∷ [])
apart_three = ((inl (omega arith), (inl (omega arith), tt)), ((inl (omega arith), tt), (tt, tt)))

lengths : (n : ℕ) → length (lists_of_three n) < 4
lengths zero = omega arith
lengths (suc n) = omega arith

write_block-Reads_example :
    let m' = write_block three_free.mem 64 64 40 1 1 in
    Reads m' 64 64 1 1 40
    × (upper (m' 64) ≡ 0)
    × (two_zeroes (m' 64) ≡ 0)
    × ((b : ℕ) → b ≢ 64 → b ≢ 64 + 64 - 8 → m' b ≡ three_free.mem b)
write_block-Reads_example =
    write_block-Reads three_free.mem 64 64 40 1 1
      (record {
        rows = refl;
        least = omega arith;
        most = omega arith;
        bit = omega arith;
        pad_bit = omega arith;
      })
      (omega arith)

remove-Leaves_example :
    Leaves three_free 0
      (64 ∷ 192 ∷ 320 ∷ [])
      (64 ∷ 320 ∷ [])
      (remove_seg_free_list_helper three_free 192 0)
remove-Leaves_example =
    remove-Leaves three_free 0 192 (64 ∷ []) (320 ∷ []) (three_free-IsList 0) apart_three

find_fit-first_fit_example : find_fit 4 three_free 40 ≡ fit 64
unfolding first_fit list_of_size shifted
find_fit-first_fit_example =
    find_fit-first_fit 4 three_free 40 lists_of_three three_free-IsList lengths (omega arith)
