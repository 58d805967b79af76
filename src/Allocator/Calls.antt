-- ===== src/Allocator/Calls.antt =====
-- The calls of dynamic_memory_allocator/src/sfmm.c that a program makes, and `extend_heap`. The
-- functions of sfutil.c are a parameter, the record `Util`: `sf_sbrk` moves the break, or fails,
-- and get_heap_start() and get_heap_end() read it.
use linux_system.Prelude.{
  ℕ, zero, suc, ◌+◌, ◌-◌, ◌*◌, ◌/◌, ◌%◌, ◌^◌, Bool, not, ◌&&◌, ◌||◌, Option, none, some, ◌==◌, ltb,
  leb, if◌then◌else◌,
}
use linux_system.Allocator.{
  Mem, upd, Heap, fit, no_fit, outside, running, allocated, padded, block_size, upper, bytes_of,
  plus, minus, write_block, insert_seg_free_list, find_fit, place, pad_of, size_of,
  coalescing_with_higher_address, coalescing_with_lower_address,
}

pub record Util (S : Type 0) : Type 0 where
  pub sf_sbrk : S → S × Bool
  pub get_heap_start : S → ℕ
  pub get_heap_end : S → ℕ

-- `sf_errno`
pub data SfErrno : Type 0 where
  einval enomem : SfErrno

-- How a call ends: it returns a pointer, it calls abort(), it reads `seg_free_list[-1]`, or its
-- loops are not over.
pub data Ended (S : Type 0) : Type 0 where
  returned : Heap → S → ℕ → Option SfErrno → Ended S
  aborted out_of_bounds unfinished : Ended S

-- The tests of `sf_free` and `sf_realloc` on a header; true is a call of abort(). The sum with
-- `requested_size` is one of 32 bits.
unfoldable pub is_invalid : Heap → ℕ → Bool
is_invalid h p =
    let hd = h.mem p in
    let ft = h.mem (minus (plus p (bytes_of h.mem p)) 8) in
    (p == 0)
    || ltb p h.start_of_heap
    || ltb h.end_of_heap p
    || (allocated hd == 0)
    || not (padded hd == padded ft)
    || not (allocated hd == allocated ft)
    || not ((upper ft + 16) % 2 ^ 32 == block_size ft * 16) && not (padded ft == 1)

-- `ptr - 8`, on 64 bits.
abbrev pub to_header : ℕ → ℕ
to_header ptr = minus ptr 8

-- `sf_free` behind its tests.
unfoldable pub release : Heap → ℕ → Heap
unfolding coalescing_with_higher_address
release h p =
    insert_seg_free_list
      (coalescing_with_higher_address
        (record h { mem = write_block h.mem p (bytes_of h.mem p) 0 0 0 }) p)
      p

-- `memcpy` of words.
pub copy_words : ℕ → Mem → ℕ → ℕ → Mem
copy_words zero m dst src = m
copy_words (suc n) m dst src = copy_words n (upd m dst (m src)) (dst + 8) (src + 8)

-- The payload of a block, on 64 bits.
abbrev pub payload : ℕ → ℕ
payload old = minus old 16

module _ {S : Type 0} (u : Util S) where
  -- `write_block(p, 4096, 0, 0, 0)` and the insertion of the new page.
  unfoldable pub new_page : Heap → S → ℕ → Heap
  new_page h s p =
      insert_seg_free_list
        (record h {
          mem = write_block h.mem p 4096 0 0 0;
          start_of_heap = u.get_heap_start s;
          end_of_heap = u.get_heap_end s;
        })
        p

  -- The first call does not look at what `sf_sbrk` returns. `none` is NULL.
  unfoldable pub extend_heap : Heap → S → Option Heap × S
  unfolding new_page coalescing_with_lower_address
  extend_heap h s =
      let (s', grown) = u.sf_sbrk s in
      let old_end = u.get_heap_end s in
      if h.start_of_heap == 0
      then (some (new_page h s' (u.get_heap_start s')), s')
      else if grown
      then (some (coalescing_with_lower_address (new_page h s' old_end) old_end), s')
      else (none, s')

  -- The loop of `sf_malloc`, on fuel, with what follows it; `long` is the fuel of a walk.
  unfoldable pub malloc_loop : ℕ → ℕ → Heap → S → ℕ → Ended S
  unfolding extend_heap find_fit place
  malloc_loop zero long h s size = unfinished
  malloc_loop (suc fuel) long h s size = elim (find_fit long h size) [
    | fit p ↦ returned (place h p size) s (p + 8) none
    | outside ↦ out_of_bounds
    | running ↦ unfinished
    | no_fit ↦
        let (grown, s') = extend_heap h s in
        elim grown [
          | none ↦ returned h s' 0 (some enomem)
          | some h' ↦ malloc_loop fuel long h' s' size
        ]
  ]

  unfoldable pub sf_malloc : ℕ → ℕ → Heap → S → ℕ → Ended S
  unfolding malloc_loop
  sf_malloc fuel long h s size =
      if ltb 16384 size || leb size 0
      then returned h s 0 (some einval)
      else malloc_loop fuel long h s size

  unfoldable pub sf_free : Heap → S → ℕ → Ended S
  unfolding release
  sf_free h s ptr =
      let p = to_header ptr in if is_invalid h p then aborted else returned (release h p) s 0 none

  -- A block that has to grow: a new one, with the content of the old.
  pub move_block : ℕ → ℕ → Heap → S → ℕ → ℕ → Ended S
  unfolding sf_malloc copy_words sf_free
  move_block fuel long h s p size =
      let old = bytes_of h.mem p in
      elim (sf_malloc fuel long h s size) [
        | returned h₁ s₁ q e ↦
            if q == 0
            then returned h₁ s₁ 0 e
            else let m = copy_words (payload old / 8) h₁.mem q (p + 8) in
              elim (sf_free (record h₁ { mem = m }) s₁ (p + 8)) [
                | returned h₂ s₂ _ _ ↦ returned h₂ s₂ q e
                | other ↦ other
              ]
        | other ↦ other
      ]

  -- A block that shrinks: in place, or split where what is left has room for a block.
  unfoldable pub shrink_block : Heap → S → ℕ → ℕ → Ended S
  unfolding sf_free
  shrink_block h s p size =
      let old = bytes_of h.mem p in
      if ltb (payload old - size) 32
      then returned (record h { mem = write_block h.mem p old size 1 1 }) s (p + 8) none
      else let bs = size_of size in
        let m₁ = write_block h.mem p bs size 1 (pad_of size) in
        let m₂ = write_block m₁ (p + bs) (old - bs) 1 1 1 in
        elim (sf_free (record h { mem = m₂ }) s (p + bs + 8)) [
          | returned h₁ s₁ _ _ ↦ returned h₁ s₁ (p + 8) none
          | other ↦ other
        ]

  -- `sf_realloc` behind its tests.
  unfoldable pub resize : ℕ → ℕ → Heap → S → ℕ → ℕ → Ended S
  resize fuel long h s p size =
      let old = payload (bytes_of h.mem p) in
      if size == 0
      then sf_free h s (p + 8)
      else if ltb old size
      then move_block fuel long h s p size
      else if ltb size old
      then shrink_block h s p size
      else returned (record h { mem = write_block h.mem p (bytes_of h.mem p) size 1 (pad_of size) })
          s (p + 8) none

  unfoldable pub sf_realloc : ℕ → ℕ → Heap → S → ℕ → ℕ → Ended S
  sf_realloc fuel long h s ptr size =
      let p = to_header ptr in if is_invalid h p then aborted else resize fuel long h s p size
