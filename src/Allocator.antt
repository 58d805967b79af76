-- ===== src/Allocator.antt =====
-- dynamic_memory_allocator/src/sfmm.c on the words of the heap: the headers and footers of blocks,
-- the segregated free lists, the search for a block, its placement and the two coalescings. An
-- address is a number and NULL is 0; the memory is a function from the address of a word of eight
-- bytes to its content. The code reads and writes whole words, at multiples of eight from a block.
-- Pointers wrap at 2 ^ 64 where a size from a header, which may be garbage, is added or taken off.
pub mod Fields
pub mod Segments
pub mod FreeList
pub mod Branches
pub mod Unlinking
pub mod Removal
pub mod Search
pub mod Layout
pub mod Geometry
pub mod Changes
pub mod Counts
pub mod Relisting
pub mod Writing
pub mod Coalescing
pub mod Freeing
pub mod Placing
pub mod Splinter
pub mod Found
pub mod Allocation
pub mod Lowering
pub mod Growth
pub mod Misses
pub mod Rounds
pub mod Supply
pub mod Start
pub mod Resizing
pub mod Calls
mod Tests
mod CallTests
use linux_system.Prelude.{
  ℕ, zero, suc, ◌+◌, ◌-◌, ◌*◌, ◌/◌, ◌%◌, ◌^◌, Bool, true, false, not, ◌&&◌, ◌||◌, Option, none,
  some, ◌==◌, ltb, leb, if◌then◌else◌,
}

abbrev pub Mem : Type 0
Mem = ℕ → ℕ

abbrev pub upd : Mem → ℕ → ℕ → Mem
upd m a w = λ b. if b == a then w else m b

-- The bit fields of `sf_header` and `sf_footer`, from the low end. The upper half of the word is
-- `unused` in a header and `requested_size` in a footer.
abbrev pub allocated : ℕ → ℕ
allocated w = w % 2

abbrev pub padded : ℕ → ℕ
padded w = w / 2 % 2

abbrev pub two_zeroes : ℕ → ℕ
two_zeroes w = w / 4 % 4

abbrev pub block_size : ℕ → ℕ
block_size w = w / 16 % 2 ^ 28

abbrev pub upper : ℕ → ℕ
upper w = w / 2 ^ 32

-- A word with the fields set and `two_zeroes` kept.
unfoldable pub with_fields : ℕ → ℕ → ℕ → ℕ → ℕ → ℕ
with_fields w a pad size up =
    a % 2 + pad % 2 * 2 + two_zeroes w * 4 + size % 2 ^ 28 * 16 + up * 2 ^ 32

-- `block_size << 4` on 64 bits: a field of 28 bits is an `int`, whose sign is extended.
unfoldable pub shifted : ℕ → ℕ
shifted f = if ltb f (2 ^ 27) then f * 16 else f * 16 + (2 ^ 64 - 2 ^ 32)

-- `header.block_size << 4` of the block at `p`.
abbrev pub bytes_of : Mem → ℕ → ℕ
bytes_of m p = shifted (block_size (m p))

-- Sums and differences of pointers.
abbrev pub plus : ℕ → ℕ → ℕ
plus a b = (a + b) % 2 ^ 64

abbrev pub minus : ℕ → ℕ → ℕ
minus a b = (a + 2 ^ 64 - b) % 2 ^ 64

unfoldable pub write_block : Mem → ℕ → ℕ → ℕ → ℕ → ℕ → Mem
write_block m p size requested a pad =
    let f = p + size - 8 in
    let m₁ = upd m p (with_fields (m p) a pad (size / 16) (upper (m p))) in
    upd m₁ f (with_fields (m₁ f) a pad (size / 16) (requested % 2 ^ 32))

-- The global variables: the heads of the four free lists by their index, and the bounds.
pub record Heap : Type 0 where
  pub mem : Mem
  pub head : ℕ → ℕ
  pub start_of_heap : ℕ
  pub end_of_heap : ℕ

abbrev pub next : Mem → ℕ → ℕ
next m p = m (p + 8)

abbrev pub prev : Mem → ℕ → ℕ
prev m p = m (p + 16)

abbrev pub set_next : Mem → ℕ → ℕ → Mem
set_next m p q = upd m (p + 8) q

abbrev pub set_prev : Mem → ℕ → ℕ → Mem
set_prev m p q = upd m (p + 16) q

abbrev pub set_head : (ℕ → ℕ) → ℕ → ℕ → ℕ → ℕ
set_head head n p = λ k. if k == n then p else head k

unfoldable pub insert_seg_free_list_helper : Heap → ℕ → ℕ → Heap
insert_seg_free_list_helper h p n =
    if h.head n == 0
    then record h { mem = set_prev (set_next h.mem p 0) p 0; head = set_head h.head n p }
    else record h {
      mem = set_prev (set_prev (set_next h.mem p (h.head n)) p 0) (h.head n) p;
      head = set_head h.head n p;
    }

-- The bounds of the lists; the last branch takes also what is smaller than the first list's least.
unfoldable pub list_of_size : ℕ → ℕ
list_of_size size =
    if leb 32 size && leb size 128
    then 0
    else if leb 129 size && leb size 512
    then 1
    else if leb 513 size && leb size 2048
    then 2
    else 3

unfoldable pub insert_seg_free_list : Heap → ℕ → Heap
insert_seg_free_list h p = insert_seg_free_list_helper h p (list_of_size (bytes_of h.mem p))

unfoldable pub remove_seg_free_list_helper : Heap → ℕ → ℕ → Heap
remove_seg_free_list_helper h p n =
    if not (prev h.mem p == 0) && not (next h.mem p == 0)
    then (let m₁ = set_next h.mem (prev h.mem p) (next h.mem p) in
        record h { mem = set_prev m₁ (next m₁ p) (prev m₁ p) })
    else if not (next h.mem p == 0)
    then (let q = next h.mem p in
        let m₁ = set_prev h.mem q 0 in
        record h { mem = set_next m₁ q (next m₁ (next m₁ p)); head = set_head h.head n q })
    else if not (prev h.mem p == 0)
    then record h { mem = set_prev (set_next h.mem (prev h.mem p) 0) p 0 }
    else record h { head = set_head h.head n 0 }

unfoldable pub remove_seg_free_list : Heap → ℕ → Heap
remove_seg_free_list h p = remove_seg_free_list_helper h p (list_of_size (bytes_of h.mem p))

-- What `find_fit` gives: a block, NULL, a read of `seg_free_list[-1]`, or a walk that is not over.
pub data Fit : Type 0 where
  fit : ℕ → Fit
  no_fit outside running : Fit

abbrev pub or_else : Fit → Fit → Fit
or_else no_fit other = other
or_else (fit p) other = fit p
or_else outside other = outside
or_else running other = running

abbrev pub fits : Mem → ℕ → ℕ → Bool
fits m asize p = (allocated (m p) == 0) && leb asize (bytes_of m p)

-- The walk along one list, on fuel.
pub walk : ℕ → Mem → ℕ → ℕ → Fit
walk zero m asize p = running
walk (suc fuel) m asize p =
    let rest = walk fuel m asize (next m p) in
    if p == 0 then no_fit else if fits m asize p then fit p else rest

-- `asize` is the wanted size with header and footer, on 64 bits. The index `n` stays -1 where it is below 32.
pub find_fit : ℕ → Heap → ℕ → Fit
unfolding walk
find_fit fuel h size =
    let asize = (size + 16) % 2 ^ 64 in
    let in_3 = walk fuel h.mem asize (h.head 3) in
    let in_2 = or_else (walk fuel h.mem asize (h.head 2)) in_3 in
    let in_1 = or_else (walk fuel h.mem asize (h.head 1)) in_2 in
    let in_0 = or_else (walk fuel h.mem asize (h.head 0)) in_1 in
    if leb 2049 asize
    then in_3
    else if leb 513 asize
    then in_2
    else if leb 129 asize
    then in_1
    else if leb 32 asize
    then in_0
    else outside

-- The block of a request: its payload in rows of 16 bytes, header and footer.
abbrev pub pad_of : ℕ → ℕ
pad_of size = if size % 16 == 0 then 0 else 1

abbrev pub size_of : ℕ → ℕ
size_of size = if size % 16 == 0 then size + 16 else size / 16 * 16 + 32

unfoldable pub place : Heap → ℕ → ℕ → Heap
unfolding remove_seg_free_list insert_seg_free_list write_block
place h p size =
    let old = bytes_of h.mem p in
    if ltb old (size + 32)
    then remove_seg_free_list (record h { mem = write_block h.mem p old size 1 1 }) p
    else let bs = size_of size in
      let h₁ = remove_seg_free_list h p in
      let m₂ = write_block h₁.mem p bs size 1 (pad_of size) in
      let m₃ = write_block m₂ (p + bs) (old - bs) 0 0 0 in
      insert_seg_free_list (record h₁ { mem = m₃ }) (p + bs)

-- The first test of the code reads the word behind the heap before it asks whether it is there.
pub coalescing_with_higher_address : Heap → ℕ → Heap
unfolding remove_seg_free_list write_block
coalescing_with_higher_address h p =
    let size = bytes_of h.mem p in
    let q = plus p size in
    if (allocated (h.mem q) == 1) || (q == h.end_of_heap)
    then h
    else let h₁ = remove_seg_free_list h q in
      record h₁ { mem = write_block h₁.mem p (size + bytes_of h₁.mem q) 0 0 0 }

unfoldable pub coalescing_with_lower_address : Heap → ℕ → Heap
unfolding remove_seg_free_list insert_seg_free_list coalescing_with_higher_address
coalescing_with_lower_address h p =
    let q = minus p (bytes_of h.mem (p - 8)) in
    if not (allocated (h.mem q) == 0)
    then h
    else insert_seg_free_list (coalescing_with_higher_address (remove_seg_free_list h q) q) q
