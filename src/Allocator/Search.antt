-- ===== src/Allocator/Search.antt =====
-- `find_fit` of dynamic_memory_allocator/src/sfmm.c against a search of the free lists in order.
use linux_system.Prelude.{
  ℕ, zero, suc, ◌+◌, ◌-◌, ◌%◌, ◌^◌, ◌||◌, ◌≤◌, ◌<◌, ◌≡◌, refl, sym, ap₂, ◌∙◌, inl, inr, true, false,
  List, [], ◌∷◌, ◌++◌, ◌==◌, ltb, leb, if◌then◌else◌, arith, Bool-cases, length,
}
use linux_system.Allocator.{
  Mem, Heap, next, Fit, fit, no_fit, outside, or_else, fits, walk, find_fit, list_of_size,
}
use linux_system.Allocator.Segments.{Seg}
use linux_system.Allocator.FreeList.{IsList}

-- The first block of a list that is free and large enough.
unfoldable pub first_fit : Mem → ℕ → List ℕ → Fit
first_fit m asize [] = no_fit
first_fit m asize (x ∷ xs) =
    let rest = first_fit m asize xs in if fits m asize x then fit x else rest

-- The lists from that of the size upwards.
abbrev pub searched : (ℕ → List ℕ) → ℕ → List ℕ
searched lists n =
    if n == 0
    then lists 0 ++ (lists 1 ++ (lists 2 ++ lists 3))
    else if n == 1
    then lists 1 ++ (lists 2 ++ lists 3)
    else if n == 2
    then lists 2 ++ lists 3
    else lists 3

first_fit-append :
    (m : Mem) (asize : ℕ) (xs ys : List ℕ)
    → first_fit m asize (xs ++ ys) ≡ or_else (first_fit m asize xs) (first_fit m asize ys)
unfolding first_fit
first_fit-append m asize [] ys = refl
first_fit-append m asize (x ∷ xs) ys = elim (Bool-cases (fits m asize x)) [
  | inl e ↦ rw e refl
  | inr n ↦ rw n (first_fit-append m asize xs ys)
]

walk-first_fit :
    (fuel : ℕ) (m : Mem) (asize l p : ℕ) (xs : List ℕ) (l' : ℕ)
    → Seg m l p xs l' 0
    → length xs < fuel
    → walk fuel m asize p ≡ first_fit m asize xs
unfolding walk first_fit Seg
walk-first_fit zero m asize l p xs l' s lt = absurd (omega arith)
walk-first_fit (suc fuel) m asize l p [] l' (_, e) lt = rw e refl
walk-first_fit (suc fuel) m asize l p (x ∷ xs) l' (e, pos, _, rest) lt =
    let ih = walk-first_fit fuel m asize x (next m x) xs l' rest (omega arith) in
    let used : (x == 0) ≡ false = ground arith in rw (e, used, ih) refl

list_of_size_lem :
    (a : ℕ)
    → 32 ≤ a
    → list_of_size a
      ≡ (if leb 2049 a then 3 else if leb 513 a then 2 else if leb 129 a then 1 else 0)
unfolding list_of_size
list_of_size_lem a le = ground arith

-- Where the lists are linked right and `fuel` is above their lengths, `find_fit` ends and gives the
-- first block that is free and large enough for the size with header and footer, in the lists from
-- that of this size upwards, or NULL where there is none. For a size below 16, and for one to which
-- 16 cannot be added on 64 bits, it reads `seg_free_list[-1]` instead.
pub find_fit-first_fit :
    (fuel : ℕ) (h : Heap) (size : ℕ) (lists : ℕ → List ℕ)
    → ((n : ℕ) → IsList h n (lists n))
    → ((n : ℕ) → length (lists n) < fuel)
    → size < 2 ^ 64
    → find_fit fuel h size ≡ (
        if ltb size 16 || leb (2 ^ 64 - 16) size
        then outside
        else first_fit h.mem (size + 16) (searched lists (list_of_size (size + 16))))
unfolding find_fit
find_fit-first_fit fuel h size lists linked lt bound =
    let at : (n : ℕ)
        → walk fuel h.mem (size + 16) (h.head n) ≡ first_fit h.mem (size + 16) (lists n) =
      λ n.
        walk-first_fit fuel h.mem (size + 16) 0 (h.head n) (lists n) (linked n).0 (linked n).1
          (lt n) in
    let at_3 = at 3 in
    let at_2 = sym (
      first_fit-append h.mem (size + 16) (lists 2) (lists 3)
      ∙ ap₂ or_else (sym (at 2)) (sym (at 3))) in
    let at_1 = sym (
      first_fit-append h.mem (size + 16) (lists 1) (lists 2 ++ lists 3)
      ∙ ap₂ or_else (sym (at 1)) (sym at_2)) in
    let at_0 = sym (
      first_fit-append h.mem (size + 16) (lists 0) (lists 1 ++ (lists 2 ++ lists 3))
      ∙ ap₂ or_else (sym (at 0)) (sym at_1)) in
    elim (Bool-cases (ltb size 16 || leb (2 ^ 64 - 16) size)) [
      | inl e ↦
          let small : (size + 16) % 2 ^ 64 < 32 = ground arith in
          let b₃ : leb 2049 ((size + 16) % 2 ^ 64) ≡ false = ground arith in
          let b₂ : leb 513 ((size + 16) % 2 ^ 64) ≡ false = ground arith in
          let b₁ : leb 129 ((size + 16) % 2 ^ 64) ≡ false = ground arith in
          let b₀ : leb 32 ((size + 16) % 2 ^ 64) ≡ false = ground arith in
          rw (e, b₃, b₂, b₁, b₀) refl
      | inr n ↦
          let w : (size + 16) % 2 ^ 64 ≡ size + 16 = ground arith in
          let t = list_of_size_lem (size + 16) (ground arith) in
          let b : leb 32 (size + 16) ≡ true = ground arith in
          elim (Bool-cases (leb 2049 (size + 16))) [
            | inl e ↦ rw (w, t, n, e) at_3
            | inr n₁ ↦ elim (Bool-cases (leb 513 (size + 16))) [
              | inl e ↦ rw (w, t, n, n₁, e) at_2
              | inr n₂ ↦ elim (Bool-cases (leb 129 (size + 16))) [
                | inl e ↦ rw (w, t, n, n₁, n₂, e) at_1
                | inr n₃ ↦ rw (w, t, n, n₁, n₂, n₃, b) at_0
              ]
            ]
          ]
    ]

-- The sizes that `sf_malloc` searches for.
pub searches :
    (fuel : ℕ) (h : Heap) (size : ℕ) (lists : ℕ → List ℕ)
    → ((n : ℕ) → IsList h n (lists n))
    → ((n : ℕ) → length (lists n) < fuel)
    → 16 ≤ size
    → size ≤ 16384
    → find_fit fuel h size ≡ first_fit h.mem (size + 16) (searched lists (list_of_size (size + 16)))
searches fuel h size lists linked lt least most =
    let inside : (ltb size 16 || leb (2 ^ 64 - 16) size) ≡ false = ground arith in
    find_fit-first_fit fuel h size lists linked lt (omega arith) ∙ rw inside refl
