-- ===== src/Allocator/Branches.antt =====
-- The four branches of `remove_seg_free_list_helper` of dynamic_memory_allocator/src/sfmm.c.
use linux_system.Prelude.{
  ℕ, ◌+◌, ◌<◌, ◌≡◌, refl, sym, subst, ◌∙◌, true, false, List, [], ◌∷◌, ◌==◌, arith, All,
}
use linux_system.Allocator.{
  Mem, next, prev, set_next, set_prev, set_head, Heap, remove_seg_free_list_helper,
}
use linux_system.Allocator.Segments.{Seg}

pub Seg-same :
    (m m' : Mem) (l p : ℕ) (xs : List ℕ) (l' p' : ℕ)
    → ((b : ℕ) → m' b ≡ m b)
    → Seg m l p xs l' p'
    → Seg m' l p xs l' p'
unfolding Seg
Seg-same m m' l p [] l' p' same s = s
Seg-same m m' l p (x ∷ xs) l' p' same (e, pos, before, rest) = (
  e,
  pos,
  same (x + 16) ∙ before,
  subst (λ q. Seg m' x q xs l' p') (sym (same (x + 8)))
      (Seg-same m m' x (next m x) xs l' p' same rest),
)

pub Seg-positive :
    (m : Mem) (l p : ℕ) (xs : List ℕ) (l' p' : ℕ) → Seg m l p xs l' p' → All (λ x. 0 < x) xs
unfolding Seg
Seg-positive m l p [] l' p' s = tt
Seg-positive m l p (x ∷ xs) l' p' (e, pos, before, rest) =
    (pos, Seg-positive m x (next m x) xs l' p' rest)

-- The heaps that removal leaves, by the neighbours of the block `x`.
abbrev pub emptied : Heap → ℕ → Heap
emptied h n = record h { head = set_head h.head n 0 }

abbrev pub without_first : Heap → ℕ → ℕ → ℕ → Heap
without_first h x n z =
    let m₁ = set_prev h.mem z 0 in
    record h { mem = set_next m₁ z (next m₁ (next m₁ x)); head = set_head h.head n z }

abbrev pub without_last : Heap → ℕ → ℕ → Heap
without_last h x y = record h { mem = set_prev (set_next h.mem y 0) x 0 }

abbrev pub without_inner : Heap → ℕ → ℕ → ℕ → Heap
without_inner h x y z =
    let m₁ = set_next h.mem y z in record h { mem = set_prev m₁ (next m₁ x) (prev m₁ x) }

pub remove-emptied :
    (h : Heap) (x n : ℕ)
    → prev h.mem x ≡ 0
    → next h.mem x ≡ 0
    → remove_seg_free_list_helper h x n ≡ emptied h n
unfolding remove_seg_free_list_helper
remove-emptied h x n e f = ground arith

pub remove-first :
    (h : Heap) (x n z : ℕ)
    → prev h.mem x ≡ 0
    → next h.mem x ≡ z
    → 0 < z
    → remove_seg_free_list_helper h x n ≡ without_first h x n z
unfolding remove_seg_free_list_helper
remove-first h x n z e f pos =
    subst (λ q. remove_seg_free_list_helper h x n ≡ without_first h x n q) f
      (let none_before : (prev h.mem x == 0) ≡ true = ground arith in
        let some_behind : (next h.mem x == 0) ≡ false = ground arith in
        rw (none_before, some_behind) refl)

pub remove-last :
    (h : Heap) (x n y : ℕ)
    → prev h.mem x ≡ y
    → 0 < y
    → next h.mem x ≡ 0
    → remove_seg_free_list_helper h x n ≡ without_last h x y
unfolding remove_seg_free_list_helper
remove-last h x n y e pos f =
    subst (λ q. remove_seg_free_list_helper h x n ≡ without_last h x q) e
      (let some_before : (prev h.mem x == 0) ≡ false = ground arith in
        let none_behind : (next h.mem x == 0) ≡ true = ground arith in
        rw (some_before, none_behind) refl)

pub remove-inner :
    (h : Heap) (x n y z : ℕ)
    → prev h.mem x ≡ y
    → 0 < y
    → next h.mem x ≡ z
    → 0 < z
    → remove_seg_free_list_helper h x n ≡ without_inner h x y z
unfolding remove_seg_free_list_helper
remove-inner h x n y z e pos f pos' =
    subst (λ q. remove_seg_free_list_helper h x n ≡ without_inner h x q z) e
      (subst (λ q. remove_seg_free_list_helper h x n ≡ without_inner h x (prev h.mem x) q) f
        (let some_before : (prev h.mem x == 0) ≡ false = ground arith in
          let some_behind : (next h.mem x == 0) ≡ false = ground arith in
          rw (some_before, some_behind) refl))
