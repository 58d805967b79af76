-- ===== src/Allocator/Removal.antt =====
-- `remove_seg_free_list_helper` of dynamic_memory_allocator/src/sfmm.c on a free list.
use linux_system.Prelude.{ℕ, ◌<◌, ◌≡◌, sym, subst, ◌∙◌, List, [], ◌∷◌, ◌++◌, All, append-nil}
use linux_system.Allocator.{next, prev, Heap, remove_seg_free_list_helper}
use linux_system.Allocator.Segments.{Apart, Spread, Seg, Seg-split, Seg-last, Spread-append}
use linux_system.Allocator.FreeList.{IsList, Leaves}
use linux_system.Allocator.Branches.{
  Seg-positive, without_last, remove-emptied, remove-first, remove-last, remove-inner,
}
use linux_system.Allocator.Unlinking.{
  emptied-Leaves, first-Leaves, last-Leaves, inner-joined, joined-Leaves,
}

-- What is known of the links of a block in a list.
record Around (h : Heap) (n x : ℕ) (ys zs : List ℕ) (l l' : ℕ) : Type 0 where
  pos : 0 < x
  before : Seg h.mem 0 (h.head n) ys l x
  prev_x : prev h.mem x ≡ l
  behind_x : Seg h.mem x (next h.mem x) zs l' 0

around :
    (h : Heap) (n x : ℕ) (ys zs : List ℕ)
    → IsList h n (ys ++ (x ∷ zs))
    → (l l' : ℕ) × Around h n x ys zs l l'
unfolding Seg
around h n x ys zs (l', s) =
    let (l, p, before, (e, pos, prev_x, rest)) = Seg-split h.mem 0 (h.head n) ys (x ∷ zs) l' 0 s in
    (
      l,
      l',
      record {
        pos = pos;
        before = subst (λ q. Seg h.mem 0 (h.head n) ys l q) e before;
        prev_x = prev_x;
        behind_x = rest;
      },
    )

-- Removal of a block of a list takes it out, wherever it stands, and leaves the links of both
-- directions right. It changes the head of this list and links of its blocks, and nothing else.
pub remove-Leaves :
    (h : Heap) (n x : ℕ) (ys zs : List ℕ)
    → IsList h n (ys ++ (x ∷ zs))
    → Spread (ys ++ (x ∷ zs))
    → Leaves h n (ys ++ (x ∷ zs)) (ys ++ zs) (remove_seg_free_list_helper h x n)
unfolding Seg
remove-Leaves h n x [] [] s sp =
    let (l, l', a) = around h n x [] [] s in
    subst (Leaves h n (x ∷ []) [])
      (sym (remove-emptied h x n (a.prev_x ∙ sym a.before.0) (a.behind_x.1))) (emptied-Leaves h x n)
remove-Leaves h n x [] (z ∷ zs) s sp =
    let (l, l', a) = around h n x [] (z ∷ zs) s in
    let (f, pos, _, _) = a.behind_x in
    subst (Leaves h n (x ∷ z ∷ zs) (z ∷ zs))
      (sym (remove-first h x n z (a.prev_x ∙ sym a.before.0) f pos))
      (first-Leaves h x n z zs l' f (subst (λ q. Seg h.mem x q (z ∷ zs) l' 0) f a.behind_x) sp)
remove-Leaves h n x (y ∷ ys) [] s sp =
    let (l, l', a) = around h n x (y ∷ ys) [] s in
    let pos =
      Seg-last (λ q. 0 < q) h.mem 0 (h.head n) y ys l x a.before
        (Seg-positive h.mem 0 (h.head n) (y ∷ ys) l x a.before) in
    subst (Leaves h n ((y ∷ ys) ++ (x ∷ [])) ((y ∷ ys) ++ []))
      (sym (remove-last h x n l a.prev_x pos a.behind_x.1))
      (subst (λ r. Leaves h n ((y ∷ ys) ++ (x ∷ [])) r (without_last h x l))
        (sym (append-nil (y ∷ ys))) (last-Leaves h x n y ys l a.before sp))
remove-Leaves h n x (y ∷ ys) (z ∷ zs) s sp =
    let (l, l', a) = around h n x (y ∷ ys) (z ∷ zs) s in
    let (f, pos_z, _, _) = a.behind_x in
    let pos =
      Seg-last (λ q. 0 < q) h.mem 0 (h.head n) y ys l x a.before
        (Seg-positive h.mem 0 (h.head n) (y ∷ ys) l x a.before) in
    let apart =
      Seg-last (λ q. All (Apart q) (x ∷ z ∷ zs)) h.mem 0 (h.head n) y ys l x a.before
        (Spread-append (y ∷ ys) (x ∷ z ∷ zs) sp).2 in
    subst (Leaves h n ((y ∷ ys) ++ (x ∷ z ∷ zs)) ((y ∷ ys) ++ (z ∷ zs)))
      (sym (remove-inner h x n l z a.prev_x pos f pos_z ∙ inner-joined h x l z apart.0 a.prev_x f))
      (joined-Leaves h x n y z ys zs l l' a.before
        (subst (λ q. Seg h.mem x q (z ∷ zs) l' 0) f a.behind_x) sp)
