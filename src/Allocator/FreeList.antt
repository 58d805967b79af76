-- ===== src/Allocator/FreeList.antt =====
-- The free lists of dynamic_memory_allocator/src/sfmm.c as lists of addresses: what insertion and
-- removal do to a list, and which words they change.
use linux_system.Prelude.{
  ℕ, ◌+◌, ◌<◌, ◌≡◌, ◌≢◌, refl, sym, subst, inl, inr, false, List, [], ◌∷◌, ◌==◌, arith,
}
use linux_system.Allocator.{
  Mem, next, prev, set_next, set_prev, set_head, Heap, insert_seg_free_list_helper,
}
use linux_system.Allocator.Segments.{
  Apart, Spread, Seg, IsClear, Seg-upd, Seg-set_prev, IsClear-next, IsClear-prev,
}

-- The free list `n` holds the blocks `xs`, linked in both directions.
abbrev pub IsList : Heap → ℕ → List ℕ → Type 0
IsList h n xs = (l : ℕ) × Seg h.mem 0 (h.head n) xs l 0

-- Nothing but the head `n` and links of the blocks `xs` changes.
pub record ChangesLinks (h : Heap) (n : ℕ) (xs : List ℕ) (h' : Heap) : Type 0 where
  pub words : (b : ℕ) → IsClear b xs → h'.mem b ≡ h.mem b
  pub heads : (k : ℕ) → k ≢ n → h'.head k ≡ h.head k
  pub start : h'.start_of_heap ≡ h.start_of_heap
  pub end : h'.end_of_heap ≡ h.end_of_heap

-- What insertion and removal leave: the list and the frame.
abbrev pub Leaves : Heap → ℕ → List ℕ → List ℕ → Heap → Type 0
Leaves h n touched xs h' = IsList h' n xs × ChangesLinks h n touched h'

-- The heaps that insertion leaves, of an empty list and of one with the first block `x`.
abbrev alone : Heap → ℕ → ℕ → Heap
alone h p n = record h { mem = set_prev (set_next h.mem p 0) p 0; head = set_head h.head n p }

abbrev in_front : Heap → ℕ → ℕ → ℕ → Heap
in_front h p n x = record h {
  mem = set_prev (set_prev (set_next h.mem p x) p 0) x p;
  head = set_head h.head n p;
}

insert-alone : (h : Heap) (p n : ℕ) → h.head n ≡ 0 → insert_seg_free_list_helper h p n ≡ alone h p n
unfolding insert_seg_free_list_helper
insert-alone h p n e = ground arith

insert-in_front :
    (h : Heap) (p n x : ℕ)
    → h.head n ≡ x
    → 0 < x
    → insert_seg_free_list_helper h p n ≡ in_front h p n x
unfolding insert_seg_free_list_helper
insert-in_front h p n x e pos =
    subst (λ y. insert_seg_free_list_helper h p n ≡ in_front h p n y) e
      (let used : (h.head n == 0) ≡ false = ground arith in rw used refl)

alone-Leaves : (h : Heap) (p n : ℕ) → 0 < p → Leaves h n (p ∷ []) (p ∷ []) (alone h p n)
unfolding Seg
alone-Leaves h p n pos = (
  (p, (ground arith, pos, ground arith, (refl, ground arith))),
  record {
    words = λ b ((c₁, c₂), _). ground arith;
    heads = λ k ne. ground arith;
    start = refl;
    end = refl;
  },
)

prev_in_front :
    (m : Mem) (p x : ℕ) → Apart p x → prev (set_prev (set_prev (set_next m p x) p 0) x p) p ≡ 0
prev_in_front m p x (inl a) = ground arith
prev_in_front m p x (inr a) = ground arith

next_in_front :
    (m : Mem) (p x : ℕ) → Apart p x → x ≡ next (set_prev (set_prev (set_next m p x) p 0) x p) p
next_in_front m p x (inl a) = ground arith
next_in_front m p x (inr a) = ground arith

in_front-Leaves :
    (h : Heap) (p n x : ℕ) (xs : List ℕ) (l : ℕ)
    → Seg h.mem 0 x (x ∷ xs) l 0
    → Spread (p ∷ x ∷ xs)
    → 0 < p
    → Leaves h n (p ∷ x ∷ xs) (p ∷ x ∷ xs) (in_front h p n x)
unfolding Seg
in_front-Leaves h p n x xs l s (ap_p, sp) pos =
    let apart : Apart p x = ap_p.0 in
    let m₁ = set_prev (set_next h.mem p x) p 0 in
    let kept : Seg m₁ 0 x (x ∷ xs) l 0 =
      Seg-upd (set_next h.mem p x) (p + 16) 0 0 x (x ∷ xs) l 0 (IsClear-prev p (x ∷ xs) ap_p)
        (Seg-upd h.mem (p + 8) x 0 x (x ∷ xs) l 0 (IsClear-next p (x ∷ xs) ap_p) s) in
    (
      (
        l,
        (
          ground arith,
          pos,
          prev_in_front h.mem p x apart,
          subst (λ b. Seg (set_prev m₁ x p) p b (x ∷ xs) l 0) (next_in_front h.mem p x apart)
              (Seg-set_prev m₁ 0 x xs l 0 p sp kept),
        ),
      ),
      record {
        words = λ b ((c₁, c₂), ((c₃, c₄), _)). ground arith;
        heads = λ k ne. ground arith;
        start = refl;
        end = refl;
      },
    )

-- Insertion of a block that is apart from those in the list puts it at the front, with the links of
-- both directions right. It changes the head of this list and links of its blocks, and nothing else.
pub insert-Leaves :
    (h : Heap) (p n : ℕ) (xs : List ℕ)
    → IsList h n xs
    → Spread (p ∷ xs)
    → 0 < p
    → Leaves h n (p ∷ xs) (p ∷ xs) (insert_seg_free_list_helper h p n)
unfolding Seg
insert-Leaves h p n [] (l, (_, e)) sp pos =
    subst (Leaves h n (p ∷ []) (p ∷ [])) (sym (insert-alone h p n e)) (alone-Leaves h p n pos)
insert-Leaves h p n (x ∷ xs) (l, (e, pos_x, before, rest)) sp pos =
    subst (Leaves h n (p ∷ x ∷ xs) (p ∷ x ∷ xs)) (sym (insert-in_front h p n x e pos_x))
      (in_front-Leaves h p n x xs l (refl, pos_x, before, rest) sp pos)
