-- ===== src/Allocator/Unlinking.antt =====
-- What `remove_seg_free_list_helper` of dynamic_memory_allocator/src/sfmm.c leaves, by the place of the block.
use linux_system.Prelude.{
  ℕ, ◌+◌, ◌≡◌, ◌≢◌, refl, ap, ap₂, subst, ◌∙◌, inl, inr, List, [], ◌∷◌, ◌++◌, ◌==◌, arith, All,
  Bool-cases,
}
use linux_system.Allocator.{Mem, upd, next, prev, set_next, set_prev, Heap}
use linux_system.Allocator.Segments.{
  Apart, Apart-symm, Spread, Seg, AllApart, All-parts, Seg-upd, Seg-append, Seg-last, Seg-set_next,
  Seg-set_prev, IsClear-next, IsClear-prev, Spread-append,
}
use linux_system.Allocator.FreeList.{Leaves}
use linux_system.Allocator.Branches.{Seg-same, emptied, without_first, without_last, without_inner}

-- The only block of a list.
pub emptied-Leaves : (h : Heap) (x n : ℕ) → Leaves h n (x ∷ []) [] (emptied h n)
unfolding Seg
emptied-Leaves h x n = (
  (0, (refl, ground arith)),
  record { words = λ b c. refl; heads = λ k ne. ground arith; start = refl; end = refl },
)

pub upd_self : (m : Mem) (a b : ℕ) → upd m a (m a) b ≡ m b
upd_self m a b = elim (Bool-cases (b == a)) [
  | inl e ↦ (let same : a ≡ b = ground arith in rw e (ap m same))
  | inr n ↦ rw n refl
]

pub next-set_prev : (m : Mem) (x z : ℕ) → Apart x z → next (set_prev m z 0) x ≡ next m x
next-set_prev m x z (inl a) = ground arith
next-set_prev m x z (inr a) = ground arith

pub self_write :
    (m : Mem) (x z : ℕ)
    → next m x ≡ z
    → Apart x z
    → (b : ℕ)
    → set_next (set_prev m z 0) z (next (set_prev m z 0) (next (set_prev m z 0) x)) b
      ≡ set_prev m z 0 b
self_write m x z f a b =
    ap (λ q. set_next (set_prev m z 0) z (next (set_prev m z 0) q) b) (next-set_prev m x z a ∙ f)
    ∙ upd_self (set_prev m z 0) (z + 8) b

-- The first of several: the code writes the `next` of the new first block to itself.
pub first-Leaves :
    (h : Heap) (x n z : ℕ) (zs : List ℕ) (l : ℕ)
    → next h.mem x ≡ z
    → Seg h.mem x z (z ∷ zs) l 0
    → Spread (x ∷ z ∷ zs)
    → Leaves h n (x ∷ z ∷ zs) (z ∷ zs) (without_first h x n z)
first-Leaves h x n z zs l f s (ap_x, sp) =
    let apart : Apart x z = ap_x.0 in
    let m₁ = set_prev h.mem z 0 in
    let same : (b : ℕ) → (without_first h x n z).mem b ≡ m₁ b = self_write h.mem x z f apart in
    (
      (
        l,
        subst (λ q. Seg (without_first h x n z).mem 0 q (z ∷ zs) l 0) (ground arith)
            (Seg-same m₁ (without_first h x n z).mem 0 z (z ∷ zs) l 0 same
              (Seg-set_prev h.mem x z zs l 0 0 sp s)),
      ),
      record {
        words = λ b (c, ((c₁, c₂), _)). same b ∙ ground arith;
        heads = λ k ne. ground arith;
        start = refl;
        end = refl;
      },
    )

-- The blocks before a block, seen from it.
pub behind : (x : ℕ) (ys : List ℕ) → AllApart ys (x ∷ []) → All (Apart x) ys
behind x [] h = tt
behind x (y ∷ ys) ((a, _), h) = (Apart-symm y x a, behind x ys h)

pub upd2 : (m : Mem) (a v a' v' b : ℕ) → b ≢ a → b ≢ a' → upd (upd m a v) a' v' b ≡ m b
upd2 m a v a' v' b n n' = ground arith

-- The last block of several.
pub last-Leaves :
    (h : Heap) (x n y : ℕ) (ys : List ℕ) (l : ℕ)
    → Seg h.mem 0 (h.head n) (y ∷ ys) l x
    → Spread ((y ∷ ys) ++ (x ∷ []))
    → Leaves h n ((y ∷ ys) ++ (x ∷ [])) (y ∷ ys) (without_last h x l)
last-Leaves h x n y ys l s sp =
    let (sp_y, _, apart) = Spread-append (y ∷ ys) (x ∷ []) sp in
    (
      (
        l,
        Seg-upd (set_next h.mem l 0) (x + 16) 0 0 (h.head n) (y ∷ ys) l 0
            (IsClear-prev x (y ∷ ys) (behind x (y ∷ ys) apart))
            (Seg-set_next h.mem 0 (h.head n) y ys l x 0 sp_y s),
      ),
      record {
        words = λ b c.
            let (c_y, c_x) = All-parts (λ q. (b ≢ q + 8) × (b ≢ q + 16)) (y ∷ ys) (x ∷ []) c in
            let at_l =
              Seg-last (λ q. (b ≢ q + 8) × (b ≢ q + 16)) h.mem 0 (h.head n) y ys l x s c_y in
            upd2 h.mem (l + 8) 0 (x + 16) 0 b at_l.0 c_x.0.1;
        heads = λ k ne. refl;
        start = refl;
        end = refl;
      },
    )

-- A block in the middle: its neighbours are joined.
abbrev pub joined : Heap → ℕ → ℕ → Heap
joined h y z = record h { mem = set_prev (set_next h.mem y z) z y }

pub links_kept :
    (m : Mem) (x y z : ℕ)
    → Apart y x
    → prev m x ≡ y
    → next m x ≡ z
    → (next (set_next m y z) x ≡ z) × (prev (set_next m y z) x ≡ y)
links_kept m x y z (inl a) e f = (ground arith, ground arith)
links_kept m x y z (inr a) e f = (ground arith, ground arith)

pub inner-joined :
    (h : Heap) (x y z : ℕ)
    → Apart y x
    → prev h.mem x ≡ y
    → next h.mem x ≡ z
    → without_inner h x y z ≡ joined h y z
inner-joined h x y z a e f =
    let (behind_x, before_x) = links_kept h.mem x y z a e f in
    ap₂ (λ q w. record h { mem = set_prev (set_next h.mem y z) q w }) behind_x before_x

-- The blocks before two others, seen from the second.
pub behind_second : (x z : ℕ) (zs ys : List ℕ) → AllApart ys (x ∷ z ∷ zs) → All (Apart z) ys
behind_second x z zs [] h = tt
behind_second x z zs (y ∷ ys) ((_, (a, _)), h) = (Apart-symm y z a, behind_second x z zs ys h)

pub joined-Leaves :
    (h : Heap) (x n y z : ℕ) (ys zs : List ℕ) (l l' : ℕ)
    → Seg h.mem 0 (h.head n) (y ∷ ys) l x
    → Seg h.mem x z (z ∷ zs) l' 0
    → Spread ((y ∷ ys) ++ (x ∷ z ∷ zs))
    → Leaves h n ((y ∷ ys) ++ (x ∷ z ∷ zs)) ((y ∷ ys) ++ (z ∷ zs)) (joined h l z)
joined-Leaves h x n y z ys zs l l' s t sp =
    let (sp_y, (ap_x, sp_z), apart) = Spread-append (y ∷ ys) (x ∷ z ∷ zs) sp in
    let l_apart : All (Apart l) (x ∷ z ∷ zs) =
      Seg-last (λ q. All (Apart q) (x ∷ z ∷ zs)) h.mem 0 (h.head n) y ys l x s apart in
    let m₁ = set_next h.mem l z in
    (
      (
        l',
        Seg-append (set_prev m₁ z l) 0 (h.head n) (y ∷ ys) (z ∷ zs) l z l' 0
            (Seg-upd m₁ (z + 16) l 0 (h.head n) (y ∷ ys) l z
              (IsClear-prev z (y ∷ ys) (behind_second x z zs (y ∷ ys) apart))
              (Seg-set_next h.mem 0 (h.head n) y ys l x z sp_y s))
            (Seg-set_prev m₁ x z zs l' 0 l sp_z
              (Seg-upd h.mem (l + 8) z x z (z ∷ zs) l' 0 (IsClear-next l (z ∷ zs) l_apart.1) t)),
      ),
      record {
        words = λ b c.
            let (c_y, c_x) = All-parts (λ q. (b ≢ q + 8) × (b ≢ q + 16)) (y ∷ ys) (x ∷ z ∷ zs) c in
            let at_l =
              Seg-last (λ q. (b ≢ q + 8) × (b ≢ q + 16)) h.mem 0 (h.head n) y ys l x s c_y in
            upd2 h.mem (l + 8) z (z + 16) l b at_l.0 c_x.1.0.1;
        heads = λ k ne. refl;
        start = refl;
        end = refl;
      },
    )
