-- ===== src/Allocator/Counts.antt =====
-- How often the blocks of dynamic_memory_allocator/src/sfmm.c stand in the free lists.
use linux_system.Prelude.{
  ℕ, ◌+◌, ◌≤◌, ◌<◌, ◌≡◌, ◌≢◌, sym, ap, subst, ◌∙◌, inl, inr, true, false, List, [], ◌∷◌, ◌++◌, ◌==◌,
  arith, Bool-cases,
}
use linux_system.Allocator.{Heap, list_of_size}
use linux_system.Allocator.Layout.{
  Block, occurrences, one_if, starts, is_in_list, listed_at, IsHeap, listed_at-append,
  listed_at-starts, starts-append, occurrences-append,
}
use linux_system.Allocator.Geometry.{starts-le}
use linux_system.Allocator.Changes.{set_list, flagged}

pub occurring-split :
    (x : ℕ) (xs : List ℕ)
    → 0 < occurrences x xs
    → (ys : List ℕ) × (zs : List ℕ) × (xs ≡ ys ++ (x ∷ zs))
unfolding occurrences
occurring-split x [] h = absurd (omega arith)
occurring-split x (y ∷ xs) h = elim (Bool-cases (x == y)) [
  | inl e ↦ let here : y ≡ x = ground arith in ([], xs, ap (λ z. z ∷ xs) here)
  | inr n ↦ let (ys, zs, e) = occurring-split x xs (ground arith) in (y ∷ ys, zs, ap (λ t. y ∷ t) e)
]

-- A block stands in one list at most.
pub two_lists :
    (k n x : ℕ) (bs : List Block) → k ≢ n → listed_at k x bs + listed_at n x bs ≤ starts x bs
unfolding listed_at starts
two_lists k n x [] ne = omega arith
two_lists k n x (b ∷ bs) ne = ground (arith, two_lists k n x bs ne)

-- The counts at a block with others around it.
module _ (front : List Block) (b : Block) (back : List Block) where
  pub listed_at-middle :
      (n x : ℕ)
      → listed_at n x (front ++ (b ∷ back))
        ≡ one_if (is_in_list n x b) + (listed_at n x front + listed_at n x back)
  unfolding listed_at
  listed_at-middle n x = omega (arith, listed_at-append n x front (b ∷ back))

  pub starts-middle :
      (x : ℕ)
      → starts x (front ++ (b ∷ back)) ≡ one_if (x == b.at) + (starts x front + starts x back)
  unfolding starts
  starts-middle x = omega (arith, starts-append x front (b ∷ back))

-- Lists have no block in common.
pub other_list :
    (h : Heap) (bs : List Block) (lists : ℕ → List ℕ) (k n x y : ℕ)
    → IsHeap h bs lists
    → k ≢ n
    → 0 < occurrences x (lists k)
    → 0 < occurrences y (lists n)
    → x ≢ y
other_list h bs lists k n x y ok ne of_x of_y e =
    let in_n : 0 < listed_at n x bs =
      subst (λ z. 0 < listed_at n z bs) (sym e) (subst (λ c. 0 < c) (ok.same n y) of_y) in
    let in_k : 0 < listed_at k x bs = subst (λ c. 0 < c) (ok.same k x) of_x in
    let both = two_lists k n x bs ne in
    let one = starts-le x h.start_of_heap bs h.end_of_heap ok.tiles in omega arith

-- The counts when a block leaves its list, and when it joins.
pub unlisted_same :
    (h : Heap) (front : List Block) (b : Block) (back : List Block) (lists : ℕ → List ℕ) (n : ℕ)
    (ys zs : List ℕ)
    → IsHeap h (front ++ (b ∷ back)) lists
    → b.in_list ≡ true
    → list_of_size b.size ≡ n
    → lists n ≡ ys ++ (b.at ∷ zs)
    → (k x : ℕ)
    → occurrences x (set_list lists n (ys ++ zs) k)
      ≡ listed_at k x (front ++ (flagged b false ∷ back))
unfolding occurrences
unlisted_same h front b back lists n ys zs ok listed class split k x =
    let before = ok.same k x in
    let with_b = listed_at-middle front b back k x in
    let without_b = listed_at-middle front (flagged b false) back k x in
    elim (Bool-cases (k == n)) [
      | inl e ↦
          let k_n : k ≡ n = ground arith in
          let whole : occurrences x (lists k) ≡ occurrences x (ys ++ (b.at ∷ zs)) =
            ap (λ l. occurrences x l) (ap lists k_n ∙ split) in
          let parts = occurrences-append x ys (b.at ∷ zs) in
          let joined = occurrences-append x ys zs in rw e (ground arith)
      | inr e ↦ rw e (ground arith)
    ]

pub listed_same :
    (h : Heap) (front : List Block) (b : Block) (back : List Block) (lists : ℕ → List ℕ) (n : ℕ)
    → IsHeap h (front ++ (b ∷ back)) lists
    → b.in_list ≡ false
    → list_of_size b.size ≡ n
    → (k x : ℕ)
    → occurrences x (set_list lists n (b.at ∷ lists n) k)
      ≡ listed_at k x (front ++ (flagged b true ∷ back))
unfolding occurrences
listed_same h front b back lists n ok listed class k x =
    let before = ok.same k x in
    let without_b = listed_at-middle front b back k x in
    let with_b = listed_at-middle front (flagged b true) back k x in
    elim (Bool-cases (k == n)) [
      | inl e ↦
          let k_n : k ≡ n = ground arith in
          let whole : occurrences x (lists n) ≡ occurrences x (lists k) =
            ap (λ l. occurrences x l) (ap lists (sym k_n)) in
          rw e (ground arith)
      | inr e ↦ rw e (ground arith)
    ]

pub joining :
    (h : Heap) (front : List Block) (b : Block) (back : List Block) (lists : ℕ → List ℕ) (n : ℕ)
    → IsHeap h (front ++ (b ∷ back)) lists
    → b.in_list ≡ false
    → (y : ℕ) → occurrences y (b.at ∷ lists n) ≤ starts y (front ++ (b ∷ back))
unfolding occurrences
joining h front b back lists n ok unlisted y =
    let s = ok.same n y in
    let l = listed_at-middle front b back n y in
    let t = starts-middle front b back y in
    let le₁ = listed_at-starts n y front in let le₂ = listed_at-starts n y back in ground arith

-- A block that joins a list is in no other.
pub joining_other :
    (h : Heap) (front : List Block) (b : Block) (back : List Block) (lists : ℕ → List ℕ)
    (k n x y : ℕ)
    → IsHeap h (front ++ (b ∷ back)) lists
    → b.in_list ≡ false
    → k ≢ n
    → 0 < occurrences x (lists k)
    → 0 < occurrences y (b.at ∷ lists n)
    → x ≢ y
unfolding occurrences
joining_other h front b back lists k n x y ok unlisted ne of_x of_y =
    let bs = front ++ (b ∷ back) in
    elim (Bool-cases (y == b.at)) [
      | inl here ↦ λ e.
          let k_joins = joining h front b back lists k ok unlisted x in
          let one = starts-le x h.start_of_heap bs h.end_of_heap ok.tiles in absurd (ground arith)
      | inr away ↦ other_list h bs lists k n x y ok ne of_x (ground arith)
    ]
