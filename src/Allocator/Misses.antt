-- ===== src/Allocator/Misses.antt =====
-- Where `find_fit` of dynamic_memory_allocator/src/sfmm.c finds nothing.
use linux_system.Prelude.{
  ℕ, ◌+◌, ◌≤◌, ◌<◌, ◌≡◌, ◌≢◌, ap, subst, ◌∙◌, inl, inr, true, false, List, [], ◌∷◌, ◌++◌, ◌==◌,
  arith, Bool-cases, length, length-append, ltb,
}
use linux_system.Allocator.{Mem, Heap, list_of_size, no_fit, fits}
use linux_system.Allocator.Layout.{
  Block, IsHeap, occurrences, is_in_list, listed_at, occurrences-append,
}
use linux_system.Allocator.Relisting.{middle-Agrees, middle-size}
use linux_system.Allocator.Counts.{occurring-split, listed_at-middle}
use linux_system.Allocator.Search.{first_fit, searched}
use linux_system.Allocator.Found.{found}

-- A list is no longer than the row.
pub length-listed :
    (n : ℕ) (bs : List Block) (xs : List ℕ)
    → ((x : ℕ) → occurrences x xs ≤ listed_at n x bs)
    → length xs ≤ length bs
unfolding occurrences listed_at
length-listed n [] [] h = omega arith
length-listed n [] (x ∷ xs) h = let le = h x in absurd (ground arith)
length-listed n (b ∷ bs) xs h = elim (Bool-cases (ltb 0 (occurrences b.at xs))) [
  | inl e ↦
      let (ys, zs, split) = occurring-split b.at xs (ground arith) in
      let counts : (x : ℕ) → occurrences x (ys ++ zs) ≤ listed_at n x bs = λ x.
        let le = h x in
        let whole = ap (λ l. occurrences x l) split ∙ occurrences-append x ys (b.at ∷ zs) in
        let parts = occurrences-append x ys zs in ground arith in
      let ih = length-listed n bs (ys ++ zs) counts in
      let l = ap (λ l. length l) split ∙ length-append ys (b.at ∷ zs) in
      let l' = length-append ys zs in omega arith
  | inr e ↦
      let ih = length-listed n bs xs (λ x. let le = h x in let le' = h b.at in ground arith) in
      omega arith
]

-- A search that finds nothing.
pub first_fit-no_fit :
    (m : Mem) (asize : ℕ) (xs : List ℕ) (x : ℕ)
    → first_fit m asize xs ≡ no_fit
    → 0 < occurrences x xs
    → fits m asize x ≡ false
unfolding first_fit occurrences
first_fit-no_fit m asize [] x e h = absurd (omega arith)
first_fit-no_fit m asize (y ∷ ys) x e h = elim (Bool-cases (fits m asize y)) [
  | inl f ↦ absurd (omega (arith, ap found (rw f at e)))
  | inr n ↦ elim (Bool-cases (x == y)) [
    | inl here ↦ let at_y : y ≡ x = ground arith in subst (λ z. fits m asize z ≡ false) at_y n
    | inr away ↦ first_fit-no_fit m asize ys x (rw n at e) (ground arith)
  ]
]

-- The lists above one are searched from it.
pub searched-holds :
    (lists : ℕ → List ℕ) (k n p : ℕ)
    → k ≤ n
    → n ≤ 3
    → occurrences p (lists n) ≤ occurrences p (searched lists k)
searched-holds lists k n p le most =
    let is : (j : ℕ) → (n == j) ≡ true → n ≡ j = λ j e. ground arith in
    let s₀ = occurrences-append p (lists 0) (lists 1 ++ (lists 2 ++ lists 3)) in
    let s₁ = occurrences-append p (lists 1) (lists 2 ++ lists 3) in
    let s₂ = occurrences-append p (lists 2) (lists 3) in
    elim (Bool-cases (n == 0)) [
      | inl e ↦ let at_n = ap (λ j. occurrences p (lists j)) (is 0 e) in ground arith
      | inr n₀ ↦ elim (Bool-cases (n == 1)) [
        | inl e ↦ let at_n = ap (λ j. occurrences p (lists j)) (is 1 e) in ground arith
        | inr n₁ ↦ elim (Bool-cases (n == 2)) [
          | inl e ↦ let at_n = ap (λ j. occurrences p (lists j)) (is 2 e) in ground arith
          | inr n₂ ↦
              let three : n ≡ 3 = ground arith in
              let at_n = ap (λ j. occurrences p (lists j)) three in ground arith
        ]
      ]
    ]

pub list_of_size_mono :
    (a b : ℕ) → 32 ≤ a → a ≤ b → (list_of_size a ≤ list_of_size b) × (list_of_size b ≤ 3)
unfolding list_of_size
list_of_size_mono a b lo le = (ground arith, ground arith)

-- The last block of the heap, where it is free and has room, is found if no other is.
pub last-found :
    (h : Heap) (front : List Block) (l : Block) (lists : ℕ → List ℕ) (size : ℕ)
    → IsHeap h (front ++ (l ∷ [])) lists
    → l.in_list ≡ true
    → l.bit ≡ 0
    → 16 ≤ size
    → size + 16 ≤ l.size
    → first_fit h.mem (size + 16) (searched lists (list_of_size (size + 16))) ≢ no_fit
last-found h front l lists size ok listed free least room e =
    let (_, l_least, _, _) = middle-size h front l [] lists ok in
    let agree = middle-Agrees h front l [] lists ok in
    let n = list_of_size l.size in
    let (up, most) = list_of_size_mono (size + 16) l.size (omega arith) room in
    let here : is_in_list n l.at l ≡ true = ground arith in
    let counted = listed_at-middle front l [] n l.at in
    let in_n : 0 < occurrences l.at (lists n) = ground (arith, ok.same n l.at) in
    let held = searched-holds lists (list_of_size (size + 16)) n l.at up most in
    let misfit =
      first_fit-no_fit h.mem (size + 16) (searched lists (list_of_size (size + 16))) l.at e
        (omega arith) in
    let fit_l : fits h.mem (size + 16) l.at ≡ true =
      ground (arith, agree.allocated_reads, agree.size_reads) in
    ground arith
