-- ===== src/Allocator/Found.antt =====
-- What `find_fit` of dynamic_memory_allocator/src/sfmm.c finds is a block of the heap.
use linux_system.Prelude.{
  ℕ, suc, ◌<◌, ◌≡◌, refl, ap, subst, inl, inr, true, List, [], ◌∷◌, ◌++◌, ltb, arith, Bool-cases,
}
use linux_system.Allocator.{Mem, Fit, fit, no_fit, outside, running, fits}
use linux_system.Allocator.Layout.{Block, is_in_list, listed_at, occurrences, occurrences-append}
use linux_system.Allocator.Search.{first_fit, searched}

abbrev pub found : Fit → ℕ
found (fit p) = suc p
found no_fit = 0
found outside = 0
found running = 0

-- A block that the search finds is in the list, and fits.
pub first_fit-fits :
    (m : Mem) (asize : ℕ) (xs : List ℕ) (p : ℕ)
    → first_fit m asize xs ≡ fit p
    → (0 < occurrences p xs) × (fits m asize p ≡ true)
unfolding first_fit occurrences
first_fit-fits m asize [] p e = absurd (omega (arith, ap found e))
first_fit-fits m asize (x ∷ xs) p e = elim (Bool-cases (fits m asize x)) [
  | inl f ↦
      let here : x ≡ p = omega (arith, ap found (rw f at e)) in
      subst (λ y. (0 < occurrences y (x ∷ xs)) × (fits m asize y ≡ true)) here (ground arith, f)
  | inr n ↦ let (occurs, f) = first_fit-fits m asize xs p (rw n at e) in (ground arith, f)
]

-- A block of the lists that are searched is in one of them.
pub searched-listed :
    (lists : ℕ → List ℕ) (k p : ℕ)
    → 0 < occurrences p (searched lists k)
    → (n : ℕ) × (0 < occurrences p (lists n))
searched-listed lists k p h =
    let s₀ = occurrences-append p (lists 0) (lists 1 ++ (lists 2 ++ lists 3)) in
    let s₁ = occurrences-append p (lists 1) (lists 2 ++ lists 3) in
    let s₂ = occurrences-append p (lists 2) (lists 3) in
    elim (Bool-cases (ltb 0 (occurrences p (lists 0)))) [
      | inl e ↦ (0, ground arith)
      | inr n₀ ↦ elim (Bool-cases (ltb 0 (occurrences p (lists 1)))) [
        | inl e ↦ (1, ground arith)
        | inr n₁ ↦ elim (Bool-cases (ltb 0 (occurrences p (lists 2)))) [
          | inl e ↦ (2, ground arith)
          | inr n₂ ↦ (3, ground arith)
        ]
      ]
    ]

-- A listed block is one of the row.
pub listed_at-split :
    (n p : ℕ) (bs : List Block)
    → 0 < listed_at n p bs
    → (front : List Block) × (b : Block) × (back : List Block) × (bs ≡ front ++ (b ∷ back))
      × (b.at ≡ p)
      × (b.in_list ≡ true)
unfolding listed_at
listed_at-split n p [] h = absurd (omega arith)
listed_at-split n p (c ∷ bs) h = elim (Bool-cases (is_in_list n p c)) [
  | inl e ↦ ([], c, bs, refl, ground arith, ground arith)
  | inr e ↦
      let (front, b, back, split, at_p, listed) = listed_at-split n p bs (ground arith) in
      (c ∷ front, b, back, ap (λ t. c ∷ t) split, at_p, listed)
]
