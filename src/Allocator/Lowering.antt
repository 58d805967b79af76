-- ===== src/Allocator/Lowering.antt =====
-- A page behind the heap of dynamic_memory_allocator/src/sfmm.c, and `coalescing_with_lower_address`.
use linux_system.Prelude.{
  ℕ, ◌+◌, ◌-◌, ◌≤◌, ◌<◌, ◌≡◌, ◌⊎◌, refl, sym, ap, subst, ◌∙◌, inl, inr, Bool, true, false, not,
  ◌||◌, List, [], ◌∷◌, ◌++◌, ◌==◌, if◌then◌else◌, arith, All, Bool-cases,
}
use linux_system.Allocator.{
  Heap, allocated, bytes_of, plus, minus, write_block, remove_seg_free_list, insert_seg_free_list,
  coalescing_with_higher_address, coalescing_with_lower_address,
}
use linux_system.Allocator.Layout.{
  Block, Tiles, Agrees, IsHeap, IsSmall, listed_at, Tiles-join, Tiles-Within, listed_at-append,
  listed_at-starts,
}
use linux_system.Allocator.Geometry.{starts-Within, All-occurring, All-append, Agrees-outside}
use linux_system.Allocator.Changes.{Seg-frame, flagged}
use linux_system.Allocator.Relisting.{
  SameBounds, SameBounds-trans, remove-SameBounds, insert-SameBounds, middle-Agrees, middle-size,
  IsHeap-unlist, IsHeap-enlist, IsSmall-kept,
}
use linux_system.Allocator.Writing.{
  block_of, middle-Tiles, write_block-outside, write_block-Agrees, NoneListed-one,
}
use linux_system.Allocator.Coalescing.{
  AtRest, absorbed, beyond, coalescing_with_higher_address-IsHeap,
}
use linux_system.Allocator.Freeing.{absorbed-at, absorbed-unlisted, absorbed-bit, beyond-AtRest}

-- The heap with a page behind its end.
abbrev pub page : ℕ → Bool → Block
page p v = block_of p 4096 0 0 0 v

abbrev pub grown : Heap → Heap
grown h = record h {
  mem = write_block h.mem h.end_of_heap 4096 0 0 0;
  end_of_heap = h.end_of_heap + 4096;
}

pub grown-IsHeap :
    (h : Heap) (bs : List Block) (lists : ℕ → List ℕ)
    → IsHeap h bs lists
    → IsHeap (grown h) (bs ++ (page h.end_of_heap false ∷ [])) lists
unfolding Tiles
grown-IsHeap h bs lists ok =
    let e = h.end_of_heap in
    let m' = write_block h.mem e 4096 0 0 0 in
    let out : (a : ℕ) → (a < e) ⊎ (e + 4096 ≤ a) → m' a ≡ h.mem a =
      λ a side. write_block-outside h.mem e 4096 0 0 0 a (omega arith) side in
    record {
      pos = ok.pos;
      tiles =
          Tiles-join h.start_of_heap bs (page e false ∷ []) e (e + 4096) ok.tiles
            (refl, omega arith, refl, refl);
      agrees =
          All-append (Agrees m') bs (page e false ∷ [])
            (Agrees-outside h.mem m' e (e + 4096) h.start_of_heap e bs out (inl (omega arith))
              (Tiles-Within h.start_of_heap bs e ok.tiles) ok.agrees)
            (
              write_block-Agrees h.mem e 4096 0 0 0 false
                  (record {
                    rows = refl;
                    least = omega arith;
                    most = omega arith;
                    bit = omega arith;
                    pad_bit = omega arith;
                  })
                  (omega arith),
              tt,
            );
      chained = λ n.
          let (l, s) = ok.chained n in
          (
            l,
            Seg-frame h.mem m' 0 (h.head n) (lists n) l 0
                (All-occurring (λ x. (m' (x + 8) ≡ h.mem (x + 8)) × (m' (x + 16) ≡ h.mem (x + 16)))
                  (lists n)
                  (λ x occurs.
                    let listed : 0 < listed_at n x bs = subst (λ k. 0 < k) (ok.same n x) occurs in
                    let le = listed_at-starts n x bs in
                    let (_, hi) = starts-Within x h.start_of_heap bs e ok.tiles (omega arith) in
                    (out (x + 8) (inl (omega arith)), out (x + 16) (inl (omega arith)))))
                s,
          );
      same = λ n x.
          let parts = listed_at-append n x bs (page e false ∷ []) in
          let none_more = NoneListed-one (page e false) refl n x in
          let before = ok.same n x in omega arith;
    }

-- The two ends of `coalescing_with_lower_address`.
pub lower-used :
    (h : Heap) (p q : ℕ)
    → minus p (bytes_of h.mem (p - 8)) ≡ q
    → allocated (h.mem q) ≡ 1
    → coalescing_with_lower_address h p ≡ h
unfolding coalescing_with_lower_address
lower-used h p q e used =
    let t : (not (allocated (h.mem (minus p (bytes_of h.mem (p - 8)))) == 0)) ≡ true =
      subst (λ a. not (allocated (h.mem a) == 0) ≡ true) (sym e) (ground arith) in
    rw t refl

pub lower-free :
    (h : Heap) (p q : ℕ)
    → minus p (bytes_of h.mem (p - 8)) ≡ q
    → allocated (h.mem q) ≡ 0
    → coalescing_with_lower_address h p
      ≡ insert_seg_free_list (coalescing_with_higher_address (remove_seg_free_list h q) q) q
unfolding coalescing_with_lower_address
lower-free h p q e free =
    subst
      (λ a.
        coalescing_with_lower_address h p
        ≡ insert_seg_free_list (coalescing_with_higher_address (remove_seg_free_list h a) a) a)
      e
      (let t : (not (allocated (h.mem (minus p (bytes_of h.mem (p - 8)))) == 0)) ≡ false =
          subst (λ a. not (allocated (h.mem a) == 0) ≡ false) (sym e) (ground arith) in
        rw t refl)

-- What becomes of a block and those behind it, when the one behind it is coalesced downwards.
abbrev pub lowered : Block → List Block → List Block
lowered l back =
    if l.in_list then flagged (absorbed (flagged l false) back) true ∷ beyond back else l ∷ back

-- `coalescing_with_lower_address` on the block behind `l`.
pub coalescing_with_lower_address-IsHeap :
    (h : Heap) (front : List Block) (l b : Block) (back : List Block) (lists : ℕ → List ℕ)
    → IsHeap h (front ++ (l ∷ b ∷ back)) lists
    → AtRest l
    → All AtRest (b ∷ back)
    → IsSmall h
    → (lists' : ℕ → List ℕ) × IsHeap
        (coalescing_with_lower_address h b.at)
        (front ++ lowered l (b ∷ back))
        lists'
unfolding Tiles remove_seg_free_list
coalescing_with_lower_address-IsHeap h front l b back lists ok rest_l rest lt =
    let agree = middle-Agrees h front l (b ∷ back) lists ok in
    let (lo, least, _, hi) = middle-size h front l (b ∷ back) lists ok in
    let (_, (at_b, _, _, _)) = middle-Tiles h front l (b ∷ back) lists ok in
    let footer : bytes_of h.mem (b.at - 8) ≡ l.size =
      subst (λ a. bytes_of h.mem (a - 8) ≡ l.size) (sym at_b) agree.footer_size in
    let header : minus b.at (bytes_of h.mem (b.at - 8)) ≡ l.at =
      ap (λ s. minus b.at s) footer ∙ omega (arith, lt.high) in
    let Lowered : Bool → Type 0 = λ v.
      (lists' : ℕ → List ℕ) × IsHeap (coalescing_with_lower_address h b.at)
        (front
          ++ (if v
              then flagged (absorbed (flagged l false) (b ∷ back)) true ∷ beyond (b ∷ back)
              else l ∷ b ∷ back))
        lists' in
    elim (Bool-cases l.in_list) [
      | inl e ↦
          let (lists₁, ok₁) = IsHeap-unlist h front l (b ∷ back) lists ok e in
          let h₁ = remove_seg_free_list h l.at in
          let (lists₂, ok₂) =
            coalescing_with_higher_address-IsHeap h₁ front (flagged l false) (b ∷ back) lists₁ ok₁
              refl rest (IsSmall-kept h h₁ (remove-SameBounds h l.at) lt) in
          let whole = absorbed (flagged l false) (b ∷ back) in
          let (lists₃, ok₃) =
            IsHeap-enlist (coalescing_with_higher_address h₁ l.at) front whole (beyond (b ∷ back))
              lists₂ ok₂ (absorbed-unlisted (flagged l false) (b ∷ back) refl) in
          subst Lowered (sym e) (
            lists₃,
            subst (λ k. IsHeap k (front ++ (flagged whole true ∷ beyond (b ∷ back))) lists₃)
                (sym (lower-free h b.at l.at header (agree.allocated_reads ∙ ground arith)))
                (subst
                  (λ p.
                    IsHeap (insert_seg_free_list (coalescing_with_higher_address h₁ l.at) p)
                      (front ++ (flagged whole true ∷ beyond (b ∷ back))) lists₃)
                  (absorbed-at (flagged l false) (b ∷ back)) ok₃),
          )
      | inr e ↦ subst Lowered (sym e) (
        lists,
        subst (λ k. IsHeap k (front ++ (l ∷ b ∷ back)) lists)
            (sym (lower-used h b.at l.at header (agree.allocated_reads ∙ ground arith))) ok,
      )
    ]

pub lowered-AtRest :
    (l : Block) (back : List Block) → AtRest l → All AtRest back → All AtRest (lowered l back)
lowered-AtRest l back rest_l rest = elim (Bool-cases l.in_list) [
  | inl e ↦ rw e (absorbed-bit (flagged l false) back (ground arith), beyond-AtRest back rest)
  | inr e ↦
      subst
        (λ v.
          All AtRest
            (if v then flagged (absorbed (flagged l false) back) true ∷ beyond back else l ∷ back))
        (sym e) (rest_l, rest)
]

pub higher-SameBounds : (h : Heap) (p : ℕ) → SameBounds h (coalescing_with_higher_address h p)
unfolding coalescing_with_higher_address
higher-SameBounds h p =
    let q = plus p (bytes_of h.mem p) in
    elim (Bool-cases ((allocated (h.mem q) == 1) || (q == h.end_of_heap))) [
      | inl e ↦ rw e (refl, refl)
      | inr e ↦ rw e (remove-SameBounds h q)
    ]

pub lower-SameBounds : (h : Heap) (p : ℕ) → SameBounds h (coalescing_with_lower_address h p)
unfolding coalescing_with_lower_address
lower-SameBounds h p =
    let q = minus p (bytes_of h.mem (p - 8)) in
    let h₁ = remove_seg_free_list h q in
    let h₂ = coalescing_with_higher_address h₁ q in
    elim (Bool-cases (not (allocated (h.mem q) == 0))) [
      | inl e ↦ rw e (refl, refl)
      | inr e ↦ rw e (
          SameBounds-trans h h₂ (insert_seg_free_list h₂ q)
            (SameBounds-trans h h₁ h₂ (remove-SameBounds h q) (higher-SameBounds h₁ q))
            (insert-SameBounds h₂ q))
    ]
