-- ===== src/Allocator/Changes.antt =====
-- Changes of the heap of dynamic_memory_allocator/src/sfmm.c that keep it a row of blocks: new
-- words in blocks that stand in no list, and new links.
use linux_system.Prelude.{
  ℕ, ◌+◌, ◌-◌, ◌≤◌, ◌<◌, ◌≡◌, ◌≢◌, ◌⊎◌, sym, ap, subst, ◌∙◌, inl, inr, Bool, List, [], ◌∷◌, ◌++◌,
  ◌==◌, if◌then◌else◌, arith, All, Bool-cases, ltb,
}
use linux_system.Allocator.{Mem, Heap, next}
use linux_system.Allocator.Segments.{Apart, Seg, IsClear}
use linux_system.Allocator.FreeList.{IsList, ChangesLinks, Leaves}
use linux_system.Allocator.Layout.{
  Block, Tiles, Agrees, occurrences, starts, listed_at, IsHeap, Tiles-join, Tiles-Within,
  listed_at-append, listed_at-starts,
}
use linux_system.Allocator.Geometry.{
  starts-Apart, All-occurring, NoLink, Bounds, starts-Bounds, listed_at-outside, All-map, All-zip,
  All-append, All-split, Agrees-words, Agrees-outside,
}

-- Links that stay.
pub Seg-frame :
    (m m' : Mem) (l p : ℕ) (xs : List ℕ) (l' p' : ℕ)
    → All (λ x. (m' (x + 8) ≡ m (x + 8)) × (m' (x + 16) ≡ m (x + 16))) xs
    → Seg m l p xs l' p'
    → Seg m' l p xs l' p'
unfolding Seg
Seg-frame m m' l p [] l' p' same s = s
Seg-frame m m' l p (x ∷ xs) l' p' ((e₁, e₂), same) (e, pos, before, rest) = (
  e,
  pos,
  e₂ ∙ before,
  subst (λ q. Seg m' x q xs l' p') (sym e₁) (Seg-frame m m' x (next m x) xs l' p' same rest),
)

-- New blocks in the place of some, where no link changes and as many are listed as before.
pub IsHeap-replace :
    (h : Heap) (m' : Mem) (front mid mid' back : List Block) (lists : ℕ → List ℕ) (q r : ℕ)
    → IsHeap h (front ++ (mid ++ back)) lists
    → Tiles h.start_of_heap front q
    → Tiles q mid' r
    → Tiles r back h.end_of_heap
    → ((a : ℕ) → (a < q) ⊎ (r ≤ a) → m' a ≡ h.mem a)
    → ((n x : ℕ)
        → 0 < listed_at n x mid
        → (m' (x + 8) ≡ h.mem (x + 8)) × (m' (x + 16) ≡ h.mem (x + 16)))
    → ((n x : ℕ) → listed_at n x mid' ≡ listed_at n x mid)
    → All (Agrees m') mid'
    → IsHeap (record h { mem = m' }) (front ++ (mid' ++ back)) lists
IsHeap-replace h m' front mid mid' back lists q r ok tf tm tb out links counts agree =
    let (agree_f, agree_mb) = All-split (Agrees h.mem) front (mid ++ back) ok.agrees in
    let (_, agree_b) = All-split (Agrees h.mem) mid back agree_mb in
    record {
      pos = ok.pos;
      tiles =
          Tiles-join h.start_of_heap front (mid' ++ back) q h.end_of_heap tf
            (Tiles-join q mid' back r h.end_of_heap tm tb);
      agrees =
          All-append (Agrees m') front (mid' ++ back)
            (Agrees-outside h.mem m' q r h.start_of_heap q front out (inl (omega arith))
              (Tiles-Within h.start_of_heap front q tf) agree_f)
            (All-append (Agrees m') mid' back agree (
              Agrees-outside h.mem m' q r r h.end_of_heap back out (inr (omega arith))
                (Tiles-Within r back h.end_of_heap tb) agree_b));
      chained = λ n.
          let (l, s) = ok.chained n in
          (
            l,
            Seg-frame h.mem m' 0 (h.head n) (lists n) l 0
                (All-occurring (λ x. (m' (x + 8) ≡ h.mem (x + 8)) × (m' (x + 16) ≡ h.mem (x + 16)))
                  (lists n)
                  (λ x occurs.
                    let listed : 0 < listed_at n x (front ++ (mid ++ back)) =
                      subst (λ k. 0 < k) (ok.same n x) occurs in
                    elim (Bool-cases (ltb 0 (listed_at n x mid))) [
                      | inl inside ↦ links n x (ground arith)
                      | inr outside ↦
                          elim (listed_at-outside n x h.start_of_heap q r h.end_of_heap front mid
                            back tf tb (ground arith) listed) [
                              | inl lo ↦ (
                                out (x + 8) (inl (omega arith)),
                                out (x + 16) (inl (omega arith)),
                              )
                              | inr hi ↦ (
                                out (x + 8) (inr (omega arith)),
                                out (x + 16) (inr (omega arith)),
                              )
                            ]
                    ]))
                s,
          );
      same = λ n x.
          ok.same n x
          ∙ listed_at-append n x front (mid ++ back)
          ∙ ap (λ k. listed_at n x front + k)
              (listed_at-append n x mid back
                ∙ ap (λ k. k + listed_at n x back) (sym (counts n x))
                ∙ sym (listed_at-append n x mid' back))
          ∙ sym (listed_at-append n x front (mid' ++ back));
    }

abbrev pub set_list : (ℕ → List ℕ) → ℕ → List ℕ → ℕ → List ℕ
set_list lists n xs = λ k. if k == n then xs else lists k

-- The block with its place in a list, or without.
abbrev pub flagged : Block → Bool → Block
flagged b v = record b { in_list = v }

flagged-Tiles :
    (p : ℕ) (front : List Block) (b : Block) (v : Bool) (back : List Block) (e : ℕ)
    → Tiles p (front ++ (b ∷ back)) e
    → Tiles p (front ++ (flagged b v ∷ back)) e
unfolding Tiles
flagged-Tiles p [] b v back e t = t
flagged-Tiles p (c ∷ front) b v back e (f, le, rows, t) =
    (f, le, rows, flagged-Tiles (p + c.size) front b v back e t)

flagged-Agrees :
    (m : Mem) (front : List Block) (b : Block) (v : Bool) (back : List Block)
    → All (Agrees m) (front ++ (b ∷ back))
    → All (Agrees m) (front ++ (flagged b v ∷ back))
flagged-Agrees m [] b v back h = h
flagged-Agrees m (c ∷ front) b v back (hc, h) = (hc, flagged-Agrees m front b v back h)

All-pointwise : {A : Type 0} (P : A → Type 0) (xs : List A) → ((x : A) → P x) → All P xs
All-pointwise P [] f = tt
All-pointwise P (x ∷ xs) f = (f x, All-pointwise P xs f)

-- The words of boundaries are clear of the links of blocks.
abbrev ClearBounds : List ℕ → Block → Type 0
ClearBounds xs b = IsClear b.at xs × IsClear (b.at + b.size - 8) xs

boundaries_clear :
    (p : ℕ) (bs : List Block) (e : ℕ) (xs : List ℕ)
    → Tiles p bs e
    → All (λ x. 0 < starts x bs) xs
    → All (ClearBounds xs) bs
boundaries_clear p bs e [] t h = All-pointwise (ClearBounds []) bs (λ b. (tt, tt))
boundaries_clear p bs e (x ∷ xs) t (hx, h) =
    All-map (λ b. Bounds x b × ClearBounds xs b) (ClearBounds (x ∷ xs)) bs
      (λ b ((b₁, b₂), (c₁, c₂)). ((b₁, c₁), (b₂, c₂)))
      (All-zip (Bounds x) (ClearBounds xs) bs (starts-Bounds x p bs e t hx)
        (boundaries_clear p bs e xs t h))

apart_clear : (x y : ℕ) → Apart x y → NoLink y (x + 8) × NoLink y (x + 16)
apart_clear x y (inl a) =
    (((λ e. omega arith), (λ e. omega arith)), ((λ e. omega arith), (λ e. omega arith)))
apart_clear x y (inr a) =
    (((λ e. omega arith), (λ e. omega arith)), ((λ e. omega arith), (λ e. omega arith)))

pub listed_somewhere :
    (h : Heap) (bs : List Block) (lists : ℕ → List ℕ) (n x : ℕ)
    → IsHeap h bs lists
    → 0 < occurrences x (lists n)
    → 0 < starts x bs
listed_somewhere h bs lists n x ok occurs =
    let e = ok.same n x in let le = listed_at-starts n x bs in omega arith

-- Lists whose blocks are others than those that are touched.
untouched :
    (h h' : Heap) (bs : List Block) (lists : ℕ → List ℕ) (n k : ℕ) (touched : List ℕ)
    → IsHeap h bs lists
    → ChangesLinks h n touched h'
    → ((y : ℕ) → 0 < occurrences y touched → 0 < starts y bs)
    → ((x y : ℕ) → 0 < occurrences x (lists k) → 0 < occurrences y touched → x ≢ y)
    → k ≢ n
    → IsList h' k (lists k)
untouched h h' bs lists n k touched ok ch inside others ne =
    let (l, s) = ok.chained k in
    let clear : (x : ℕ)
        → 0 < occurrences x (lists k)
        → IsClear (x + 8) touched × IsClear (x + 16) touched =
      λ x occurs.
        let apart : (y : ℕ) → 0 < occurrences y touched → NoLink y (x + 8) × NoLink y (x + 16) =
          λ y of_y. apart_clear x y (
            starts-Apart x y h.start_of_heap bs h.end_of_heap ok.tiles
              (listed_somewhere h bs lists k x ok occurs) (inside y of_y)
              (others x y occurs of_y)) in
        (
          All-occurring (λ y. NoLink y (x + 8)) touched (λ y of_y. (apart y of_y).0),
          All-occurring (λ y. NoLink y (x + 16)) touched (λ y of_y. (apart y of_y).1),
        ) in
    (
      l,
      subst (λ q. Seg h'.mem 0 q (lists k) l 0) (sym (ch.heads k ne))
          (Seg-frame h.mem h'.mem 0 (h.head k) (lists k) l 0
            (All-occurring
              (λ x. (h'.mem (x + 8) ≡ h.mem (x + 8)) × (h'.mem (x + 16) ≡ h.mem (x + 16))) (lists k)
              (λ x occurs.
                let (c₁, c₂) = clear x occurs in (ch.words (x + 8) c₁, ch.words (x + 16) c₂)))
            s),
    )

-- New links, and a new flag to go with them.
pub IsHeap-relink :
    (h h' : Heap) (front : List Block) (b : Block) (v : Bool) (back : List Block)
    (lists : ℕ → List ℕ) (n : ℕ) (touched xs : List ℕ)
    → IsHeap h (front ++ (b ∷ back)) lists
    → Leaves h n touched xs h'
    → ((y : ℕ) → 0 < occurrences y touched → 0 < starts y (front ++ (b ∷ back)))
    → ((k x y : ℕ) → k ≢ n → 0 < occurrences x (lists k) → 0 < occurrences y touched → x ≢ y)
    → ((k x : ℕ)
        → occurrences x (set_list lists n xs k) ≡ listed_at k x (front ++ (flagged b v ∷ back)))
    → IsHeap h' (front ++ (flagged b v ∷ back)) (set_list lists n xs)
IsHeap-relink h h' front b v back lists n touched xs ok (linked, ch) inside others same =
    let bs = front ++ (b ∷ back) in
    record {
      pos = subst (λ p. 0 < p) (sym ch.start) ok.pos;
      tiles =
          subst (λ p. Tiles p (front ++ (flagged b v ∷ back)) h'.end_of_heap) (sym ch.start)
            (subst (λ e. Tiles h.start_of_heap (front ++ (flagged b v ∷ back)) e) (sym ch.end)
              (flagged-Tiles h.start_of_heap front b v back h.end_of_heap ok.tiles));
      agrees = flagged-Agrees h'.mem front b v back (
          All-map (λ c. Agrees h.mem c × ClearBounds touched c) (Agrees h'.mem) bs
            (λ c (a, (c₁, c₂)).
              Agrees-words h.mem h'.mem c (ch.words c.at c₁) (ch.words (c.at + c.size - 8) c₂) a)
            (All-zip (Agrees h.mem) (ClearBounds touched) bs ok.agrees (
              boundaries_clear h.start_of_heap bs h.end_of_heap touched ok.tiles
                (All-occurring (λ y. 0 < starts y bs) touched inside))));
      chained = λ k. elim (Bool-cases (k == n)) [
        | inl e ↦
            let is_n : k ≡ n = ground arith in rw e (subst (λ j. IsList h' j xs) (sym is_n) linked)
        | inr e ↦ rw e (
            untouched h h' bs lists n k touched ok ch inside (λ x y. others k x y (ground arith))
              (ground arith))
      ];
      same = same;
    }
