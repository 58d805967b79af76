-- ===== src/Allocator/Segments.antt =====
-- Doubly linked segments of free blocks in the heap of dynamic_memory_allocator/src/sfmm.c.
use linux_system.Prelude.{
  ℕ, ◌+◌, ◌≤◌, ◌<◌, ◌≡◌, ◌≢◌, ◌⊎◌, refl, sym, subst, inl, inr, List, [], ◌∷◌, ◌++◌, arith, All,
}
use linux_system.Allocator.{Mem, upd, next, prev, set_next, set_prev}

-- Two free blocks with their headers and links, 32 bytes at the least, do not overlap.
abbrev pub Apart : ℕ → ℕ → Type 0
Apart x y = (x + 32 ≤ y) ⊎ (y + 32 ≤ x)

abbrev pub Spread : List ℕ → Type 0
Spread [] = Unit
Spread (x ∷ xs) = All (Apart x) xs × Spread xs

-- `Seg m l p xs l' p'`: the links lead from `p`, before which stands `l`, through the nodes `xs` to
-- `p'`, before which stands `l'`.
unfoldable pub Seg : Mem → ℕ → ℕ → List ℕ → ℕ → ℕ → Type 0
Seg m l p [] l' p' = (l ≡ l') × (p ≡ p')
Seg m l p (x ∷ xs) l' p' = (p ≡ x) × (0 < x) × (prev m x ≡ l) × Seg m x (next m x) xs l' p'

-- A word that is no link of the nodes.
abbrev pub IsClear : ℕ → List ℕ → Type 0
IsClear a xs = All (λ x. (a ≢ x + 8) × (a ≢ x + 16)) xs

pub Seg-upd :
    (m : Mem) (a w l p : ℕ) (xs : List ℕ) (l' p' : ℕ)
    → IsClear a xs
    → Seg m l p xs l' p'
    → Seg (upd m a w) l p xs l' p'
unfolding Seg
Seg-upd m a w l p [] l' p' clear s = s
Seg-upd m a w l p (x ∷ xs) l' p' ((c₁, c₂), clear) (e, pos, before, rest) = (
  e,
  pos,
  ground arith,
  subst (λ q. Seg (upd m a w) x q xs l' p') (ground arith)
      (Seg-upd m a w x (next m x) xs l' p' clear rest),
)

pub Seg-append :
    (m : Mem) (l p : ℕ) (xs ys : List ℕ) (l₁ p₁ l₂ p₂ : ℕ)
    → Seg m l p xs l₁ p₁
    → Seg m l₁ p₁ ys l₂ p₂
    → Seg m l p (xs ++ ys) l₂ p₂
unfolding Seg
Seg-append m l p [] ys l₁ p₁ l₂ p₂ (e, f) t =
    subst (λ a. Seg m a p ys l₂ p₂) (sym e) (subst (λ b. Seg m l₁ b ys l₂ p₂) (sym f) t)
Seg-append m l p (x ∷ xs) ys l₁ p₁ l₂ p₂ (e, pos, before, rest) t =
    (e, pos, before, Seg-append m x (next m x) xs ys l₁ p₁ l₂ p₂ rest t)

pub Seg-split :
    (m : Mem) (l p : ℕ) (xs ys : List ℕ) (l₂ p₂ : ℕ)
    → Seg m l p (xs ++ ys) l₂ p₂
    → (l₁ p₁ : ℕ) × Seg m l p xs l₁ p₁ × Seg m l₁ p₁ ys l₂ p₂
unfolding Seg
Seg-split m l p [] ys l₂ p₂ s = (l, p, (refl, refl), s)
Seg-split m l p (x ∷ xs) ys l₂ p₂ (e, pos, before, rest) =
    let (l₁, p₁, s, t) = Seg-split m x (next m x) xs ys l₂ p₂ rest in
    (l₁, p₁, (e, pos, before, s), t)

-- The blocks around the place of a node.
abbrev pub AllApart : List ℕ → List ℕ → Type 0
AllApart xs ys = All (λ x. All (Apart x) ys) xs

pub Apart-symm : (x y : ℕ) → Apart x y → Apart y x
Apart-symm x y (inl h) = inr h
Apart-symm x y (inr h) = inl h

-- The links of a block are clear of the blocks that it is apart from.
pub IsClear-next : (x : ℕ) (ys : List ℕ) → All (Apart x) ys → IsClear (x + 8) ys
IsClear-next x [] h = tt
IsClear-next x (y ∷ ys) (inl a, h) = (((λ e. omega arith), (λ e. omega arith)), IsClear-next x ys h)
IsClear-next x (y ∷ ys) (inr a, h) = (((λ e. omega arith), (λ e. omega arith)), IsClear-next x ys h)

pub IsClear-prev : (x : ℕ) (ys : List ℕ) → All (Apart x) ys → IsClear (x + 16) ys
IsClear-prev x [] h = tt
IsClear-prev x (y ∷ ys) (inl a, h) = (((λ e. omega arith), (λ e. omega arith)), IsClear-prev x ys h)
IsClear-prev x (y ∷ ys) (inr a, h) = (((λ e. omega arith), (λ e. omega arith)), IsClear-prev x ys h)

-- The node before the end of a segment that is not empty is one of its nodes.
pub Seg-last :
    (P : ℕ → Type 0) (m : Mem) (l p x : ℕ) (xs : List ℕ) (l' p' : ℕ)
    → Seg m l p (x ∷ xs) l' p'
    → All P (x ∷ xs)
    → P l'
unfolding Seg
Seg-last P m l p x [] l' p' (_, _, _, (e, _)) (px, _) = subst P e px
Seg-last P m l p x (y ∷ ys) l' p' (_, _, _, rest) (_, ps) =
    Seg-last P m x (next m x) y ys l' p' rest ps

-- A new `next` of the last node leads the segment elsewhere.
pub Seg-set_next :
    (m : Mem) (l p x : ℕ) (xs : List ℕ) (l' p' q : ℕ)
    → Spread (x ∷ xs)
    → Seg m l p (x ∷ xs) l' p'
    → Seg (set_next m l' q) l p (x ∷ xs) l' q
unfolding Seg
Seg-set_next m l p x [] l' p' q sp (e, pos, before, (f, g)) =
    (e, pos, ground arith, (f, ground arith))
Seg-set_next m l p x (y ∷ ys) l' p' q (ap_x, sp) (e, pos, before, rest) =
    let apart : Apart x l' = Seg-last (Apart x) m x (next m x) y ys l' p' rest ap_x in
    (
      e,
      pos,
      ground arith,
      subst (λ b. Seg (set_next m l' q) x b (y ∷ ys) l' q) (ground arith)
          (Seg-set_next m x (next m x) y ys l' p' q sp rest),
    )

-- A new `prev` of the first node.
pub Seg-set_prev :
    (m : Mem) (l x : ℕ) (xs : List ℕ) (l' p' q : ℕ)
    → Spread (x ∷ xs)
    → Seg m l x (x ∷ xs) l' p'
    → Seg (set_prev m x q) q x (x ∷ xs) l' p'
unfolding Seg
Seg-set_prev m l x xs l' p' q (ap_x, sp) (e, pos, before, rest) = (
  refl,
  pos,
  ground arith,
  subst (λ b. Seg (set_prev m x q) x b xs l' p') (ground arith)
      (Seg-upd m (x + 16) q x (next m x) xs l' p' (IsClear-prev x xs ap_x) rest),
)

pub All-parts : (P : ℕ → Type 0) (xs ys : List ℕ) → All P (xs ++ ys) → All P xs × All P ys
All-parts P [] ys h = (tt, h)
All-parts P (x ∷ xs) ys (hx, h) = let (a, b) = All-parts P xs ys h in ((hx, a), b)

-- Lists of blocks that do not overlap, joined and parted.
pub Spread-append : (xs ys : List ℕ) → Spread (xs ++ ys) → Spread xs × Spread ys × AllApart xs ys
Spread-append [] ys sp = (tt, sp, tt)
Spread-append (x ∷ xs) ys (a, sp) =
    let (sx, sy, xy) = Spread-append xs ys sp in
    let (ax, ay) = All-parts (Apart x) xs ys a in ((ax, sx), sy, (ay, xy))
