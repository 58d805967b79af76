-- ===== src/Allocator/Geometry.antt =====
-- Where the words of the blocks in the heap of dynamic_memory_allocator/src/sfmm.c lie.
use linux_system.Prelude.{
  ℕ, ◌+◌, ◌-◌, ◌≤◌, ◌<◌, ◌≡◌, ◌≢◌, ◌⊎◌, sym, ap, subst, ◌∙◌, inl, inr, List, [], ◌∷◌, ◌++◌, ◌==◌,
  arith, All, Bool-cases, ltb,
}
use linux_system.Allocator.{Mem, allocated, padded, block_size, upper, shifted}
use linux_system.Allocator.Segments.{Apart, Spread}
use linux_system.Allocator.Layout.{
  Block, Tiles, Agrees, occurrences, starts, listed_at, Tiles-le, Within, Tiles-Within,
  listed_at-append, listed_at-starts,
}

-- A block that begins at `x` lies in the row.
pub starts-Within :
    (x p : ℕ) (bs : List Block) (e : ℕ) → Tiles p bs e → 0 < starts x bs → (p ≤ x) × (x + 32 ≤ e)
unfolding starts Tiles
starts-Within x p [] e t h = absurd (omega arith)
starts-Within x p (b ∷ bs) e (f, le, rows, t) h = elim (Bool-cases (x == b.at)) [
  | inl here ↦
      let at_x : x ≡ b.at = ground arith in
      let below = Tiles-le (p + b.size) bs e t in (omega arith, omega arith)
  | inr away ↦
      let (lo, hi) = starts-Within x (p + b.size) bs e t (ground arith) in (omega arith, hi)
]

-- One block at most begins at a place.
pub starts-le : (x p : ℕ) (bs : List Block) (e : ℕ) → Tiles p bs e → starts x bs ≤ 1
unfolding starts Tiles
starts-le x p [] e t = omega arith
starts-le x p (b ∷ bs) e (f, le, rows, t) = elim (Bool-cases (x == b.at)) [
  | inl here ↦ elim (Bool-cases (ltb 0 (starts x bs))) [
    | inl more ↦
        let (lo, hi) = starts-Within x (p + b.size) bs e t (ground arith) in absurd (ground arith)
    | inr only ↦ ground arith
  ]
  | inr away ↦ ground (arith, starts-le x (p + b.size) bs e t)
]

-- Two blocks do not overlap.
pub starts-Apart :
    (x y p : ℕ) (bs : List Block) (e : ℕ)
    → Tiles p bs e
    → 0 < starts x bs
    → 0 < starts y bs
    → x ≢ y
    → Apart x y
unfolding starts Tiles
starts-Apart x y p [] e t hx hy ne = absurd (omega arith)
starts-Apart x y p (b ∷ bs) e (f, le, rows, t) hx hy ne = elim (Bool-cases (x == b.at)) [
  | inl here ↦
      let (lo, hi) = starts-Within y (p + b.size) bs e t (ground arith) in inl (ground arith)
  | inr away ↦ elim (Bool-cases (y == b.at)) [
    | inl here ↦
        let (lo, hi) = starts-Within x (p + b.size) bs e t (ground arith) in inr (ground arith)
    | inr both ↦ starts-Apart x y (p + b.size) bs e t (ground arith) (ground arith) ne
  ]
]

-- What holds of everything that occurs.
pub All-occurring :
    (P : ℕ → Type 0) (xs : List ℕ) → ((x : ℕ) → 0 < occurrences x xs → P x) → All P xs
unfolding occurrences
All-occurring P [] h = tt
All-occurring P (x ∷ xs) h =
    (h x (ground arith), All-occurring P xs (λ y occurs. h y (ground arith)))

-- Blocks of the heap that are listed once do not overlap.
pub Spread-starts :
    (p : ℕ) (bs : List Block) (e : ℕ) (xs : List ℕ)
    → Tiles p bs e
    → ((x : ℕ) → occurrences x xs ≤ starts x bs)
    → Spread xs
unfolding occurrences
Spread-starts p bs e [] t h = tt
Spread-starts p bs e (x ∷ xs) t h = (
  All-occurring (Apart x) xs (λ y occurs.
      starts-Apart x y p bs e t (ground (arith, h x)) (ground (arith, h y)) (λ same.
        let one = starts-le x p bs e t in
        let two = h x in
        let more : 0 < occurrences x xs = subst (λ z. 0 < occurrences z xs) (sym same) occurs in
        ground arith)),
  Spread-starts p bs e xs t (λ y. let le = h y in ground arith),
)

-- A word that is neither link of the block at `x`.
abbrev pub NoLink : ℕ → ℕ → Type 0
NoLink x a = (a ≢ x + 8) × (a ≢ x + 16)

-- The header and the footer of a block are no links of the block at `x`.
abbrev pub Bounds : ℕ → Block → Type 0
Bounds x b = NoLink x b.at × NoLink x (b.at + b.size - 8)

Bounds-above : (x q e : ℕ) (bs : List Block) → x + 32 ≤ q → All (Within q e) bs → All (Bounds x) bs
Bounds-above x q e [] le h = tt
Bounds-above x q e (b ∷ bs) le ((lo, hi, least), h) = (
  (((λ e. omega arith), (λ e. omega arith)), ((λ e. omega arith), (λ e. omega arith))),
  Bounds-above x q e bs le h,
)

-- The links of a block are neither headers nor footers of blocks, its own included.
pub starts-Bounds :
    (x p : ℕ) (bs : List Block) (e : ℕ) → Tiles p bs e → 0 < starts x bs → All (Bounds x) bs
unfolding starts Tiles
starts-Bounds x p [] e t h = tt
starts-Bounds x p (b ∷ bs) e (f, le, rows, t) h = elim (Bool-cases (x == b.at)) [
  | inl here ↦
      let at_x : x ≡ b.at = ground arith in
      (
        (((λ e. omega arith), (λ e. omega arith)), ((λ e. omega arith), (λ e. omega arith))),
        Bounds-above x (p + b.size) e bs (omega arith) (Tiles-Within (p + b.size) bs e t),
      )
  | inr away ↦
      let more : 0 < starts x bs = ground arith in
      let (lo, hi) = starts-Within x (p + b.size) bs e t more in
      (
        (((λ e. omega arith), (λ e. omega arith)), ((λ e. omega arith), (λ e. omega arith))),
        starts-Bounds x (p + b.size) bs e t more,
      )
]

-- A block of the outer parts lies outside the middle.
pub listed_at-outside :
    (n x p q r e : ℕ) (front mid back : List Block)
    → Tiles p front q
    → Tiles r back e
    → listed_at n x mid ≡ 0
    → 0 < listed_at n x (front ++ (mid ++ back))
    → (x + 32 ≤ q) ⊎ (r ≤ x)
listed_at-outside n x p q r e front mid back t t' none_in some_in =
    elim (Bool-cases (ltb 0 (listed_at n x front))) [
      | inl before ↦
          inl (starts-Within x p front q t (ground (arith, listed_at-starts n x front))).1
      | inr not_before ↦
          inr
            (starts-Within x r back e t' (
              ground (
                arith,
                listed_at-starts n x back,
                listed_at-append n x front (mid ++ back),
                listed_at-append n x mid back,
              ))).0
    ]

-- Headers and footers of the outer parts are outside the middle.
pub All-map :
    {A : Type 0} (P Q : A → Type 0) (xs : List A) → ((x : A) → P x → Q x) → All P xs → All Q xs
All-map P Q [] f h = tt
All-map P Q (x ∷ xs) f (hx, h) = (f x hx, All-map P Q xs f h)

pub All-zip :
    {A : Type 0} (P Q : A → Type 0) (xs : List A) → All P xs → All Q xs → All (λ x. P x × Q x) xs
All-zip P Q [] h k = tt
All-zip P Q (x ∷ xs) (hx, h) (kx, k) = ((hx, kx), All-zip P Q xs h k)

pub All-append :
    {A : Type 0} (P : A → Type 0) (xs ys : List A) → All P xs → All P ys → All P (xs ++ ys)
All-append P [] ys h k = k
All-append P (x ∷ xs) ys (hx, h) k = (hx, All-append P xs ys h k)

pub All-split :
    {A : Type 0} (P : A → Type 0) (xs ys : List A) → All P (xs ++ ys) → All P xs × All P ys
All-split P [] ys h = (tt, h)
All-split P (x ∷ xs) ys (hx, h) = let (a, b) = All-split P xs ys h in ((hx, a), b)

-- The fields of a block are read from two words.
pub Agrees-words :
    (m m' : Mem) (b : Block)
    → m' b.at ≡ m b.at
    → m' (b.at + b.size - 8) ≡ m (b.at + b.size - 8)
    → Agrees m b
    → Agrees m' b
Agrees-words m m' b hd ft r = record {
  size_reads = ap (λ w. shifted (block_size w)) hd ∙ r.size_reads;
  allocated_reads = ap (λ w. allocated w) hd ∙ r.allocated_reads;
  padded_reads = ap (λ w. padded w) hd ∙ r.padded_reads;
  footer_size = ap (λ w. shifted (block_size w)) ft ∙ r.footer_size;
  footer_allocated = ap (λ w. allocated w) ft ∙ r.footer_allocated;
  footer_padded = ap (λ w. padded w) ft ∙ r.footer_padded;
  footer_requested = ap (λ w. upper w) ft ∙ r.footer_requested;
}

-- Memory that changes between `q` and `r` only keeps what lies outside.
pub Agrees-outside :
    (m m' : Mem) (q r p e : ℕ) (bs : List Block)
    → ((a : ℕ) → (a < q) ⊎ (r ≤ a) → m' a ≡ m a)
    → (e ≤ q) ⊎ (r ≤ p)
    → All (Within p e) bs
    → All (Agrees m) bs
    → All (Agrees m') bs
Agrees-outside m m' q r p e [] same side h k = tt
Agrees-outside m m' q r p e (b ∷ bs) same (inl le) ((lo, hi, least), h) (kb, k) = (
  Agrees-words m m' b (same b.at (inl (omega arith))) (same (b.at + b.size - 8) (inl (omega arith)))
      kb,
  Agrees-outside m m' q r p e bs same (inl le) h k,
)
Agrees-outside m m' q r p e (b ∷ bs) same (inr le) ((lo, hi, least), h) (kb, k) = (
  Agrees-words m m' b (same b.at (inr (omega arith))) (same (b.at + b.size - 8) (inr (omega arith)))
      kb,
  Agrees-outside m m' q r p e bs same (inr le) h k,
)
