-- ===== src/Allocator/Writing.antt =====
-- `write_block` of dynamic_memory_allocator/src/sfmm.c on the blocks of the heap: new fields, two
-- blocks made one, and one made two.
use linux_system.Prelude.{
  ℕ, ◌+◌, ◌-◌, ◌^◌, ◌≤◌, ◌<◌, ◌≡◌, ◌⊎◌, refl, sym, subst, ◌∙◌, inl, inr, Bool, false, List, [], ◌∷◌,
  ◌++◌, arith,
}
use linux_system.Allocator.{Mem, Heap, write_block}
use linux_system.Allocator.Fields.{IsBlock, write_block-Reads, write_block-away}
use linux_system.Allocator.Layout.{Block, Tiles, Agrees, listed_at, IsHeap, Tiles-append}
use linux_system.Allocator.Geometry.{Agrees-words}
use linux_system.Allocator.Changes.{IsHeap-replace}

-- The rows before and behind a block.
pub middle-Tiles :
    (h : Heap) (front : List Block) (b : Block) (back : List Block) (lists : ℕ → List ℕ)
    → IsHeap h (front ++ (b ∷ back)) lists
    → Tiles h.start_of_heap front b.at × Tiles (b.at + b.size) back h.end_of_heap
unfolding Tiles
middle-Tiles h front b back lists ok =
    let (q, t, (f, le, rows, t')) =
      Tiles-append h.start_of_heap front (b ∷ back) h.end_of_heap ok.tiles in
    (
      subst (λ p. Tiles h.start_of_heap front p) (sym f) t,
      subst (λ p. Tiles (p + b.size) back h.end_of_heap) (sym f) t',
    )

-- What `write_block` makes of the words of a block.
abbrev pub block_of : ℕ → ℕ → ℕ → ℕ → ℕ → Bool → Block
block_of p size requested a pad v = record {
  at = p;
  size = size;
  bit = a;
  in_list = v;
  pad = pad;
  requested = requested;
}

pub write_block-outside :
    (m : Mem) (p size requested a pad b : ℕ)
    → 16 ≤ size
    → (b < p) ⊎ (p + size ≤ b)
    → write_block m p size requested a pad b ≡ m b
write_block-outside m p size requested a pad b least (inl lt) =
    write_block-away m p size requested a pad b (λ e. omega arith) (λ e. omega arith)
write_block-outside m p size requested a pad b least (inr le) =
    write_block-away m p size requested a pad b (λ e. omega arith) (λ e. omega arith)

pub write_block-Agrees :
    (m : Mem) (p size requested a pad : ℕ) (v : Bool)
    → IsBlock size a pad
    → requested < 2 ^ 32
    → Agrees (write_block m p size requested a pad) (block_of p size requested a pad v)
write_block-Agrees m p size requested a pad v ok lt =
    (write_block-Reads m p size requested a pad ok lt).0

-- No block of the row is listed.
abbrev pub NoneListed : List Block → Type 0
NoneListed bs = (n x : ℕ) → listed_at n x bs ≡ 0

pub NoneListed-one : (b : Block) → b.in_list ≡ false → NoneListed (b ∷ [])
unfolding listed_at
NoneListed-one b e n x = ground arith

pub NoneListed-two : (b c : Block) → b.in_list ≡ false → c.in_list ≡ false → NoneListed (b ∷ c ∷ [])
unfolding listed_at
NoneListed-two b c e f n x = ground arith

-- One block, written over blocks that stand in no list.
pub IsHeap-merge :
    (h : Heap) (front mid back : List Block) (lists : ℕ → List ℕ) (p size requested a pad : ℕ)
    → IsHeap h (front ++ (mid ++ back)) lists
    → NoneListed mid
    → Tiles h.start_of_heap front p
    → Tiles (p + size) back h.end_of_heap
    → IsBlock size a pad
    → 32 ≤ size
    → requested < 2 ^ 32
    → IsHeap
        (record h { mem = write_block h.mem p size requested a pad })
        (front ++ (block_of p size requested a pad false ∷ back))
        lists
unfolding Tiles
IsHeap-merge h front mid back lists p size requested a pad ok none_in tf tb is least lt =
    IsHeap-replace h (write_block h.mem p size requested a pad) front mid
      (block_of p size requested a pad false ∷ []) back lists p (p + size) ok tf
      (refl, least, is.rows, refl) tb
      (λ b side. write_block-outside h.mem p size requested a pad b is.least side)
      (λ n x some_in. let e = none_in n x in absurd (omega arith))
      (λ n x. NoneListed-one (block_of p size requested a pad false) refl n x ∙ sym (none_in n x))
      (write_block-Agrees h.mem p size requested a pad false is lt, tt)

-- New fields of a block, which stays in its list if it is in one.
same_place :
    (b : Block) (requested a pad n x : ℕ)
    → listed_at n x (block_of b.at b.size requested a pad b.in_list ∷ []) ≡ listed_at n x (b ∷ [])
unfolding listed_at
same_place b requested a pad n x = refl

is_at : (b : Block) (n x : ℕ) → 0 < listed_at n x (b ∷ []) → x ≡ b.at
unfolding listed_at
is_at b n x h = ground arith

links_kept :
    (m : Mem) (b : Block) (requested a pad n x : ℕ)
    → 32 ≤ b.size
    → 0 < listed_at n x (b ∷ [])
    → (write_block m b.at b.size requested a pad (x + 8) ≡ m (x + 8))
      × (write_block m b.at b.size requested a pad (x + 16) ≡ m (x + 16))
links_kept m b requested a pad n x le some_in =
    let e = is_at b n x some_in in
    (
      write_block-away m b.at b.size requested a pad (x + 8) (λ f. omega arith) (λ f. omega arith),
      write_block-away m b.at b.size requested a pad (x + 16) (λ f. omega arith) (λ f. omega arith),
    )

pub IsHeap-rewrite :
    (h : Heap) (front : List Block) (b : Block) (back : List Block) (lists : ℕ → List ℕ)
    (requested a pad : ℕ)
    → IsHeap h (front ++ (b ∷ back)) lists
    → IsBlock b.size a pad
    → 32 ≤ b.size
    → requested < 2 ^ 32
    → IsHeap
        (record h { mem = write_block h.mem b.at b.size requested a pad })
        (front ++ (block_of b.at b.size requested a pad b.in_list ∷ back))
        lists
unfolding Tiles
IsHeap-rewrite h front b back lists requested a pad ok is least lt =
    let (tf, tb) = middle-Tiles h front b back lists ok in
    IsHeap-replace h (write_block h.mem b.at b.size requested a pad) front (b ∷ [])
      (block_of b.at b.size requested a pad b.in_list ∷ []) back lists b.at (b.at + b.size) ok tf
      (refl, least, is.rows, refl) tb
      (λ w side. write_block-outside h.mem b.at b.size requested a pad w is.least side)
      (λ n x some_in. links_kept h.mem b requested a pad n x least some_in)
      (same_place b requested a pad)
      (write_block-Agrees h.mem b.at b.size requested a pad b.in_list is lt, tt)

-- Two blocks, written into one that stands in no list.
abbrev pub split_mem : Mem → ℕ → ℕ → ℕ → ℕ → ℕ → ℕ → ℕ → ℕ → ℕ → Mem
split_mem m p size₁ requested₁ a₁ pad₁ size₂ requested₂ a₂ pad₂ =
    write_block (write_block m p size₁ requested₁ a₁ pad₁) (p + size₁) size₂ requested₂ a₂ pad₂

module _ (size₁ requested₁ a₁ pad₁ size₂ requested₂ a₂ pad₂ : ℕ) where
  split_mem-outside :
      (m : Mem) (p b : ℕ)
      → 16 ≤ size₁
      → 16 ≤ size₂
      → (b < p) ⊎ (p + size₁ + size₂ ≤ b)
      → split_mem m p size₁ requested₁ a₁ pad₁ size₂ requested₂ a₂ pad₂ b ≡ m b
  split_mem-outside m p b le₁ le₂ (inl lt) =
      write_block-outside (write_block m p size₁ requested₁ a₁ pad₁) (p + size₁) size₂ requested₂ a₂
        pad₂ b le₂ (inl (omega arith))
      ∙ write_block-outside m p size₁ requested₁ a₁ pad₁ b le₁ (inl lt)
  split_mem-outside m p b le₁ le₂ (inr le) =
      write_block-outside (write_block m p size₁ requested₁ a₁ pad₁) (p + size₁) size₂ requested₂ a₂
        pad₂ b le₂ (inr le)
      ∙ write_block-outside m p size₁ requested₁ a₁ pad₁ b le₁ (inr (omega arith))

  pub IsHeap-split :
      (h : Heap) (front : List Block) (b : Block) (back : List Block) (lists : ℕ → List ℕ)
      → IsHeap h (front ++ (b ∷ back)) lists
      → b.in_list ≡ false
      → size₁ + size₂ ≡ b.size
      → IsBlock size₁ a₁ pad₁
      → IsBlock size₂ a₂ pad₂
      → 32 ≤ size₁
      → 32 ≤ size₂
      → requested₁ < 2 ^ 32
      → requested₂ < 2 ^ 32
      → IsHeap
          (record h {
            mem = split_mem h.mem b.at size₁ requested₁ a₁ pad₁ size₂ requested₂ a₂ pad₂;
          })
          (front
            ++ (block_of b.at size₁ requested₁ a₁ pad₁ false
                ∷ block_of (b.at + size₁) size₂ requested₂ a₂ pad₂ false
                ∷ back))
          lists
  unfolding Tiles
  IsHeap-split h front b back lists ok unlisted sizes is₁ is₂ le₁ le₂ lt₁ lt₂ =
      let (tf, tb) = middle-Tiles h front b back lists ok in
      let m₁ = write_block h.mem b.at size₁ requested₁ a₁ pad₁ in
      let u = block_of b.at size₁ requested₁ a₁ pad₁ false in
      let r = block_of (b.at + size₁) size₂ requested₂ a₂ pad₂ false in
      IsHeap-replace h (split_mem h.mem b.at size₁ requested₁ a₁ pad₁ size₂ requested₂ a₂ pad₂)
        front (b ∷ []) (u ∷ r ∷ []) back lists b.at (b.at + size₁ + size₂) ok tf
        (refl, le₁, is₁.rows, (refl, le₂, is₂.rows, refl))
        (subst (λ e. Tiles e back h.end_of_heap) (omega arith) tb)
        (λ w side. split_mem-outside h.mem b.at w is₁.least is₂.least side)
        (λ n x some_in. let e = NoneListed-one b unlisted n x in absurd (omega arith))
        (λ n x. NoneListed-two u r refl refl n x ∙ sym (NoneListed-one b unlisted n x))
        (
          Agrees-words m₁ (split_mem h.mem b.at size₁ requested₁ a₁ pad₁ size₂ requested₂ a₂ pad₂) u
              (write_block-outside m₁ (b.at + size₁) size₂ requested₂ a₂ pad₂ b.at is₂.least
                (inl (omega arith)))
              (write_block-outside m₁ (b.at + size₁) size₂ requested₂ a₂ pad₂ (b.at + size₁ - 8)
                is₂.least (inl (omega arith)))
              (write_block-Agrees h.mem b.at size₁ requested₁ a₁ pad₁ false is₁ lt₁),
          (write_block-Agrees m₁ (b.at + size₁) size₂ requested₂ a₂ pad₂ false is₂ lt₂, tt),
        )
