-- ===== src/Allocator/Fields.antt =====
-- The words that `write_block` of dynamic_memory_allocator/src/sfmm.c leaves.
use linux_system.Prelude.{ℕ, ◌+◌, ◌-◌, ◌*◌, ◌/◌, ◌%◌, ◌^◌, ◌≤◌, ◌<◌, ◌≡◌, ◌≢◌, ap, ◌∙◌, arith}
use linux_system.Allocator.{
  Mem, allocated, padded, two_zeroes, block_size, upper, with_fields, shifted, bytes_of,
  write_block,
}

-- The fields of a word that has been set.
module _ (w a pad size up : ℕ) where
  pub allocated-with_fields : a ≤ 1 → allocated (with_fields w a pad size up) ≡ a
  unfolding with_fields
  allocated-with_fields h = omega arith

  pub padded-with_fields : pad ≤ 1 → padded (with_fields w a pad size up) ≡ pad
  unfolding with_fields
  padded-with_fields h = omega arith

  pub two_zeroes-with_fields : two_zeroes (with_fields w a pad size up) ≡ two_zeroes w
  unfolding with_fields
  two_zeroes-with_fields = omega arith

  pub block_size-with_fields : size < 2 ^ 28 → block_size (with_fields w a pad size up) ≡ size
  unfolding with_fields
  block_size-with_fields h = omega arith

  pub upper-with_fields : upper (with_fields w a pad size up) ≡ up
  unfolding with_fields
  upper-with_fields = omega arith

shifted_small : (f : ℕ) → f < 2 ^ 27 → shifted f ≡ f * 16
unfolding shifted
shifted_small f lt = ground arith

pub shifted_back : (f size : ℕ) → f < 2 ^ 28 → shifted f ≡ size → size < 2 ^ 31 → f * 16 ≡ size
unfolding shifted
shifted_back f size field e lt = ground arith

size_back :
    (w a pad size up : ℕ)
    → size % 16 ≡ 0
    → size < 2 ^ 31
    → shifted (block_size (with_fields w a pad (size / 16) up)) ≡ size
size_back w a pad size up rows most =
    let field = block_size-with_fields w a pad (size / 16) up (omega arith) in
    ap shifted field ∙ shifted_small (size / 16) (omega arith) ∙ omega arith

-- What `write_block` is asked to write.
pub record IsBlock (size a pad : ℕ) : Type 0 where
  pub rows : size % 16 ≡ 0
  pub least : 16 ≤ size
  pub most : size < 2 ^ 31
  pub bit : a ≤ 1
  pub pad_bit : pad ≤ 1

-- A block as its header and its footer tell it.
pub record Reads (m : Mem) (p size a pad requested : ℕ) : Type 0 where
  pub size_reads : bytes_of m p ≡ size
  pub allocated_reads : allocated (m p) ≡ a
  pub padded_reads : padded (m p) ≡ pad
  pub footer_size : shifted (block_size (m (p + size - 8))) ≡ size
  pub footer_allocated : allocated (m (p + size - 8)) ≡ a
  pub footer_padded : padded (m (p + size - 8)) ≡ pad
  pub footer_requested : upper (m (p + size - 8)) ≡ requested

module _ (m : Mem) (p size requested a pad : ℕ) where
  -- A word that is neither the header nor the footer stays.
  pub write_block-away :
      (b : ℕ) → b ≢ p → b ≢ p + size - 8 → write_block m p size requested a pad b ≡ m b
  unfolding write_block
  write_block-away b n n' = ground arith

  pub write_block-header :
      16 ≤ size
      → write_block m p size requested a pad p ≡ with_fields (m p) a pad (size / 16) (upper (m p))
  unfolding write_block
  write_block-header le = ground arith

  pub write_block-footer :
      16 ≤ size
      → write_block m p size requested a pad (p + size - 8)
        ≡ with_fields (m (p + size - 8)) a pad (size / 16) (requested % 2 ^ 32)
  unfolding write_block
  write_block-footer le = ground arith

  -- After `write_block` of a size in rows of 16 bytes below 2 ^ 31, and of fields that fit their
  -- bits, header and footer read back what was written; the upper half of the header, the two
  -- unused bits and every other word stay as they were.
  pub write_block-Reads :
      IsBlock size a pad
      → requested < 2 ^ 32
      → let m' = write_block m p size requested a pad in
        Reads m' p size a pad requested
        × (upper (m' p) ≡ upper (m p))
        × (two_zeroes (m' p) ≡ two_zeroes (m p))
        × ((b : ℕ) → b ≢ p → b ≢ p + size - 8 → m' b ≡ m b)
  write_block-Reads ok lt =
      let hd = write_block-header ok.least in
      let ft = write_block-footer ok.least in
      (
        record {
          size_reads =
              ap (λ w. shifted (block_size w)) hd
              ∙ size_back (m p) a pad size (upper (m p)) ok.rows ok.most;
          allocated_reads =
              ap (λ w. allocated w) hd
              ∙ allocated-with_fields (m p) a pad (size / 16) (upper (m p)) ok.bit;
          padded_reads =
              ap (λ w. padded w) hd
              ∙ padded-with_fields (m p) a pad (size / 16) (upper (m p)) ok.pad_bit;
          footer_size =
              ap (λ w. shifted (block_size w)) ft
              ∙ size_back (m (p + size - 8)) a pad size (requested % 2 ^ 32) ok.rows ok.most;
          footer_allocated =
              ap (λ w. allocated w) ft
              ∙ allocated-with_fields (m (p + size - 8)) a pad (size / 16) (requested % 2 ^ 32)
                  ok.bit;
          footer_padded =
              ap (λ w. padded w) ft
              ∙ padded-with_fields (m (p + size - 8)) a pad (size / 16) (requested % 2 ^ 32)
                  ok.pad_bit;
          footer_requested =
              ap (λ w. upper w) ft
              ∙ upper-with_fields (m (p + size - 8)) a pad (size / 16) (requested % 2 ^ 32)
              ∙ omega arith;
        },
        ap (λ w. upper w) hd ∙ upper-with_fields (m p) a pad (size / 16) (upper (m p)),
        ap (λ w. two_zeroes w) hd ∙ two_zeroes-with_fields (m p) a pad (size / 16) (upper (m p)),
        write_block-away,
      )
