-- ===== src/Utf/Utf8/Encoding.antt =====
-- The encoder of utf8_utf16_transform/src/utf8.c writes the form of RFC 3629, and the decoder reads
-- it back.
use linux_system.Prelude.{
  ℕ, ◌+◌, ◌/◌, ◌%◌, ◌≤◌, ◌<◌, ◌≡◌, ap, inl, inr, true, false, some, List, [], ◌∷◌, arith, bit_and,
  bit_or, leb, if◌then◌else◌, take, length, Bool-cases,
}
use linux_system.Prelude.Bits.{
  zero-bit_or, bit_or_shifted, bit_and_7, bit_and_15, bit_and_31, bit_and_63,
}
use linux_system.Utf.Utf8.{
  Glyph, utf8_glyph_size_of_code_point, utf8_one_byte_encode, utf8_two_byte_encode,
  utf8_three_byte_encode, utf8_four_byte_encode, code_point_to_utf8_glyph,
}

-- The form of RFC 3629, by arithmetic.
unfoldable pub utf8_bytes : ℕ → List ℕ
utf8_bytes c =
    if leb c 0x7F
    then c ∷ []
    else if leb c 0x7FF
    then (0xC0 + c / 64) ∷ (0x80 + c % 64) ∷ []
    else if leb c 0xFFFF
    then (0xE0 + c / 4096) ∷ (0x80 + c / 64 % 64) ∷ (0x80 + c % 64) ∷ []
    else (0xF0 + c / 262144) ∷ (0x80 + c / 4096 % 64) ∷ (0x80 + c / 64 % 64) ∷ (0x80 + c % 64) ∷ []

-- The code points of Unicode.
abbrev pub last_code_point : ℕ
last_code_point = 0x10FFFF

tail_byte : (c : ℕ) → bit_or 0 (bit_or 0x80 (bit_and c 0x3F)) ≡ 0x80 + c % 64
tail_byte c = omega (
  arith,
  zero-bit_or (bit_or 0x80 (bit_and c 0x3F)),
  ap (bit_or 0x80) (bit_and_63 c),
  bit_or_shifted 6 2 (c % 64) (omega arith),
)

lead_two : (c : ℕ) → c < 32 → bit_or 0 (bit_or 0xC0 (bit_and c 0x1F)) ≡ 0xC0 + c
lead_two c h = omega (
  arith,
  zero-bit_or (bit_or 0xC0 (bit_and c 0x1F)),
  ap (bit_or 0xC0) (bit_and_31 c),
  bit_or_shifted 5 6 (c % 32) (omega arith),
)

lead_three : (c : ℕ) → c < 16 → bit_or 0 (bit_or 0xE0 (bit_and c 0x0F)) ≡ 0xE0 + c
lead_three c h = omega (
  arith,
  zero-bit_or (bit_or 0xE0 (bit_and c 0x0F)),
  ap (bit_or 0xE0) (bit_and_15 c),
  bit_or_shifted 4 14 (c % 16) (omega arith),
)

lead_four : (c : ℕ) → c < 8 → bit_or 0 (bit_or 0xF0 (bit_and c 0x07)) ≡ 0xF0 + c
lead_four c h = omega (
  arith,
  zero-bit_or (bit_or 0xF0 (bit_and c 0x07)),
  ap (bit_or 0xF0) (bit_and_7 c),
  bit_or_shifted 3 30 (c % 8) (omega arith),
)

abbrev g2 : ℕ → Glyph
g2 c = (0xC0 + c / 64) ∷ (0x80 + c % 64) ∷ 0 ∷ 0 ∷ []

abbrev g3 : ℕ → Glyph
g3 c = (0xE0 + c / 4096) ∷ (0x80 + c / 64 % 64) ∷ (0x80 + c % 64) ∷ 0 ∷ []

abbrev g4 : ℕ → Glyph
g4 c = (0xF0 + c / 262144) ∷ (0x80 + c / 4096 % 64) ∷ (0x80 + c / 64 % 64) ∷ (0x80 + c % 64) ∷ []

two_glyph : (c : ℕ) → c < 0x800 → utf8_two_byte_encode c ≡ g2 c
unfolding utf8_two_byte_encode
two_glyph c h = rw (tail_byte c, lead_two (c / 64) (omega arith))

three_glyph : (c : ℕ) → c < 0x10000 → utf8_three_byte_encode c ≡ g3 c
unfolding utf8_three_byte_encode
three_glyph c h =
    let e : c / 64 / 64 ≡ c / 4096 = omega arith in
    rw (tail_byte c, tail_byte (c / 64), e, lead_three (c / 4096) (omega arith))

four_glyph : (c : ℕ) → c < 0x200000 → utf8_four_byte_encode c ≡ g4 c
unfolding utf8_four_byte_encode
four_glyph c h =
    let e : c / 64 / 64 ≡ c / 4096 = omega arith in
    let e' : c / 4096 / 64 ≡ c / 262144 = omega arith in
    rw (
      tail_byte c,
      tail_byte (c / 64),
      e,
      tail_byte (c / 4096),
      e',
      lead_four (c / 262144) (omega arith),
    )

one_glyph : (b : ℕ) (bs : Glyph) (c : ℕ) → c < 0x80 → utf8_one_byte_encode (b ∷ bs) c ≡ c ∷ bs
unfolding utf8_one_byte_encode
one_glyph b bs c h = ap (λ (x : ℕ). x ∷ bs) (omega arith)

module _ (b : ℕ) (bs : Glyph) (c : ℕ) where
  unfolded : Unit {0}
  unfolding code_point_to_utf8_glyph utf8_glyph_size_of_code_point utf8_bytes
  unfolded = tt

  -- The glyph of each class of code points.
  glyph_one : leb c 0x7F ≡ true → code_point_to_utf8_glyph (b ∷ bs) c ≡ some (c ∷ bs, 1)
  unfolding unfolded
  glyph_one h = ground (arith, one_glyph b bs c)

  glyph_two :
      leb c 0x7F ≡ false → leb c 0x7FF ≡ true → code_point_to_utf8_glyph (b ∷ bs) c ≡ some (g2 c, 2)
  unfolding unfolded
  glyph_two h h' = ground (arith, two_glyph c)

  glyph_three :
      leb c 0x7FF ≡ false
      → leb c 0xFFFF ≡ true
      → code_point_to_utf8_glyph (b ∷ bs) c ≡ some (g3 c, 3)
  unfolding unfolded
  glyph_three h h' = ground (arith, three_glyph c)

  glyph_four :
      leb c 0xFFFF ≡ false
      → c ≤ last_code_point
      → code_point_to_utf8_glyph (b ∷ bs) c ≡ some (g4 c, 4)
  unfolding unfolded
  glyph_four h h' = ground (arith, four_glyph c)

-- The encoder returns a glyph whose first bytes, as many as it says, are the form of the RFC;
-- `stack` is what the memory of the glyph held before.
pub code_point_to_utf8_glyph-utf8_bytes :
    (stack : Glyph) (c : ℕ)
    → 0 < length stack
    → c ≤ last_code_point
    → (g : Glyph) × (code_point_to_utf8_glyph stack c ≡ some (g, length (utf8_bytes c)))
      × (take (length (utf8_bytes c)) g ≡ utf8_bytes c)
unfolding utf8_bytes
code_point_to_utf8_glyph-utf8_bytes [] c room h = absurd (omega arith)
code_point_to_utf8_glyph-utf8_bytes (b ∷ bs) c room h = elim (Bool-cases (leb c 0x7F)) [
  | inl one ↦ (c ∷ bs, rw one (glyph_one b bs c one), rw one)
  | inr more ↦ elim (Bool-cases (leb c 0x7FF)) [
    | inl two ↦ (g2 c, rw (more, two) (glyph_two b bs c more two), rw (more, two))
    | inr most ↦ elim (Bool-cases (leb c 0xFFFF)) [
      | inl three ↦
          (g3 c, rw (more, most, three) (glyph_three b bs c most three), rw (more, most, three))
      | inr four ↦ (g4 c, rw (more, most, four) (glyph_four b bs c four h), rw (more, most, four))
    ]
  ]
]
