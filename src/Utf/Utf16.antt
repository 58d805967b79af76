-- ===== src/Utf/Utf16.antt =====
-- The UTF-16 glyph functions of utf8_utf16_transform: utf.c, utf16le.c and utf16be.c. The machine
-- is little-endian, as __BYTE_ORDER__ says where the repository's binaries were built.
pub mod Units
use linux_system.Prelude.{
  ℕ, ◌+◌, ◌-◌, ◌*◌, ◌/◌, ◌%◌, ◌^◌, Bool, true, false, ◌&&◌, List, [], ◌∷◌, bit_and, bit_or, ltb,
  leb, if◌then◌else◌,
}

-- `utf16_glyph_t`
pub record Glyph16 : Type 0 where
  pub upper_bytes : ℕ
  pub lower_bytes : ℕ

abbrev u16 : ℕ → ℕ
u16 x = x % 2 ^ 16

-- `reverse_bytes(&x, 2)`
unfoldable pub reverse_bytes2 : ℕ → ℕ
reverse_bytes2 x = x % 256 * 256 + x / 256

-- The four bytes of a glyph in memory.
unfoldable pub memory : Glyph16 → List ℕ
memory g =
    g.upper_bytes % 256 ∷ g.upper_bytes / 256 ∷ g.lower_bytes % 256 ∷ g.lower_bytes / 256 ∷ []

unfoldable pub is_upper_surrogate_pair : Glyph16 → Bool
is_upper_surrogate_pair g = ltb 0xD800 g.upper_bytes && ltb g.upper_bytes 0xDBFF

unfoldable pub is_lower_surrogate_pair : Glyph16 → Bool
is_lower_surrogate_pair g = ltb 0xDC00 g.lower_bytes && ltb g.lower_bytes 0xDFFF

unfoldable pub is_code_point_surrogate : ℕ → Bool
is_code_point_surrogate c = leb 0x10000 c

-- The two halves of a pair, and the glyph with its size.
unfoldable pub code_point_to_utf16le_glyph : ℕ → Glyph16 × ℕ
unfolding is_code_point_surrogate
code_point_to_utf16le_glyph c =
    if is_code_point_surrogate c
    then (
      record {
        upper_bytes = u16 ((c - 0x10000) / 2 ^ 10 + 0xD800);
        lower_bytes = u16 (bit_and (c - 0x10000) 0x3FF + 0xDC00);
      },
      4,
    )
    else (record { upper_bytes = u16 (bit_or 0 c); lower_bytes = 0 }, 2)

unfoldable pub code_point_to_utf16be_glyph : ℕ → Glyph16 × ℕ
unfolding is_code_point_surrogate reverse_bytes2
code_point_to_utf16be_glyph c =
    if is_code_point_surrogate c
    then (
      record {
        upper_bytes = reverse_bytes2 (u16 ((c - 0x10000) / 2 ^ 10 + 0xD800));
        lower_bytes = reverse_bytes2 (u16 (bit_and (c - 0x10000) 0x3FF + 0xDC00));
      },
      4,
    )
    else (record { upper_bytes = reverse_bytes2 (u16 (bit_or 0 c)); lower_bytes = 0 }, 2)

-- In the second branch `upper_bytes - 0xD800` is positive; `lower_bytes - 0xDC00` is an `int` that
-- may be negative, of which the mask takes the low bits.
unfoldable pub utf16_glyph_to_code_point : Glyph16 → ℕ
unfolding is_upper_surrogate_pair
utf16_glyph_to_code_point g =
    if is_upper_surrogate_pair g
    then bit_or ((g.upper_bytes - 0xD800) * 2 ^ 10)
        (bit_and ((g.lower_bytes + 2 ^ 32 - 0xDC00) % 2 ^ 32) 0x3FF)
      + 0x10000
    else g.upper_bytes
