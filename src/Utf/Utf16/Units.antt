-- ===== src/Utf/Utf16/Units.antt =====
-- The code units that the encoders of utf16le.c and utf16be.c write, and what the decoder of
-- utf.c, `utf16_glyph_to_code_point`, makes of them.
use linux_system.Prelude.{
  ℕ, ◌+◌, ◌-◌, ◌/◌, ◌%◌, ◌^◌, ◌≤◌, ◌<◌, ◌≡◌, ◌↔◌, inl, inr, Bool, true, false, not, ◌&&◌, ◌||◌,
  List, [], ◌∷◌, arith, bit_and, leb, if◌then◌else◌, take, Bool-cases,
}
use linux_system.Prelude.Bits.{zero-bit_or, bit_or_shifted, bit_and_1023}
use linux_system.Utf.Utf8.Encoding.{last_code_point}
use linux_system.Utf.Utf16.{
  memory, reverse_bytes2, code_point_to_utf16le_glyph, code_point_to_utf16be_glyph,
  utf16_glyph_to_code_point,
}

-- The units of the Unicode standard, D91.
abbrev pub high_unit : ℕ → ℕ
high_unit c = 0xD800 + (c - 0x10000) / 1024

abbrev pub low_unit : ℕ → ℕ
low_unit c = 0xDC00 + (c - 0x10000) % 1024

unfoldable pub utf16_units : ℕ → List ℕ
utf16_units c = if leb 0x10000 c then high_unit c ∷ low_unit c ∷ [] else c ∷ []

-- Units as bytes, the low byte or the high byte first.
unfoldable pub bytes_by : (ℕ → ℕ) → (ℕ → ℕ) → List ℕ → List ℕ
bytes_by first second [] = []
bytes_by first second (u ∷ us) = first u ∷ second u ∷ bytes_by first second us

abbrev pub low_byte : ℕ → ℕ
low_byte u = u % 256

abbrev pub high_byte : ℕ → ℕ
high_byte u = u / 256

abbrev pub le_bytes : List ℕ → List ℕ
le_bytes = bytes_by low_byte high_byte

abbrev pub be_bytes : List ℕ → List ℕ
be_bytes = bytes_by high_byte low_byte

pub le_glyph :
    (c : ℕ)
    → c ≤ last_code_point
    → code_point_to_utf16le_glyph c ≡ (
        if leb 0x10000 c
        then (record { upper_bytes = high_unit c; lower_bytes = low_unit c }, 4)
        else (record { upper_bytes = c; lower_bytes = 0 }, 2))
unfolding code_point_to_utf16le_glyph
le_glyph c h = elim (Bool-cases (leb 0x10000 c)) [
  | inl pair ↦ ground (arith, bit_and_1023 (c - 0x10000))
  | inr one ↦ ground (arith, zero-bit_or c)
]

pub be_glyph :
    (c : ℕ)
    → c ≤ last_code_point
    → code_point_to_utf16be_glyph c ≡ (
        if leb 0x10000 c
        then (
          record {
            upper_bytes = reverse_bytes2 (high_unit c);
            lower_bytes = reverse_bytes2 (low_unit c);
          },
          4,
        )
        else (record { upper_bytes = reverse_bytes2 c; lower_bytes = 0 }, 2))
unfolding code_point_to_utf16be_glyph
be_glyph c h = elim (Bool-cases (leb 0x10000 c)) [
  | inl pair ↦ ground (arith, bit_and_1023 (c - 0x10000))
  | inr one ↦ ground (arith, zero-bit_or c)
]

-- The little-endian encoder gives the bytes of its units, the low byte first, of every code point.
pub utf16le_glyph-le_bytes :
    (c : ℕ)
    → c ≤ last_code_point
    → let (g, size) = code_point_to_utf16le_glyph c in
      take size (memory g) ≡ le_bytes (utf16_units c)
unfolding memory bytes_by utf16_units
utf16le_glyph-le_bytes c h = elim (Bool-cases (leb 0x10000 c)) [
  | inl pair ↦ rw (le_glyph c h, pair)
  | inr one ↦ rw (le_glyph c h, one)
]

swap_parts :
    (u : ℕ) → u < 65536 → (reverse_bytes2 u % 256 ≡ u / 256) × (reverse_bytes2 u / 256 ≡ u % 256)
unfolding reverse_bytes2
swap_parts u h = omega arith

-- The big-endian encoder gives the bytes of its units, the high byte first, of every code point.
pub utf16be_glyph-be_bytes :
    (c : ℕ)
    → c ≤ last_code_point
    → let (g, size) = code_point_to_utf16be_glyph c in
      take size (memory g) ≡ be_bytes (utf16_units c)
unfolding memory bytes_by utf16_units
utf16be_glyph-be_bytes c h = elim (Bool-cases (leb 0x10000 c)) [
  | inl pair ↦
      let hi = swap_parts (high_unit c) (omega arith) in
      let lo = swap_parts (low_unit c) (omega arith) in
      rw (be_glyph c h, pair, hi.0, hi.1, lo.0, lo.1)
  | inr one ↦ let u = swap_parts c (ground arith) in rw (be_glyph c h, one, u.0, u.1)
]

-- The code points that are not surrogates.
abbrev pub is_scalar : ℕ → Bool
is_scalar c = leb c last_code_point && not (leb 0xD800 c && leb c 0xDFFF)

-- The supplementary code points whose high unit is the first or the last of its range.
abbrev pub is_edge : ℕ → Bool
is_edge c = leb 0x10000 c && (leb c 0x103FF || leb 0x10FC00 c)

-- A pair whose high unit lies strictly inside its range is read back.
pub decode_pair :
    (c : ℕ)
    → c ≤ last_code_point
    → 0x10400 ≤ c
    → c < 0x10FC00
    → utf16_glyph_to_code_point (record { upper_bytes = high_unit c; lower_bytes = low_unit c }) ≡ c
unfolding utf16_glyph_to_code_point
decode_pair c h lo hi =
    let d = c - 0x10000 in
    let off : (low_unit c + 2 ^ 32 - 0xDC00) % 2 ^ 32 ≡ d % 1024 = omega arith in
    let up : high_unit c - 0xD800 ≡ d / 1024 = omega arith in
    let low : bit_and (d % 1024) 0x3FF ≡ d % 1024 = omega (arith, bit_and_1023 (d % 1024)) in
    rw (off, up, low) (ground (arith, bit_or_shifted 10 (d / 1024) (d % 1024) (omega arith)))

-- Encoding a scalar value to a UTF-16 glyph and decoding the glyph gives it back exactly if its
-- high unit is not 0xD800 or 0xDBFF, which `is_upper_surrogate_pair` takes for no surrogates.
pub utf16_round_trip_iff :
    (c : ℕ)
    → is_scalar c ≡ true
    → (utf16_glyph_to_code_point (code_point_to_utf16le_glyph c).0 ≡ c) ↔ (is_edge c ≡ false)
utf16_round_trip_iff c h = elim (Bool-cases (leb 0x10000 c)) [
  | inr one ↦ (
    λ _. ground arith,
    λ _. rw (le_glyph c (ground arith), one) (unfold utf16_glyph_to_code_point in ground arith),
  )
  | inl pair ↦ (
    λ e.
        let e' : utf16_glyph_to_code_point
              (record { upper_bytes = high_unit c; lower_bytes = low_unit c })
            ≡ c =
          rw (le_glyph c (ground arith), pair) at e in
        not_edge e',
    λ inner.
        rw (le_glyph c (ground arith), pair)
          (decode_pair c (ground arith) (ground arith) (ground arith)),
  )
]
  where
    not_edge :
        utf16_glyph_to_code_point (record { upper_bytes = high_unit c; lower_bytes = low_unit c })
          ≡ c
        → is_edge c ≡ false
    not_edge e = unfold utf16_glyph_to_code_point in ground arith
