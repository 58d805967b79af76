-- ===== src/Utf/Convert/Files.antt =====
-- The whole run of utf8_utf16_transform on well-formed files.
use linux_system.Prelude.{
  ℕ, ◌≤◌, ◌≡◌, ap, inl, inr, true, false, some, List, [], ◌∷◌, ◌++◌, arith, leb, take, All,
  flat_map, Bool-cases,
}
use linux_system.Utf.Utf8.Encoding.{utf8_bytes, last_code_point}
use linux_system.Utf.Utf16.{
  Glyph16, reverse_bytes2, is_lower_surrogate_pair, code_point_to_utf16le_glyph,
  code_point_to_utf16be_glyph,
}
use linux_system.Utf.Utf16.Units.{
  utf16_units, le_bytes, be_bytes, low_byte, high_byte, is_scalar, is_edge, utf16le_glyph-le_bytes,
  utf16be_glyph-be_bytes,
}
use linux_system.Utf.Stream.{
  read_unit, add_result, rounds, bom_utf8, bom_utf16le, bom_utf16be, from_utf8_to_utf16le,
  from_utf8_to_utf16be, from_utf16le_to_utf8, from_utf16be_to_utf8, from_utf16le_to_utf16be,
  from_utf16be_to_utf16le,
}
use linux_system.Utf.Stream.Reading.{utf8_loop-flat_map}
use linux_system.Utf.Stream.Pairs.{utf16_loop-flat_map}
use linux_system.Utf.Stream.Swapping.{
  IsUnit, flat_map-bytes_by, le_to_be_loop-bytes_by, be_to_le_loop-bytes_by,
}
use linux_system.Utf.Convert.{utf8_format, utf16le_format, utf16be_format}

-- The three encodings, with the numbers of `format_t`.
pub data Encoding : Type 0 where
  utf8 utf16le utf16be : Encoding

unfoldable pub format_of : Encoding → ℕ
format_of utf8 = utf8_format
format_of utf16le = utf16le_format
format_of utf16be = utf16be_format

-- The text of a list of code points, and the file that holds it.
unfoldable pub text_of : Encoding → List ℕ → List ℕ
text_of utf8 = flat_map utf8_bytes
text_of utf16le = flat_map (λ c. le_bytes (utf16_units c))
text_of utf16be = flat_map (λ c. be_bytes (utf16_units c))

abbrev pub file_of : Encoding → List ℕ → List ℕ
file_of utf8 cs = bom_utf8 ++ text_of utf8 cs
file_of utf16le cs = bom_utf16le ++ text_of utf16le cs
file_of utf16be cs = bom_utf16be ++ text_of utf16be cs

abbrev pub IsScalar : ℕ → Type 0
IsScalar c = is_scalar c ≡ true

abbrev pub IsInner : ℕ → Type 0
IsInner c = (is_scalar c ≡ true) × (is_edge c ≡ false)

All-le : (cs : List ℕ) → All IsScalar cs → All (λ c. c ≤ last_code_point) cs
All-le [] h = tt
All-le (c ∷ cs) h = (ground arith, All-le cs h.1)

All-append : (us vs : List ℕ) → All IsUnit us → All IsUnit vs → All IsUnit (us ++ vs)
All-append [] vs h k = k
All-append (u ∷ us) vs h k = (h.0, All-append us vs h.1 k)

units-IsUnit : (c : ℕ) → IsScalar c → All IsUnit (utf16_units c)
unfolding utf16_units
units-IsUnit c h = elim (Bool-cases (leb 0x10000 c)) [
  | inl pair ↦ rw pair (ground arith, (ground arith, tt))
  | inr one ↦ rw one (ground arith, tt)
]

All-units : (cs : List ℕ) → All IsScalar cs → All IsUnit (flat_map utf16_units cs)
unfolding flat_map
All-units [] h = tt
All-units (c ∷ cs) h =
    All-append (utf16_units c) (flat_map utf16_units cs) (units-IsUnit c h.0) (All-units cs h.1)

-- The six conversions between different encodings, each on the file of a text.
module _ (cs : List ℕ) (h : All IsScalar cs) where
  pub utf8-utf16le :
      (buf : List ℕ) → from_utf8_to_utf16le buf (file_of utf8 cs) ≡ some (file_of utf16le cs, 0)
  unfolding from_utf8_to_utf16le text_of
  utf8-utf16le buf = ap (add_result bom_utf16le) (
      utf8_loop-flat_map code_point_to_utf16le_glyph (λ c. le_bytes (utf16_units c))
        utf16le_glyph-le_bytes cs (rounds (flat_map utf8_bytes cs)) buf (All-le cs h) (omega arith))

  pub utf8-utf16be :
      (buf : List ℕ) → from_utf8_to_utf16be buf (file_of utf8 cs) ≡ some (file_of utf16be cs, 0)
  unfolding from_utf8_to_utf16be text_of
  utf8-utf16be buf = ap (add_result bom_utf16be) (
      utf8_loop-flat_map code_point_to_utf16be_glyph (λ c. be_bytes (utf16_units c))
        utf16be_glyph-be_bytes cs (rounds (flat_map utf8_bytes cs)) buf (All-le cs h) (omega arith))

  abbrev units : List ℕ
  units = flat_map utf16_units cs

  pub utf16le-utf16be :
      (buf : Glyph16)
      → is_lower_surrogate_pair buf ≡ false
      → from_utf16le_to_utf16be buf (file_of utf16le cs) ≡ some (file_of utf16be cs, 0)
  unfolding from_utf16le_to_utf16be text_of is_lower_surrogate_pair
  utf16le-utf16be buf low =
      rw
        (
          flat_map-bytes_by low_byte high_byte utf16_units cs,
          flat_map-bytes_by high_byte low_byte utf16_units cs,
        )
        (ap (add_result bom_utf16be) (
          le_to_be_loop-bytes_by units (rounds (le_bytes units))
            (record buf {
              upper_bytes = read_unit (take 2 (bom_utf16le ++ le_bytes units)) buf.upper_bytes;
            })
            (All-units cs h) low (omega arith)))

  pub utf16be-utf16le :
      (buf : Glyph16)
      → is_lower_surrogate_pair buf ≡ false
      → from_utf16be_to_utf16le buf (file_of utf16be cs) ≡ some (file_of utf16le cs, 0)
  unfolding from_utf16be_to_utf16le text_of is_lower_surrogate_pair
  utf16be-utf16le buf low =
      rw
        (
          flat_map-bytes_by low_byte high_byte utf16_units cs,
          flat_map-bytes_by high_byte low_byte utf16_units cs,
        )
        (ap (add_result bom_utf16le) (
          be_to_le_loop-bytes_by units (rounds (be_bytes units))
            (record buf {
              upper_bytes = read_unit (take 2 (bom_utf16be ++ be_bytes units)) buf.upper_bytes;
            })
            (All-units cs h) low (omega arith)))

module _ (cs : List ℕ) (h : All IsInner cs) (s : ℕ) (stack : List ℕ) (buf : Glyph16) where
  pub utf16le-utf8 :
      from_utf16le_to_utf8 (s ∷ stack) buf (file_of utf16le cs) ≡ some (file_of utf8 cs, 0)
  unfolding from_utf16le_to_utf8 text_of
  utf16le-utf8 = ap (add_result bom_utf8) (
      utf16_loop-flat_map (λ u. u) low_byte high_byte (λ u lt. omega arith) s stack cs
        (rounds (text_of utf16le cs))
        (record buf { upper_bytes = read_unit (take 2 (file_of utf16le cs)) buf.upper_bytes }) h
        (omega arith))

  pub utf16be-utf8 :
      from_utf16be_to_utf8 (s ∷ stack) buf (file_of utf16be cs) ≡ some (file_of utf8 cs, 0)
  unfolding from_utf16be_to_utf8 text_of
  utf16be-utf8 = ap (add_result bom_utf8) (
      utf16_loop-flat_map reverse_bytes2 high_byte low_byte
        (λ u lt. unfold reverse_bytes2 in omega arith) s stack cs (rounds (text_of utf16be cs))
        (record buf { upper_bytes = read_unit (take 2 (file_of utf16be cs)) buf.upper_bytes }) h
        (omega arith))
