-- ===== src/Utf/Utf8.antt =====
-- The glyph functions of utf8_utf16_transform/src/utf8.c. A `utf8_glyph_t` is the list of its
-- four bytes. A bit field of a byte counts from the low end, as the compilers of x86 lay it out:
-- `remaining : 6; bits : 2` are the remainder and the quotient by 64.
pub mod Encoding
pub mod Decoding
use linux_system.Prelude.{
  ℕ, zero, suc, ◌+◌, ◌*◌, ◌/◌, ◌%◌, ◌^◌, ◌≤◌, ◌<◌, ◌≡◌, refl, Bool, true, false, Option, none, some,
  List, [], ◌∷◌, arith, bit_and, bit_or, ◌==◌, leb, if◌then◌else◌, get_or, set, take,
}

abbrev pub Glyph : Type 0
Glyph = List ℕ

-- `memset(&ret, 0, sizeof ret)`
abbrev zeroed : Glyph
zeroed = 0 ∷ 0 ∷ 0 ∷ 0 ∷ []

-- `ret.bytes[i].byte |= buf`
pub or_byte : ℕ → ℕ → Glyph → Glyph
or_byte i buf g = set g i (bit_or (get_or g i 0) buf)

pub utf8_glyph_size_of_code_point : ℕ → ℕ
utf8_glyph_size_of_code_point c =
    if leb c 0x7F then 1 else if leb c 0x7FF then 2 else if leb c 0xFFFF then 3 else 4

-- The bytes behind the first are never set: `stack` is what the memory held.
pub utf8_one_byte_encode : Glyph → ℕ → Glyph
utf8_one_byte_encode stack c = set stack 0 (c % 256)

pub utf8_two_byte_encode : ℕ → Glyph
unfolding or_byte
utf8_two_byte_encode c =
    let low = or_byte 1 (bit_or 0x80 (bit_and c 0x3F)) zeroed in
    or_byte 0 (bit_or 0xC0 (bit_and (c / 2 ^ 6) 0x1F)) low

-- The loop over the continuation bytes `i`, …, 1. It returns what is left of the code point.
pub continuation : ℕ → ℕ → Glyph → ℕ × Glyph
unfolding or_byte
continuation zero c g = (c, g)
continuation (suc i) c g =
    continuation i (c / 2 ^ 6) (or_byte (suc i) (bit_or 0x80 (bit_and c 0x3F)) g)

pub utf8_three_byte_encode : ℕ → Glyph
unfolding or_byte continuation
utf8_three_byte_encode c =
    let (rest, g) = continuation 2 c zeroed in or_byte 0 (bit_or 0xE0 (bit_and rest 0x0F)) g

pub utf8_four_byte_encode : ℕ → Glyph
unfolding or_byte continuation
utf8_four_byte_encode c =
    let (rest, g) = continuation 3 c zeroed in or_byte 0 (bit_or 0xF0 (bit_and rest 0x07)) g

-- `none` is the null function pointer.
pub get_utf8_encoding_function : Glyph → ℕ → Option (ℕ → Glyph)
get_utf8_encoding_function stack size =
    if size == 1
    then some (utf8_one_byte_encode stack)
    else if size == 2
    then some utf8_two_byte_encode
    else if size == 3
    then some utf8_three_byte_encode
    else if size == 4
    then some utf8_four_byte_encode
    else none

-- The glyph and `*size_of_glyph`. A call through the null pointer has no result.
pub code_point_to_utf8_glyph : Glyph → ℕ → Option (Glyph × ℕ)
unfolding get_utf8_encoding_function
code_point_to_utf8_glyph stack c =
    let size = utf8_glyph_size_of_code_point c in
    elim (get_utf8_encoding_function stack size) [ none ↦ none | some f ↦ some (f c, size) ]

pub remaining_utf8_bytes : ℕ → ℕ
remaining_utf8_bytes b =
    if b / 8 == 0x1E then 3 else if b / 16 == 0xE then 2 else if b / 32 == 0x6 then 1 else 0

abbrev byte : Glyph → ℕ → ℕ
byte g i = get_or g i 0

pub utf8_one_byte_decode : Glyph → ℕ
utf8_one_byte_decode g = byte g 0

pub utf8_two_byte_decode : Glyph → ℕ
utf8_two_byte_decode g = let r = bit_or 0 (byte g 0 % 32 * 2 ^ 6) in bit_or r (byte g 1 % 64)

pub utf8_three_byte_decode : Glyph → ℕ
utf8_three_byte_decode g =
    let r = bit_or 0 (byte g 0 % 16 * 2 ^ 12) in
    let r = bit_or r (byte g 1 % 64 * 2 ^ 6) in bit_or r (byte g 2 % 64)

pub utf8_four_byte_decode : Glyph → ℕ
utf8_four_byte_decode g =
    let r = bit_or 0 (byte g 0 % 8 * 2 ^ 18) in
    let r = bit_or r (byte g 1 % 64 * 2 ^ 12) in
    let r = bit_or r (byte g 2 % 64 * 2 ^ 6) in bit_or r (byte g 3 % 64)

pub get_utf8_decoding_function : ℕ → Option (Glyph → ℕ)
get_utf8_decoding_function size =
    if size == 1
    then some utf8_one_byte_decode
    else if size == 2
    then some utf8_two_byte_decode
    else if size == 3
    then some utf8_three_byte_decode
    else if size == 4
    then some utf8_four_byte_decode
    else none
