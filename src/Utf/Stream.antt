-- ===== src/Utf/Stream.antt =====
-- The conversion functions of utf8_utf16_transform: utf8.c, utf16le.c, utf16be.c, utf.c and the
-- wrappers that read and write. A file is the list of its bytes from the file offset on; `read` of
-- a regular file gives as many bytes as asked for, or what is left. What variables hold before the
-- code sets them is an argument. Errors of `read` and `write` are not modelled.
pub mod Reading
pub mod Pairs
pub mod Swapping
use linux_system.Prelude.{
  ℕ, zero, suc, ◌+◌, ◌*◌, ◌/◌, ◌%◌, Bool, true, false, Option, none, some, List, [], ◌∷◌, ◌++◌,
  ◌==◌, if◌then◌else◌, take, drop, length,
}
use linux_system.Utf.Utf8.{
  Glyph, code_point_to_utf8_glyph, remaining_utf8_bytes, get_utf8_decoding_function,
}
use linux_system.Utf.Utf16.{
  Glyph16, memory, reverse_bytes2, is_upper_surrogate_pair, is_lower_surrogate_pair,
  code_point_to_utf16le_glyph, code_point_to_utf16be_glyph, utf16_glyph_to_code_point,
}

-- `read(fd, buf + offset, n)` puts the bytes `got` into the buffer.
abbrev pub read_into : ℕ → List ℕ → List ℕ → List ℕ
read_into offset got buf = take offset buf ++ (got ++ drop (offset + length got) buf)

-- `read(fd, &x, 2)` into a `uint16_t`; a read of one byte sets the low half.
abbrev pub read_unit : List ℕ → ℕ → ℕ
read_unit [] x = x
read_unit (a ∷ []) x = x / 256 * 256 + a
read_unit (a ∷ b ∷ _) x = a + b * 256

-- What a conversion leaves behind: the bytes written, and the returned count of the last read.
abbrev pub Written : Type 0
Written = List ℕ × ℕ

abbrev pub add_result : List ℕ → Option Written → Option Written
add_result out none = none
add_result out (some (more, ret)) = some (out ++ more, ret)

-- The decoding of one glyph, of which the first byte has been read: the code point, the buffer and
-- the rest of the file. The call through the table has no result at a size outside of it.
pub read_utf8 : ℕ → List ℕ → Glyph → Option (ℕ × Glyph × List ℕ)
read_utf8 b rest buf =
    let remaining = remaining_utf8_bytes b in
    let first = read_into 0 (b ∷ []) buf in
    let whole = if remaining == 0 then first else read_into 1 (take remaining rest) first in
    elim (get_utf8_decoding_function (remaining + 1)) [
      | none ↦ none
      | some decode ↦ some (decode whole, whole, drop remaining rest)
    ]

-- The loop of from_utf8_to_utf16le and from_utf8_to_utf16be, on fuel.
pub utf8_loop : (ℕ → Glyph16 × ℕ) → ℕ → List ℕ → Glyph → Option Written
utf8_loop encode zero file buf = none
utf8_loop encode (suc fuel) [] buf = some ([], 0)
utf8_loop encode (suc fuel) (b ∷ rest) buf = elim (read_utf8 b rest buf) [
  | none ↦ none
  | some (c, buf', rest') ↦
      let (g, size) = encode c in
      add_result (take size (memory g)) (utf8_loop encode fuel rest' buf')
]

-- The byte order marks as they stand in a file: the bytes of the `int`, of which the UTF-16
-- conversions reverse the first two.
abbrev pub bom_utf16le : List ℕ
bom_utf16le = 0xFF ∷ 0xFE ∷ []

abbrev pub bom_utf16be : List ℕ
bom_utf16be = 0xFE ∷ 0xFF ∷ []

abbrev pub bom_utf8 : List ℕ
bom_utf8 = 0xEF ∷ 0xBB ∷ 0xBF ∷ []

-- Each conversion reads and drops a byte order mark, writes its own, and runs its loop. As many
-- rounds as bytes, and one that meets the end, are enough.
abbrev pub rounds : List ℕ → ℕ
rounds file = suc (length file)

unfoldable pub from_utf8_to_utf16le : Glyph → List ℕ → Option Written
from_utf8_to_utf16le buf file =
    let rest = drop 3 file in
    add_result bom_utf16le (utf8_loop code_point_to_utf16le_glyph (rounds rest) rest buf)

unfoldable pub from_utf8_to_utf16be : Glyph → List ℕ → Option Written
from_utf8_to_utf16be buf file =
    let rest = drop 3 file in
    add_result bom_utf16be (utf8_loop code_point_to_utf16be_glyph (rounds rest) rest buf)

-- `memset(&buf, 0, sizeof(utf16_glyph_t))`
abbrev zero_glyph : Glyph16
zero_glyph = record { upper_bytes = 0; lower_bytes = 0 }

-- The glyph that one round of the UTF-16 loops reads, and the rest of the file. `fix` is
-- `reverse_bytes(…, 2)` where the code calls it.
pub read_utf16 : (ℕ → ℕ) → List ℕ → Glyph16 → Glyph16 × List ℕ
read_utf16 fix file buf =
    let g = record buf { upper_bytes = fix (read_unit (take 2 file) buf.upper_bytes) } in
    let rest = drop 2 file in
    if is_upper_surrogate_pair g
    then (record g { lower_bytes = fix (read_unit (take 2 rest) g.lower_bytes) }, drop 2 rest)
    else (g, rest)

-- The loop of from_utf16le_to_utf8 and from_utf16be_to_utf8. `stack` is what the memory of an
-- encoded glyph held.
pub utf16_loop : (ℕ → ℕ) → Glyph → ℕ → List ℕ → Glyph16 → Option Written
utf16_loop fix stack zero file buf = none
utf16_loop fix stack (suc fuel) [] buf = some ([], 0)
utf16_loop fix stack (suc fuel) (b ∷ file) buf =
    let (g, rest) = read_utf16 fix (b ∷ file) buf in
    elim (code_point_to_utf8_glyph stack (utf16_glyph_to_code_point g)) [
      | none ↦ none
      | some (glyph, size) ↦
          add_result (take size glyph) (utf16_loop fix stack fuel rest zero_glyph)
    ]

unfoldable pub from_utf16le_to_utf8 : Glyph → Glyph16 → List ℕ → Option Written
from_utf16le_to_utf8 stack buf file =
    let rest = drop 2 file in
    let start = record buf { upper_bytes = read_unit (take 2 file) buf.upper_bytes } in
    add_result bom_utf8 (utf16_loop (λ u. u) stack (rounds rest) rest start)

unfoldable pub from_utf16be_to_utf8 : Glyph → Glyph16 → List ℕ → Option Written
from_utf16be_to_utf8 stack buf file =
    let rest = drop 2 file in
    let start = record buf { upper_bytes = read_unit (take 2 file) buf.upper_bytes } in
    add_result bom_utf8 (utf16_loop reverse_bytes2 stack (rounds rest) rest start)

-- The loop of from_utf16le_to_utf16be.
pub le_to_be_loop : ℕ → List ℕ → Glyph16 → Option Written
le_to_be_loop zero file buf = none
le_to_be_loop (suc fuel) [] buf = some ([], 0)
le_to_be_loop (suc fuel) (b ∷ file) buf =
    let upper = reverse_bytes2 (read_unit (take 2 (b ∷ file)) buf.upper_bytes) in
    let g = record buf { upper_bytes = upper } in
    let rest = drop 2 (b ∷ file) in
    let g' = record g { lower_bytes = reverse_bytes2 (read_unit (take 2 rest) g.lower_bytes) } in
    elim (is_lower_surrogate_pair g) [
      | true ↦ add_result (take 4 (memory g')) (le_to_be_loop fuel (drop 2 rest) g')
      | false ↦ add_result (take 2 (memory g)) (le_to_be_loop fuel rest g)
    ]

-- The loop of from_utf16be_to_utf16le: it breaks where the second read succeeds, and then the
-- returned value is that of the comparison.
pub be_to_le_loop : ℕ → List ℕ → Glyph16 → Option Written
be_to_le_loop zero file buf = none
be_to_le_loop (suc fuel) [] buf = some ([], 0)
be_to_le_loop (suc fuel) (b ∷ file) buf =
    let upper = reverse_bytes2 (read_unit (take 2 (b ∷ file)) buf.upper_bytes) in
    let g = record buf { upper_bytes = upper } in
    let rest = drop 2 (b ∷ file) in
    let g' = record g { lower_bytes = reverse_bytes2 g.lower_bytes } in
    elim (is_lower_surrogate_pair g) [
      | true ↦
          if length (take 2 rest) == 0
          then add_result (take 4 (memory g')) (be_to_le_loop fuel rest g')
          else some ([], 1)
      | false ↦ add_result (take 2 (memory g)) (be_to_le_loop fuel rest g)
    ]

unfoldable pub from_utf16le_to_utf16be : Glyph16 → List ℕ → Option Written
from_utf16le_to_utf16be buf file =
    let rest = drop 2 file in
    let start = record buf { upper_bytes = read_unit (take 2 file) buf.upper_bytes } in
    add_result bom_utf16be (le_to_be_loop (rounds rest) rest start)

unfoldable pub from_utf16be_to_utf16le : Glyph16 → List ℕ → Option Written
from_utf16be_to_utf16le buf file =
    let rest = drop 2 file in
    let start = record buf { upper_bytes = read_unit (take 2 file) buf.upper_bytes } in
    add_result bom_utf16le (be_to_le_loop (rounds rest) rest start)
