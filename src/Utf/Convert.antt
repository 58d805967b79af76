-- ===== src/Utf/Convert.antt =====
-- The run of utf8_utf16_transform: check_bom, get_encoding_function and transcribe of utf.c, and
-- the part of main.c behind parse_args, which leaves the wanted encoding and the two file names.
-- The `lseek` of main.c acts on another descriptor than the input file (its arguments stand in
-- another order than the function's), so a conversion starts at the offset 0.
pub mod Files
pub mod Run
mod Tests
use linux_system.Prelude.{
  ℕ, ◌+◌, ◌*◌, ◌%◌, ◌^◌, Bool, Option, none, some, List, [], ◌∷◌, ◌==◌, if◌then◌else◌, length,
}
use linux_system.Utf.Utf8.{Glyph}
use linux_system.Utf.Utf16.{Glyph16}
use linux_system.Utf.Stream.{
  Written, from_utf8_to_utf16le, from_utf8_to_utf16be, from_utf16le_to_utf8, from_utf16be_to_utf8,
  from_utf16le_to_utf16be, from_utf16be_to_utf16le,
}

-- `format_t`
abbrev pub utf16le_format : ℕ
utf16le_format = 0xFFFE

abbrev pub utf16be_format : ℕ
utf16be_format = 0xFEFF

abbrev pub utf8_format : ℕ
utf8_format = 0xBFBBEF

-- The part of `program_state` that `check_bom` sets.
pub record Source : Type 0 where
  pub encoding_from : ℕ
  pub bom_length : ℕ

-- `none` is `exit(EXIT_FAILURE)`. The first `bom` is the little-endian number of the three bytes;
-- in the second the lower two are reversed.
pub check_bom : List ℕ → Option Source
check_bom (a ∷ b ∷ c ∷ _) =
    if a + b * 256 + c * 65536 == utf8_format
    then some (record { encoding_from = utf8_format; bom_length = 3 })
    else if (b + a * 256 + c * 65536) % 2 ^ 16 == utf16le_format
    then some (record { encoding_from = utf16le_format; bom_length = 2 })
    else if (b + a * 256 + c * 65536) % 2 ^ 16 == utf16be_format
    then some (record { encoding_from = utf16be_format; bom_length = 2 })
    else none
check_bom _ = none

-- What the variables of the conversions hold before they are set.
pub record Junk : Type 0 where
  pub utf8_buf : Glyph
  pub utf16_buf : Glyph16
  pub stack : Glyph

-- `sendfile` copies the file from its start, and returns the number of bytes.
pub transcribe : List ℕ → Option Written
transcribe file = some (file, length file)

-- Whether `from - to`, an `int`, is the difference `a - b` of a case label.
abbrev is_difference : ℕ → ℕ → ℕ → ℕ → Bool
is_difference from to a b = from + b == a + to

-- The switch over `encoding_from - encoding_to`; `none` is the null function pointer.
pub get_encoding_function : Junk → ℕ → ℕ → Option (List ℕ → Option Written)
get_encoding_function j from to =
    if is_difference from to utf8_format utf16le_format
    then some (from_utf8_to_utf16le j.utf8_buf)
    else if is_difference from to utf8_format utf16be_format
    then some (from_utf8_to_utf16be j.utf8_buf)
    else if is_difference from to utf16le_format utf16be_format
    then some (from_utf16le_to_utf16be j.utf16_buf)
    else if is_difference from to utf16be_format utf16le_format
    then some (from_utf16be_to_utf16le j.utf16_buf)
    else if is_difference from to utf16be_format utf8_format
    then some (from_utf16be_to_utf8 j.stack j.utf16_buf)
    else if is_difference from to utf16le_format utf8_format
    then some (from_utf16le_to_utf8 j.stack j.utf16_buf)
    else if from == to
    then some transcribe
    else none

-- `main` behind the command line: the bytes of the output file. `none` is a failing exit or a
-- call of the null pointer.
pub convert : Junk → ℕ → List ℕ → Option (List ℕ)
convert j to file = elim (check_bom file) [
  | none ↦ none
  | some source ↦ elim (get_encoding_function j source.encoding_from to) [
    | none ↦ none
    | some f ↦ elim (f file) [ none ↦ none | some (out, _) ↦ some out ]
  ]
]
