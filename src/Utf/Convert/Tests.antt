-- ===== src/Utf/Convert/Tests.antt =====
-- The theorems on utf8_utf16_transform at concrete texts.
use linux_system.Prelude.{
  ℕ, ◌≤◌, ◌<◌, ◌≡◌, refl, ◌↔◌, false, Option, some, List, [], ◌∷◌, arith, length, take,
}
use linux_system.Utf.Utf8.{Glyph, code_point_to_utf8_glyph}
use linux_system.Utf.Utf8.Encoding.{utf8_bytes, code_point_to_utf8_glyph-utf8_bytes}
use linux_system.Utf.Utf8.Decoding.{Decodes, utf8_bytes-Decodes}
use linux_system.Utf.Utf16.{
  Glyph16, memory, is_lower_surrogate_pair, code_point_to_utf16le_glyph,
  code_point_to_utf16be_glyph, utf16_glyph_to_code_point,
}
use linux_system.Utf.Utf16.Units.{
  utf16_units, le_bytes, be_bytes, bytes_by, is_edge, utf16le_glyph-le_bytes,
  utf16be_glyph-be_bytes, utf16_round_trip_iff,
}
use linux_system.Utf.Stream.{from_utf16be_to_utf16le, bom_utf16le}
use linux_system.Utf.Stream.Swapping.{from_utf16be_to_utf16le_dropped}
use linux_system.Utf.Convert.{Source, check_bom, convert}
use linux_system.Utf.Convert.Files.{utf8, utf16le, format_of, file_of, text_of}
use linux_system.Utf.Convert.Run.{check_bom-file_of, convert-file_of}

-- U+20AC in its three bytes
euro : utf8_bytes 0x20AC ≡ 0xE2 ∷ 0x82 ∷ 0xAC ∷ []
unfolding utf8_bytes
euro = refl

-- U+24B62 as a pair
ideograph : utf16_units 0x24B62 ≡ 0xD852 ∷ 0xDF62 ∷ []
unfolding utf16_units
ideograph = refl

abbrev dirty : Glyph
dirty = 7 ∷ 7 ∷ 7 ∷ 7 ∷ []

code_point_to_utf8_glyph-utf8_bytes_example :
    (g : Glyph) × (code_point_to_utf8_glyph dirty 0x20AC ≡ some (g, length (utf8_bytes 0x20AC)))
    × (take (length (utf8_bytes 0x20AC)) g ≡ utf8_bytes 0x20AC)
code_point_to_utf8_glyph-utf8_bytes_example =
    code_point_to_utf8_glyph-utf8_bytes dirty 0x20AC (omega arith) (omega arith)

utf8_bytes-Decodes_example : Decodes (utf8_bytes 0x24B62) 0x24B62
utf8_bytes-Decodes_example = utf8_bytes-Decodes 0x24B62 (omega arith)

utf16le_glyph-le_bytes_example :
    take (code_point_to_utf16le_glyph 0x24B62).1 (memory (code_point_to_utf16le_glyph 0x24B62).0)
    ≡ le_bytes (utf16_units 0x24B62)
utf16le_glyph-le_bytes_example = utf16le_glyph-le_bytes 0x24B62 (omega arith)

utf16be_glyph-be_bytes_example :
    take (code_point_to_utf16be_glyph 0x24B62).1 (memory (code_point_to_utf16be_glyph 0x24B62).0)
    ≡ be_bytes (utf16_units 0x24B62)
utf16be_glyph-be_bytes_example = utf16be_glyph-be_bytes 0x24B62 (omega arith)

-- U+10000 is not read back
utf16_round_trip_iff_example :
    (utf16_glyph_to_code_point (code_point_to_utf16le_glyph 0x10000).0 ≡ 0x10000)
    ↔ (is_edge 0x10000 ≡ false)
utf16_round_trip_iff_example = utf16_round_trip_iff 0x10000 refl

abbrev low_surrogate : Glyph16
low_surrogate = record { upper_bytes = 0; lower_bytes = 0xDC01 }

from_utf16be_to_utf16le_dropped_example :
    from_utf16be_to_utf16le low_surrogate (0xFE ∷ 0xFF ∷ 0 ∷ b'a' ∷ 0 ∷ b'b' ∷ [])
    ≡ some (bom_utf16le, 1)
from_utf16be_to_utf16le_dropped_example =
    from_utf16be_to_utf16le_dropped low_surrogate 0xFE 0xFF 0 b'a' 0 (b'b' ∷ [])
      (unfold is_lower_surrogate_pair in refl)

abbrev clean : Glyph16
clean = record { upper_bytes = 0; lower_bytes = 0 }

check_bom-file_of_example :
    (s : Source) × (check_bom (file_of utf16le (b'h' ∷ b'i' ∷ [])) ≡ some s)
    × (s.encoding_from ≡ format_of utf16le)
check_bom-file_of_example = check_bom-file_of utf16le b'h' (b'i' ∷ [])

convert-file_of_example :
    convert
      (record { utf8_buf = dirty; utf16_buf = clean; stack = dirty })
      (format_of utf16le)
      (file_of utf8 (0x20AC ∷ 0x24B62 ∷ []))
    ≡ some (file_of utf16le (0x20AC ∷ 0x24B62 ∷ []))
convert-file_of_example =
    convert-file_of dirty clean 7 (7 ∷ 7 ∷ 7 ∷ []) utf8 utf16le 0x20AC (0x24B62 ∷ [])
      (unfold is_lower_surrogate_pair in refl) (refl, (refl, tt))

-- The output file byte by byte: U+20AC and U+24B62 after the byte order mark.
written_bytes :
    file_of utf16le (0x20AC ∷ 0x24B62 ∷ [])
    ≡ 0xFF ∷ 0xFE ∷ 0xAC ∷ 0x20 ∷ 0x52 ∷ 0xD8 ∷ 0x62 ∷ 0xDF ∷ []
unfolding text_of linux_system.Prelude.flat_map utf16_units bytes_by
written_bytes = refl
