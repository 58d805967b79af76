-- ===== src/Utf/Convert/Run.antt =====
-- `main` of utf8_utf16_transform on well-formed files, for every pair of encodings.
use linux_system.Prelude.{
  ℕ, ◌≡◌, refl, inl, inr, false, Option, some, List, [], ◌∷◌, ◌++◌, arith, leb, length, All,
  flat_map, Bool-cases,
}
use linux_system.Utf.Utf16.{Glyph16, is_lower_surrogate_pair}
use linux_system.Utf.Utf16.Units.{utf16_units, high_unit, low_unit, bytes_by, low_byte, high_byte}
use linux_system.Utf.Stream.{Written}
use linux_system.Utf.Convert.{Junk, Source, check_bom, get_encoding_function, transcribe, convert}
use linux_system.Utf.Convert.Files.{
  Encoding, utf8, utf16le, utf16be, format_of, text_of, file_of, IsScalar, IsInner, utf8-utf16le,
  utf8-utf16be, utf16le-utf16be, utf16be-utf16le, utf16le-utf8, utf16be-utf8,
}

-- The texts that a conversion keeps: from UTF-16 to UTF-8 those without edge pairs.
abbrev pub Convertible : Encoding → Encoding → List ℕ → Type 0
Convertible utf16le utf8 cs = All IsInner cs
Convertible utf16be utf8 cs = All IsInner cs
Convertible _ _ cs = All IsScalar cs

two_bytes :
    (first second : ℕ → ℕ) (c : ℕ) (rest : List ℕ)
    → (a : ℕ) × (more : List ℕ) × (bytes_by first second (utf16_units c) ++ rest ≡ a ∷ more)
unfolding bytes_by utf16_units
two_bytes first second c rest = elim (Bool-cases (leb 0x10000 c)) [
  | inl pair ↦ (
    first (high_unit c),
    second (high_unit c) ∷ first (low_unit c) ∷ second (low_unit c) ∷ rest,
    rw pair,
  )
  | inr one ↦ (first c, second c ∷ rest, rw one)
]

check_bom_le :
    (x : ℕ) (rest : List ℕ)
    → (s : Source) × (check_bom (0xFF ∷ 0xFE ∷ x ∷ rest) ≡ some s)
      × (s.encoding_from ≡ format_of utf16le)
unfolding check_bom format_of
check_bom_le x rest = (record { encoding_from = 0xFFFE; bom_length = 2 }, ground arith, refl)

check_bom_be :
    (x : ℕ) (rest : List ℕ)
    → (s : Source) × (check_bom (0xFE ∷ 0xFF ∷ x ∷ rest) ≡ some s)
      × (s.encoding_from ≡ format_of utf16be)
unfolding check_bom format_of
check_bom_be x rest = (record { encoding_from = 0xFEFF; bom_length = 2 }, ground arith, refl)

-- `check_bom` reads the encoding of every file with a text that is not empty.
pub check_bom-file_of :
    (e : Encoding) (c : ℕ) (cs : List ℕ)
    → (s : Source) × (check_bom (file_of e (c ∷ cs)) ≡ some s) × (s.encoding_from ≡ format_of e)
unfolding text_of flat_map
check_bom-file_of utf8 c cs = unfold check_bom format_of in (_, refl, refl)
check_bom-file_of utf16le c cs =
    let (x, rest, e) = two_bytes low_byte high_byte c (text_of utf16le cs) in
    rw e (check_bom_le x rest)
check_bom-file_of utf16be c cs =
    let (x, rest, e) = two_bytes high_byte low_byte c (text_of utf16be cs) in
    rw e (check_bom_be x rest)

run_conversion :
    (j : Junk) (from to : Encoding) (file out : List ℕ) (n : ℕ) (s : Source)
    (f : List ℕ → Option Written)
    → check_bom file ≡ some s
    → s.encoding_from ≡ format_of from
    → get_encoding_function j (format_of from) (format_of to) ≡ some f
    → f file ≡ some (out, n)
    → convert j (format_of to) file ≡ some out
unfolding convert
run_conversion j from to file out n s f e e' e'' e''' = rw (e, convert) (rw e' (rw (e'', e''')))

-- The conversion that the switch selects, on the file of a text.
selected :
    (utf8_buf : List ℕ) (utf16_buf : Glyph16) (byte : ℕ) (stack : List ℕ) (from to : Encoding)
    (cs : List ℕ)
    → is_lower_surrogate_pair utf16_buf ≡ false
    → Convertible from to cs
    → All IsScalar cs
    → let j : Junk = record { utf8_buf = utf8_buf; utf16_buf = utf16_buf; stack = byte ∷ stack } in
      (f : List ℕ → Option Written) × (n : ℕ) × (get_encoding_function j
          (format_of from)
          (format_of to)
        ≡ some f)
      × (f (file_of from cs) ≡ some (file_of to cs, n))
unfolding get_encoding_function format_of transcribe
selected buf g b st utf8 utf8 cs low h k = (transcribe, length (file_of utf8 cs), refl, refl)
selected buf g b st utf8 utf16le cs low h k = (_, 0, refl, utf8-utf16le cs k buf)
selected buf g b st utf8 utf16be cs low h k = (_, 0, refl, utf8-utf16be cs k buf)
selected buf g b st utf16le utf8 cs low h k = (_, 0, refl, utf16le-utf8 cs h b st g)
selected buf g b st utf16le utf16le cs low h k =
    (transcribe, length (file_of utf16le cs), refl, refl)
selected buf g b st utf16le utf16be cs low h k = (_, 0, refl, utf16le-utf16be cs k g low)
selected buf g b st utf16be utf8 cs low h k = (_, 0, refl, utf16be-utf8 cs h b st g)
selected buf g b st utf16be utf16le cs low h k = (_, 0, refl, utf16be-utf16le cs k g low)
selected buf g b st utf16be utf16be cs low h k =
    (transcribe, length (file_of utf16be cs), refl, refl)

inner-IsScalar : (cs : List ℕ) → All IsInner cs → All IsScalar cs
inner-IsScalar [] h = tt
inner-IsScalar (c ∷ cs) h = (h.0.0, inner-IsScalar cs h.1)

Convertible-IsScalar : (from to : Encoding) (cs : List ℕ) → Convertible from to cs → All IsScalar cs
Convertible-IsScalar utf16le utf8 cs h = inner-IsScalar cs h
Convertible-IsScalar utf16be utf8 cs h = inner-IsScalar cs h
Convertible-IsScalar utf8 utf8 cs h = h
Convertible-IsScalar utf8 utf16le cs h = h
Convertible-IsScalar utf8 utf16be cs h = h
Convertible-IsScalar utf16le utf16le cs h = h
Convertible-IsScalar utf16le utf16be cs h = h
Convertible-IsScalar utf16be utf16le cs h = h
Convertible-IsScalar utf16be utf16be cs h = h

-- For every pair of encodings the program turns the file of a text that is not empty into the file
-- of the same text in the wanted encoding, byte order mark included. It is assumed that the
-- variable `lower_bytes` holds no low surrogate before it is set and, from UTF-16 to UTF-8, that
-- the text has no pair whose high unit is 0xD800 or 0xDBFF.
pub convert-file_of :
    (utf8_buf : List ℕ) (utf16_buf : Glyph16) (byte : ℕ) (stack : List ℕ) (from to : Encoding)
    (c : ℕ) (cs : List ℕ)
    → is_lower_surrogate_pair utf16_buf ≡ false
    → Convertible from to (c ∷ cs)
    → let j : Junk = record { utf8_buf = utf8_buf; utf16_buf = utf16_buf; stack = byte ∷ stack } in
      convert j (format_of to) (file_of from (c ∷ cs)) ≡ some (file_of to (c ∷ cs))
convert-file_of buf g b st from to c cs low h =
    let (s, known, enc) = check_bom-file_of from c cs in
    let (f, n, chosen, runs) =
      selected buf g b st from to (c ∷ cs) low h (Convertible-IsScalar from to (c ∷ cs) h) in
    run_conversion _ from to (file_of from (c ∷ cs)) (file_of to (c ∷ cs)) n s f known enc chosen
      runs
