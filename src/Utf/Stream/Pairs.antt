-- ===== src/Utf/Stream/Pairs.antt =====
-- The loop of the conversions from UTF-16 to UTF-8 reads one unit or one pair in each round.
use linux_system.Prelude.{
  ℕ, zero, suc, ◌+◌, ◌*◌, ◌≤◌, ◌<◌, ◌≡◌, refl, ap, ◌∙◌, inl, inr, true, false, some, List, [], ◌∷◌,
  ◌++◌, arith, leb, length, length-append, All, flat_map, Bool-cases,
}
use linux_system.Utf.Utf8.{Glyph}
use linux_system.Utf.Utf8.Encoding.{
  utf8_bytes, last_code_point, code_point_to_utf8_glyph-utf8_bytes,
}
use linux_system.Utf.Utf16.{Glyph16, is_upper_surrogate_pair, utf16_glyph_to_code_point}
use linux_system.Utf.Utf16.Units.{
  utf16_units, bytes_by, high_unit, low_unit, is_scalar, is_edge, decode_pair,
}
use linux_system.Utf.Stream.{add_result, read_utf16, utf16_loop, zero_glyph}

utf16_loop-step :
    (fix : ℕ → ℕ) (s : ℕ) (stack : Glyph) (fuel : ℕ) {file : List ℕ} (b : ℕ) (more : List ℕ)
    (buf g : Glyph16) (rest : List ℕ) (c : ℕ)
    → file ≡ b ∷ more
    → read_utf16 fix file buf ≡ (g, rest)
    → utf16_glyph_to_code_point g ≡ c
    → c ≤ last_code_point
    → utf16_loop fix (s ∷ stack) (suc fuel) file buf
      ≡ add_result (utf8_bytes c) (utf16_loop fix (s ∷ stack) fuel rest zero_glyph)
unfolding utf16_loop
utf16_loop-step fix s stack fuel b more buf g rest c e runs code le =
    let (glyph, encoded, form) =
      code_point_to_utf8_glyph-utf8_bytes (s ∷ stack) c (omega arith) le in
    rw e (rw (rw e at runs, code, encoded, form, utf16_loop) (rw (rw e at runs)))

-- A unit is read from its two bytes.
module _ (fix first second : ℕ → ℕ)
    (reads : (u : ℕ) → u < 65536 → fix (first u + second u * 256) ≡ u) where
  abbrev text : List ℕ → List ℕ
  text = flat_map (λ c. bytes_by first second (utf16_units c))

  -- One round reads one glyph; `low` is left where there is no pair.
  read_utf16-one :
      (c : ℕ) (rest : List ℕ) (buf : Glyph16)
      → c < 0x10000
      → is_scalar c ≡ true
      → (g : Glyph16) × (read_utf16 fix (first c ∷ second c ∷ rest) buf ≡ (g, rest))
        × (utf16_glyph_to_code_point g ≡ c)
  unfolding read_utf16 is_upper_surrogate_pair utf16_glyph_to_code_point
  read_utf16-one c rest buf lt s = (
    record { upper_bytes = c; lower_bytes = buf.lower_bytes },
    rw (reads c lt) (ground arith),
    ground arith,
  )

  read_utf16-pair :
      (c : ℕ) (rest : List ℕ) (buf : Glyph16)
      → 0x10400 ≤ c
      → c < 0x10FC00
      → (g : Glyph16) × (read_utf16 fix
            (first (high_unit c)
              ∷ second (high_unit c)
              ∷ first (low_unit c)
              ∷ second (low_unit c)
              ∷ rest)
            buf
          ≡ (g, rest))
        × (utf16_glyph_to_code_point g ≡ c)
  unfolding read_utf16 is_upper_surrogate_pair
  read_utf16-pair c rest buf lo hi = (
    record { upper_bytes = high_unit c; lower_bytes = low_unit c },
    rw (reads (high_unit c) (omega arith), reads (low_unit c) (omega arith)) (ground arith),
    decode_pair c (omega arith) lo hi,
  )

  -- One round reads one code point.
  read_utf16-units :
      (c : ℕ) (rest : List ℕ) (buf : Glyph16)
      → is_scalar c ≡ true
      → is_edge c ≡ false
      → (g : Glyph16) × (b : ℕ) × (more : List ℕ) × (read_utf16 fix
            (bytes_by first second (utf16_units c) ++ rest)
            buf
          ≡ (g, rest))
        × (utf16_glyph_to_code_point g ≡ c)
        × (bytes_by first second (utf16_units c) ≡ b ∷ more)
  unfolding utf16_units bytes_by
  read_utf16-units c rest buf s inner = elim (Bool-cases (leb 0x10000 c)) [
    | inl pair ↦
        let (g, runs, code) = read_utf16-pair c rest buf (ground arith) (ground arith) in
        (
          g,
          first (high_unit c),
          second (high_unit c) ∷ first (low_unit c) ∷ second (low_unit c) ∷ [],
          rw pair runs,
          code,
          rw pair,
        )
    | inr one ↦
        let (g, runs, code) = read_utf16-one c rest buf (ground arith) s in
        (g, first c, second c ∷ [], rw one runs, code, rw one)
  ]

  -- The loop over a UTF-16 text whose pairs are all read back writes the UTF-8 form of each code
  -- point.
  pub utf16_loop-flat_map :
      (b : ℕ) (stack : Glyph) (cs : List ℕ) (fuel : ℕ) (buf : Glyph16)
      → All (λ c. (is_scalar c ≡ true) × (is_edge c ≡ false)) cs
      → length (text cs) < fuel
      → utf16_loop fix (b ∷ stack) fuel (text cs) buf ≡ some (flat_map utf8_bytes cs, 0)
  unfolding utf16_loop flat_map
  utf16_loop-flat_map b stack [] zero buf h lt = absurd (omega arith)
  utf16_loop-flat_map b stack [] (suc fuel) buf h lt = refl
  utf16_loop-flat_map b stack (c ∷ cs) zero buf h lt = absurd (omega arith)
  utf16_loop-flat_map b stack (c ∷ cs) (suc fuel) buf h lt =
      let rest = text cs in
      let (g, x, more, runs, code, whole) = read_utf16-units c rest buf h.0.0 h.0.1 in
      let shorter : length rest < fuel =
        omega
          (arith, length-append (bytes_by first second (utf16_units c)) rest, ap length whole) in
      utf16_loop-step fix b stack fuel x (more ++ rest) buf g rest c
        (ap (λ (f : List ℕ). f ++ rest) whole) runs code (ground arith)
      ∙ rw (utf16_loop-flat_map b stack cs fuel zero_glyph h.1 shorter)
