-- ===== src/Utf/Utf8/Decoding.antt =====
-- The decoder of utf8_utf16_transform/src/utf8.c reads the form of RFC 3629.
use linux_system.Prelude.{
  ℕ, ◌+◌, ◌*◌, ◌/◌, ◌%◌, ◌^◌, ◌≤◌, ◌<◌, ◌≡◌, refl, subst, inl, inr, some, List, [], ◌∷◌, ◌++◌,
  arith, bit_or, leb, length, Bool-cases,
}
use linux_system.Prelude.Bits.{zero-bit_or, bit_or_shifted}
use linux_system.Utf.Utf8.{
  Glyph, remaining_utf8_bytes, get_utf8_decoding_function, utf8_one_byte_decode,
  utf8_two_byte_decode, utf8_three_byte_decode, utf8_four_byte_decode,
}
use linux_system.Utf.Utf8.Encoding.{utf8_bytes, last_code_point}

two_fields : (a b : ℕ) → b < 64 → bit_or (bit_or 0 (a * 2 ^ 6)) b ≡ a * 64 + b
two_fields a b h = rw zero-bit_or (omega (arith, bit_or_shifted 6 a b h))

three_fields :
    (a b c : ℕ)
    → b < 64
    → c < 64
    → bit_or (bit_or (bit_or 0 (a * 2 ^ 12)) (b * 2 ^ 6)) c ≡ (a * 64 + b) * 64 + c
three_fields a b c hb hc =
    let upper : bit_or (a * 2 ^ 12) (b * 2 ^ 6) ≡ (a * 64 + b) * 2 ^ 6 =
      omega (arith, bit_or_shifted 12 a (b * 64) (omega arith)) in
    rw (zero-bit_or, upper) (omega (arith, bit_or_shifted 6 (a * 64 + b) c hc))

four_fields :
    (a b c d : ℕ)
    → b < 64
    → c < 64
    → d < 64
    → bit_or (bit_or (bit_or (bit_or 0 (a * 2 ^ 18)) (b * 2 ^ 12)) (c * 2 ^ 6)) d
      ≡ ((a * 64 + b) * 64 + c) * 64 + d
four_fields a b c d hb hc hd =
    let upper : bit_or (a * 2 ^ 18) (b * 2 ^ 12) ≡ (a * 64 + b) * 2 ^ 12 =
      omega (arith, bit_or_shifted 18 a (b * 4096) (omega arith)) in
    let middle : bit_or ((a * 64 + b) * 2 ^ 12) (c * 2 ^ 6) ≡ ((a * 64 + b) * 64 + c) * 2 ^ 6 =
      omega (arith, bit_or_shifted 12 (a * 64 + b) (c * 64) (omega arith)) in
    rw (zero-bit_or, upper, middle) (omega (arith, bit_or_shifted 6 ((a * 64 + b) * 64 + c) d hd))

-- What the reader of a glyph needs: its first byte, and the decoder that the first byte selects.
pub record Decodes (form : List ℕ) (c : ℕ) : Type 0 where
  pub first : ℕ
  pub more : List ℕ
  pub whole : form ≡ first ∷ more
  pub remaining : remaining_utf8_bytes first ≡ length more
  pub decoder : Glyph → ℕ
  pub selected : get_utf8_decoding_function (remaining_utf8_bytes first + 1) ≡ some decoder
  pub decodes : (rest : List ℕ) → decoder (form ++ rest) ≡ c

Decodes-one : (c : ℕ) → c < 0x80 → Decodes (c ∷ []) c
unfolding remaining_utf8_bytes get_utf8_decoding_function
Decodes-one c h =
    let e : remaining_utf8_bytes c ≡ 0 = unfold remaining_utf8_bytes in ground arith in
    record {
      first = c;
      more = [];
      whole = refl;
      remaining = e;
      decoder = utf8_one_byte_decode;
      selected = rw e;
      decodes = λ rest. unfold utf8_one_byte_decode in refl;
    }

remaining_two : (a : ℕ) → a < 32 → remaining_utf8_bytes (0xC0 + a) ≡ 1
unfolding remaining_utf8_bytes
remaining_two a h = ground arith

remaining_three : (a : ℕ) → a < 16 → remaining_utf8_bytes (0xE0 + a) ≡ 2
unfolding remaining_utf8_bytes
remaining_three a h = ground arith

remaining_four : (a : ℕ) → a < 8 → remaining_utf8_bytes (0xF0 + a) ≡ 3
unfolding remaining_utf8_bytes
remaining_four a h = ground arith

Decodes-two : (a b : ℕ) → a < 32 → b < 64 → Decodes ((0xC0 + a) ∷ (0x80 + b) ∷ []) (a * 64 + b)
unfolding get_utf8_decoding_function
Decodes-two a b ha hb =
    let ea : (0xC0 + a) % 32 ≡ a = omega arith in
    let eb : (0x80 + b) % 64 ≡ b = omega arith in
    record {
      first = 0xC0 + a;
      more = (0x80 + b) ∷ [];
      whole = refl;
      remaining = remaining_two a ha;
      decoder = utf8_two_byte_decode;
      selected = rw (remaining_two a ha);
      decodes = λ rest. unfold utf8_two_byte_decode in rw (ea, eb) (two_fields a b hb);
    }

Decodes-three :
    (a b c : ℕ)
    → a < 16
    → b < 64
    → c < 64
    → Decodes ((0xE0 + a) ∷ (0x80 + b) ∷ (0x80 + c) ∷ []) ((a * 64 + b) * 64 + c)
unfolding get_utf8_decoding_function
Decodes-three a b c ha hb hc =
    let ea : (0xE0 + a) % 16 ≡ a = omega arith in
    let eb : (0x80 + b) % 64 ≡ b = omega arith in
    let ec : (0x80 + c) % 64 ≡ c = omega arith in
    record {
      first = 0xE0 + a;
      more = (0x80 + b) ∷ (0x80 + c) ∷ [];
      whole = refl;
      remaining = remaining_three a ha;
      decoder = utf8_three_byte_decode;
      selected = rw (remaining_three a ha);
      decodes = λ rest. unfold utf8_three_byte_decode in rw (ea, eb, ec) (three_fields a b c hb hc);
    }

Decodes-four :
    (a b c d : ℕ)
    → a < 8
    → b < 64
    → c < 64
    → d < 64
    → Decodes
        ((0xF0 + a) ∷ (0x80 + b) ∷ (0x80 + c) ∷ (0x80 + d) ∷ [])
        (((a * 64 + b) * 64 + c) * 64 + d)
unfolding get_utf8_decoding_function
Decodes-four a b c d ha hb hc hd =
    let ea : (0xF0 + a) % 8 ≡ a = omega arith in
    let eb : (0x80 + b) % 64 ≡ b = omega arith in
    let ec : (0x80 + c) % 64 ≡ c = omega arith in
    let ed : (0x80 + d) % 64 ≡ d = omega arith in
    record {
      first = 0xF0 + a;
      more = (0x80 + b) ∷ (0x80 + c) ∷ (0x80 + d) ∷ [];
      whole = refl;
      remaining = remaining_four a ha;
      decoder = utf8_four_byte_decode;
      selected = rw (remaining_four a ha);
      decodes = λ rest.
          unfold utf8_four_byte_decode in rw (ea, eb, ec, ed) (four_fields a b c d hb hc hd);
    }

-- The first byte of the form of any code point tells the decoder how many bytes follow, and the
-- decoder that is chosen by it reads the code point back, whatever follows in the glyph.
pub utf8_bytes-Decodes : (c : ℕ) → c ≤ last_code_point → Decodes (utf8_bytes c) c
unfolding utf8_bytes
utf8_bytes-Decodes c h = elim (Bool-cases (leb c 0x7F)) [
  | inl one ↦ rw one (Decodes-one c (ground arith))
  | inr more ↦ elim (Bool-cases (leb c 0x7FF)) [
    | inl two ↦
        let e : c / 64 * 64 + c % 64 ≡ c = omega arith in
        rw (more, two)
          (subst (Decodes ((0xC0 + c / 64) ∷ (0x80 + c % 64) ∷ [])) e
            (Decodes-two (c / 64) (c % 64) (ground arith) (omega arith)))
    | inr most ↦ elim (Bool-cases (leb c 0xFFFF)) [
      | inl three ↦
          let e : (c / 4096 * 64 + c / 64 % 64) * 64 + c % 64 ≡ c = omega arith in
          rw (more, most, three)
            (subst (Decodes ((0xE0 + c / 4096) ∷ (0x80 + c / 64 % 64) ∷ (0x80 + c % 64) ∷ [])) e (
              Decodes-three (c / 4096) (c / 64 % 64) (c % 64) (ground arith) (omega arith)
                (omega arith)))
      | inr four ↦
          let e : ((c / 262144 * 64 + c / 4096 % 64) * 64 + c / 64 % 64) * 64 + c % 64 ≡ c =
            omega arith in
          rw (more, most, four)
            (subst
              (Decodes (
                (0xF0 + c / 262144)
                ∷ (0x80 + c / 4096 % 64)
                ∷ (0x80 + c / 64 % 64)
                ∷ (0x80 + c % 64)
                ∷ []))
              e
              (Decodes-four (c / 262144) (c / 4096 % 64) (c / 64 % 64) (c % 64) (omega arith)
                (omega arith) (omega arith) (omega arith)))
    ]
  ]
]
