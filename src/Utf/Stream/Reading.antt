-- ===== src/Utf/Stream/Reading.antt =====
-- The loop of the conversions from UTF-8 reads the glyphs of a file one after the other.
use linux_system.Prelude.{
  ℕ, zero, suc, ◌+◌, ◌≤◌, ◌<◌, ◌≡◌, refl, ap, ◌∙◌, false, some, List, [], ◌∷◌, ◌++◌, arith, ◌==◌,
  if◌then◌else◌, take, drop, length, length-append, take-append_self, drop-append_self, All,
  flat_map, subst,
}
use linux_system.Utf.Utf8.{Glyph}
use linux_system.Utf.Utf8.Encoding.{utf8_bytes, last_code_point}
use linux_system.Utf.Utf8.Decoding.{Decodes, utf8_bytes-Decodes}
use linux_system.Utf.Utf16.{Glyph16, memory}
use linux_system.Utf.Stream.{read_into, add_result, read_utf8, utf8_loop}

-- After the reads of a glyph the buffer begins with its bytes.
filled :
    (first : ℕ) (more rest : List ℕ) (buf : Glyph)
    → (tail : List ℕ) × ((if length more == 0
          then read_into 0 (first ∷ []) buf
          else read_into 1 (take (length more) (more ++ rest)) (read_into 0 (first ∷ []) buf))
        ≡ (first ∷ more) ++ tail)
filled first [] rest buf = (drop (0 + 1) buf, refl)
filled first (m ∷ ms) rest buf = (
  drop (1 + length (m ∷ ms)) (read_into 0 (first ∷ []) buf),
  rw (nonempty, take-append_self ms rest),
)
  where
    nonempty : (length (m ∷ ms) == 0) ≡ false
    nonempty = ground arith

read_utf8-Decodes :
    {form : List ℕ} {c : ℕ} (d : Decodes form c) (rest : List ℕ) (buf : Glyph)
    → (buf' : Glyph) × (read_utf8 d.first (d.more ++ rest) buf ≡ some (c, buf', rest))
unfolding read_utf8
read_utf8-Decodes {form} {c} d rest buf =
    let (tail, e) = filled d.first d.more rest buf in
    let code : d.decoder ((d.first ∷ d.more) ++ tail) ≡ c =
      subst (λ (f : List ℕ). d.decoder (f ++ tail) ≡ c) d.whole (d.decodes tail) in
    (
      (d.first ∷ d.more) ++ tail,
      rw (d.selected, read_utf8) (rw (d.remaining, e, code, drop-append_self d.more rest)),
    )

utf8_loop-step :
    (encode : ℕ → Glyph16 × ℕ) (fuel : ℕ) {file : List ℕ} (b : ℕ) (rest buf : List ℕ) (c : ℕ)
    (buf' rest' : List ℕ)
    → file ≡ b ∷ rest
    → read_utf8 b rest buf ≡ some (c, buf', rest')
    → utf8_loop encode (suc fuel) file buf
      ≡ add_result (take (encode c).1 (memory (encode c).0)) (utf8_loop encode fuel rest' buf')
unfolding utf8_loop
utf8_loop-step encode fuel b rest buf c buf' rest' e runs = rw e (rw (runs, utf8_loop))

-- The loop over a UTF-8 text writes the form of each code point that the encoder gives it.
pub utf8_loop-flat_map :
    (encode : ℕ → Glyph16 × ℕ) (form : ℕ → List ℕ)
    → ((c : ℕ) → c ≤ last_code_point → take (encode c).1 (memory (encode c).0) ≡ form c)
    → (cs : List ℕ) (fuel : ℕ) (buf : Glyph) → All (λ c. c ≤ last_code_point) cs
    → length (flat_map utf8_bytes cs) < fuel
    → utf8_loop encode fuel (flat_map utf8_bytes cs) buf ≡ some (flat_map form cs, 0)
unfolding utf8_loop flat_map
utf8_loop-flat_map encode form writes [] zero buf h lt = absurd (omega arith)
utf8_loop-flat_map encode form writes [] (suc fuel) buf h lt = refl
utf8_loop-flat_map encode form writes (c ∷ cs) zero buf h lt = absurd (omega arith)
utf8_loop-flat_map encode form writes (c ∷ cs) (suc fuel) buf h lt =
    let d = utf8_bytes-Decodes c h.0 in
    let rest = flat_map utf8_bytes cs in
    let (buf', runs) = read_utf8-Decodes d rest buf in
    let shorter : length rest < fuel =
      omega (arith, length-append (utf8_bytes c) rest, ap length d.whole) in
    utf8_loop-step encode fuel d.first (d.more ++ rest) buf c buf' rest
      (ap (λ (f : List ℕ). f ++ rest) d.whole) runs
    ∙ rw (utf8_loop-flat_map encode form writes cs fuel buf' h.1 shorter, writes c h.0)
