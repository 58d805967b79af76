-- ===== src/Utf/Stream/Swapping.antt =====
-- The conversions between the two byte orders of UTF-16 reverse the bytes of each unit, unless the
-- variable `lower_bytes`, which they test before anything is read into it, happens to hold a
-- low surrogate.
use linux_system.Prelude.{
  ℕ, zero, suc, ◌+◌, ◌*◌, ◌/◌, ◌%◌, ◌<◌, ◌≡◌, refl, ap, ◌∙◌, true, false, some, List, [], ◌∷◌, ◌++◌,
  arith, length, All, flat_map,
}
use linux_system.Utf.Utf16.{Glyph16, memory, reverse_bytes2, is_lower_surrogate_pair}
use linux_system.Utf.Utf16.Units.{bytes_by, le_bytes, be_bytes}
use linux_system.Utf.Stream.{
  add_result, le_to_be_loop, be_to_le_loop, from_utf16be_to_utf16le, bom_utf16le,
}

abbrev pub IsUnit : ℕ → Type 0
IsUnit u = u < 65536

bytes_by-append :
    (first second : ℕ → ℕ) (us vs : List ℕ)
    → bytes_by first second (us ++ vs) ≡ bytes_by first second us ++ bytes_by first second vs
unfolding bytes_by
bytes_by-append first second [] vs = refl
bytes_by-append first second (u ∷ us) vs =
    ap (λ (bs : List ℕ). first u ∷ second u ∷ bs) (bytes_by-append first second us vs)

pub flat_map-bytes_by :
    (first second : ℕ → ℕ) (f : ℕ → List ℕ) (cs : List ℕ)
    → flat_map (λ c. bytes_by first second (f c)) cs ≡ bytes_by first second (flat_map f cs)
unfolding flat_map
flat_map-bytes_by first second f [] = unfold bytes_by in refl
flat_map-bytes_by first second f (c ∷ cs) =
    rw (flat_map-bytes_by first second f cs, bytes_by-append)

-- Reversing the number read from the bytes of a unit exchanges them in memory.
swap_le :
    (u : ℕ)
    → IsUnit u
    → let x = reverse_bytes2 (u % 256 + u / 256 * 256) in (x % 256 ≡ u / 256) × (x / 256 ≡ u % 256)
unfolding reverse_bytes2
swap_le u h = omega arith

swap_be :
    (u : ℕ)
    → IsUnit u
    → let x = reverse_bytes2 (u / 256 + u % 256 * 256) in (x % 256 ≡ u % 256) × (x / 256 ≡ u / 256)
unfolding reverse_bytes2
swap_be u h = omega arith

le_to_be_loop-unit :
    (u fuel : ℕ) (rest : List ℕ) (buf : Glyph16)
    → IsUnit u
    → is_lower_surrogate_pair buf ≡ false
    → le_to_be_loop (suc fuel) (u % 256 ∷ u / 256 ∷ rest) buf
      ≡ add_result (u / 256 ∷ u % 256 ∷ []) (
          le_to_be_loop fuel rest
            (record buf { upper_bytes = reverse_bytes2 (u % 256 + u / 256 * 256) }))
unfolding le_to_be_loop is_lower_surrogate_pair memory
le_to_be_loop-unit u fuel rest buf h low =
    let e = swap_le u h in rw (low, le_to_be_loop) (rw (e.0, e.1))

pub le_to_be_loop-bytes_by :
    (us : List ℕ) (fuel : ℕ) (buf : Glyph16)
    → All IsUnit us
    → is_lower_surrogate_pair buf ≡ false
    → length (le_bytes us) < fuel
    → le_to_be_loop fuel (le_bytes us) buf ≡ some (be_bytes us, 0)
unfolding le_to_be_loop bytes_by is_lower_surrogate_pair
le_to_be_loop-bytes_by [] zero buf h low lt = absurd (omega arith)
le_to_be_loop-bytes_by [] (suc fuel) buf h low lt = refl
le_to_be_loop-bytes_by (u ∷ us) zero buf h low lt = absurd (omega arith)
le_to_be_loop-bytes_by (u ∷ us) (suc fuel) buf h low lt =
    le_to_be_loop-unit u fuel (le_bytes us) buf h.0 low
    ∙ rw (le_to_be_loop-bytes_by us fuel _ h.1 low (omega arith))

be_to_le_loop-unit :
    (u fuel : ℕ) (rest : List ℕ) (buf : Glyph16)
    → IsUnit u
    → is_lower_surrogate_pair buf ≡ false
    → be_to_le_loop (suc fuel) (u / 256 ∷ u % 256 ∷ rest) buf
      ≡ add_result (u % 256 ∷ u / 256 ∷ []) (
          be_to_le_loop fuel rest
            (record buf { upper_bytes = reverse_bytes2 (u / 256 + u % 256 * 256) }))
unfolding be_to_le_loop is_lower_surrogate_pair memory
be_to_le_loop-unit u fuel rest buf h low =
    let e = swap_be u h in rw (low, be_to_le_loop) (rw (e.0, e.1))

pub be_to_le_loop-bytes_by :
    (us : List ℕ) (fuel : ℕ) (buf : Glyph16)
    → All IsUnit us
    → is_lower_surrogate_pair buf ≡ false
    → length (be_bytes us) < fuel
    → be_to_le_loop fuel (be_bytes us) buf ≡ some (le_bytes us, 0)
unfolding be_to_le_loop bytes_by is_lower_surrogate_pair
be_to_le_loop-bytes_by [] zero buf h low lt = absurd (omega arith)
be_to_le_loop-bytes_by [] (suc fuel) buf h low lt = refl
be_to_le_loop-bytes_by (u ∷ us) zero buf h low lt = absurd (omega arith)
be_to_le_loop-bytes_by (u ∷ us) (suc fuel) buf h low lt =
    be_to_le_loop-unit u fuel (be_bytes us) buf h.0 low
    ∙ rw (be_to_le_loop-bytes_by us fuel _ h.1 low (omega arith))

-- Where `lower_bytes` happens to hold a low surrogate, from_utf16be_to_utf16le drops the text of
-- every file that goes on behind its first unit: it writes the byte order mark alone.
pub from_utf16be_to_utf16le_dropped :
    (buf : Glyph16) (a b c d e : ℕ) (rest : List ℕ)
    → is_lower_surrogate_pair buf ≡ true
    → from_utf16be_to_utf16le buf (a ∷ b ∷ c ∷ d ∷ e ∷ rest) ≡ some (bom_utf16le, 1)
unfolding from_utf16be_to_utf16le be_to_le_loop is_lower_surrogate_pair
from_utf16be_to_utf16le_dropped buf a b c d e rest low = ground arith
