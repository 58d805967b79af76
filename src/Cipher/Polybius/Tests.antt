-- ===== src/Cipher/Polybius/Tests.antt =====
-- The Polybius cipher of shell_parser/src/main.c with a key of three letters and ten columns.
use linux_system.Prelude.{ℕ, ◌≡◌, refl, inl, inr, some, List, [], ◌∷◌, arith}
use linux_system.Cipher.Polybius.{make_table, encode, decode}
use linux_system.Cipher.Polybius.RoundTrip.{decode-encode}

-- KEY, then the alphabet without these letters.
abbrev keyed : List ℕ
keyed = make_table (some (b'K' ∷ b'E' ∷ b'Y' ∷ []))

-- `HI K`
abbrev some_text : List ℕ
some_text = b'H' ∷ b'I' ∷ b' ' ∷ b'K' ∷ []

encode-some_text :
    encode keyed 10 some_text ≡ some (b'4' ∷ b'1' ∷ b'4' ∷ b'2' ∷ b' ' ∷ b'0' ∷ b'0' ∷ [])
unfolding encode
encode-some_text = refl

decode-encode_example :
    (out : List ℕ) × (encode keyed 10 some_text ≡ some out) × (decode keyed 10 out ≡ some some_text)
decode-encode_example = decode-encode keyed 10 some_text (omega arith) (omega arith) (
  inr (41, refl, omega arith, omega arith),
  (
    inr (42, refl, omega arith, omega arith),
    (inl refl, (inr (0, refl, omega arith, omega arith), tt)),
  ),
)
