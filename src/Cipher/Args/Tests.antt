-- ===== src/Cipher/Args/Tests.antt =====
-- The theorems on shell_parser/src/hw1.c at command lines.
use linux_system.Prelude.{ℕ, ◌+◌, ◌*◌, ◌≡◌, refl, some, List, [], ◌∷◌, arith}
use linux_system.Cipher.Args.{
  Checked, validargs, polybius, fractionated, options, set_option, number, key_fits, occurs,
  is_flag, mode_bit,
}
use linux_system.Cipher.Args.Codes.{IsMode, Layout, FmKey, validargs-Layout, validargs-FmKey}

-- hw1 -p -d -r 8 -c 12 -k ab
abbrev polybius_line : List (List ℕ)
polybius_line =
    (b'h' ∷ [])
    ∷ (b'-' ∷ b'p' ∷ [])
    ∷ (b'-' ∷ b'd' ∷ [])
    ∷ (b'-' ∷ b'r' ∷ [])
    ∷ (b'8' ∷ [])
    ∷ (b'-' ∷ b'c' ∷ [])
    ∷ (b'1' ∷ b'2' ∷ [])
    ∷ (b'-' ∷ b'k' ∷ [])
    ∷ (b'a' ∷ b'b' ∷ [])
    ∷ []

abbrev polybius_code : Checked
polybius_code = record { code = 0x2000 + 16 * 8 + 12; key = some (b'a' ∷ b'b' ∷ []) }

validargs_polybius : validargs polybius_line ≡ some polybius_code
unfolding validargs polybius options set_option number key_fits occurs is_flag mode_bit
validargs_polybius = refl

validargs-Layout_example : Layout (b'-' ∷ b'd' ∷ []) polybius_code
validargs-Layout_example =
    validargs-Layout (b'h' ∷ []) (b'-' ∷ b'd' ∷ [])
      ((b'-' ∷ b'r' ∷ [])
        ∷ (b'8' ∷ [])
        ∷ (b'-' ∷ b'c' ∷ [])
        ∷ (b'1' ∷ b'2' ∷ [])
        ∷ (b'-' ∷ b'k' ∷ [])
        ∷ (b'a' ∷ b'b' ∷ [])
        ∷ [])
      polybius_code validargs_polybius (λ e. omega arith)

abbrev morse_code : Checked
morse_code = record { code = 0x4000; key = some (b'Q' ∷ b'X' ∷ []) }

-- hw1 -f -e -k QX
validargs_morse :
    validargs (
      (b'h' ∷ [])
      ∷ (b'-' ∷ b'f' ∷ [])
      ∷ (b'-' ∷ b'e' ∷ [])
      ∷ (b'-' ∷ b'k' ∷ [])
      ∷ (b'Q' ∷ b'X' ∷ [])
      ∷ [])
    ≡ some morse_code
unfolding validargs fractionated key_fits occurs is_flag mode_bit
validargs_morse = refl

validargs-FmKey_example :
    (bit : ℕ) × IsMode (b'-' ∷ b'e' ∷ []) bit
    × (morse_code.code ≡ 0x4000 + bit)
    × FmKey morse_code.key
validargs-FmKey_example =
    validargs-FmKey (b'h' ∷ []) (b'-' ∷ b'e' ∷ []) ((b'-' ∷ b'k' ∷ []) ∷ (b'Q' ∷ b'X' ∷ []) ∷ [])
      morse_code validargs_morse (λ e. omega arith)
