-- ===== src/Cipher/Args.antt =====
-- `validargs` of shell_parser/src/hw1.c with the alphabets of shell_parser/src/const.c. A string is
-- the list of its bytes without the NUL. `none` is what C leaves undefined: a read through the
-- NULL behind the last argument, and a number of rows or columns that overflows `int`.
pub mod Valid
pub mod Codes
mod Tests
use linux_system.Prelude.{
  ℕ, zero, suc, ◌+◌, ◌-◌, ◌*◌, ◌^◌, Bool, true, false, not, ◌&&◌, ◌||◌, Option, none, some, List,
  [], ◌∷◌, ◌==◌, ltb, leb, if◌then◌else◌, length,
}

-- The bytes from `first` on.
abbrev pub range : ℕ → ℕ → List ℕ
range zero first = []
range (suc n) first = first ∷ range n (first + 1)

-- The printable characters but the space, and the capital letters.
abbrev pub polybius_alphabet : List ℕ
polybius_alphabet = range 94 33

abbrev pub fm_alphabet : List ℕ
fm_alphabet = range 26 65

-- Whether an argument is a dash and the letter `c`.
pub is_flag : List ℕ → ℕ → Bool
is_flag (a ∷ b ∷ []) c = (a == b'-') && (b == c)
is_flag _ c = false

-- The loops over a key: every character is in the alphabet, and none comes again.
pub occurs : ℕ → List ℕ → Bool
occurs c [] = false
occurs c (x ∷ xs) = (c == x) || occurs c xs

pub key_fits : List ℕ → List ℕ → Bool
unfolding occurs
key_fits alphabet [] = true
key_fits alphabet (c ∷ cs) = occurs c alphabet && not (occurs c cs) && key_fits alphabet cs

-- The loop over the digits of a number: the number, and what follows it.
pub number : List ℕ → ℕ → Option (ℕ × List ℕ)
number [] n = some (n, [])
number (d ∷ ds) n =
    let rest = number ds (10 * n + d - 48) in
    if leb 48 d && leb d 57
    then (if ltb (10 * n + d) (2 ^ 31) then rest else none)
    else some (n, d ∷ ds)

abbrev pub is_empty : List ℕ → Bool
is_empty [] = true
is_empty (_ ∷ _) = false

-- What `validargs` returns, and the global `key`.
pub record Checked : Type 0 where
  pub code : ℕ
  pub key : Option (List ℕ)

-- Where the loop over the options of the Polybius cipher has come to.
pub record Options : Type 0 where
  pub fits : Bool
  pub row : ℕ
  pub col : ℕ
  pub key : Option (List ℕ)

-- One option with its value. The test of a number of rows looks at the number of columns.
pub set_option : List ℕ → List ℕ → Options → Option Options
unfolding is_flag key_fits number
set_option flag value o =
    if is_flag flag b'r'
    then elim (number value 0) [
      | none ↦ none
      | some (row, rest) ↦
          some
            (record o { row = row; fits = is_empty rest && not (ltb 15 row) && not (ltb o.col 9) })
    ]
    else if is_flag flag b'c'
    then elim (number value 0) [
      | none ↦ none
      | some (col, rest) ↦
          some (record o { col = col; fits = is_empty rest && not (ltb 15 col) && not (ltb col 9) })
    ]
    else if is_flag flag b'k'
    then some (record o { key = some value; fits = key_fits polybius_alphabet value })
    else some (record o { fits = false })

-- The loop over the options; it ends where one does not fit.
pub options : List (List ℕ) → Options → Option Options
unfolding is_flag set_option
options [] o = some o
options (flag ∷ []) o =
    if is_flag flag b'r' || is_flag flag b'c' || is_flag flag b'k'
    then none
    else some (record o { fits = false })
options (flag ∷ value ∷ more) o = elim (set_option flag value o) [
  | none ↦ none
  | some o' ↦ elim o'.fits [ true ↦ options more o' | false ↦ some o' ]
]

-- The bit of `-e` or `-d`.
pub mode_bit : List ℕ → Option ℕ
unfolding is_flag
mode_bit mode =
    if is_flag mode b'e' then some 0x0000 else if is_flag mode b'd' then some 0x2000 else none

abbrev rejected : Option (List ℕ) → Option Checked
rejected key = some (record { code = 0; key = key })

-- The branch of the Polybius cipher.
pub polybius : List (List ℕ) → Option Checked
unfolding mode_bit options
polybius [] = none
polybius (mode ∷ more) = elim (mode_bit mode) [
  | none ↦ rejected none
  | some bit ↦ elim (options more (record { fits = true; row = 10; col = 10; key = none })) [
    | none ↦ none
    | some o ↦
        if not o.fits || ltb (o.row * o.col) (length polybius_alphabet)
        then rejected o.key
        else some (record { code = bit + 16 * o.row + o.col; key = o.key })
  ]
]

-- The branch of the fractionated Morse cipher.
pub fractionated : List (List ℕ) → Option Checked
unfolding is_flag mode_bit key_fits
fractionated [] = none
fractionated (mode ∷ more) = elim (mode_bit mode) [
  | none ↦ rejected none
  | some bit ↦ elim more [
    | [] ↦ some (record { code = 0x4000 + bit; key = none })
    | flag ∷ [] ↦ rejected none
    | flag ∷ value ∷ [] ↦
        if is_flag flag b'k'
        then some (record {
          code = if key_fits fm_alphabet value then 0x4000 + bit else 0;
          key = some value;
        })
        else rejected none
    | _ ↦ rejected none
  ]
]

-- The arguments with the program's name. Without any, `*(*(argv+1))` reads through NULL.
pub validargs : List (List ℕ) → Option Checked
unfolding is_flag polybius fractionated
validargs (name ∷ first ∷ more) =
    if is_flag first b'h'
    then some (record { code = 0x8000; key = none })
    else if is_flag first b'p'
    then polybius more
    else if is_flag first b'f'
    then fractionated more
    else rejected none
validargs _ = none
