-- ===== src/Cipher/Polybius.antt =====
-- The Polybius cipher of shell_parser/src/main.c: the table, and the two loops over the input. A
-- character is its code; the input is ASCII, and EOF its end. `none` is a read outside
-- `polybius_table`, an array of 257 characters that begins as zeros.
pub mod RoundTrip
mod Tests
use linux_system.Prelude.{
  ℕ, zero, suc, ◌+◌, ◌-◌, ◌*◌, ◌/◌, ◌%◌, Bool, true, false, not, ◌&&◌, ◌||◌, Option, none, some,
  List, [], ◌∷◌, ◌++◌, ◌==◌, ltb, leb, if◌then◌else◌, get_or,
}
use linux_system.Cipher.Args.{polybius_alphabet}

abbrev pub in_key : ℕ → List ℕ → Bool
in_key a [] = false
in_key a (k ∷ key) = (a == k) || in_key a key

-- The letters of the alphabet that are not in the key, behind what the table has.
abbrev pub fill_table : List ℕ → List ℕ → List ℕ → List ℕ
fill_table key table [] = table
fill_table key table (a ∷ alphabet) =
    fill_table key (if in_key a key then table else table ++ (a ∷ [])) alphabet

abbrev pub make_table : Option (List ℕ) → List ℕ
make_table none = polybius_alphabet
make_table (some key) = fill_table key key polybius_alphabet

abbrev pub is_space : ℕ → Bool
is_space c = (c == 10) || (c == 32) || (c == 9)

-- The character at an index, 0 behind the letters.
abbrev pub at_index : List ℕ → ℕ → ℕ
at_index table i = get_or table i 0

-- The search for a character from the index `i`, on fuel for the rest of the array.
abbrev pub index_of : ℕ → List ℕ → ℕ → ℕ → Option ℕ
index_of zero table c i = none
index_of (suc fuel) table c i =
    let rest = index_of fuel table c (i + 1) in if c == at_index table i then some i else rest

-- `printf("%X", n)` of a number below 256.
abbrev pub hex : ℕ → ℕ
hex n = if ltb n 10 then n + 48 else n + 55

abbrev pub print_hex : ℕ → List ℕ
print_hex n = if ltb n 16 then hex n ∷ [] else hex (n / 16) ∷ hex (n % 16) ∷ []

abbrev pub encode_at : ℕ → ℕ → List ℕ
encode_at col i = let r = i / col in print_hex r ++ print_hex (i - r * col)

abbrev pub joined_to : Option (List ℕ) → Option (List ℕ) → Option (List ℕ)
joined_to none rest = none
joined_to (some out) none = none
joined_to (some out) (some rest) = some (out ++ rest)

abbrev pub encode_char : List ℕ → ℕ → ℕ → Option (List ℕ)
encode_char table col c =
    if is_space c
    then some (c ∷ [])
    else elim (index_of 257 table c 0) [ none ↦ none | some i ↦ some (encode_at col i) ]

unfoldable pub encode : List ℕ → ℕ → List ℕ → Option (List ℕ)
encode table col [] = some []
encode table col (c ∷ input) = joined_to (encode_char table col c) (encode table col input)

-- The value of a digit, with 55 added, since it may be negative. That of EOF is -56.
abbrev pub digit : ℕ → ℕ
digit t = if leb 48 t && leb t 57 then t + 7 else t

-- The character at the row and the column of two such digits.
abbrev pub read_table : List ℕ → ℕ → ℕ → ℕ → Option (List ℕ)
read_table table col r c =
    if leb (55 * col + 55) (r * col + c) && ltb (r * col + c) (55 * col + 55 + 257)
    then some (at_index table (r * col + c - (55 * col + 55)) ∷ [])
    else none

unfoldable pub decode : List ℕ → ℕ → List ℕ → Option (List ℕ)
decode table col [] = some []
decode table col (t ∷ []) =
    if is_space t
    then some (t ∷ [])
    else if leb (55 * col + 56) (digit t * col) && ltb (digit t * col) (55 * col + 56 + 257)
    then some (at_index table (digit t * col - (55 * col + 56)) ∷ [])
    else none
decode table col (t ∷ t' ∷ input) =
    let from_next = decode table col (t' ∷ input) in
    let from_rest = decode table col input in
    if is_space t
    then joined_to (some (t ∷ [])) from_next
    else if is_space t'
    then joined_to (some ((t' + 201) % 256 ∷ [])) from_rest
    else joined_to (read_table table col (digit t) (digit t')) from_rest
