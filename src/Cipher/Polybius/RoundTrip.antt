-- ===== src/Cipher/Polybius/RoundTrip.antt =====
-- The two loops of shell_parser/src/main.c over the Polybius table, one after the other.
use linux_system.Prelude.{
  ℕ, zero, suc, ◌+◌, ◌-◌, ◌*◌, ◌/◌, ◌≤◌, ◌<◌, ◌≡◌, ◌⊎◌, refl, sym, ap, ap₂, subst, ◌∙◌, inl, inr,
  true, false, some, List, [], ◌∷◌, ◌++◌, ◌==◌, ltb, leb, arith, All, Bool-cases,
}
use native.Mathlib.Nat.{div-mul-le_self, lt-div-mul-add, lt_of_mul-lt-mul_right}
use linux_system.Cipher.Polybius.{
  is_space, at_index, index_of, hex, print_hex, encode_at, joined_to, encode_char, encode, digit,
  read_table, decode,
}

-- A space, or a character of the table at an index that two digits can tell.
abbrev pub Known : List ℕ → ℕ → ℕ → Type 0
Known table col c =
    (is_space c ≡ true) ⊎ ((j : ℕ) × (at_index table j ≡ c) × (j < 16 * col) × (j < 257))

-- The search ends at an index of the character, no later than a given one.
index_of-finds :
    (fuel : ℕ) (table : List ℕ) (c i j : ℕ)
    → at_index table (i + j) ≡ c
    → j < fuel
    → (k : ℕ) × (index_of fuel table c i ≡ some k) × (at_index table k ≡ c) × (k ≤ i + j)
index_of-finds zero table c i j e lt = absurd (omega arith)
index_of-finds (suc fuel) table c i zero e lt =
    let at_i : at_index table i ≡ c = subst (λ n. at_index table n ≡ c) (omega arith) e in
    let here : (c == at_index table i) ≡ true = ground arith in (i, rw here refl, at_i, omega arith)
index_of-finds (suc fuel) table c i (suc j) e lt = elim (Bool-cases (c == at_index table i)) [
  | inl here ↦ (i, rw here refl, ground arith, omega arith)
  | inr away ↦
      let (k, found, at_k, le) =
        index_of-finds fuel table c (i + 1) j (subst (λ n. at_index table n ≡ c) (omega arith) e)
          (omega arith) in
      (k, rw away found, at_k, omega arith)
]

-- A digit.
digit-hex : (n : ℕ) → n < 16 → (digit (hex n) ≡ n + 55) × (is_space (hex n) ≡ false)
digit-hex n lt = (ground arith, ground arith)

-- Two digits tell an index.
read-digits :
    (table : List ℕ) (col r c : ℕ)
    → r * col + c < 257
    → read_table table col (r + 55) (c + 55) ≡ some (at_index table (r * col + c) ∷ [])
read-digits table col r c lt =
    let spread : (r + 55) * col + (c + 55) ≡ r * col + c + (55 * col + 55) = omega arith in
    let low : leb (55 * col + 55) ((r + 55) * col + (c + 55)) ≡ true = ground arith in
    let high : ltb ((r + 55) * col + (c + 55)) (55 * col + 55 + 257) ≡ true = ground arith in
    let back : (r + 55) * col + (c + 55) - (55 * col + 55) ≡ r * col + c = omega arith in
    rw (low, high, back) refl

row_below : (r col k : ℕ) → r * col ≤ k → k < 16 * col → r < 16
row_below r col k lo hi = lt_of_mul-lt-mul_right col (omega arith)

-- What the encoding of an index is read back as.
decode-encode_at :
    (table : List ℕ) (col k : ℕ) (rest : List ℕ)
    → 0 < col
    → col ≤ 16
    → k < 16 * col
    → k < 257
    → decode table col (encode_at col k ++ rest)
      ≡ joined_to (some (at_index table k ∷ [])) (decode table col rest)
unfolding decode
decode-encode_at table col k rest pos most lt inside =
    let r = k / col in
    let lo : r * col ≤ k = div-mul-le_self k col in
    let hi : k < r * col + col = lt-div-mul-add pos in
    let r_digit : r < 16 = row_below r col k lo lt in
    let c_digit : k - r * col < 16 = omega arith in
    let one_r : print_hex r ≡ hex r ∷ [] = let t : ltb r 16 ≡ true = ground arith in rw t refl in
    let one_c : print_hex (k - r * col) ≡ hex (k - r * col) ∷ [] =
      let t : ltb (k - r * col) 16 ≡ true = ground arith in rw t refl in
    let (r_value, r_space) = digit-hex r r_digit in
    let (c_value, c_space) = digit-hex (k - r * col) c_digit in
    let whole : r * col + (k - r * col) ≡ k = omega arith in
    let back : read_table table col (r + 55) (k - r * col + 55) ≡ some (at_index table k ∷ []) =
      read-digits table col r (k - r * col) (omega arith)
      ∙ ap (λ n. some (at_index table n ∷ [])) whole in
    subst
      (λ out.
        decode table col (out ++ rest)
        ≡ joined_to (some (at_index table k ∷ [])) (decode table col rest))
      (sym (ap₂ (λ a b. a ++ b) one_r one_c)) (rw (r_space, c_space, r_value, c_value, back) refl)

decode-space :
    (table : List ℕ) (col c : ℕ) (rest : List ℕ)
    → is_space c ≡ true
    → decode table col (c ∷ rest) ≡ joined_to (some (c ∷ [])) (decode table col rest)
unfolding decode
decode-space table col c [] e = rw e refl
decode-space table col c (t ∷ rest) e = rw e refl

char_back :
    (table : List ℕ) (col c : ℕ)
    → 0 < col
    → col ≤ 16
    → Known table col c
    → (one : List ℕ) × (encode_char table col c ≡ some one)
      × ((out : List ℕ)
          → decode table col (one ++ out) ≡ joined_to (some (c ∷ [])) (decode table col out))
char_back table col c pos most (inl space) =
    (c ∷ [], rw space refl, λ out. decode-space table col c out space)
char_back table col c pos most (inr (j, at_j, lt, inside)) = elim (Bool-cases (is_space c)) [
  | inl space ↦ (c ∷ [], rw space refl, λ out. decode-space table col c out space)
  | inr e ↦
      let (k, found, at_k, le) =
        index_of-finds 257 table c 0 j (subst (λ n. at_index table n ≡ c) (omega arith) at_j)
          inside in
      (
        encode_at col k,
        rw (e, found) refl,
        λ out.
            decode-encode_at table col k out pos most (omega arith) (omega arith)
            ∙ ap (λ a. joined_to (some (a ∷ [])) (decode table col out)) at_k,
      )
]

-- With 1 to 16 columns, a text of spaces and of characters that stand in the table, at indices that
-- a row and a column below 16 can tell, is encoded without a read outside the table, and decoding
-- what was printed gives the text back.
pub decode-encode :
    (table : List ℕ) (col : ℕ) (text : List ℕ)
    → 0 < col
    → col ≤ 16
    → All (Known table col) text
    → (out : List ℕ) × (encode table col text ≡ some out) × (decode table col out ≡ some text)
unfolding encode decode
decode-encode table col [] pos most h = ([], refl, refl)
decode-encode table col (c ∷ text) pos most (hc, h) =
    let (out, printed, reads) = decode-encode table col text pos most h in
    let (one, printed_c, reads_c) = char_back table col c pos most hc in
    (
      one ++ out,
      ap₂ joined_to printed_c printed,
      reads_c out ∙ ap (λ o. joined_to (some (c ∷ [])) o) reads,
    )
