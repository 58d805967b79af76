-- ===== src/Cipher/Args/Codes.antt =====
-- What the code that `validargs` of shell_parser/src/hw1.c returns says of the arguments.
use linux_system.Prelude.{
  ℕ, ◌+◌, ◌*◌, ◌/◌, ◌%◌, ◌≤◌, ◌≡◌, ◌≢◌, ◌⊎◌, refl, sym, ap, ap₂, subst, inl, inr, true, false, not,
  ◌||◌, Option, none, some, List, [], ◌∷◌, ltb, length, arith, Bool-cases, Option-cases,
}
use linux_system.Cipher.Args.{
  polybius_alphabet, fm_alphabet, is_flag, key_fits, Checked, Options, options, mode_bit, polybius,
  fractionated, validargs,
}
use linux_system.Cipher.Args.Valid.{
  IsKey, Good, KeyGood, key_fits-IsKey, options-Good, none-some, some-injective,
}

-- The argument `-e` with its bit, or `-d` with its own.
abbrev pub IsMode : List ℕ → ℕ → Type 0
IsMode mode bit =
    ((mode ≡ b'-' ∷ b'e' ∷ []) × (bit ≡ 0)) ⊎ ((mode ≡ b'-' ∷ b'd' ∷ []) × (bit ≡ 0x2000))

-- What a code of the Polybius cipher says: its fields give back the bit of the mode and the shape of
-- a table that holds the alphabet.
pub record Layout (mode : List ℕ) (r : Checked) : Type 0 where
  pub bit : ℕ
  pub row : ℕ
  pub col : ℕ
  pub mode_known : mode_bit mode ≡ some bit
  pub mode_named : IsMode mode bit
  pub code : r.code ≡ bit + 16 * row + col
  pub row_field : r.code / 16 % 16 ≡ row
  pub col_field : r.code % 16 ≡ col
  pub room : length polybius_alphabet ≤ row * col
  pub row_le : row ≤ 15
  pub col_ge : 9 ≤ col
  pub col_le : col ≤ 15
  pub keys : KeyGood r.key

flag-text : (arg : List ℕ) (c : ℕ) → is_flag arg c ≡ true → arg ≡ b'-' ∷ c ∷ []
unfolding is_flag
flag-text [] c e = absurd (ground arith)
flag-text (a ∷ []) c e = absurd (ground arith)
flag-text (a ∷ b ∷ []) c e =
    let dash : a ≡ b'-' = ground arith in
    let letter : b ≡ c = ground arith in ap₂ (λ x y. x ∷ y ∷ []) dash letter
flag-text (a ∷ b ∷ d ∷ more) c e = absurd (ground arith)

mode_bit-IsMode : (mode : List ℕ) (bit : ℕ) → mode_bit mode ≡ some bit → IsMode mode bit
unfolding mode_bit
mode_bit-IsMode mode bit e = elim (Bool-cases (is_flag mode b'e')) [
  | inl y ↦ inl (flag-text mode b'e' y, sym (some-injective 0 (rw (y, mode_bit) at e)))
  | inr n ↦ elim (Bool-cases (is_flag mode b'd')) [
    | inl y ↦ inr (flag-text mode b'd' y, sym (some-injective 0 (rw (n, y, mode_bit) at e)))
    | inr n' ↦ absurd (none-some (rw (n, n', mode_bit) at e))
  ]
]

mode_bit-values : (mode : List ℕ) (bit : ℕ) → IsMode mode bit → (bit ≡ 0) ⊎ (bit ≡ 0x2000)
mode_bit-values mode bit (inl (_, e)) = inl e
mode_bit-values mode bit (inr (_, e)) = inr e

code_fields :
    (bit row col : ℕ)
    → (bit ≡ 0) ⊎ (bit ≡ 0x2000)
    → row ≤ 15
    → col ≤ 15
    → ((bit + 16 * row + col) / 16 % 16 ≡ row) × ((bit + 16 * row + col) % 16 ≡ col)
code_fields bit row col (inl e) hr hc = (omega arith, omega arith)
code_fields bit row col (inr e) hr hc = (omega arith, omega arith)

accepted-Layout :
    (mode : List ℕ) (bit : ℕ) (o : Options)
    → mode_bit mode ≡ some bit
    → Good o
    → ltb (o.row * o.col) (length polybius_alphabet) ≡ false
    → Layout mode (record { code = bit + 16 * o.row + o.col; key = o.key })
accepted-Layout mode bit o e g room =
    let fields =
      code_fields bit o.row o.col (mode_bit-values mode bit (mode_bit-IsMode mode bit e)) g.row_le
        g.col_le in
    record {
      bit = bit;
      row = o.row;
      col = o.col;
      mode_known = e;
      mode_named = mode_bit-IsMode mode bit e;
      code = refl;
      row_field = fields.0;
      col_field = fields.1;
      room = ground arith;
      row_le = g.row_le;
      col_ge = g.col_ge;
      col_le = g.col_le;
      keys = g.keys;
    }

polybius-Layout :
    (mode : List ℕ) (more : List (List ℕ)) (r : Checked)
    → polybius (mode ∷ more) ≡ some r
    → r.code ≢ 0
    → Layout mode r
unfolding polybius
polybius-Layout mode more r e nonzero = elim (Option-cases (mode_bit mode)) [
  | inl n ↦
      absurd
        (nonzero (sym (ap (λ (x : Checked). x.code) (some-injective r (rw (n, polybius) at e)))))
  | inr (bit, b) ↦
      let start : Options = record { fits = true; row = 10; col = 10; key = none } in
      elim (Option-cases (options more start)) [
        | inl n ↦ absurd (none-some (rw (b, n, polybius) at e))
        | inr (o, run) ↦
            elim (Bool-cases (not o.fits || ltb (o.row * o.col) (length polybius_alphabet))) [
              | inl bad ↦ absurd (
                  nonzero (
                    sym (
                      ap (λ (x : Checked). x.code)
                        (some-injective r (rw (b, run, bad, polybius) at e)))))
              | inr good ↦
                  subst (Layout mode) (some-injective r (rw (b, run, good, polybius) at e)) (
                    accepted-Layout mode bit o b
                      (options-Good more start o
                        (unfold KeyGood in
                          record {
                            row_le = omega arith;
                            col_ge = omega arith;
                            col_le = omega arith;
                            keys = tt;
                          })
                        run (ground arith))
                      (ground arith))
            ]
      ]
]

-- Where `validargs` returns a code that is not 0 for the Polybius cipher, the code holds the bit of
-- the mode, the rows in its second and the columns in its lowest four bits; the table of that shape
-- has room for the alphabet, there are 9 to 15 columns and at most 15 rows, and a key that was
-- given has only letters of the alphabet and none twice.
pub validargs-Layout :
    (name mode : List ℕ) (more : List (List ℕ)) (r : Checked)
    → validargs (name ∷ (b'-' ∷ b'p' ∷ []) ∷ mode ∷ more) ≡ some r
    → r.code ≢ 0
    → Layout mode r
unfolding validargs is_flag
validargs-Layout name mode more r e nonzero = polybius-Layout mode more r e nonzero

-- A key of the fractionated Morse cipher, if one was given.
unfoldable pub FmKey : Option (List ℕ) → Type 0
FmKey none = Unit
FmKey (some key) = IsKey fm_alphabet key

-- The options behind the mode of the fractionated Morse cipher.
fractionated-key :
    (mode : List ℕ) (bit : ℕ) (more : List (List ℕ)) (r : Checked)
    → mode_bit mode ≡ some bit
    → fractionated (mode ∷ more) ≡ some r
    → r.code ≢ 0
    → (r.code ≡ 0x4000 + bit) × FmKey r.key
unfolding fractionated FmKey
fractionated-key mode bit [] r b e nonzero =
    subst (λ (x : Checked). (x.code ≡ 0x4000 + bit) × FmKey x.key)
      (some-injective r (rw (b, fractionated) at e)) (refl, tt)
fractionated-key mode bit (flag ∷ []) r b e nonzero =
    absurd
      (nonzero (sym (ap (λ (x : Checked). x.code) (some-injective r (rw (b, fractionated) at e)))))
fractionated-key mode bit (flag ∷ value ∷ []) r b e nonzero =
    elim (Bool-cases (is_flag flag b'k')) [
      | inr n ↦ absurd (
          nonzero
            (sym (ap (λ (x : Checked). x.code) (some-injective r (rw (b, n, fractionated) at e)))))
      | inl y ↦ elim (Bool-cases (key_fits fm_alphabet value)) [
        | inr bad ↦ absurd (
            nonzero (
              sym (
                ap (λ (x : Checked). x.code)
                  (some-injective r (rw (b, y, bad, fractionated) at e)))))
        | inl good ↦
            subst (λ (x : Checked). (x.code ≡ 0x4000 + bit) × FmKey x.key)
              (some-injective r (rw (b, y, good, fractionated) at e))
              (refl, key_fits-IsKey fm_alphabet value good)
      ]
    ]
fractionated-key mode bit (flag ∷ value ∷ next ∷ rest) r b e nonzero =
    absurd
      (nonzero (sym (ap (λ (x : Checked). x.code) (some-injective r (rw (b, fractionated) at e)))))

fractionated-bad_mode :
    (mode : List ℕ) (more : List (List ℕ)) (r : Checked)
    → mode_bit mode ≡ none
    → fractionated (mode ∷ more) ≡ some r
    → r.code ≡ 0
unfolding fractionated
fractionated-bad_mode mode more r n e =
    sym (ap (λ (x : Checked). x.code) (some-injective r (rw (n, fractionated) at e)))

-- Where `validargs` returns a code that is not 0 for the fractionated Morse cipher, the mode is -e with
-- the bit 0 or -d with the bit 0x2000, the code is 0x4000 and this bit, and a key that was given has
-- only capital letters and none twice.
pub validargs-FmKey :
    (name mode : List ℕ) (more : List (List ℕ)) (r : Checked)
    → validargs (name ∷ (b'-' ∷ b'f' ∷ []) ∷ mode ∷ more) ≡ some r
    → r.code ≢ 0
    → (bit : ℕ) × IsMode mode bit × (r.code ≡ 0x4000 + bit) × FmKey r.key
unfolding validargs is_flag
validargs-FmKey name mode more r e nonzero = elim (Option-cases (mode_bit mode)) [
  | inl n ↦ absurd (nonzero (fractionated-bad_mode mode more r n e))
  | inr (bit, b) ↦
      let (code, key) = fractionated-key mode bit more r b e nonzero in
      (bit, mode_bit-IsMode mode bit b, code, key)
]
