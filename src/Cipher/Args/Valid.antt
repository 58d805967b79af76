-- ===== src/Cipher/Args/Valid.antt =====
-- What the loops of `validargs` of shell_parser/src/hw1.c over keys and options accept.
use linux_system.Prelude.{
  ℕ, ◌≤◌, ◌≡◌, ◌≢◌, ap, subst, ◌∙◌, inl, inr, true, false, not, ◌&&◌, ◌||◌, Option, none, some,
  List, [], ◌∷◌, ltb, All, arith, Bool-cases, Option-cases,
}
use linux_system.Cipher.Args.{
  is_empty, polybius_alphabet, is_flag, occurs, key_fits, number, Options, set_option, options,
}

-- Membership in a list and lists without repetition.
unfoldable pub IsIn : ℕ → List ℕ → Type 0
IsIn c xs = occurs c xs ≡ true

unfoldable pub NoRepeats : List ℕ → Type 0
NoRepeats [] = Unit
NoRepeats (c ∷ cs) = All (λ x. c ≢ x) cs × NoRepeats cs

-- A key of an alphabet.
pub record IsKey (alphabet key : List ℕ) : Type 0 where
  pub letters : All (λ c. IsIn c alphabet) key
  pub distinct : NoRepeats key

occurs-All : (c : ℕ) (xs : List ℕ) → occurs c xs ≡ false → All (λ x. c ≢ x) xs
unfolding occurs
occurs-All c [] h = tt
occurs-All c (x ∷ xs) h = ((λ e. ground arith), occurs-All c xs (ground arith))

-- The loops over a key accept only keys of the alphabet.
pub key_fits-IsKey : (alphabet key : List ℕ) → key_fits alphabet key ≡ true → IsKey alphabet key
unfolding key_fits IsIn NoRepeats
key_fits-IsKey alphabet [] h = record { letters = tt; distinct = tt }
key_fits-IsKey alphabet (c ∷ cs) h =
    let rest = key_fits-IsKey alphabet cs (ground arith) in
    record {
      letters = (ground arith, rest.letters);
      distinct = (occurs-All c cs (ground arith), rest.distinct);
    }

-- What holds of options as long as they fit.
unfoldable pub KeyGood : Option (List ℕ) → Type 0
KeyGood none = Unit
KeyGood (some key) = IsKey polybius_alphabet key

pub record Good (o : Options) : Type 0 where
  pub row_le : o.row ≤ 15
  pub col_ge : 9 ≤ o.col
  pub col_le : o.col ≤ 15
  pub keys : KeyGood o.key

pub none-some : {A : Type 0} {x : A} → none ≡ some x → ⊥
none-some e = ground arith

set_row-Good :
    (value : List ℕ) (o o' : Options) (row : ℕ) (rest : List ℕ)
    → Good o
    → record o { row = row; fits = is_empty rest && not (ltb 15 row) && not (ltb o.col 9) } ≡ o'
    → o'.fits ≡ true
    → Good o'
set_row-Good value o o' row rest g e f = subst Good e (record {
  row_le = ground (arith, ap (λ (x : Options). x.fits) e);
  col_ge = g.col_ge;
  col_le = g.col_le;
  keys = g.keys;
})

set_col-Good :
    (value : List ℕ) (o o' : Options) (col : ℕ) (rest : List ℕ)
    → Good o
    → record o { col = col; fits = is_empty rest && not (ltb 15 col) && not (ltb col 9) } ≡ o'
    → o'.fits ≡ true
    → Good o'
set_col-Good value o o' col rest g e f = subst Good e (record {
  row_le = g.row_le;
  col_ge = ground (arith, ap (λ (x : Options). x.fits) e);
  col_le = ground (arith, ap (λ (x : Options). x.fits) e);
  keys = g.keys;
})

set_key-Good :
    (value : List ℕ) (o o' : Options)
    → Good o
    → record o { key = some value; fits = key_fits polybius_alphabet value } ≡ o'
    → o'.fits ≡ true
    → Good o'
unfolding KeyGood
set_key-Good value o o' g e f = subst Good e (record {
  row_le = g.row_le;
  col_ge = g.col_ge;
  col_le = g.col_le;
  keys = key_fits-IsKey polybius_alphabet value (ap (λ (x : Options). x.fits) e ∙ f);
})

pub some-injective : {A : Type 0} (a : A) {x y : A} → some x ≡ some y → x ≡ y
some-injective a {x} {y} e = ap (λ o. elim o [ none ↦ a | some z ↦ z ]) e

pub set_option-Good :
    (flag value : List ℕ) (o o' : Options)
    → Good o
    → set_option flag value o ≡ some o'
    → o'.fits ≡ true
    → Good o'
unfolding set_option
set_option-Good flag value o o' g e f = elim (Bool-cases (is_flag flag b'r')) [
  | inl r ↦ elim (Option-cases (number value 0)) [
    | inl n ↦ absurd (none-some (rw (r, n) at e))
    | inr ((row, rest), n) ↦
        set_row-Good value o o' row rest g (some-injective o (rw (r, n) at e)) f
  ]
  | inr r ↦ elim (Bool-cases (is_flag flag b'c')) [
    | inl c ↦ elim (Option-cases (number value 0)) [
      | inl n ↦ absurd (none-some (rw (r, c, n) at e))
      | inr ((col, rest), n) ↦
          set_col-Good value o o' col rest g (some-injective o (rw (r, c, n) at e)) f
    ]
    | inr c ↦ elim (Bool-cases (is_flag flag b'k')) [
      | inl k ↦ set_key-Good value o o' g (some-injective o (rw (r, c, k) at e)) f
      | inr k ↦
          let unfit : false ≡ o'.fits =
            ap (λ (x : Options). x.fits) (some-injective o (rw (r, c, k) at e)) in
          absurd (cc)
    ]
  ]
]

pub options-Good :
    (args : List (List ℕ)) (o o' : Options)
    → Good o
    → options args o ≡ some o'
    → o'.fits ≡ true
    → Good o'
unfolding options
options-Good [] o o' g e f = subst Good (some-injective o e) g
options-Good (flag ∷ []) o o' g e f =
    elim (Bool-cases (is_flag flag b'r' || is_flag flag b'c' || is_flag flag b'k')) [
      | inl y ↦ absurd (none-some (rw y at e))
      | inr n ↦
          let unfit : false ≡ o'.fits =
            ap (λ (x : Options). x.fits) (some-injective o (rw n at e)) in
          absurd (cc)
    ]
options-Good (flag ∷ value ∷ more) o o' g e f = elim (Option-cases (set_option flag value o)) [
  | inl n ↦ absurd (none-some (rw (n, options) at e))
  | inr (o₁, s) ↦ elim (Bool-cases o₁.fits) [
    | inl y ↦
        options-Good more o₁ o' (set_option-Good flag value o o₁ g s y) (rw (s, y, options) at e) f
    | inr n ↦ let same = some-injective o (rw (s, n, options) at e) in absurd (cc)
  ]
]
