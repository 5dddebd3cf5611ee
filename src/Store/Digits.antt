-- ===== src/Store/Digits.antt =====
-- src/data.cpp, `conkey`, `conkey2`, `toint` and `tolonglong`: the numbers in the names and the
-- lines of its files.
use thkvs.Base.{
  Bool-cases, inl, inr, ℕ, zero, suc, ◌+◌, ◌-◌, ◌*◌, ◌/◌, ◌%◌, ◌^◌, ◌≤◌, ◌<◌, ◌≡◌, refl, ap, ◌∙◌,
  [], ◌∷◌, ltb, ◌==◌, if◌then◌else◌, Text, codes, decimal, digits_onto, arith,
}

-- `while (key > 0) { ret = char(key % 10 + 48) + ret; key = key / 10; }`
unfoldable pub digits_before : ℕ → ℕ → Text → Text
digits_before zero key ret = ret
digits_before (suc fuel) key ret =
    let rest = digits_before fuel (key / 10) ((key % 10 + 48) ∷ ret) in
    if key == 0 then ret else rest

unfoldable pub conkey : ℕ → Text
unfolding digits_before
conkey key = if key == 0 then codes "0" else digits_before key key []

-- 0 is no digit at all here.
unfoldable pub conkey2 : ℕ → Text
unfolding digits_before
conkey2 key = digits_before key key []

-- A `char` as a number of `bits` bits: it is signed.
abbrev pub char_value : ℕ → ℕ → ℕ
char_value bits c = if ltb c 128 then c else c + 2 ^ bits - 256

-- `time_stamp = time_stamp * 10 + key[i] - '0'`, on so many bits.
unfoldable pub read_digits : ℕ → ℕ → Text → ℕ
read_digits bits time_stamp [] = time_stamp
read_digits bits time_stamp (c ∷ key) =
    read_digits bits ((time_stamp * 10 + char_value bits c + 2 ^ bits - 48) % 2 ^ bits) key

unfoldable pub toint : Text → ℕ
unfolding read_digits
toint key = read_digits 32 0 key

unfoldable pub tolonglong : Text → ℕ
unfolding read_digits
tolonglong key = read_digits 64 0 key

-- One step of reading undoes one step of writing, on so many bits.
abbrev ReadsDigit : ℕ → Type 0
ReadsDigit bits =
    (key : ℕ)
    → key < 2 ^ bits
    → (key / 10 * 10 + char_value bits (key % 10 + 48) + 2 ^ bits - 48) % 2 ^ bits ≡ key

value_of_digit : (bits key : ℕ) → char_value bits (key % 10 + 48) ≡ key % 10 + 48
value_of_digit bits key = ground arith

ReadsDigit-int : ReadsDigit 32
ReadsDigit-int key l = rw (value_of_digit 32 key) (omega arith)

ReadsDigit-long : ReadsDigit 64
ReadsDigit-long key l = rw (value_of_digit 64 key) (omega arith)

module _ (bits : ℕ) (reads : ReadsDigit bits) where
  read_digits-digits_before :
      (fuel key : ℕ) (ret : Text)
      → key ≤ fuel
      → key < 2 ^ bits
      → read_digits bits 0 (digits_before fuel key ret) ≡ read_digits bits key ret
  unfolding digits_before read_digits
  read_digits-digits_before zero key ret f l = let e : key ≡ 0 = omega arith in rw e refl
  read_digits-digits_before (suc fuel) key ret f l = elim (Bool-cases (key == 0)) [
    | inl e ↦ let z : key ≡ 0 = ground arith in rw (z, digits_before) refl
    | inr e ↦
        rw (e, digits_before)
          (read_digits-digits_before fuel (key / 10) ((key % 10 + 48) ∷ ret) (ground arith)
              (omega arith)
            ∙ ap (λ k. read_digits bits k ret) (reads key l))
  ]

  read_digits-digits_onto :
      (fuel key : ℕ) (ret : Text)
      → key < fuel
      → key < 2 ^ bits
      → read_digits bits 0 (digits_onto fuel key ret) ≡ read_digits bits key ret
  unfolding digits_onto read_digits
  read_digits-digits_onto zero key ret f l = absurd (omega arith)
  read_digits-digits_onto (suc fuel) key ret f l = elim (Bool-cases (ltb key 10)) [
    | inl e ↦
        let r : (key / 10 * 10 + char_value bits (key % 10 + 48) + 2 ^ bits - 48) % 2 ^ bits ≡ key =
          reads key l in
        let q : key / 10 ≡ 0 = ground arith in
        let m : key % 10 ≡ key = ground arith in
        rw (e, digits_onto) (ap (λ k. read_digits bits k ret) cc)
    | inr e ↦
        rw (e, digits_onto)
          (read_digits-digits_onto fuel (key / 10) ((key % 10 + 48) ∷ ret) (ground arith)
              (omega arith)
            ∙ ap (λ k. read_digits bits k ret) (reads key l))
  ]

-- A number below 2 ^ 32 that is written with `conkey` is read back by `toint`.
pub toint-conkey : (key : ℕ) → key < 2 ^ 32 → toint (conkey key) ≡ key
unfolding toint conkey read_digits
toint-conkey key l = elim (Bool-cases (key == 0)) [
  | inl e ↦ let z : key ≡ 0 = ground arith in rw z refl
  | inr e ↦ rw (e, conkey) (read_digits-digits_before 32 ReadsDigit-int key key [] (omega arith) l)
]

-- A number below 2 ^ 63 that is written with `conkey2` is read back by `tolonglong`.
pub tolonglong-conkey2 : (key : ℕ) → key < 2 ^ 63 → tolonglong (conkey2 key) ≡ key
unfolding tolonglong conkey2 read_digits
tolonglong-conkey2 key l =
    read_digits-digits_before 64 ReadsDigit-long key key [] (omega arith) (omega arith)

-- So is one that a stream wrote.
pub toint-decimal : (key : ℕ) → key < 2 ^ 32 → toint (decimal key) ≡ key
unfolding toint decimal read_digits
toint-decimal key l = read_digits-digits_onto 32 ReadsDigit-int (suc key) key [] (omega arith) l

pub tolonglong-decimal : (key : ℕ) → key < 2 ^ 63 → tolonglong (decimal key) ≡ key
unfolding tolonglong decimal read_digits
tolonglong-decimal key l =
    read_digits-digits_onto 64 ReadsDigit-long (suc key) key [] (omega arith) (omega arith)
