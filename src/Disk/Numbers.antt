-- ===== src/Disk/Numbers.antt =====
-- Numbers and words that are written with `<<` and read with `>>`.
use thkvs.Base.{
  ℕ, zero, suc, ◌+◌, ◌-◌, ◌*◌, ◌/◌, ◌%◌, ◌^◌, ◌<◌, ◌≡◌, refl, ◌∙◌, inl, inr, [], ◌∷◌, ◌++◌, true,
  false, Bool-cases, ltb, Text, decimal, digits_onto, arith,
}
use thkvs.Disk.{open_in, skip_space, is_digit, starts_digit, number, after_number, read_unsigned}

digits_onto-append :
    (f n : ℕ) (acc s : Text) → digits_onto f n acc ++ s ≡ digits_onto f n (acc ++ s)
unfolding digits_onto
digits_onto-append zero n acc s = refl
digits_onto-append (suc f) n acc s = elim (Bool-cases (ltb n 10)) [
  | inl e ↦ rw (e, digits_onto) refl
  | inr e ↦ rw (e, digits_onto) (digits_onto-append f (n / 10) ((n % 10 + 48) ∷ acc) s)
]

decimal-append : (n : ℕ) (s : Text) → decimal n ++ s ≡ digits_onto (suc n) n s
unfolding decimal
decimal-append n s = digits_onto-append (suc n) n [] s

number-digit : (n : ℕ) (s : Text) → number (n / 10) ((n % 10 + 48) ∷ s) ≡ number n s
number-digit n s =
    let e : n / 10 * 10 + (n % 10 + 48 - 48) ≡ n = omega arith in
    let d : is_digit (n % 10 + 48) ≡ true = ground arith in rw (d, e) refl

number-digits_onto : (f n : ℕ) (s : Text) → n < f → number 0 (digits_onto f n s) ≡ number n s
unfolding digits_onto
number-digits_onto zero n s l = absurd (omega arith)
number-digits_onto (suc f) n s l = elim (Bool-cases (ltb n 10)) [
  | inl e ↦
      let d : is_digit (n + 48) ≡ true = ground arith in
      let v : 0 * 10 + (n + 48 - 48) ≡ n = omega arith in rw (e, digits_onto, d, v) refl
  | inr e ↦
      rw (e, digits_onto)
        (number-digits_onto f (n / 10) ((n % 10 + 48) ∷ s) (ground arith) ∙ number-digit n s)
]

after_number-digits_onto :
    (f n : ℕ) (s : Text) → n < f → after_number (digits_onto f n s) ≡ after_number s
unfolding digits_onto
after_number-digits_onto zero n s l = absurd (omega arith)
after_number-digits_onto (suc f) n s l = elim (Bool-cases (ltb n 10)) [
  | inl e ↦ let d : is_digit (n + 48) ≡ true = ground arith in rw (e, digits_onto, d) refl
  | inr e ↦
      let d : is_digit (n % 10 + 48) ≡ true = ground arith in
      rw (e, digits_onto)
        (after_number-digits_onto f (n / 10) ((n % 10 + 48) ∷ s) (ground arith) ∙ rw d refl)
]

pub starts_digit-digits_onto :
    (f n : ℕ) (s : Text) → n < f → starts_digit (digits_onto f n s) ≡ true
unfolding digits_onto
starts_digit-digits_onto zero n s l = absurd (omega arith)
starts_digit-digits_onto (suc zero) n s l = let e : n ≡ 0 = omega arith in rw e refl
starts_digit-digits_onto (suc (suc f)) n s l = elim (Bool-cases (ltb n 10)) [
  | inl e ↦ rw (e, digits_onto) (ground arith)
  | inr e ↦
      rw (e, digits_onto)
        (starts_digit-digits_onto (suc f) (n / 10) ((n % 10 + 48) ∷ s) (ground arith))
]

-- A number that is written and followed by something else than a digit.
module _ (n : ℕ) (s : Text) (other : starts_digit s ≡ false) where
  pub number-decimal : number 0 (decimal n ++ s) ≡ n
  number-decimal =
      rw decimal-append (number-digits_onto (suc n) n s (omega arith) ∙ number_end n s other)
    where
      number_end : (n : ℕ) (s : Text) → starts_digit s ≡ false → number n s ≡ n
      number_end n [] other = refl
      number_end n (c ∷ s) other = rw other refl

  pub after_number-decimal : after_number (decimal n ++ s) ≡ s
  after_number-decimal =
      rw decimal-append (after_number-digits_onto (suc n) n s (omega arith) ∙ after_end s other)
    where
      after_end : (s : Text) → starts_digit s ≡ false → after_number s ≡ s
      after_end [] other = refl
      after_end (c ∷ s) other = rw other refl

pub starts_digit-decimal : (n : ℕ) (s : Text) → starts_digit (decimal n ++ s) ≡ true
starts_digit-decimal n s = rw decimal-append (starts_digit-digits_onto (suc n) n s (omega arith))

-- What starts with a digit starts with neither a space nor a sign.
pub skip_space-digit : (t : Text) → starts_digit t ≡ true → skip_space t ≡ t
skip_space-digit [] d = refl
skip_space-digit (c ∷ t) d = ground arith

read_unsigned-digit :
    (input t : Text) (old : ℕ)
    → skip_space input ≡ t
    → starts_digit t ≡ true
    → number 0 t < 2 ^ 32
    → read_unsigned (open_in input) old ≡ (number 0 t, open_in (after_number t))
read_unsigned-digit input [] old e d l = ground arith
read_unsigned-digit input (c ∷ t) old e d l = rw e (ground arith)

pub read_unsigned-decimal :
    (input s : Text) (old n : ℕ)
    → skip_space input ≡ decimal n ++ s
    → starts_digit s ≡ false
    → n < 2 ^ 32
    → read_unsigned (open_in input) old ≡ (n, open_in s)
read_unsigned-decimal input s old n e other l =
    read_unsigned-digit input (decimal n ++ s) old e (starts_digit-decimal n s)
      (rw (number-decimal n s other) l)
    ∙ rw (number-decimal n s other, after_number-decimal n s other) refl
