-- ===== src/Disk/Signed.antt =====
-- Signed numbers and words that are written with `<<` and read with `>>`.
use thkvs.Base.{
  ℕ, zero, suc, ◌+◌, ◌/◌, ◌%◌, ◌^◌, ◌≤◌, ◌<◌, ◌≡◌, refl, ◌∙◌, inl, inr, [], ◌∷◌, ◌++◌, Bool, true,
  false, Bool-cases, ltb, Text, decimal, digits_onto, All, arith,
}
use thkvs.Base.Int.{ℤ, pos, negsuc, neg_part, pos_part}
use thkvs.Disk.{
  open_in, is_space, skip_space, word, after_word, read_string, starts_digit, number, after_number,
  read_long, decimal_ℤ, negate,
}
use thkvs.Disk.Numbers.{
  starts_digit-digits_onto, number-decimal, after_number-decimal, starts_digit-decimal,
  skip_space-digit,
}

-- A value of a `long long`.
abbrev pub IsLong : ℤ → Type 0
IsLong t = (pos_part t < 2 ^ 63) × (neg_part t ≤ 2 ^ 63)

read_long-digit :
    (input t : Text) (old : ℤ)
    → skip_space input ≡ t
    → starts_digit t ≡ true
    → number 0 t < 2 ^ 63
    → read_long (open_in input) old ≡ (pos (number 0 t), open_in (after_number t))
read_long-digit input [] old e d l = ground arith
read_long-digit input (c ∷ t) old e d l = rw e (ground arith)

read_long-minus :
    (input t : Text) (old : ℤ)
    → skip_space input ≡ 45 ∷ t
    → starts_digit t ≡ true
    → number 0 t ≤ 2 ^ 63
    → read_long (open_in input) old ≡ (negate (number 0 t), open_in (after_number t))
read_long-minus input t old e d l = rw (e, d) (ground arith)

-- No digit and no sign of it: what starts with a space.
pub read_long-decimal_ℤ :
    (input s : Text) (old t : ℤ)
    → skip_space input ≡ skip_space (decimal_ℤ t ++ s)
    → starts_digit s ≡ false
    → IsLong t
    → read_long (open_in input) old ≡ (t, open_in s)
read_long-decimal_ℤ input s old (pos n) e other l =
    read_long-digit input (decimal n ++ s) old
      (e ∙ skip_space-digit (decimal n ++ s) (starts_digit-decimal n s)) (starts_digit-decimal n s)
      (rw (number-decimal n s other) l.0)
    ∙ rw (number-decimal n s other, after_number-decimal n s other) refl
read_long-decimal_ℤ input s old (negsuc n) e other l =
    read_long-minus input (decimal (suc n) ++ s) old e (starts_digit-decimal (suc n) s)
      (rw (number-decimal (suc n) s other) l.1)
    ∙ rw (number-decimal (suc n) s other, after_number-decimal (suc n) s other) refl

abbrev pub IsSolid : Text → Type 0
IsSolid s = All (λ c. is_space c ≡ false) s

-- A value that a line can hold: not empty, and without spaces.
abbrev pub IsWord : Text → Type 0
IsWord [] = ⊥
IsWord (c ∷ s) = IsSolid (c ∷ s)

abbrev pub starts_space : Text → Bool
starts_space [] = true
starts_space (c ∷ s) = is_space c

module _ (rest : Text) (space : starts_space rest ≡ true) where
  word-solid : (s : Text) → IsSolid s → word (s ++ rest) ≡ s
  word-solid [] h = word_space rest space
    where
      word_space : (r : Text) → starts_space r ≡ true → word r ≡ []
      word_space [] e = refl
      word_space (c ∷ r) e = rw e refl
  word-solid (c ∷ s) h = rw (h.0, word-solid s h.1) refl

  after_word-solid : (s : Text) → IsSolid s → after_word (s ++ rest) ≡ rest
  after_word-solid [] h = after_space rest space
    where
      after_space : (r : Text) → starts_space r ≡ true → after_word r ≡ r
      after_space [] e = refl
      after_space (c ∷ r) e = rw e refl
  after_word-solid (c ∷ s) h = rw (h.0, after_word-solid s h.1) refl

  -- A word that is followed by a space, or by the end of the file, is read back.
  pub read_string-word :
      (input s old : Text)
      → skip_space input ≡ skip_space (s ++ rest)
      → IsWord s
      → read_string (open_in input) old ≡ (s, open_in rest)
  read_string-word input [] old e h = absurd h
  read_string-word input (c ∷ s) old e h =
      rw (e, h.0) (rw (h.0, word-solid s h.1, after_word-solid s h.1) refl)

IsSolid-digits_onto : (f n : ℕ) (s : Text) → IsSolid s → IsSolid (digits_onto f n s)
unfolding digits_onto
IsSolid-digits_onto zero n s h = h
IsSolid-digits_onto (suc f) n s h = elim (Bool-cases (ltb n 10)) [
  | inl e ↦ rw (e, digits_onto) (ground arith, h)
  | inr e ↦
      rw (e, digits_onto) (IsSolid-digits_onto f (n / 10) ((n % 10 + 48) ∷ s) (ground arith, h))
]

IsWord-digit : (s : Text) → starts_digit s ≡ true → IsSolid s → IsWord s
IsWord-digit [] d h = ground arith
IsWord-digit (c ∷ s) d h = h

pub IsWord-decimal : (n : ℕ) → IsWord (decimal n)
unfolding decimal
IsWord-decimal n =
    IsWord-digit (decimal n) (starts_digit-digits_onto (suc n) n [] (omega arith))
      (IsSolid-digits_onto (suc n) n [] tt)

pub IsWord-decimal_ℤ : (t : ℤ) → IsWord (decimal_ℤ t)
IsWord-decimal_ℤ (pos n) = IsWord-decimal n
IsWord-decimal_ℤ (negsuc n) = (refl, IsSolid-word (decimal (suc n)) (IsWord-decimal (suc n)))
  where
    IsSolid-word : (s : Text) → IsWord s → IsSolid s
    IsSolid-word [] h = tt
    IsSolid-word (c ∷ s) h = h
