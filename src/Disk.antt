-- ===== src/Disk.antt =====
-- The files of src/data.cpp: what `ifstream` and `ofstream` do with the values that it reads with
-- `>>` and writes with `<<`.
pub mod Numbers
pub mod Signed
use thkvs.Base.{
  ℕ, zero, suc, ◌+◌, ◌-◌, ◌*◌, ◌%◌, ◌^◌, List, [], ◌∷◌, ◌++◌, Bool, true, false, ◌&&◌, ◌||◌, Option,
  none, some, ltb, leb, ◌==◌, if◌then◌else◌, Text, text_eq, codes, decimal, length,
}
use thkvs.Base.Int.{ℤ, pos, negsuc}

-- The files of the working directory: from a name to the bytes of the file, if there is one.
abbrev pub Files : Type 0
Files = Text → Option Text

-- A file that is opened with `ios::out`, written and closed.
abbrev pub write_file : Text → Text → Files → Files
write_file name bytes files = λ other. if text_eq name other then some bytes else files other

-- `rm name`
abbrev pub rm : Text → Files → Files
rm name files = λ other. if text_eq name other then none else files other

abbrev pub ends_in : Text → Text → Bool
ends_in suffix [] = text_eq suffix []
ends_in suffix (c ∷ s) = text_eq suffix (c ∷ s) || ends_in suffix s

-- `rm *.txt`
abbrev pub rm_texts : Files → Files
rm_texts files = λ name. if ends_in (codes ".txt") name then none else files name

-- A stream that is read: the bytes that are left, and whether an extraction has failed.
pub record Stream : Type 0 where
  pub rest : Text
  pub failed : Bool

abbrev pub open_in : Text → Stream
open_in bytes = record { rest = bytes; failed = false }

abbrev pub is_space : ℕ → Bool
is_space c = c == 32 || (leb 9 c && leb c 13)

abbrev pub skip_space : Text → Text
skip_space [] = []
skip_space (c ∷ s) = let rest = skip_space s in if is_space c then rest else c ∷ s

abbrev pub word : Text → Text
word [] = []
word (c ∷ s) = let rest = word s in if is_space c then [] else c ∷ rest

abbrev pub after_word : Text → Text
after_word [] = []
after_word (c ∷ s) = let rest = after_word s in if is_space c then c ∷ s else rest

-- `input >> text`: at the end of the file, or after a failure, the variable keeps what it held.
abbrev pub read_string : Stream → Text → Text × Stream
read_string input old = if input.failed then (old, input) else elim (skip_space input.rest) [
  | [] ↦ (old, record { rest = []; failed = true })
  | c ∷ s ↦ (word (c ∷ s), record { rest = after_word (c ∷ s); failed = false })
]

abbrev pub is_digit : ℕ → Bool
is_digit c = leb 48 c && leb c 57

abbrev pub starts_digit : Text → Bool
starts_digit [] = false
starts_digit (c ∷ s) = is_digit c

abbrev pub number : ℕ → Text → ℕ
number n [] = n
number n (c ∷ s) = let rest = number (n * 10 + (c - 48)) s in if is_digit c then rest else n

abbrev pub after_number : Text → Text
after_number [] = []
after_number (c ∷ s) = let rest = after_number s in if is_digit c then rest else c ∷ s

abbrev pub is_minus : Text → Bool
is_minus [] = false
is_minus (c ∷ s) = c == 45

abbrev pub after_sign : Text → Text
after_sign [] = []
after_sign (c ∷ s) = if c == 45 || c == 43 then s else c ∷ s

-- The digits of a number that starts here, of the values `least` to `most` as `value` gives them:
-- without a digit it is 0 and a failure, out of the bounds the nearest and a failure.
abbrev read_sized : {A : Type 0} → A → ℕ → A → (ℕ → A) → Text → A × Stream
read_sized zero_value bound nearest value s =
    if starts_digit s
    then if ltb bound (number 0 s)
      then (nearest, record { rest = after_number s; failed = true })
      else (value (number 0 s), record { rest = after_number s; failed = false })
    else (zero_value, record { rest = s; failed = true })

-- `input >> key` into an `unsigned int`: a minus sign negates the bits.
abbrev pub read_unsigned : Stream → ℕ → ℕ × Stream
read_unsigned input old = if input.failed then (old, input) else elim (skip_space input.rest) [
  | [] ↦ (old, record { rest = []; failed = true })
  | c ∷ s ↦
      read_sized 0 (2 ^ 32 - 1) (2 ^ 32 - 1)
        (λ n. if is_minus (c ∷ s) then (2 ^ 32 - n) % 2 ^ 32 else n) (after_sign (c ∷ s))
]

abbrev pub negate : ℕ → ℤ
negate zero = pos 0
negate (suc n) = negsuc n

-- `input >> time_stamp` into a `long long`.
abbrev pub read_long : Stream → ℤ → ℤ × Stream
read_long input old = if input.failed then (old, input) else elim (skip_space input.rest) [
  | [] ↦ (old, record { rest = []; failed = true })
  | c ∷ s ↦
      if is_minus (c ∷ s)
      then read_sized (pos 0) (2 ^ 63) (negate (2 ^ 63)) negate (after_sign (c ∷ s))
      else read_sized (pos 0) (2 ^ 63 - 1) (pos (2 ^ 63 - 1)) pos (after_sign (c ∷ s))
]

-- `output << time_stamp`
abbrev pub decimal_ℤ : ℤ → Text
decimal_ℤ (pos n) = decimal n
decimal_ℤ (negsuc n) = 45 ∷ decimal (suc n)

-- `input >> index` into an `int`.
abbrev pub read_int : Stream → ℤ → ℤ × Stream
read_int input old = if input.failed then (old, input) else elim (skip_space input.rest) [
  | [] ↦ (old, record { rest = []; failed = true })
  | c ∷ s ↦
      if is_minus (c ∷ s)
      then read_sized (pos 0) (2 ^ 31) (negate (2 ^ 31)) negate (after_sign (c ∷ s))
      else read_sized (pos 0) (2 ^ 31 - 1) (pos (2 ^ 31 - 1)) pos (after_sign (c ∷ s))
]
