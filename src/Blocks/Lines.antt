-- ===== src/Blocks/Lines.antt =====
-- src/data.cpp, the lines of a file: what is written for an entry, and how it is read again.
use mathlib.Core.List.{append_assoc}
use thkvs.Base.{
  ◌^◌, ◌≤◌, ◌<◌, ◌≡◌, refl, sym, ap, ◌∙◌, List, [], ◌∷◌, ◌++◌, Text, decimal, All, length, arith,
}
use thkvs.Disk.{open_in, skip_space, decimal_ℤ}
use thkvs.Disk.Numbers.{starts_digit-decimal, skip_space-digit, read_unsigned-decimal}
use thkvs.Disk.Signed.{
  IsLong, IsWord, read_long-decimal_ℤ, read_string-word, IsWord-decimal, IsWord-decimal_ℤ,
}
use thkvs.Blocks.{Value, line, lines, read_value, read_values}
use thkvs.Blocks.Serve.{Words, read_words}

-- An entry that a line can hold.
pub record Fits (v : Value) : Type 0 where
  pub key : v.key < 2 ^ 32
  pub value : IsWord v.value
  pub time_stamp : IsLong v.time_stamp

-- An element of the array, with what is read from a line in it.
abbrev pub overwrite : Value → Value → Value
overwrite old v = record old { key = v.key; value = v.value; time_stamp = v.time_stamp }

line-append :
    (v : Value) (s : Text)
    → line v ++ s ≡ decimal v.key ++ (32 ∷ v.value ++ (32 ∷ decimal_ℤ v.time_stamp ++ (10 ∷ s)))
line-append v s = rw (append_assoc, append_assoc, append_assoc) refl

module _ (v : Value) (fits : Fits v) (input s : Text)
    (starts : skip_space input ≡ skip_space (line v ++ s)) where
  starts_key :
      skip_space input
      ≡ decimal v.key ++ (32 ∷ v.value ++ (32 ∷ decimal_ℤ v.time_stamp ++ (10 ∷ s)))
  starts_key =
      starts ∙ ap skip_space (line-append v s) ∙ skip_space-digit _ (starts_digit-decimal v.key _)

  read_value-line :
      (old : Value) → read_value (open_in input) old ≡ (overwrite old v, open_in (10 ∷ s))
  unfolding read_value
  read_value-line old =
      rw
        (
          read_unsigned-decimal input _ old.key v.key starts_key refl fits.key,
          read_string-word (32 ∷ decimal_ℤ v.time_stamp ++ (10 ∷ s)) refl
              (32 ∷ v.value ++ (32 ∷ decimal_ℤ v.time_stamp ++ (10 ∷ s))) v.value old.value refl
              fits.value,
          read_long-decimal_ℤ (32 ∷ decimal_ℤ v.time_stamp ++ (10 ∷ s)) (10 ∷ s) old.time_stamp
              v.time_stamp refl refl fits.time_stamp,
        )
        refl

  pub read_words-line :
      (w : Words)
      → read_words (open_in input) w ≡ (
        record { key = decimal v.key; value = v.value; time_stamp = decimal_ℤ v.time_stamp },
        open_in (10 ∷ s),
      )
  unfolding read_words
  read_words-line w =
      let value = 32 ∷ v.value ++ (32 ∷ decimal_ℤ v.time_stamp ++ (10 ∷ s)) in
      let time_stamp = 32 ∷ decimal_ℤ v.time_stamp ++ (10 ∷ s) in
      rw
        (
          read_string-word value refl input (decimal v.key) w.key
              (starts_key ∙ sym (skip_space-digit _ (starts_digit-decimal v.key _)))
              (IsWord-decimal v.key),
          read_string-word time_stamp refl value v.value w.value refl fits.value,
          read_string-word (10 ∷ s) refl time_stamp (decimal_ℤ v.time_stamp) w.time_stamp refl
              (IsWord-decimal_ℤ v.time_stamp),
        )
        refl

-- Elements of the array, with what is read in the first of them and what is done to it.
abbrev pub overlay : (Value → Value) → List Value → List Value → List Value
overlay change [] tmp = tmp
overlay change (v ∷ vs) [] = []
overlay change (v ∷ vs) (old ∷ tmp) = change (overwrite old v) ∷ overlay change vs tmp

-- Entries with keys of 32 bits, values that are words and timestamps of 64 bits are read back
-- from their lines with the same keys, values and timestamps into an array that is long enough,
-- and the flags and numbers of the array stay.
pub read_values-lines :
    (change : Value → Value) (vs : List Value) (input : Text) (tmp : List Value)
    → All Fits vs
    → skip_space input ≡ skip_space (lines vs)
    → length vs ≤ length tmp
    → read_values change (length vs) (open_in input) tmp ≡ overlay change vs tmp
unfolding read_values
read_values-lines change [] input tmp fits starts l = refl
read_values-lines change (v ∷ vs) input [] fits starts l = refl
read_values-lines change (v ∷ vs) input (old ∷ tmp) fits starts l =
    ap (λ p. change p.0 ∷ read_values change (length vs) p.1 tmp)
      (read_value-line v fits.0 input (lines vs) starts old)
    ∙ ap (λ xs. change (overwrite old v) ∷ xs)
        (read_values-lines change vs (10 ∷ lines vs) tmp fits.1 refl (omega arith))
