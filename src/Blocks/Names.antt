-- ===== src/Blocks/Names.antt =====
-- src/data.cpp, the names of the files: `conkey(begin) + "_" + conkey(end) + ".txt"`.
use mathlib.Core.List.{append_assoc}
use thkvs.Base.{
  ℕ, zero, suc, ◌+◌, ◌/◌, ◌%◌, ◌^◌, ◌<◌, ◌≡◌, ◌≢◌, refl, sym, ap, ◌∙◌, inl, inr, ◌⊎◌, [], ◌∷◌, ◌++◌,
  true, false, Bool-cases, ◌==◌, if◌then◌else◌, Text, text_eq, text_eq_iff, codes, All, arith,
}
use thkvs.Disk.{is_digit}
use thkvs.Store.Digits.{conkey, digits_before, toint, toint-conkey}
use thkvs.Blocks.{Hashlist, file_name, block_name}

abbrev AreDigits : Text → Type 0
AreDigits s = All (λ c. is_digit c ≡ true) s

digits_before-AreDigits : (f n : ℕ) (s : Text) → AreDigits s → AreDigits (digits_before f n s)
unfolding digits_before
digits_before-AreDigits zero n s h = h
digits_before-AreDigits (suc f) n s h = elim (Bool-cases (n == 0)) [
  | inl e ↦ rw (e, digits_before) h
  | inr e ↦
      rw (e, digits_before)
        (digits_before-AreDigits f (n / 10) ((n % 10 + 48) ∷ s) (ground arith, h))
]

conkey-AreDigits : (n : ℕ) → AreDigits (conkey n)
unfolding conkey
conkey-AreDigits n = elim (Bool-cases (n == 0)) [
  | inl e ↦ rw (e, conkey) (refl, tt)
  | inr e ↦ rw (e, conkey) (digits_before-AreDigits n n [] tt)
]

-- The parts of a text before and behind the first of a byte.
abbrev before : ℕ → Text → Text
before m [] = []
before m (c ∷ s) = let rest = before m s in if c == m then [] else c ∷ rest

abbrev behind : ℕ → Text → Text
behind m [] = []
behind m (c ∷ s) = let rest = behind m s in if c == m then s else rest

module _ (m : ℕ) (other : is_digit m ≡ false) where
  before-digits : (d s : Text) → AreDigits d → before m (d ++ m ∷ s) ≡ d
  before-digits [] s h = ground arith
  before-digits (c ∷ d) s h =
      let e : (c == m) ≡ false = let h0 = h.0 in ground arith in rw (e, before-digits d s h.1) refl

  behind-digits : (d s : Text) → AreDigits d → behind m (d ++ m ∷ s) ≡ s
  behind-digits [] s h = ground arith
  behind-digits (c ∷ d) s h =
      let e : (c == m) ≡ false = let h0 = h.0 in ground arith in rw (e, behind-digits d s h.1) refl

conkey_inj : (n k : ℕ) → n < 2 ^ 32 → k < 2 ^ 32 → conkey n ≡ conkey k → n ≡ k
conkey_inj n k l m e = sym (toint-conkey n l) ∙ ap toint e ∙ toint-conkey k m

file_name-parts :
    (begin end : ℕ) → file_name begin end ≡ conkey begin ++ 95 ∷ (conkey end ++ codes ".txt")
unfolding file_name
file_name-parts begin end = rw (append_assoc, append_assoc) refl

begin_of_name : (begin end : ℕ) → before 95 (file_name begin end) ≡ conkey begin
begin_of_name begin end =
    rw file_name-parts
      (before-digits 95 refl (conkey begin) (conkey end ++ codes ".txt") (conkey-AreDigits begin))

end_of_name : (begin end : ℕ) → before 46 (behind 95 (file_name begin end)) ≡ conkey end
end_of_name begin end =
    rw
      (
        file_name-parts,
        behind-digits 95 refl (conkey begin) (conkey end ++ codes ".txt") (conkey-AreDigits begin),
      )
      (before-digits 46 refl (conkey end) (codes "txt") (conkey-AreDigits end))

-- Two blocks with ends below 2 ^ 32 have the same file name only if they begin and end at the same
-- hashes.
pub file_name_inj :
    (begin end begin' end' : ℕ)
    → begin < 2 ^ 32
    → end < 2 ^ 32
    → begin' < 2 ^ 32
    → end' < 2 ^ 32
    → file_name begin end ≡ file_name begin' end'
    → (begin ≡ begin') × (end ≡ end')
file_name_inj begin end begin' end' l m l' m' e = (
  conkey_inj begin begin' l l'
      (sym (begin_of_name begin end) ∙ ap (before 95) e ∙ begin_of_name begin' end'),
  conkey_inj end end' m m'
      (sym (end_of_name begin end) ∙ ap (λ s. before 46 (behind 95 s)) e ∙ end_of_name begin' end'),
)

-- Blocks that are not the same have different files.
pub block_name_differ :
    (b c : Hashlist)
    → b.begin < 2 ^ 32
    → b.end < 2 ^ 32
    → c.begin < 2 ^ 32
    → c.end < 2 ^ 32
    → (b.begin ≢ c.begin) ⊎ (b.end ≢ c.end)
    → text_eq (block_name b) (block_name c) ≡ false
block_name_differ b c l m l' m' ne = elim (Bool-cases (text_eq (block_name b) (block_name c))) [
  | inr e ↦ e
  | inl e ↦
      let same =
        file_name_inj b.begin b.end c.begin c.end l m l' m'
          ((text_eq_iff (block_name b) (block_name c)).0 e) in
      elim ne [ inl d ↦ absurd (d same.0) | inr d ↦ absurd (d same.1) ]
]
