-- ===== src/Blocks/Marks.antt =====
-- src/data.cpp, request 5 in one block: the marks on the entries, and the entries that are written
-- back.
use mathlib.Core.Path.{subst}
use thkvs.Base.{
  ℕ, suc, ◌≤◌, ◌≡◌, refl, sym, inl, inr, List, [], ◌∷◌, false, ◌&&◌, Bool-cases, leb, if_false, All,
  length, arith,
}
use thkvs.Blocks.{Value}
use thkvs.Blocks.Loop.{mark, unmarked}
use thkvs.Blocks.Lines.{Fits, overwrite}
use thkvs.Blocks.Filled.{IsFilled, IsFilled-lower, copies}
use thkvs.Blocks.Laid.{laid}

module _ (begin end : ℕ) where
  abbrev pub InRange : ℕ → Type 0
  InRange h = (begin ≤ h) × (h ≤ end)

  unfoldable pub marked : List Value → List Value → List Value
  marked es tmp = laid (mark begin end) es tmp

  key-mark : (v : Value) → (mark begin end v).key ≡ v.key
  key-mark v = ground arith

  pub marked-IsFilled :
      (lo hi : ℕ) (es tmp : List Value) → IsFilled lo hi es → IsFilled lo hi (marked es tmp)
  unfolding marked
  marked-IsFilled lo hi [] tmp f = tt
  marked-IsFilled lo hi (e ∷ es) [] f = tt
  marked-IsFilled lo hi (e ∷ es) (old ∷ tmp) f =
      let (f0, f1, f2) = f in
      rw (key-mark (overwrite old e)) (f0, f1, marked-IsFilled (suc e.key) hi es tmp f2)

  pub unmarked-IsFilled :
      (lo hi : ℕ) (vs : List Value) → IsFilled lo hi vs → IsFilled lo hi (unmarked vs)
  unmarked-IsFilled lo hi [] f = tt
  unmarked-IsFilled lo hi (v ∷ vs) f =
      let (f0, f1, f2) = f in
      elim (Bool-cases v.flag) [
        | inl e ↦ rw e (
            IsFilled-lower (suc v.key) lo hi (unmarked vs) (omega arith)
              (unmarked-IsFilled (suc v.key) hi vs f2))
        | inr e ↦ rw e (f0, f1, unmarked-IsFilled (suc v.key) hi vs f2)
      ]

  pub unmarked-All : (vs : List Value) → All Fits vs → All Fits (unmarked vs)
  unmarked-All [] h = tt
  unmarked-All (v ∷ vs) h = elim (Bool-cases v.flag) [
    | inl e ↦ rw e (unmarked-All vs h.1)
    | inr e ↦ subst (All Fits) (sym (if_false _ e)) (h.0, unmarked-All vs h.1)
  ]

  pub marked-All : (es tmp : List Value) → All Fits es → All Fits (marked es tmp)
  unfolding marked
  marked-All [] tmp h = tt
  marked-All (e ∷ es) [] h = tt
  marked-All (e ∷ es) (old ∷ tmp) h = (Fits-mark, marked-All es tmp h.1)
    where
      Fits-mark : Fits (mark begin end (overwrite old e))
      Fits-mark = elim (Bool-cases (leb begin e.key && leb e.key end)) [
        | inl q ↦ rw q (record { key = h.0.key; value = h.0.value; time_stamp = h.0.time_stamp })
        | inr q ↦ rw q (record { key = h.0.key; value = h.0.value; time_stamp = h.0.time_stamp })
      ]

  pub length-unmarked : (vs : List Value) → length (unmarked vs) ≤ length vs
  length-unmarked [] = omega arith
  length-unmarked (v ∷ vs) = ground (arith, length-unmarked vs)

  -- An entry in the range is not written back, whatever the flags held.
  pub copies-survivors_inside :
      (h : ℕ) (es tmp : List Value) → InRange h → copies h (unmarked (marked es tmp)) ≡ []
  unfolding marked
  copies-survivors_inside h [] tmp i = refl
  copies-survivors_inside h (e ∷ es) [] i = refl
  copies-survivors_inside h (e ∷ es) (old ∷ tmp) i =
      let (i0, i1) = i in ground (arith, copies-survivors_inside h es tmp i)

  -- With no flag set before, any other entry is written back.
  pub copies-survivors_outside :
      (h : ℕ) (es tmp : List Value)
      → length es ≤ length tmp
      → All (λ v. v.flag ≡ false) tmp
      → (leb begin h && leb h end) ≡ false
      → copies h (unmarked (marked es tmp)) ≡ copies h es
  unfolding marked
  copies-survivors_outside h [] tmp l f o = refl
  copies-survivors_outside h (e ∷ es) [] l f o = absurd (omega arith)
  copies-survivors_outside h (e ∷ es) (old ∷ tmp) l f o =
      let f0 = f.0 in ground (arith, copies-survivors_outside h es tmp (omega arith) f.1 o)
