-- ===== src/Blocks/Laid.antt =====
-- The front of the array `tmp` after the lines of a file are read into it: the entries, with the
-- flags and numbers that the array held.
use thkvs.Base.{
  ℕ, suc, ◌≤◌, ◌<◌, ◌≡◌, ◌≢◌, refl, ap, ◌∙◌, inl, inr, List, [], ◌∷◌, ◌++◌, true, false, Bool-cases,
  ◌==◌, Text, All, length, take, modify, arith,
}
use thkvs.Base.Int.{ℤ}
use thkvs.Disk.Signed.{IsWord, IsLong}
use thkvs.Blocks.{Value, has_key, update}
use thkvs.Blocks.Lines.{Fits, overwrite, overlay}
use thkvs.Blocks.Filled.{IsFilled, copies, copies-has_key, has_key_below}

abbrev pub laid : (Value → Value) → List Value → List Value → List Value
laid change [] tmp = []
laid change (v ∷ vs) [] = []
laid change (v ∷ vs) (old ∷ tmp) = change (overwrite old v) ∷ laid change vs tmp

module _ (change : Value → Value) where
  pub take-overlay :
      (vs tmp : List Value)
      → length vs ≤ length tmp
      → take (length vs) (overlay change vs tmp) ≡ laid change vs tmp
  take-overlay [] tmp l = refl
  take-overlay (v ∷ vs) [] l = refl
  take-overlay (v ∷ vs) (old ∷ tmp) l =
      ap (λ xs. change (overwrite old v) ∷ xs) (take-overlay vs tmp (omega arith))

  pub length-laid :
      (vs tmp : List Value) → length vs ≤ length tmp → length (laid change vs tmp) ≡ length vs
  length-laid [] tmp l = refl
  length-laid (v ∷ vs) [] l = absurd (omega arith)
  length-laid (v ∷ vs) (old ∷ tmp) l = ap suc (length-laid vs tmp (omega arith))

  pub length-overlay : (vs tmp : List Value) → length (overlay change vs tmp) ≡ length tmp
  length-overlay [] tmp = refl
  length-overlay (v ∷ vs) [] = refl
  length-overlay (v ∷ vs) (old ∷ tmp) = ap suc (length-overlay vs tmp)

  -- One element more, after a change of it.
  pub take-modify-overlay :
      (assign : Value → Value) (vs tmp : List Value)
      → length vs < length tmp
      → (old : Value) × (take (suc (length vs)) (modify (overlay change vs tmp) (length vs) assign)
          ≡ laid change vs tmp ++ assign old ∷ [])
  take-modify-overlay assign [] [] l = absurd (omega arith)
  take-modify-overlay assign [] (old ∷ tmp) l = (old, refl)
  take-modify-overlay assign (v ∷ vs) [] l = absurd (omega arith)
  take-modify-overlay assign (v ∷ vs) (old ∷ tmp) l =
      let (t, e) = take-modify-overlay assign vs tmp (omega arith) in
      (t, ap (λ xs. change (overwrite old v) ∷ xs) e)

module _ (hash : ℕ) (value : Text) (time_stamp : ℤ) where
  abbrev pub updated : List Value → List Value → List Value
  updated vs tmp = laid (update hash value time_stamp) vs tmp

  key-update : (v : Value) → (update hash value time_stamp v).key ≡ v.key
  key-update v = ground arith

  pub has_key-updated :
      (h : ℕ) (vs tmp : List Value)
      → length vs ≤ length tmp
      → has_key h (updated vs tmp) ≡ has_key h vs
  has_key-updated h [] tmp l = refl
  has_key-updated h (v ∷ vs) [] l = absurd (omega arith)
  has_key-updated h (v ∷ vs) (old ∷ tmp) l =
      rw (key-update (overwrite old v), has_key-updated h vs tmp (omega arith)) refl

  pub updated-IsFilled :
      (lo hi : ℕ) (vs tmp : List Value) → IsFilled lo hi vs → IsFilled lo hi (updated vs tmp)
  updated-IsFilled lo hi [] tmp f = tt
  updated-IsFilled lo hi (v ∷ vs) [] f = tt
  updated-IsFilled lo hi (v ∷ vs) (old ∷ tmp) f =
      let (f0, f1, f2) = f in
      rw (key-update (overwrite old v)) (f0, f1, updated-IsFilled (suc v.key) hi vs tmp f2)

  pub updated-All :
      (vs tmp : List Value)
      → IsWord value
      → IsLong time_stamp
      → All Fits vs
      → All Fits (updated vs tmp)
  updated-All [] tmp w t h = tt
  updated-All (v ∷ vs) [] w t h = tt
  updated-All (v ∷ vs) (old ∷ tmp) w t h = (Fits-update, updated-All vs tmp w t h.1)
    where
      Fits-update : Fits (update hash value time_stamp (overwrite old v))
      Fits-update = elim (Bool-cases (v.key == hash)) [
        | inl e ↦ rw e (record { key = h.0.key; value = w; time_stamp = t })
        | inr e ↦ rw e (record { key = h.0.key; value = h.0.value; time_stamp = h.0.time_stamp })
      ]

  -- Another hash keeps its copies.
  pub copies-updated_other :
      (h : ℕ) (vs tmp : List Value)
      → length vs ≤ length tmp
      → hash ≢ h
      → copies h (updated vs tmp) ≡ copies h vs
  copies-updated_other h [] tmp l ne = refl
  copies-updated_other h (v ∷ vs) [] l ne = absurd (omega arith)
  copies-updated_other h (v ∷ vs) (old ∷ tmp) l ne = ground (arith, copies-updated_other h vs tmp)

  -- The hash itself, if it is there, has the new value.
  pub copies-updated :
      (lo hi : ℕ) (vs tmp : List Value)
      → length vs ≤ length tmp
      → IsFilled lo hi vs
      → has_key hash vs ≡ true
      → copies hash (updated vs tmp) ≡ (value, time_stamp) ∷ []
  copies-updated lo hi [] tmp l f h = ground arith
  copies-updated lo hi (v ∷ vs) [] l f h = absurd (omega arith)
  copies-updated lo hi (v ∷ vs) (old ∷ tmp) l f h = elim (Bool-cases (v.key == hash)) [
    | inl e ↦
        let gone : has_key hash vs ≡ false =
          has_key_below hash (suc v.key) hi vs f.2 (ground arith) in
        rw (e, e)
          (ap (λ c. (value, time_stamp) ∷ c)
            (copies-has_key hash (updated vs tmp)
              (has_key-updated hash vs tmp (omega arith) ∙ gone)))
    | inr e ↦ rw (e, e) (copies-updated (suc v.key) hi vs tmp (omega arith) f.2 (ground arith))
  ]
