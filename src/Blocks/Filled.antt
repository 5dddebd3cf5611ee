-- ===== src/Blocks/Filled.antt =====
-- Entries in ascending order of their keys, in a range: `sort`, and the entry that is new.
use thkvs.Base.{
  ℕ, suc, ◌≤◌, ◌<◌, ◌≡◌, refl, inl, inr, List, [], ◌∷◌, ◌++◌, true, false, Bool-cases, ltb, ◌==◌,
  if◌then◌else◌, Text, arith,
}
use thkvs.Base.Int.{ℤ}
use thkvs.Blocks.{Value, sort, insert_sorted, has_key}

-- Strictly ascending, from `lo` to `hi`.
abbrev pub IsFilled : ℕ → ℕ → List Value → Type 0
IsFilled lo hi [] = Unit
IsFilled lo hi (v ∷ vs) = (lo ≤ v.key) × (v.key ≤ hi) × IsFilled (suc v.key) hi vs

-- The values and timestamps under a hash.
abbrev pub copies : ℕ → List Value → List (Text × ℤ)
copies h [] = []
copies h (v ∷ vs) = if v.key == h then (v.value, v.time_stamp) ∷ copies h vs else copies h vs

pub copies-has_key : (h : ℕ) (vs : List Value) → has_key h vs ≡ false → copies h vs ≡ []
copies-has_key h [] e = refl
copies-has_key h (v ∷ vs) e = ground (arith, copies-has_key h vs)

pub has_key_below :
    (h lo hi : ℕ) (vs : List Value) → IsFilled lo hi vs → h < lo → has_key h vs ≡ false
has_key_below h lo hi [] f l = refl
has_key_below h lo hi (v ∷ vs) f l =
    ground (arith, has_key_below h (suc v.key) hi vs f.2 (omega (arith, f.0)), f.0)

insert_sorted_first :
    (v : Value) (hi : ℕ) (vs : List Value)
    → IsFilled (suc v.key) hi vs
    → insert_sorted v vs ≡ v ∷ vs
insert_sorted_first v hi [] f = refl
insert_sorted_first v hi (w ∷ vs) f = let l = f.0 in ground arith

pub sort-IsFilled : (lo hi : ℕ) (vs : List Value) → IsFilled lo hi vs → sort vs ≡ vs
sort-IsFilled lo hi [] f = refl
sort-IsFilled lo hi (v ∷ vs) f =
    rw (sort-IsFilled (suc v.key) hi vs f.2) (insert_sorted_first v hi vs f.2)

pub insert_sorted-IsFilled :
    (x : Value) (lo hi : ℕ) (vs : List Value)
    → IsFilled lo hi vs
    → has_key x.key vs ≡ false
    → lo ≤ x.key
    → x.key ≤ hi
    → IsFilled lo hi (insert_sorted x vs)
insert_sorted-IsFilled x lo hi [] f new l m = (l, m, tt)
insert_sorted-IsFilled x lo hi (v ∷ vs) f new l m = elim (Bool-cases (ltb v.key x.key)) [
  | inl e ↦
      rw e
        (f.0, f.1, insert_sorted-IsFilled x (suc v.key) hi vs f.2 (ground arith) (ground arith) m)
  | inr e ↦ let (f0, f1, f2) = f in rw e (l, m, (ground arith, f1, f2))
]

pub IsFilled-lower :
    (lo lo' hi : ℕ) (vs : List Value) → lo' ≤ lo → IsFilled lo hi vs → IsFilled lo' hi vs
IsFilled-lower lo lo' hi [] l f = tt
IsFilled-lower lo lo' hi (v ∷ vs) l f = let (f0, f1, f2) = f in (omega arith, f1, f2)

-- An entry that is put behind sorted ones is sorted in.
pub sort-append :
    (x : Value) (lo hi : ℕ) (vs : List Value)
    → IsFilled lo hi vs
    → has_key x.key vs ≡ false
    → x.key ≤ hi
    → sort (vs ++ x ∷ []) ≡ insert_sorted x vs
sort-append x lo hi [] f new m = refl
sort-append x lo hi (v ∷ vs) f new m =
    let new' : has_key x.key vs ≡ false = ground arith in
    rw (sort-append x (suc v.key) hi vs f.2 new' m) (elim (Bool-cases (ltb v.key x.key)) [
      | inl e ↦ rw e (
          insert_sorted_first v hi (insert_sorted x vs)
            (insert_sorted-IsFilled x (suc v.key) hi vs f.2 new' (ground arith) m))
      | inr e ↦
          let above : IsFilled (suc x.key) hi vs =
            IsFilled-lower (suc v.key) (suc x.key) hi vs (ground arith) f.2 in
          let less : ltb x.key v.key ≡ true = ground arith in
          rw (e, insert_sorted_first x hi vs above, less, insert_sorted_first v hi vs f.2) refl
    ])

pub copies-insert_sorted :
    (x : Value) (h : ℕ) (vs : List Value)
    → has_key x.key vs ≡ false
    → copies h (insert_sorted x vs)
      ≡ (if x.key == h then (x.value, x.time_stamp) ∷ [] else copies h vs)
copies-insert_sorted x h [] new = refl
copies-insert_sorted x h (v ∷ vs) new =
    ground (arith, copies-insert_sorted x h vs, copies-has_key x.key vs)
