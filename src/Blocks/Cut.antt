-- ===== src/Blocks/Cut.antt =====
-- Ascending entries that are cut in two.
use thkvs.Base.{
  ℕ, zero, suc, ◌+◌, ◌-◌, ◌≤◌, ◌<◌, ◌≡◌, refl, sym, ap, ◌∙◌, inl, inr, List, [], ◌∷◌, ◌++◌,
  Bool-cases, ◌==◌, All, length, length-append, take, arith,
}
use thkvs.Blocks.{Value, key_at, drop, sort, sort_first, insert_sorted}
use thkvs.Blocks.Filled.{IsFilled, copies}

pub key_at-lower :
    (n lo hi : ℕ) (rs : List Value) → n < length rs → IsFilled lo hi rs → lo + n ≤ key_at rs n
key_at-lower n lo hi [] l f = absurd (omega arith)
key_at-lower zero lo hi (r ∷ rs) l f = let f0 = f.0 in omega arith
key_at-lower (suc n) lo hi (r ∷ rs) l f =
    let f0 = f.0 in omega (arith, key_at-lower n (suc r.key) hi rs (omega arith) f.2)

pub key_at-upper :
    (n lo hi : ℕ) (rs : List Value)
    → n < length rs
    → IsFilled lo hi rs
    → key_at rs n + length rs ≤ suc (hi + n)
key_at-upper n lo hi [] l f = absurd (omega arith)
key_at-upper zero lo hi (r ∷ []) l f = let f1 = f.1 in omega arith
key_at-upper zero lo hi (r ∷ q ∷ rs) l f =
    omega (arith, f.2.0, key_at-upper zero (suc r.key) hi (q ∷ rs) (omega arith) f.2)
key_at-upper (suc n) lo hi (r ∷ rs) l f =
    omega (arith, key_at-upper n (suc r.key) hi rs (omega arith) f.2)

pub drop-IsFilled :
    (n lo hi : ℕ) (rs : List Value)
    → n < length rs
    → IsFilled lo hi rs
    → IsFilled (key_at rs n) hi (drop n rs)
drop-IsFilled n lo hi [] l f = absurd (omega arith)
drop-IsFilled zero lo hi (r ∷ rs) l f = (omega arith, f.1, f.2)
drop-IsFilled (suc n) lo hi (r ∷ rs) l f = drop-IsFilled n (suc r.key) hi rs (omega arith) f.2

pub take-IsFilled :
    (n lo hi : ℕ) (rs : List Value)
    → n < length rs
    → IsFilled lo hi rs
    → IsFilled lo (key_at rs n) (take n rs)
take-IsFilled zero lo hi rs l f = tt
take-IsFilled (suc n) lo hi [] l f = tt
take-IsFilled (suc n) lo hi (r ∷ rs) l f = (
  f.0,
  omega (arith, key_at-lower n (suc r.key) hi rs (omega arith) f.2),
  take-IsFilled n (suc r.key) hi rs (omega arith) f.2,
)

pub take-All {κ} : (P : Value → Type κ) (n : ℕ) (rs : List Value) → All P rs → All P (take n rs)
take-All P zero rs h = tt
take-All P (suc n) [] h = tt
take-All P (suc n) (r ∷ rs) h = (h.0, take-All P n rs h.1)

pub drop-All {κ} : (P : Value → Type κ) (n : ℕ) (rs : List Value) → All P rs → All P (drop n rs)
drop-All P zero rs h = h
drop-All P (suc n) [] h = tt
drop-All P (suc n) (r ∷ rs) h = drop-All P n rs h.1

pub length-take : (n : ℕ) (rs : List Value) → n ≤ length rs → length (take n rs) ≡ n
length-take zero rs l = refl
length-take (suc n) [] l = absurd (omega arith)
length-take (suc n) (r ∷ rs) l = ap suc (length-take n rs (omega arith))

pub length-drop : (n : ℕ) (rs : List Value) → length (drop n rs) ≡ length rs - n
length-drop zero rs = omega arith
length-drop (suc n) [] = omega arith
length-drop (suc n) (r ∷ rs) = omega (arith, length-drop n rs)

-- The entries of a hash stand in one part or the other.
pub copies-cut :
    (h n : ℕ) (rs : List Value) → copies h rs ≡ copies h (take n rs) ++ copies h (drop n rs)
copies-cut h zero rs = refl
copies-cut h (suc n) [] = refl
copies-cut h (suc n) (r ∷ rs) = elim (Bool-cases (r.key == h)) [
  | inl e ↦ rw e (ap (λ c. (r.value, r.time_stamp) ∷ c) (copies-cut h n rs))
  | inr e ↦ rw e (copies-cut h n rs)
]

-- In the front of an array.
pub take-take : (n m : ℕ) (tmp : List Value) → n ≤ m → take n (take m tmp) ≡ take n tmp
take-take zero m tmp l = refl
take-take (suc n) zero tmp l = absurd (omega arith)
take-take (suc n) (suc m) [] l = refl
take-take (suc n) (suc m) (t ∷ tmp) l = ap (λ xs. t ∷ xs) (take-take n m tmp (omega arith))

pub key_at-take : (n m : ℕ) (tmp : List Value) → n < m → key_at (take m tmp) n ≡ key_at tmp n
key_at-take n zero tmp l = absurd (omega arith)
key_at-take n (suc m) [] l = refl
key_at-take zero (suc m) (t ∷ tmp) l = refl
key_at-take (suc n) (suc m) (t ∷ tmp) l = key_at-take n m tmp (omega arith)

pub take-drop : (n : ℕ) (xs : List Value) → take n xs ++ drop n xs ≡ xs
take-drop zero xs = refl
take-drop (suc n) [] = refl
take-drop (suc n) (x ∷ xs) = ap (λ ys. x ∷ ys) (take-drop n xs)

pub length-insert_sorted :
    (x : Value) (vs : List Value) → length (insert_sorted x vs) ≡ suc (length vs)
length-insert_sorted x [] = refl
length-insert_sorted x (v ∷ vs) = ground (arith, length-insert_sorted x vs)

length-sort : (vs : List Value) → length (sort vs) ≡ length vs
length-sort [] = refl
length-sort (v ∷ vs) = length-insert_sorted v (sort vs) ∙ ap suc (length-sort vs)

pub length-sort_first : (n : ℕ) (vs : List Value) → length (sort_first n vs) ≡ length vs
length-sort_first n vs =
    length-append (sort (take n vs)) (drop n vs)
    ∙ ap (λ k. k + length (drop n vs)) (length-sort (take n vs))
    ∙ sym (length-append (take n vs) (drop n vs))
    ∙ ap length (take-drop n vs)
