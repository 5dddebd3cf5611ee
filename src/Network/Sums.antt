-- ===== src/Network/Sums.antt =====
-- Sums over the lists of a network: what one element more, less or changed does to them.
use thkvs.Base.{ℕ, zero, suc, ◌+◌, ◌≡◌, List, [], ◌∷◌, ◌++◌, some, get_elem?, modify, All, arith}
use thkvs.Network.{remove_at}

module _ {ℓ} {A : Type ℓ} where
  abbrev pub total : (A → ℕ) → List A → ℕ
  total f [] = 0
  total f (x ∷ xs) = f x + total f xs

  -- The element in place i is weighed by `v i`.
  abbrev pub total_placed : (ℕ → A → ℕ) → List A → ℕ
  total_placed v [] = 0
  total_placed v (x ∷ xs) = v 0 x + total_placed (λ i. v (suc i)) xs

  pub total-append : (f : A → ℕ) (xs ys : List A) → total f (xs ++ ys) ≡ total f xs + total f ys
  total-append f [] ys = omega arith
  total-append f (x ∷ xs) ys = omega (arith, total-append f xs ys)

  pub total-remove_at :
      (f : A → ℕ) (xs : List A) (k : ℕ) (x : A)
      → get_elem? xs k ≡ some x
      → total f xs ≡ f x + total f (remove_at k xs)
  total-remove_at f [] k x e = cc
  total-remove_at f (y ∷ ys) zero x e = ground arith
  total-remove_at f (y ∷ ys) (suc k) x e = omega (arith, total-remove_at f ys k x e)

  pub total_placed-modify :
      (v : ℕ → A → ℕ) (xs : List A) (i : ℕ) (x y : A)
      → get_elem? xs i ≡ some x
      → total_placed v (modify xs i (λ _. y)) + v i x ≡ total_placed v xs + v i y
  total_placed-modify v [] i x y e = cc
  total_placed-modify v (z ∷ zs) zero x y e = ground arith
  total_placed-modify v (z ∷ zs) (suc i) x y e =
      omega (arith, total_placed-modify (λ k. v (suc k)) zs i x y e)

  pub All-get_elem? {κ} :
      (P : A → Type κ) (xs : List A) (i : ℕ) (x : A) → All P xs → get_elem? xs i ≡ some x → P x
  All-get_elem? P [] i x h e = cc
  All-get_elem? P (y ∷ ys) zero x h e = let q : x ≡ y = cc in rw q h.0
  All-get_elem? P (y ∷ ys) (suc i) x h e = All-get_elem? P ys i x h.1 e

  pub All-modify {κ} :
      (P : A → Type κ) (xs : List A) (i : ℕ) (y : A) → All P xs → P y → All P (modify xs i (λ _. y))
  All-modify P [] i y h p = tt
  All-modify P (x ∷ xs) zero y h p = (p, h.1)
  All-modify P (x ∷ xs) (suc i) y h p = (h.0, All-modify P xs i y h.1 p)
