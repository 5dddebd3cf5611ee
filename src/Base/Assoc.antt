-- ===== src/Base/Assoc.antt =====
-- `std::unordered_map<int, V>` as an association list: `find`, `emplace`, `erase`, and a change of
-- the value under a key.
use Prim.Native.Nat.{ℕ}
use mathlib.Core.Path.{◌≡◌, refl}
use mathlib.Core.List.{List, [], ◌∷◌}
use mathlib.Core.Option.{Option, none, some}
use native.Mathlib.Omega.{arith}
use thkvs.Base.Tests.{◌==◌, if◌then◌else◌}

module _ {ℓ} {V : Type ℓ} where
  abbrev pub lookup : ℕ → List (ℕ × V) → Option V
  lookup k [] = none
  lookup k ((j, v) ∷ m) = if j == k then some v else lookup k m

  -- An entry that is there stays as it is.
  unfoldable pub emplace : ℕ → V → List (ℕ × V) → List (ℕ × V)
  emplace k v [] = (k, v) ∷ []
  emplace k v ((j, w) ∷ m) = if j == k then (j, w) ∷ m else (j, w) ∷ emplace k v m

  unfoldable pub erase : ℕ → List (ℕ × V) → List (ℕ × V)
  erase k [] = []
  erase k ((j, w) ∷ m) = if j == k then erase k m else (j, w) ∷ erase k m

  -- A write through the reference that `m[k]` returns, where the key is there.
  unfoldable pub assign : ℕ → V → List (ℕ × V) → List (ℕ × V)
  assign k v [] = []
  assign k v ((j, w) ∷ m) = if j == k then (j, v) ∷ m else (j, w) ∷ assign k v m

  -- `m[k] = v`
  unfoldable pub put_at : ℕ → V → List (ℕ × V) → List (ℕ × V)
  put_at k v [] = (k, v) ∷ []
  put_at k v ((j, w) ∷ m) = if j == k then (j, v) ∷ m else (j, w) ∷ put_at k v m

  pub lookup-emplace :
      (k j : ℕ) (v : V) (m : List (ℕ × V))
      → lookup k m ≡ none
      → lookup j (emplace k v m) ≡ (if k == j then some v else lookup j m)
  unfolding emplace
  lookup-emplace k j v [] h = refl
  lookup-emplace k j v ((i, w) ∷ m) h = ground (arith, lookup-emplace k j v m)

  pub lookup-emplace_self :
      (k : ℕ) (v w : V) (m : List (ℕ × V)) → lookup k m ≡ some w → emplace k v m ≡ m
  unfolding emplace
  lookup-emplace_self k v w [] h = ground arith
  lookup-emplace_self k v w ((i, u) ∷ m) h = ground (arith, lookup-emplace_self k v w m)

  pub lookup-erase :
      (k j : ℕ) (m : List (ℕ × V)) → lookup j (erase k m) ≡ (if k == j then none else lookup j m)
  unfolding erase
  lookup-erase k j [] = ground arith
  lookup-erase k j ((i, w) ∷ m) = ground (arith, lookup-erase k j m)

  pub lookup-assign :
      (k j : ℕ) (v w : V) (m : List (ℕ × V))
      → lookup k m ≡ some w
      → lookup j (assign k v m) ≡ (if k == j then some v else lookup j m)
  unfolding assign
  lookup-assign k j v w [] h = ground arith
  lookup-assign k j v w ((i, u) ∷ m) h = ground (arith, lookup-assign k j v w m)

  pub lookup-put_at :
      (k j : ℕ) (v : V) (m : List (ℕ × V))
      → lookup j (put_at k v m) ≡ (if k == j then some v else lookup j m)
  unfolding put_at
  lookup-put_at k j v [] = refl
  lookup-put_at k j v ((i, u) ∷ m) = ground (arith, lookup-put_at k j v m)

  pub assign-assign :
      (k : ℕ) (v w : V) (m : List (ℕ × V)) → assign k w (assign k v m) ≡ assign k w m
  unfolding assign
  assign-assign k v w [] = refl
  assign-assign k v w ((i, u) ∷ m) = ground (arith, assign-assign k v w m)

  pub erase-assign : (k : ℕ) (v : V) (m : List (ℕ × V)) → erase k (assign k v m) ≡ erase k m
  unfolding assign erase
  erase-assign k v [] = refl
  erase-assign k v ((i, u) ∷ m) = ground (arith, erase-assign k v m)

  pub erase-emplace : (k : ℕ) (v : V) (m : List (ℕ × V)) → erase k (emplace k v m) ≡ erase k m
  unfolding emplace erase
  erase-emplace k v [] = ground arith
  erase-emplace k v ((i, u) ∷ m) = ground (arith, erase-emplace k v m)

  pub erase_absent : (k : ℕ) (m : List (ℕ × V)) → lookup k m ≡ none → erase k m ≡ m
  unfolding erase
  erase_absent k [] h = refl
  erase_absent k ((i, u) ∷ m) h = ground (arith, erase_absent k m)
