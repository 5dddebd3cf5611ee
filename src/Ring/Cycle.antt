-- ===== src/Ring/Cycle.antt =====
-- src/driver.cpp, the loops that walk round the ring, beside loops along a list.
use thkvs.Base.{
  ℕ, zero, suc, ap, ◌+◌, ◌<◌, ◌≡◌, refl, List, [], ◌∷◌, ◌++◌, Bool, true, false, Option, none, some,
  length, All, if◌then◌else◌, Bool-cases, arith, inl, inr, sym, ◌∙◌,
}
use mathlib.Core.Path.{subst}
use thkvs.Ring.{NodeMap, owners, wrap, cycle}

-- The straight loop; `none` if it comes to the end with the test still true.
unfoldable pub until {ℓ} : {S : Type ℓ} → (S → Bool) → (S → ℕ → S) → S → List ℕ → Option S
until test body s [] = if test s then none else some s
until test body s (x ∷ xs) =
    let rest = until test body (body s x) xs in if test s then rest else some s

pub owners-append : (a b : NodeMap) → owners (a ++ b) ≡ owners a ++ owners b
owners-append [] b = refl
owners-append (e ∷ a) b = ground (arith, owners-append a b)

module _ {ℓ} {S : Type ℓ} (test : S → Bool) (body : S → ℕ → S) where
  cycle_stop :
      (fuel : ℕ) (m iter : NodeMap) (s : S)
      → test s ≡ false
      → cycle (suc fuel) test body m iter s ≡ some s
  unfolding cycle
  cycle_stop fuel m iter s h = rw (h, cycle)

  pub cycle_go :
      (fuel : ℕ) (m rest : NodeMap) (e : ℕ × ℕ) (s : S)
      → test s ≡ true
      → cycle (suc fuel) test body m (e ∷ rest) s
        ≡ cycle fuel test body m (wrap m rest) (body s e.1)
  unfolding cycle
  cycle_go fuel m rest e s h = rw (h, cycle)

  until_go :
      (x : ℕ) (xs : List ℕ) (s : S)
      → test s ≡ true
      → until test body s (x ∷ xs) ≡ until test body (body s x) xs
  unfolding until
  until_go x xs s h = rw h

  until_stop : (xs : List ℕ) (s : S) → test s ≡ false → until test body s xs ≡ some s
  unfolding until
  until_stop [] s h = rw h
  until_stop (x ∷ xs) s h = rw h

  until_end : (s r : S) → until test body s [] ≡ some r → (test s ≡ false)
  unfolding until
  until_end s r h = ground arith

  -- One pass over the nodes from `iter` to the end.
  cycle-until_lap :
      (fuel : ℕ) (m iter : NodeMap) (s r : S)
      → length iter < fuel
      → until test body s (owners iter) ≡ some r
      → cycle fuel test body m iter s ≡ some r
  cycle-until_lap zero m iter s r f h = absurd (omega arith)
  cycle-until_lap (suc fuel) m [] s r f h =
      let e = until_end s r h in cycle_stop fuel m [] s e ∙ sym (until_stop [] s e) ∙ h
  cycle-until_lap (suc fuel) m (x ∷ rest) s r f h = elim (Bool-cases (test s)) [
    | inr e ↦ cycle_stop fuel m (x ∷ rest) s e ∙ sym (until_stop (owners (x ∷ rest)) s e) ∙ h
    | inl e ↦
        cycle_go fuel m rest x s e
        ∙ wrapped rest fuel (omega arith) (sym (until_go x.1 (owners rest) s e) ∙ h)
            (cycle-until_lap fuel m rest (body s x.1) r (omega arith))
  ]
    where
      wrapped :
          (xs : NodeMap) (g : ℕ)
          → 0 < g
          → until test body (body s x.1) (owners xs) ≡ some r
          → (until test body (body s x.1) (owners xs) ≡ some r
              → cycle g test body m xs (body s x.1) ≡ some r)
          → cycle g test body m (wrap m xs) (body s x.1) ≡ some r
      wrapped (y ∷ ys) g p k ih = ih k
      wrapped [] zero p k ih = absurd (omega arith)
      wrapped [] (suc g) p k ih =
          let e' = until_end (body s x.1) r k in
          cycle_stop g m m (body s x.1) e' ∙ sym (until_stop [] (body s x.1) e') ∙ k

  -- The loop ends, after the rest of the lap and a whole one at most, where the straight loop does.
  pub cycle-until :
      (fuel : ℕ) (m iter : NodeMap) (s r : S)
      → length iter + length m < fuel
      → until test body s (owners iter ++ owners m) ≡ some r
      → cycle fuel test body m (wrap m iter) s ≡ some r
  cycle-until fuel m [] s r f h = cycle-until_lap fuel m m s r (omega arith) h
  cycle-until zero m iter s r f h = absurd (omega arith)
  cycle-until (suc fuel) m (x ∷ rest) s r f h = elim (Bool-cases (test s)) [
    | inr e ↦
        cycle_stop fuel m (x ∷ rest) s e ∙ sym (until_stop (owners (x ∷ rest) ++ owners m) s e) ∙ h
    | inl e ↦
        cycle_go fuel m rest x s e
        ∙ cycle-until fuel m rest (body s x.1) r (omega arith)
            (sym (until_go x.1 (owners rest ++ owners m) s e) ∙ h)
  ]

-- A loop that keeps more than the test reads runs like the loop over what the test reads.
module _ {ℓ κ} {S : Type ℓ} {T : Type κ} (f : S → T) (test : T → Bool) (body : S → ℕ → S)
    (body' : T → ℕ → T) (keeps : (s : S) (x : ℕ) → f (body s x) ≡ body' (f s) x) where
  pub until-map :
      (s : S) (xs : List ℕ) (t : T)
      → until test body' (f s) xs ≡ some t
      → (r : S) × (until (λ s. test (f s)) body s xs ≡ some r) × (f r ≡ t)
  unfolding until
  until-map s [] t h = elim (Bool-cases (test (f s))) [
    | inl e ↦ absurd (ground arith)
    | inr e ↦ (s, ground arith, ground arith)
  ]
  until-map s (x ∷ xs) t h = elim (Bool-cases (test (f s))) [
    | inr e ↦ (s, ground arith, ground arith)
    | inl e ↦
        let h' : until test body' (f (body s x)) xs ≡ some t =
          ap (λ y. until test body' y xs) (keeps s x)
          ∙ sym (until_go test body' x xs (f s) e)
          ∙ h in
        let (r, run, q) = until-map (body s x) xs t h' in
        (r, until_go (λ s. test (f s)) body x xs s e ∙ run, q)
  ]

-- What the body keeps, at owners of this kind, holds at the end.
pub until_inv {ℓ κ ν} :
    {S : Type ℓ} (P : S → Type κ) (Q : ℕ → Type ν) (test : S → Bool) (body : S → ℕ → S)
    → ((s : S) (x : ℕ) → Q x → P s → P (body s x))
    → (s r : S) (xs : List ℕ) → All Q xs
    → P s
    → until test body s xs ≡ some r
    → P r
unfolding until
until_inv P Q test body keep s r [] a p h = elim (Bool-cases (test s)) [
  | inl e ↦ absurd (ground arith)
  | inr e ↦ subst P (ground arith) p
]
until_inv P Q test body keep s r (x ∷ xs) a p h = elim (Bool-cases (test s)) [
  | inr e ↦ subst P (ground arith) p
  | inl e ↦
      until_inv P Q test body keep (body s x) r xs a.1 (keep s x a.0 p)
        (sym (until_go test body x xs s e) ∙ h)
]
