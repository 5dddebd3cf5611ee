-- ===== src/Membership/Successors.antt =====
-- src/driver.cpp, the loop over the successors of an arc in `addServer` and `removeServer`.
use mathlib.Core.List.{append-nil}
use thkvs.Base.{
  ℕ, zero, suc, ◌+◌, ◌≤◌, ◌≡◌, refl, sym, ap, ◌∙◌, ◌⊎◌, inl, inr, List, [], ◌∷◌, ◌++◌, Bool, true,
  false, some, elem, length, length-append, take, ltb, Bool-cases, arith,
}
use thkvs.Membership.{to_nat, wants_more, visit_successor, successors}
use thkvs.Ring.{NodeMap, owners, wrap, laps}
use thkvs.Ring.Cycle.{until, cycle-until}
use thkvs.Ring.Distinct.{add_new, add_all, elem-add_new, add_all-prefix}

-- The result, from all the different hosts in their order.
abbrev pub picked : ℕ → List ℕ → List ℕ × Bool
picked host ds = let near = elem host (take 3 ds) in (take (3 + to_nat near) ds, near)

take-append_le : (n : ℕ) (xs ys : List ℕ) → n ≤ length xs → take n (xs ++ ys) ≡ take n xs
take-append_le zero xs ys h = refl
take-append_le (suc n) [] ys h = absurd (omega arith)
take-append_le (suc n) (x ∷ xs) ys h = ap (◌∷◌ x) (take-append_le n xs ys (omega arith))

take_all : (xs : List ℕ) (n : ℕ) → length xs ≡ n → take n xs ≡ xs
take_all [] zero e = refl
take_all [] (suc n) e = absurd (omega arith)
take_all (x ∷ xs) zero e = absurd (omega arith)
take_all (x ∷ xs) (suc n) e = ap (◌∷◌ x) (take_all xs n (omega arith))

pub elem-take-true : (n j : ℕ) (xs : List ℕ) → elem j (take n xs) ≡ true → elem j xs ≡ true
elem-take-true zero j xs h = cc
elem-take-true (suc n) j [] h = cc
elem-take-true (suc n) j (x ∷ xs) h = ground (arith, elem-take-true n j xs)

-- The loop stops at three hosts unless `host` is among them, so a fourth comes behind it.
abbrev Reached : ℕ → List ℕ → Type 0
Reached host succ = (length succ ≤ 3) ⊎ ((length succ ≡ 4) × (elem host (take 3 succ) ≡ true))

module _ (host : ℕ) (succ : List ℕ) where
  elem-take_three : length succ ≡ 3 → elem host (take 3 succ) ≡ elem host succ
  elem-take_three e = ap (elem host) (take_all succ 3 e)

  step-Reached :
      (x : ℕ)
      → Reached host succ
      → wants_more (succ, elem host succ) ≡ true
      → Reached host (add_new succ x)
  unfolding add_new
  step-Reached x r w = elim (Bool-cases (elem x succ)) [ inl e ↦ rw e r | inr e ↦ rw e (longer r) ]
    where
      longer : Reached host succ → Reached host (succ ++ x ∷ [])
      longer (inr (l, near)) = absurd (ground arith)
      longer (inl l) = elim (Bool-cases (ltb (length succ) 3)) [
        | inl small ↦ inl (ground (arith, length-append succ (x ∷ [])))
        | inr full ↦
            let three : length succ ≡ 3 = ground arith in
            let near : elem host succ ≡ true = ground arith in
            inr (
              omega (arith, length-append succ (x ∷ [])),
              ap (elem host) (take-append_le 3 succ (x ∷ []) (omega arith))
                  ∙ elem-take_three three
                  ∙ near,
            )
      ]

  -- Where the test fails, the hosts so far are the result.
  stop-picked :
      (more : List ℕ)
      → Reached host succ
      → wants_more (succ, elem host succ) ≡ false
      → picked host (succ ++ more) ≡ (succ, elem host succ)
  stop-picked more r w = elim r [
    | inl l ↦
        let far : elem host succ ≡ false = ground arith in
        let three : length succ ≡ 3 = ground arith in
        let same = take-append_le 3 succ more (omega arith) in
        at false far (ap (elem host) same ∙ elem-take_three three ∙ far)
          (same ∙ take_all succ 3 three)
    | inr (l, near) ↦
        at true (elem-take-true 3 host succ near)
          (ap (elem host) (take-append_le 3 succ more (omega arith)) ∙ near)
          (take-append_le 4 succ more (omega arith) ∙ take_all succ 4 l)
  ]
    where
      at :
          (b : Bool)
          → elem host succ ≡ b
          → elem host (take 3 (succ ++ more)) ≡ b
          → take (3 + to_nat b) (succ ++ more) ≡ succ
          → picked host (succ ++ more) ≡ (succ, elem host succ)
      at b e e' t = rw (e', e, t)

until-picked :
    (host : ℕ) (succ xs : List ℕ)
    → Reached host succ
    → 4 ≤ length (add_all succ xs)
    → until wants_more (visit_successor host) (succ, elem host succ) xs
      ≡ some (picked host (add_all succ xs))
unfolding until visit_successor
until-picked host succ [] r enough =
    let long : 4 ≤ length succ = unfold add_all in enough in
    let over : wants_more (succ, elem host succ) ≡ false = full r long in
    rw (over, until)
      (ap some (
        sym (stop-picked host succ [] r over)
        ∙ ap (picked host) (append-nil succ)
        ∙ unfold add_all in refl))
  where
    full : Reached host succ → 4 ≤ length succ → wants_more (succ, elem host succ) ≡ false
    full (inl l) h = absurd (omega arith)
    full (inr (l, near)) h = ground arith
until-picked host succ (x ∷ xs) r enough = elim (Bool-cases (wants_more (succ, elem host succ))) [
  | inl w ↦
      let go =
        until-picked host (add_new succ x) xs (step-Reached host succ x r w)
          (unfold add_all in enough) in
      rw (w, until, ← elem-add_new host x succ) (go ∙ unfold add_all in refl)
  | inr w ↦
      let (more, p) = add_all-prefix succ (x ∷ xs) in
      rw (w, until) (ap some (sym (stop-picked host succ more r w) ∙ ap (picked host) (sym p)))
]

-- With four different hosts past the arc, the loop ends with the first three of them, or with the
-- first four if `host` is among those three, and says which.
pub successors-picked :
    (host : ℕ) (m jter : NodeMap)
    → length jter ≤ length m
    → 4 ≤ length (add_all [] (owners jter ++ owners m))
    → successors host m (wrap m jter) ≡ some (picked host (add_all [] (owners jter ++ owners m)))
unfolding successors
successors-picked host m jter l enough =
    cycle-until wants_more (visit_successor host) (laps m) m jter ([], false)
      (picked host (add_all [] (owners jter ++ owners m))) (omega arith)
      (until-picked host [] (owners jter ++ owners m) (inl (omega arith)) enough)
