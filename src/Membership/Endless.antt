-- ===== src/Membership/Endless.antt =====
-- src/driver.cpp, the loop over the successors in `addServer` and `removeServer`, on a small ring.
use thkvs.Base.{
  ℕ, zero, suc, ◌≤◌, ◌≡◌, refl, sym, ap, ◌∙◌, inl, inr, List, [], ◌∷◌, ◌++◌, true, false, none,
  elem, length, ◌==◌, Bool-cases, arith,
}
use thkvs.Membership.{wants_more, visit_successor}
use thkvs.Ring.{NodeMap, owners, wrap, cycle}
use thkvs.Ring.Cycle.{cycle_go, owners-append}
use thkvs.Ring.Count.{pigeonhole}
use thkvs.Ring.Distinct.{
  add_new, add_all, IsDistinct, elem-append, elem-add_new, elem-add_all, add_new-IsDistinct,
}

-- Every host of the first list is one of the second.
abbrev Among : List ℕ → List ℕ → Type 0
Among xs ys = (j : ℕ) → elem j xs ≡ true → elem j ys ≡ true

module _ (host : ℕ) (m : NodeMap) (on_ring : elem host (owners m) ≡ true)
    (few : length (add_all [] (owners m)) ≤ 3) where
  few_hosts : (hosts : List ℕ) → IsDistinct hosts → Among hosts (owners m) → length hosts ≤ 3
  few_hosts hosts d sub = omega (
    arith,
    few,
    pigeonhole hosts (add_all [] (owners m)) d (λ j h. elem-add_all j [] (owners m) ∙ sub j h),
  )

  never_enough :
      (succ : List ℕ)
      → IsDistinct succ
      → Among succ (owners m)
      → wants_more (succ, elem host succ) ≡ true
  never_enough succ d sub = elim (Bool-cases (elem host succ)) [
    | inl e ↦ rw e (ground (arith, few_hosts succ d sub))
    | inr e ↦
        let l : length (host ∷ succ) ≤ 3 =
          few_hosts (host ∷ succ) (e, d)
            (λ j h. elim (Bool-cases (host == j)) [
              | inl same ↦
                  let p : host ≡ j = ground arith in ap (λ i. elem i (owners m)) (sym p) ∙ on_ring
              | inr other ↦ sub j (ground arith)
            ]) in
        rw e (ground arith)
  ]

  wrap-Among : (xs : NodeMap) → Among (owners xs) (owners m) → Among (owners (wrap m xs)) (owners m)
  wrap-Among [] a = λ j h. h
  wrap-Among (y ∷ ys) a = a

  endless_from :
      (fuel : ℕ) (iter : NodeMap) (succ : List ℕ)
      → IsDistinct succ
      → Among succ (owners m)
      → Among (owners iter) (owners m)
      → cycle fuel wants_more (visit_successor host) m iter (succ, elem host succ) ≡ none
  unfolding cycle visit_successor
  endless_from zero iter succ d sub on = refl
  endless_from (suc fuel) [] succ d sub on = rw (never_enough succ d sub, cycle) refl
  endless_from (suc fuel) ((k, x) ∷ rest) succ d sub on =
      cycle_go wants_more (visit_successor host) fuel m rest (k, x) (succ, elem host succ)
        (never_enough succ d sub)
      ∙ ap (λ b. cycle fuel wants_more (visit_successor host) m (wrap m rest) (add_new succ x, b))
          (sym (elem-add_new host x succ))
      ∙ endless_from fuel (wrap m rest) (add_new succ x) (add_new-IsDistinct succ x d)
          (λ j h. elim (Bool-cases (x == j)) [
            | inl e ↦
                let p : x ≡ j = ground arith in
                ap (λ i. elem i (owners m)) (sym p) ∙ on x (ground arith)
            | inr e ↦ sub j (ground (arith, elem-add_new j x succ, h))
          ])
          (wrap-Among rest (λ j h. on j (ground arith)))

  -- If at most three servers own a node, and the server in question is one of them, then the loop
  -- that looks for the successors of an arc does not end, whatever the fuel: it waits for a fourth.
  pub successors_endless :
      (pre rest : NodeMap)
      → m ≡ pre ++ rest
      → (fuel : ℕ) → cycle fuel wants_more (visit_successor host) m (wrap m rest) ([], false) ≡ none
  successors_endless pre rest cut fuel =
      endless_from fuel (wrap m rest) [] tt (λ j h. cc)
        (wrap-Among rest (λ j h. ground (
          arith,
          ap (elem j) (ap owners cut ∙ owners-append pre rest),
          elem-append j (owners pre) (owners rest),
        )))
