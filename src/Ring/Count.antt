-- ===== src/Ring/Count.antt =====
-- src/driver.cpp, how many different hosts own a node of the ring.
use thkvs.Base.{
  ℕ, zero, suc, ◌+◌, ◌≤◌, ◌<◌, inl, inr, Bool-cases, All, All-append, take, ◌≡◌, ◌≢◌, sym, ap, ◌∙◌,
  List, [], ◌∷◌, ◌++◌, true, elem, length, Text, arith,
}
use thkvs.Ring.{NodeMap, owners, upper_bound, count, emplace_sorted, add_node, add_nodes}
use thkvs.Ring.Distinct.{
  add_all, IsDistinct, add_all-IsDistinct, elem-add_all, elem-append, add_new, first_hosts,
}
use thkvs.Ring.Sorted.{OwnersBelow, add_nodes_inv}
use thkvs.Ring.Succession.{clockwise, drop_host, replicas}

length-drop_host_le : (n : ℕ) (xs : List ℕ) → length (drop_host n xs) ≤ length xs
unfolding drop_host
length-drop_host_le n [] = omega arith
length-drop_host_le n (x ∷ xs) = ground (arith, length-drop_host_le n xs)

length-drop_host :
    (n : ℕ) (xs : List ℕ) → elem n xs ≡ true → length (drop_host n xs) + 1 ≤ length xs
unfolding drop_host
length-drop_host n [] h = ground arith
length-drop_host n (x ∷ xs) h = ground (arith, length-drop_host n xs, length-drop_host_le n xs)

elem-drop_host_ne :
    (n j : ℕ) (xs : List ℕ) → j ≢ n → elem j xs ≡ true → elem j (drop_host n xs) ≡ true
unfolding drop_host
elem-drop_host_ne n j [] d h = ground arith
elem-drop_host_ne n j (x ∷ xs) d h = ground (arith, elem-drop_host_ne n j xs d)

-- Different hosts that all stand in a list are no more than the list is long.
pub pigeonhole :
    (xs ys : List ℕ)
    → IsDistinct xs
    → ((i : ℕ) → elem i xs ≡ true → elem i ys ≡ true)
    → length xs ≤ length ys
pigeonhole [] ys d sub = omega arith
pigeonhole (x ∷ xs) ys d sub = omega (
  arith,
  length-drop_host x ys (sub x (ground arith)),
  pigeonhole xs (drop_host x ys) d.1 (λ i h.
      elem-drop_host_ne x i ys (λ e. ground (arith, d.0, h, ap (λ j. elem j xs) e))
        (sub i (ground arith))),
)

-- From any hash on the ring as many hosts are met as there are on it.
pub length-clockwise :
    (k : ℕ) (m : NodeMap) → length (add_all [] (owners m)) ≤ length (add_all [] (clockwise k m))
unfolding clockwise
length-clockwise k m =
    pigeonhole (add_all [] (owners m)) (add_all [] (owners (upper_bound k m) ++ owners m))
      (add_all-IsDistinct [] (owners m) tt)
      (λ i h. ground (
        arith,
        elem-add_all i [] (owners m),
        elem-add_all i [] (owners (upper_bound k m) ++ owners m),
        elem-append i (owners (upper_bound k m)) (owners m),
      ))

pub length-upper_bound : (k : ℕ) (m : NodeMap) → length (upper_bound k m) ≤ length m
unfolding upper_bound
length-upper_bound k [] = omega arith
length-upper_bound k (e ∷ m) = ground (arith, length-upper_bound k m)

All-add_all :
    (n : ℕ) (hosts xs : List ℕ)
    → All (λ i. i < n) hosts
    → All (λ i. i < n) xs
    → All (λ i. i < n) (add_all hosts xs)
unfolding add_all add_new
All-add_all n hosts [] h a = h
All-add_all n hosts (x ∷ xs) h a = elim (Bool-cases (elem x hosts)) [
  | inl e ↦ rw e (All-add_all n hosts xs h a.1)
  | inr e ↦
      rw e (
        All-add_all n (hosts ++ x ∷ []) xs (All-append (λ i. i < n) hosts (x ∷ []) h (a.0, tt)) a.1)
]

All-take : (n k : ℕ) (xs : List ℕ) → All (λ i. i < n) xs → All (λ i. i < n) (take k xs)
All-take n zero xs a = tt
All-take n (suc k) [] a = tt
All-take n (suc k) (x ∷ xs) a = (a.0, All-take n k xs a.1)

upper_bound-below : (n k : ℕ) (m : NodeMap) → OwnersBelow n m → OwnersBelow n (upper_bound k m)
unfolding upper_bound
upper_bound-below n k [] o = tt
upper_bound-below n k ((j, i) ∷ m) o = ground (arith, upper_bound-below n k m o.1)

pub clockwise-below : (n k : ℕ) (m : NodeMap) → OwnersBelow n m → All (λ i. i < n) (clockwise k m)
unfolding clockwise
clockwise-below n k m o =
    All-append (λ i. i < n) (owners (upper_bound k m)) (owners m) (upper_bound-below n k m o) o

-- The hosts past a hash are indices of the host list.
pub All-order :
    (n k : ℕ) (m : NodeMap) → OwnersBelow n m → All (λ i. i < n) (add_all [] (clockwise k m))
unfolding clockwise
All-order n k m o =
    All-add_all n [] (owners (upper_bound k m) ++ owners m) tt (clockwise-below n k m o)

pub replicas-below :
    (n copies k : ℕ) (m : NodeMap) → OwnersBelow n m → All (λ i. i < n) (replicas copies k m)
unfolding replicas first_hosts
replicas-below n copies k m o = All-take n copies (add_all [] (clockwise k m)) (All-order n k m o)

elem-emplace :
    (j h n : ℕ) (m : NodeMap)
    → elem j (owners m) ≡ true
    → elem j (owners (emplace_sorted h n m)) ≡ true
unfolding emplace_sorted
elem-emplace j h n [] e = cc
elem-emplace j h n ((k, i) ∷ m) e = ground (arith, elem-emplace j h n m)

elem-add_node :
    (j h n : ℕ) (m : NodeMap) → elem j (owners m) ≡ true → elem j (owners (add_node h n m)) ≡ true
unfolding add_node
elem-add_node j h n m e = elim (Bool-cases (count h m)) [
  | inl t ↦ rw (t, add_node) e
  | inr f ↦ rw (f, add_node) (elem-emplace j h n m e)
]

-- As many different hosts own a node with a new server's nodes as without.
pub length-add_nodes :
    (hostname : Text) (n : ℕ) (m : NodeMap)
    → length (add_all [] (owners m)) ≤ length (add_all [] (owners (add_nodes hostname n m)))
length-add_nodes hostname n m =
    let kept =
      add_nodes_inv (λ m'. (j : ℕ) → elem j (owners m) ≡ true → elem j (owners m') ≡ true) hostname
        n m (λ h m' keep j e. elem-add_node j h n m' (keep j e)) (λ j e. e) in
    pigeonhole (add_all [] (owners m)) (add_all [] (owners (add_nodes hostname n m)))
      (add_all-IsDistinct [] (owners m) tt)
      (λ i h.
        elem-add_all i [] (owners (add_nodes hostname n m))
        ∙ kept i (sym (elem-add_all i [] (owners m)) ∙ h))
