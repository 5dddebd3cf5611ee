-- ===== src/Membership/Around.antt =====
-- src/driver.cpp, the loops over the arcs in `addServer` and `removeServer`: an arc, and the hosts
-- past it.
use mathlib.Core.Path.{subst}
use thkvs.Base.{
  ℕ, zero, suc, ◌≤◌, ◌<◌, ◌≡◌, refl, sym, ap, ◌∙◌, inl, inr, List, [], ◌∷◌, ◌++◌, true, false, some,
  All, elem, length, length-append, take, get_elem?, ◌==◌, Bool-cases, arith,
}
use thkvs.Membership.{successors, last, first_key}
use thkvs.Membership.Successors.{picked, successors-picked, elem-take-true}
use thkvs.Ring.{NodeMap, owners, upper_bound, wrap}
use thkvs.Ring.Count.{length-clockwise}
use thkvs.Ring.Distinct.{add_all, IsDistinct}
use thkvs.Ring.Sorted.{Above, IsSorted}
use thkvs.Ring.Succession.{clockwise, upper_bound_arc}

-- The last of the first `n + 1` different hosts is the one that is not among the first `n`.
pub last_picked :
    (n : ℕ) (ds : List ℕ)
    → n < length ds
    → IsDistinct ds
    → (s : ℕ) × (last (take (suc n) ds) ≡ some s)
      × (elem s (take (suc n) ds) ≡ true)
      × (elem s (take n ds) ≡ false)
last_picked n [] l d = absurd (omega arith)
last_picked zero (x ∷ ds) l d = (x, refl, ground arith, refl)
last_picked (suc n) (x ∷ []) l d = absurd (omega arith)
last_picked (suc n) (x ∷ y ∷ ds) l d =
    let (s, a, b, c) = last_picked n (y ∷ ds) (omega arith) d.1 in
    let apart : (x == s) ≡ false = ne s (elem-take-true (suc n) s (y ∷ ds) b) in
    (s, a, ground arith, ground arith)
  where
    ne : (s : ℕ) → elem s (y ∷ ds) ≡ true → (x == s) ≡ false
    ne s b = elim (Bool-cases (x == s)) [
      | inr e ↦ e
      | inl e ↦
          let same : x ≡ s = ground arith in absurd (cc (d.0, b, ap (λ j. elem j (y ∷ ds)) same))
    ]

pub get_elem?-some :
    {A : Type 0} (xs : List A) (i : ℕ) → i < length xs → (x : A) × (get_elem? xs i ≡ some x)
get_elem?-some [] i l = absurd (omega arith)
get_elem?-some (x ∷ xs) zero l = (x, refl)
get_elem?-some (x ∷ xs) (suc i) l = get_elem?-some xs i (omega arith)

pub elem-All : (n s : ℕ) (xs : List ℕ) → All (λ i. i < n) xs → elem s xs ≡ true → s < n
elem-All n s [] a e = cc
elem-All n s (x ∷ xs) a e = elim (Bool-cases (x == s)) [
  | inl same ↦ let p : x ≡ s = ground arith in omega (arith, p, a.0)
  | inr other ↦ elem-All n s xs a.1 (ground arith)
]

-- `h` is a hash of the arc from a node up to the next one, with which `rest` begins.
pub record Arc (m : NodeMap) (rest : NodeMap) (h : ℕ) : Type 0 where
  pub pre : NodeMap
  pub first : ℕ
  pub owner : ℕ
  pub cut : m ≡ pre ++ (first, owner) ∷ rest
  pub from : first ≤ h
  pub to : Above h rest

Arc-upper_bound : (m rest : NodeMap) (h : ℕ) → IsSorted m → Arc m rest h → upper_bound h m ≡ rest
Arc-upper_bound m rest h s a =
    ap (upper_bound h) a.cut
    ∙ upper_bound_arc a.pre a.first a.owner h rest (subst IsSorted a.cut s) a.from a.to

length-Arc : (m rest : NodeMap) (h : ℕ) → Arc m rest h → length rest ≤ length m
length-Arc m rest h a =
    omega (arith, ap length a.cut, length-append a.pre ((a.first, a.owner) ∷ rest))

-- The loop over the successors of an arc, on a ring with four servers.
pub successors-Arc :
    (host : ℕ) (m rest : NodeMap) (h : ℕ)
    → IsSorted m
    → Arc m rest h
    → 4 ≤ length (add_all [] (owners m))
    → successors host m (wrap m rest) ≡ some (picked host (add_all [] (clockwise h m)))
successors-Arc host m rest h sorted arc enough =
    let past : upper_bound h m ≡ rest = Arc-upper_bound m rest h sorted arc in
    let same : add_all [] (clockwise h m) ≡ add_all [] (owners rest ++ owners m) =
      unfold clockwise in ap (λ r. add_all [] (owners r ++ owners m)) past in
    let met : 4 ≤ length (add_all [] (clockwise h m)) =
      omega (arith, enough, length-clockwise h m) in
    successors-picked host m rest (length-Arc m rest h arc) (subst (λ ds. 4 ≤ length ds) same met)
    ∙ ap (λ ds. some (picked host ds)) (sym same)

IsSorted-tail : (x : ℕ × ℕ) (m : NodeMap) → IsSorted (x ∷ m) → IsSorted m
IsSorted-tail x [] s = tt
IsSorted-tail x (y ∷ m) s = s.1

Above-rest :
    (pre : NodeMap) (k i : ℕ) (rest : NodeMap) → IsSorted (pre ++ (k, i) ∷ rest) → Above k rest
Above-rest [] k i rest s = s
Above-rest (x ∷ pre) k i rest s = Above-rest pre k i rest (IsSorted-tail x (pre ++ (k, i) ∷ rest) s)

-- There is an end to each arc.
pub arc_end :
    (pre : NodeMap) (x : ℕ × ℕ) (rest m : NodeMap)
    → m ≡ pre ++ x ∷ rest
    → (h : ℕ) × (first_key (wrap m rest) ≡ some h)
arc_end pre x (y ∷ rest) m e = (y.0, refl)
arc_end [] x [] m e = (x.0, ap first_key e)
arc_end (z ∷ pre) x [] m e = (z.0, ap first_key e)

-- The arc that begins at a node.
pub arc_at :
    (pre : NodeMap) (k i : ℕ) (rest m : NodeMap)
    → m ≡ pre ++ (k, i) ∷ rest
    → IsSorted m
    → Arc m rest k
arc_at pre k i rest m cut s = record {
  pre = pre;
  first = k;
  owner = i;
  cut = cut;
  from = omega arith;
  to = Above-rest pre k i rest (subst IsSorted cut s);
}
