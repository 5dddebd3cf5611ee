-- ===== src/Ring/Succession.antt =====
-- src/driver.cpp, the replicas of a key on the ring, before and after a server joins.
use thkvs.Base.{
  ℕ, zero, suc, ◌≤◌, ◌<◌, ◌≡◌, ◌≢◌, refl, sym, ap, ◌∙◌, ◌⊎◌, inl, inr, List, [], ◌∷◌, ◌++◌, true,
  false, elem, length, take, ◌==◌, if◌then◌else◌, Bool-cases, Text, arith,
}
use mathlib.Core.List.{append-nil}
use thkvs.Ring.{NodeMap, owners, count, emplace_sorted, upper_bound, add_node, add_nodes}
use thkvs.Ring.Distinct.{add_new, add_all, first_hosts, IsDistinct, add_all-IsDistinct}
use thkvs.Ring.Sorted.{Above, IsSorted, OwnersBelow, add_nodes_inv}

-- The hosts from the first node past the hash `k`, once round and back there.
unfoldable pub clockwise : ℕ → NodeMap → List ℕ
clockwise k m = owners (upper_bound k m) ++ owners m

-- The `n` hosts that keep a key of hash `k`.
unfoldable pub replicas : ℕ → ℕ → NodeMap → List ℕ
unfolding clockwise
replicas n k m = first_hosts n (clockwise k m)

unfoldable pub drop_host : ℕ → List ℕ → List ℕ
drop_host n [] = []
drop_host n (x ∷ xs) = if x == n then drop_host n xs else x ∷ drop_host n xs

drop_host-append :
    (n : ℕ) (xs ys : List ℕ) → drop_host n (xs ++ ys) ≡ drop_host n xs ++ drop_host n ys
unfolding drop_host
drop_host-append n [] ys = refl
drop_host-append n (x ∷ xs) ys = ground (arith, drop_host-append n xs ys)

pub drop_host_absent : (n : ℕ) (xs : List ℕ) → elem n xs ≡ false → drop_host n xs ≡ xs
unfolding drop_host
drop_host_absent n [] h = refl
drop_host_absent n (x ∷ xs) h = ground (arith, drop_host_absent n xs)

pub elem-drop_host : (n j : ℕ) (xs : List ℕ) → j ≢ n → elem j (drop_host n xs) ≡ elem j xs
unfolding drop_host
elem-drop_host n j [] h = refl
elem-drop_host n j (x ∷ xs) h = ground (arith, elem-drop_host n j xs h)

-- Choosing from the list without a host is choosing, and then leaving the host out.
drop_host-add_new :
    (n x : ℕ) (hosts : List ℕ)
    → drop_host n (add_new hosts x)
      ≡ (if x == n then drop_host n hosts else add_new (drop_host n hosts) x)
unfolding add_new drop_host
drop_host-add_new n x hosts = ground (
  arith,
  drop_host-append n hosts (x ∷ []),
  elem-drop_host n x hosts,
  append-nil (drop_host n hosts),
)

add_all-drop_host :
    (n : ℕ) (hosts xs : List ℕ)
    → add_all (drop_host n hosts) (drop_host n xs) ≡ drop_host n (add_all hosts xs)
unfolding add_all drop_host
add_all-drop_host n hosts [] = refl
add_all-drop_host n hosts (x ∷ xs) = elim (Bool-cases (x == n)) [
  | inl e ↦
      rw (e, drop_host)
        (ap (λ h. add_all h (drop_host n xs)) (same e) ∙ add_all-drop_host n (add_new hosts x) xs)
  | inr e ↦
      rw (e, drop_host)
        (ap (λ h. add_all h (drop_host n xs)) (other e) ∙ add_all-drop_host n (add_new hosts x) xs)
]
  where
    same : (x == n) ≡ true → drop_host n hosts ≡ drop_host n (add_new hosts x)
    same e = ground (arith, drop_host-add_new n x hosts)

    other : (x == n) ≡ false → add_new (drop_host n hosts) x ≡ drop_host n (add_new hosts x)
    other e = ground (arith, drop_host-add_new n x hosts)

owners-emplace :
    (h n : ℕ) (m : NodeMap) → drop_host n (owners (emplace_sorted h n m)) ≡ drop_host n (owners m)
unfolding emplace_sorted drop_host
owners-emplace h n [] = ground arith
owners-emplace h n ((j, w) ∷ m) = ground (arith, owners-emplace h n m)

upper_bound-emplace :
    (k h n : ℕ) (m : NodeMap)
    → drop_host n (owners (upper_bound k (emplace_sorted h n m)))
      ≡ drop_host n (owners (upper_bound k m))
unfolding emplace_sorted upper_bound drop_host
upper_bound-emplace k h n [] = ground arith
upper_bound-emplace k h n ((j, w) ∷ m) =
    ground (arith, upper_bound-emplace k h n m, owners-emplace h n m)

-- Without the host `n` the ring looks the same from every hash.
abbrev SameWithout : ℕ → NodeMap → NodeMap → Type 0
SameWithout n m m' =
    (k : ℕ)
    → (drop_host n (owners m') ≡ drop_host n (owners m))
      × (drop_host n (owners (upper_bound k m')) ≡ drop_host n (owners (upper_bound k m)))

SameWithout-add_node :
    (n h : ℕ) (m m' : NodeMap) → SameWithout n m m' → SameWithout n m (add_node h n m')
unfolding add_node
SameWithout-add_node n h m m' s k = elim (Bool-cases (count h m')) [
  | inl e ↦ rw (e, add_node) (s k)
  | inr e ↦
      rw (e, add_node) (owners-emplace h n m' ∙ (s k).0, upper_bound-emplace k h n m' ∙ (s k).1)
]

elem-OwnersBelow : (n : ℕ) (m : NodeMap) → OwnersBelow n m → elem n (owners m) ≡ false
elem-OwnersBelow n [] o = refl
elem-OwnersBelow n ((k, i) ∷ m) o = ground (arith, elem-OwnersBelow n m o.1)

upper_bound-OwnersBelow :
    (k n : ℕ) (m : NodeMap) → OwnersBelow n m → OwnersBelow n (upper_bound k m)
unfolding upper_bound
upper_bound-OwnersBelow k n [] o = tt
upper_bound-OwnersBelow k n ((j, i) ∷ m) o = ground (arith, upper_bound-OwnersBelow k n m o.1)

-- The order of the old hosts round the ring is not changed by a new one.
pub clockwise-add_nodes :
    (hostname : Text) (n k : ℕ) (m : NodeMap)
    → OwnersBelow n m
    → drop_host n (clockwise k (add_nodes hostname n m)) ≡ clockwise k m
unfolding clockwise
clockwise-add_nodes hostname n k m o =
    let same =
      add_nodes_inv (SameWithout n m) hostname n m (λ h m'. SameWithout-add_node n h m m')
        (λ k. (refl, refl)) k in
    let all : drop_host n (owners m) ≡ owners m =
      drop_host_absent n (owners m) (elem-OwnersBelow n m o) in
    let past : drop_host n (owners (upper_bound k m)) ≡ owners (upper_bound k m) =
      drop_host_absent n (owners (upper_bound k m))
        (elem-OwnersBelow n (upper_bound k m) (upper_bound-OwnersBelow k n m o)) in
    rw (drop_host-append, same.1, same.0, all, past)

pub take_same :
    (n k : ℕ) (xs : List ℕ)
    → elem n (take k xs) ≡ false
    → k ≤ length xs
    → take k (drop_host n xs) ≡ take k xs
unfolding drop_host
take_same n zero xs h l = refl
take_same n (suc k) [] h l = absurd (omega arith)
take_same n (suc k) (x ∷ xs) h l = ground (arith, take_same n k xs)

elem-take_absent : (n k : ℕ) (xs : List ℕ) → elem n xs ≡ false → elem n (take k xs) ≡ false
elem-take_absent n zero xs h = refl
elem-take_absent n (suc k) [] h = refl
elem-take_absent n (suc k) (x ∷ xs) h = ground (arith, elem-take_absent n k xs)

pub take_shifted :
    (n k : ℕ) (xs : List ℕ)
    → IsDistinct xs
    → elem n (take k xs) ≡ true
    → take k (drop_host n xs) ≡ drop_host n (take (suc k) xs)
unfolding drop_host
take_shifted n zero xs d h = ground arith
take_shifted n (suc k) [] d h = ground arith
take_shifted n (suc k) (x ∷ xs) d h = ground (
  arith,
  take_shifted n k xs d.1,
  drop_host_absent n xs,
  drop_host_absent n (take (suc k) xs),
  elem-take_absent n (suc k) xs,
)

module _ (hostname : Text) (n copies k : ℕ) (m : NodeMap) (below : OwnersBelow n m) where
  abbrev chosen : List ℕ
  chosen = add_all [] (clockwise k (add_nodes hostname n m))

  chosen_before : add_all [] (clockwise k m) ≡ drop_host n chosen
  chosen_before =
      ap (add_all []) (sym (clockwise-add_nodes hostname n k m below))
      ∙ (unfold drop_host in add_all-drop_host n [] (clockwise k (add_nodes hostname n m)))

  -- Where the new server takes no copy, the replicas are the same as before.
  pub replicas_same :
      elem n (replicas copies k (add_nodes hostname n m)) ≡ false
      → copies ≤ length chosen
      → replicas copies k m ≡ replicas copies k (add_nodes hostname n m)
  unfolding replicas first_hosts
  replicas_same h l = rw chosen_before (take_same n copies chosen h l)

  -- Where it takes one, the replicas before are the first `copies + 1` hosts now without it.
  pub replicas_shift :
      elem n (replicas copies k (add_nodes hostname n m)) ≡ true
      → replicas copies k m ≡ drop_host n (replicas (suc copies) k (add_nodes hostname n m))
  unfolding replicas first_hosts
  replicas_shift h = rw chosen_before (
      take_shifted n copies chosen (add_all-IsDistinct [] (clockwise k (add_nodes hostname n m)) tt)
        h)

  -- What a new server changes for a key, if the ring has as many servers as copies: where it takes
  -- no copy, the replicas stay the same; where it takes one, the replicas before are the first
  -- `copies + 1` hosts now, without it.
  pub replicas_change :
      copies ≤ length (add_all [] (clockwise k (add_nodes hostname n m)))
      → let now = replicas copies k (add_nodes hostname n m) in
        ((elem n now ≡ false) × (replicas copies k m ≡ now))
        ⊎ ((elem n now ≡ true)
            × (replicas copies k m
                ≡ drop_host n (replicas (suc copies) k (add_nodes hostname n m))))
  replicas_change l = elim (Bool-cases (elem n (replicas copies k (add_nodes hostname n m)))) [
    | inl e ↦ inr (e, replicas_shift e)
    | inr e ↦ inl (e, replicas_same e l)
  ]

-- The first node past `h` is the next of an arc, for all hashes of the arc: from its node up to
-- the next, which is left out.
pub upper_bound_arc :
    (pre : NodeMap) (b i h : ℕ) (rest : NodeMap)
    → IsSorted (pre ++ (b, i) ∷ rest)
    → b ≤ h
    → Above h rest
    → upper_bound h (pre ++ (b, i) ∷ rest) ≡ rest
unfolding upper_bound
upper_bound_arc [] b i h [] s l a = ground arith
upper_bound_arc [] b i h ((c, j) ∷ rest) s l a = ground arith
upper_bound_arc ((c, j) ∷ []) b i h rest s l a =
    ground (arith, upper_bound_arc [] b i h rest s.1 l a)
upper_bound_arc ((c, j) ∷ (d, o) ∷ pre) b i h rest s l a =
    ground (arith, upper_bound_arc ((d, o) ∷ pre) b i h rest s.1 l a, below_arc pre d o s.1)
  where
    below_arc : (pre : NodeMap) (d o : ℕ) → IsSorted ((d, o) ∷ pre ++ (b, i) ∷ rest) → d < b
    below_arc [] d o s = s.0
    below_arc ((e, p) ∷ pre) d o s = omega (arith, s.0, below_arc pre e p s.1)
