-- ===== src/Ring/Sorted.antt =====
-- src/driver.cpp, `nodeMap`: the order of its keys, its owners, and its entries when nodes are added.
use thkvs.Base.{
  ℕ, zero, suc, ◌+◌, ◌≤◌, ◌<◌, ◌≡◌, refl, ◌⊎◌, inl, inr, List, [], ◌∷◌, false, none, some, All,
  lookup, ◌==◌, if◌then◌else◌, Bool-cases, Text, length, arith,
}
use thkvs.Ring.{
  NodeMap, owners, count, emplace_sorted, node_hash, add_node, add_nodes_from, add_nodes, add_hosts,
  node_copy,
}

-- The keys of the map ascend from above `k`.
abbrev pub Above : ℕ → NodeMap → Type 0
Above k [] = Unit {0}
Above k ((j, w) ∷ m) = (k < j) × Above j m

abbrev pub IsSorted : NodeMap → Type 0
IsSorted [] = Unit {0}
IsSorted ((k, i) ∷ m) = Above k m

abbrev pub OwnersBelow : ℕ → NodeMap → Type 0
OwnersBelow n m = All (λ i. i < n) (owners m)

pub Above-weaken : (j k : ℕ) (m : NodeMap) → j ≤ k → Above k m → Above j m
Above-weaken j k [] h a = tt
Above-weaken j k (e ∷ m) h a = (omega arith, a.1)

Above-emplace : (k h i : ℕ) (m : NodeMap) → k < h → Above k m → Above k (emplace_sorted h i m)
unfolding emplace_sorted
Above-emplace k h i [] l a = (l, tt)
Above-emplace k h i ((j, w) ∷ m) l a = ground (arith, Above-emplace j h i m)

pub emplace_sorted-IsSorted : (h i : ℕ) (m : NodeMap) → IsSorted m → IsSorted (emplace_sorted h i m)
unfolding emplace_sorted
emplace_sorted-IsSorted h i [] s = tt
emplace_sorted-IsSorted h i ((j, w) ∷ m) s = ground (arith, Above-emplace j h i m)

emplace_sorted-OwnersBelow :
    (h i n : ℕ) (m : NodeMap) → i < n → OwnersBelow n m → OwnersBelow n (emplace_sorted h i m)
unfolding emplace_sorted
emplace_sorted-OwnersBelow h i n [] l a = (l, tt)
emplace_sorted-OwnersBelow h i n ((j, w) ∷ m) l a =
    ground (arith, emplace_sorted-OwnersBelow h i n m l a.1)

-- What holds of a map after one node holds after all the nodes of a list of hosts.
module _ {ℓ} (P : NodeMap → Type ℓ) where
  pub add_nodes_from_inv :
      (n j : ℕ) (hostname : Text) (i : ℕ) (m : NodeMap)
      → ((h : ℕ) (m : NodeMap) → P m → P (add_node h i m))
      → P m
      → P (add_nodes_from n j hostname i m)
  unfolding add_nodes_from
  add_nodes_from_inv zero j hostname i m keep p = p
  add_nodes_from_inv (suc n) j hostname i m keep p =
      add_nodes_from_inv n (j + 1) hostname i (add_node (node_hash hostname j) i m) keep
        (keep (node_hash hostname j) m p)

  pub add_nodes_inv :
      (hostname : Text) (i : ℕ) (m : NodeMap)
      → ((h : ℕ) (m : NodeMap) → P m → P (add_node h i m))
      → P m
      → P (add_nodes hostname i m)
  unfolding add_nodes
  add_nodes_inv hostname i m keep p = add_nodes_from_inv node_copy 0 hostname i m keep p

add_node-IsSorted : (h i : ℕ) (m : NodeMap) → IsSorted m → IsSorted (add_node h i m)
unfolding add_node
add_node-IsSorted h i m s = elim (Bool-cases (count h m)) [
  | inl e ↦ rw (e, add_node) s
  | inr e ↦ rw (e, add_node) (emplace_sorted-IsSorted h i m s)
]

add_node-OwnersBelow :
    (n h i : ℕ) (m : NodeMap) → i < n → OwnersBelow n m → OwnersBelow n (add_node h i m)
unfolding add_node
add_node-OwnersBelow n h i m l s = elim (Bool-cases (count h m)) [
  | inl e ↦ rw (e, add_node) s
  | inr e ↦ rw (e, add_node) (emplace_sorted-OwnersBelow h i n m l s)
]

pub add_nodes-IsSorted :
    (hostname : Text) (i : ℕ) (m : NodeMap) → IsSorted m → IsSorted (add_nodes hostname i m)
add_nodes-IsSorted hostname i m = add_nodes_inv IsSorted hostname i m (λ h. add_node-IsSorted h i)

pub add_nodes-OwnersBelow :
    (hostname : Text) (i n : ℕ) (m : NodeMap)
    → i < n
    → OwnersBelow n m
    → OwnersBelow n (add_nodes hostname i m)
add_nodes-OwnersBelow hostname i n m l =
    add_nodes_inv (OwnersBelow n) hostname i m (λ h m. add_node-OwnersBelow n h i m l)

pub OwnersBelow-mono : (a b : ℕ) (m : NodeMap) → a ≤ b → OwnersBelow a m → OwnersBelow b m
OwnersBelow-mono a b [] h o = tt
OwnersBelow-mono a b (e ∷ m) h o = (omega (arith, o.0), OwnersBelow-mono a b m h o.1)

pub add_hosts-IsSorted :
    (i : ℕ) (names : List Text) (m : NodeMap) → IsSorted m → IsSorted (add_hosts i names m)
unfolding add_hosts
add_hosts-IsSorted i [] m s = s
add_hosts-IsSorted i (name ∷ names) m s =
    add_hosts-IsSorted (i + 1) names (add_nodes name i m) (add_nodes-IsSorted name i m s)

pub add_hosts-OwnersBelow :
    (i n : ℕ) (names : List Text) (m : NodeMap)
    → i + length names ≤ n
    → OwnersBelow i m
    → OwnersBelow n (add_hosts i names m)
unfolding add_hosts
add_hosts-OwnersBelow i n [] m h o = OwnersBelow-mono i n m (omega arith) o
add_hosts-OwnersBelow i n (name ∷ names) m h o =
    add_hosts-OwnersBelow (i + 1) n names (add_nodes name i m) (omega arith) (
      add_nodes-OwnersBelow name i (i + 1) m (omega arith)
        (OwnersBelow-mono i (i + 1) m (omega arith) o))

count-lookup : (k : ℕ) (m : NodeMap) → count k m ≡ false → lookup k m ≡ none
unfolding count
count-lookup k [] h = refl
count-lookup k ((j, w) ∷ m) h = ground (arith, count-lookup k m)

lookup-emplace_sorted :
    (h i k : ℕ) (m : NodeMap)
    → lookup h m ≡ none
    → lookup k (emplace_sorted h i m) ≡ (if h == k then some i else lookup k m)
unfolding emplace_sorted
lookup-emplace_sorted h i k [] e = refl
lookup-emplace_sorted h i k ((j, w) ∷ m) e = ground (arith, lookup-emplace_sorted h i k m)

-- Every entry of the larger map is an old one, or belongs to `i`.
abbrev pub Extends : ℕ → NodeMap → NodeMap → Type 0
Extends i m m' =
    (k : ℕ) → (lookup k m' ≡ lookup k m) ⊎ ((lookup k m ≡ none) × (lookup k m' ≡ some i))

Extends-add_node : (i h : ℕ) (m m' : NodeMap) → Extends i m m' → Extends i m (add_node h i m')
unfolding add_node
Extends-add_node i h m m' x k = elim (Bool-cases (count h m')) [
  | inl e ↦ rw (e, add_node) (x k)
  | inr e ↦
      rw (e, add_node)
        (ground
          (arith, x k, lookup-emplace_sorted h i k m' (count-lookup h m' e), count-lookup h m' e))
]

-- Adding a server's nodes leaves every node that is there with its host, and adds no node but the
-- server's.
pub add_nodes-Extends :
    (hostname : Text) (i : ℕ) (m : NodeMap) → Extends i m (add_nodes hostname i m)
add_nodes-Extends hostname i m =
    add_nodes_inv (Extends i m) hostname i m (λ h m'. Extends-add_node i h m m') (λ k. inl refl)
