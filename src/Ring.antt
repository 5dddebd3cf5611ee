-- ===== src/Ring.antt =====
-- The consistent-hashing ring of src/driver.cpp: `nodeMap`, a `std::map<unsigned, int>` from the
-- hash of a virtual node to the index of its host. A map is the list of its entries in the order of
-- the keys, and an iterator is what it has left to visit, the end iterator being `[]`.
pub mod Sorted
pub mod Cycle
pub mod Distinct
pub mod Succession
pub mod Count
use thkvs.Base.{
  ℕ, zero, suc, ◌+◌, List, [], ◌∷◌, ◌++◌, map, Bool, true, false, Option, none, some, elem, length,
  ltb, leb, ◌==◌, if◌then◌else◌, Text, codes, decimal,
}
use thkvs.Crc.{get_crc}

abbrev pub NodeMap : Type 0
NodeMap = List (ℕ × ℕ)

-- The hosts in the order of their nodes.
abbrev pub owners : NodeMap → List ℕ
owners [] = []
owners ((k, i) ∷ m) = i ∷ owners m

-- `nodeMap.count(nodehash)`
unfoldable pub count : ℕ → NodeMap → Bool
count k [] = false
count k ((j, w) ∷ m) = if j == k then true else count k m

unfoldable pub emplace_sorted : ℕ → ℕ → NodeMap → NodeMap
emplace_sorted k v [] = (k, v) ∷ []
emplace_sorted k v ((j, w) ∷ m) =
    if ltb k j
    then (k, v) ∷ (j, w) ∷ m
    else if j == k
    then (j, w) ∷ m
    else (j, w) ∷ emplace_sorted k v m

unfoldable pub upper_bound : ℕ → NodeMap → NodeMap
upper_bound k [] = []
upper_bound k ((j, w) ∷ m) = if ltb k j then (j, w) ∷ m else upper_bound k m

-- `if (iter == end) iter = begin`
abbrev pub wrap : NodeMap → NodeMap → NodeMap
wrap m [] = m
wrap m (e ∷ rest) = e ∷ rest

-- The hash of `hostname << "#" << j`.
unfoldable pub node_hash : Text → ℕ → ℕ
node_hash hostname j = get_crc (hostname ++ codes "#" ++ decimal j)

-- The body of the loop over the copies: a hash that is taken stays with its host.
unfoldable pub add_node : ℕ → ℕ → NodeMap → NodeMap
unfolding count emplace_sorted
add_node nodehash i m = if count nodehash m then m else emplace_sorted nodehash i m

-- The loop over the copies: `n` rounds are left, and `j` counts up.
unfoldable pub add_nodes_from : ℕ → ℕ → Text → ℕ → NodeMap → NodeMap
add_nodes_from zero j hostname i m = m
add_nodes_from (suc n) j hostname i m =
    add_nodes_from n (j + 1) hostname i (add_node (node_hash hostname j) i m)

-- NODECOPY
abbrev pub node_copy : ℕ
node_copy = 256

unfoldable pub add_nodes : Text → ℕ → NodeMap → NodeMap
unfolding add_nodes_from
add_nodes hostname i m = add_nodes_from node_copy 0 hostname i m

-- The nodes of a list of hosts, numbered from `i`.
unfoldable pub add_hosts : ℕ → List Text → NodeMap → NodeMap
unfolding add_nodes
add_hosts i [] m = m
add_hosts i (hostname ∷ names) m = add_hosts (i + 1) names (add_nodes hostname i m)

-- `while (test) { body; iter++; if (iter == end) iter = begin; }` over the host of each node. On
-- `none` the fuel has run out, or the end iterator was read.
unfoldable pub cycle {ℓ} :
    {S : Type ℓ} → ℕ → (S → Bool) → (S → ℕ → S) → NodeMap → NodeMap → S → Option S
cycle zero test body m iter s = none
cycle (suc fuel) test body m iter s = elim (test s) [
  | false ↦ some s
  | true ↦ elim iter [ [] ↦ none | e ∷ rest ↦ cycle fuel test body m (wrap m rest) (body s e.1) ]
]

-- Two laps are enough: the rest of the first, and a whole one.
abbrev pub laps : NodeMap → ℕ
laps m = length m + length m + 1
