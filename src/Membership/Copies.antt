-- ===== src/Membership/Copies.antt =====
-- src/driver.cpp, the body of the loop over the arcs in `removeServer`, and the hosts of the arc.
use thkvs.Base.{
  ℕ, ◌≤◌, ◌≡◌, ◌≢◌, refl, ap, ◌∙◌, ◌⊎◌, inl, inr, List, [], ◌∷◌, true, false, Option, some, ◌>>=◌,
  elem, length, take, get_elem?, ◌==◌, Bool-cases, add32, arith,
}
use thkvs.Driver.{with_driver}
use thkvs.Membership.{successors, last, first_other, remove_arc, next_move}
use thkvs.Membership.Around.{Arc, last_picked, get_elem?-some, elem-All, successors-Arc}
use thkvs.Membership.Successors.{picked, elem-take-true}
use thkvs.Ring.{NodeMap, owners, wrap}
use thkvs.Ring.Count.{length-clockwise, All-order}
use thkvs.Ring.Distinct.{add_all, first_hosts, IsDistinct, add_all-IsDistinct, length-take_le}
use thkvs.Ring.Sorted.{IsSorted, OwnersBelow}
use thkvs.Ring.Succession.{clockwise, replicas, drop_host, elem-drop_host, take_same, take_shifted}
use thkvs.Send.{send_move}
use thkvs.State.{Node, Host, replica_n}

-- The first successor that stays is one of the first three.
first_other_lem :
    (host : ℕ) (ds : List ℕ)
    → 4 ≤ length ds
    → IsDistinct ds
    → (s : ℕ) × (first_other host (take 4 ds) ≡ some s) × (s ≢ host) × (elem s (take 3 ds) ≡ true)
unfolding first_other
first_other_lem host [] l d = absurd (ground arith)
first_other_lem host (x ∷ []) l d = absurd (ground arith)
first_other_lem host (x ∷ y ∷ ds) l d = elim (Bool-cases (x == host)) [
  | inl e ↦ (y, rw e refl, λ same. ground (arith, d.0), ground arith)
  | inr e ↦ (x, rw e refl, λ same. ground arith, ground arith)
]

-- A ring with four servers, whose owners are indices of the host list.
pub record Leaving (n : Node) : Type 0 where
  pub sorted : IsSorted n.driver.node_map
  pub within : OwnersBelow (length n.driver.host_list) n.driver.node_map
  pub enough : 4 ≤ length (add_all [] (owners n.driver.node_map))

module _ (n : Node) (host : ℕ) (ok : Leaving n) (rest : NodeMap) (h : ℕ)
    (arc : Arc n.driver.node_map rest h) (hash_begin hash_end : ℕ) where
  abbrev map : NodeMap
  map = n.driver.node_map

  abbrev order : List ℕ
  order = add_all [] (clockwise h map)

  -- The first three hosts past `h` that stay.
  abbrev pub replicas_without : List ℕ
  replicas_without = take replica_n (drop_host host order)

  abbrev pub arc_turn : Option Node
  arc_turn = do
    (succ, cur_flag) ← successors host map (wrap map rest)
    remove_arc n host hash_begin hash_end succ

  -- The host `src` is asked to copy the arc to the host `dest`.
  abbrev pub copy_asked : Host → Host → Node
  copy_asked src dest =
      let d = record (n.driver) {
        move_cnt = add32 n.driver.move_cnt 1;
        opid = add32 n.driver.opid 1;
      } in
      send_move (with_driver n d) d.opid d.localhost.ip d.localhost.port src.ip src.port dest.ip
        dest.port hash_begin hash_end false

  abbrev pub Stays : Type 0
  Stays =
      (elem host (replicas replica_n h map) ≡ false)
      × (replicas_without ≡ replicas replica_n h map)
      × (arc_turn ≡ some n)

  abbrev pub Copies : Type 0
  Copies =
      (elem host (replicas replica_n h map) ≡ true)
      × (s : ℕ) × (d : ℕ) × (src : Host) × (dest : Host) × (get_elem? n.driver.host_list s
          ≡ some src)
      × (get_elem? n.driver.host_list d ≡ some dest)
      × (s ≢ host)
      × (elem s (replicas replica_n h map) ≡ true)
      × (elem d (replicas replica_n h map) ≡ false)
      × (elem d replicas_without ≡ true)
      × (arc_turn ≡ some (copy_asked src dest))

  enough_here : 4 ≤ length order
  enough_here = omega (arith, ok.enough, length-clockwise h map)

  distinct : IsDistinct order
  distinct = add_all-IsDistinct [] (clockwise h map) tt

  loop : successors host map (wrap map rest) ≡ some (picked host order)
  loop = successors-Arc host map rest h ok.sorted arc ok.enough

  remove_arc_three :
      (succ : List ℕ) → length succ ≡ 3 → remove_arc n host hash_begin hash_end succ ≡ some n
  unfolding remove_arc
  remove_arc_three succ l = rw l refl

  remove_arc_four :
      (succ : List ℕ) (s d : ℕ) (src dest : Host)
      → length succ ≡ 4
      → first_other host succ ≡ some s
      → last succ ≡ some d
      → get_elem? n.driver.host_list s ≡ some src
      → get_elem? n.driver.host_list d ≡ some dest
      → remove_arc n host hash_begin hash_end succ ≡ some (copy_asked src dest)
  unfolding remove_arc next_move
  remove_arc_four succ s d src dest l front back at_s at_d = rw (l, front, back, at_s, at_d) refl

  host_at : (i : ℕ) → elem i order ≡ true → (x : Host) × (get_elem? n.driver.host_list i ≡ some x)
  host_at i e = get_elem?-some n.driver.host_list i (
      elem-All (length n.driver.host_list) i order
        (All-order (length n.driver.host_list) h map ok.within) e)

  stays : elem host (replicas replica_n h map) ≡ false → Stays
  unfolding replicas first_hosts
  stays e = (
    e,
    take_same host 3 order e (omega (arith, enough_here)),
    rw (loop, e)
        (remove_arc_three (take 3 order) (length-take_le 3 order (omega (arith, enough_here)))),
  )

  copies : elem host (replicas replica_n h map) ≡ true → Copies
  unfolding replicas first_hosts
  copies e =
      let (d, back, among, new) = last_picked 3 order (omega (arith, enough_here)) distinct in
      let (s, front, other, old) = first_other_lem host order enough_here distinct in
      let apart : d ≢ host = λ same. cc (e, new, ap (λ j. elem j (take 3 order)) same) in
      let kept : elem d (take 3 (drop_host host order)) ≡ true =
        ap (elem d) (take_shifted host 3 order distinct e)
        ∙ elem-drop_host host d (take 4 order) apart
        ∙ among in
      let (src, at_s) = host_at s (elem-take-true 3 s order old) in
      let (dest, at_d) = host_at d (elem-take-true 4 d order among) in
      let asked : arc_turn ≡ some (copy_asked src dest) =
        rw (loop, e)
          (remove_arc_four (take 4 order) s d src dest (length-take_le 4 order enough_here) front
            back at_s at_d) in
      (e, s, d, src, dest, at_s, at_d, other, old, new, kept, asked)

  -- The turn of `removeServer` for one arc, when at least four servers own a node, the ring is
  -- sorted and its owners are indices of the host list. Either the server is no replica of the arc's
  -- keys: then the first three hosts that stay are their replicas already, and nothing is sent. Or it
  -- is one: then one message asks a replica that stays to copy the arc, without removing it, to the
  -- host that is not one of the replicas now and is one of the first three hosts that stay.
  pub remove_arc_copies : Stays ⊎ Copies
  remove_arc_copies = elim (Bool-cases (elem host (replicas replica_n h map))) [
    | inl e ↦ inr (copies e)
    | inr e ↦ inl (stays e)
  ]
