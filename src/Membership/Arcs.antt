-- ===== src/Membership/Arcs.antt =====
-- src/driver.cpp, the body of the loop over the arcs in `addServer`, and the replicas of the arc.
use thkvs.Base.{
  ℕ, ◌≤◌, ◌≡◌, ◌≢◌, refl, ap, ◌∙◌, ◌⊎◌, inl, inr, List, [], true, false, Option, some, ◌>>=◌, elem,
  length, take, get_elem?, Bool-cases, Text, add32, arith,
}
use thkvs.Driver.{with_driver}
use thkvs.Membership.{successors, last, add_arc, next_move}
use thkvs.Membership.Around.{Arc, last_picked, get_elem?-some, elem-All, successors-Arc}
use thkvs.Membership.Successors.{picked}
use thkvs.Ring.{NodeMap, owners, wrap, add_nodes}
use thkvs.Ring.Count.{length-clockwise, replicas-below}
use thkvs.Ring.Distinct.{add_all, first_hosts, add_all-IsDistinct, length-take_le}
use thkvs.Ring.Sorted.{IsSorted, OwnersBelow, add_nodes-IsSorted}
use thkvs.Ring.Succession.{
  clockwise, replicas, drop_host, elem-drop_host, replicas_same, replicas_shift,
}
use thkvs.Send.{send_move}
use thkvs.State.{Node, Host, replica_n}

-- The server in question, the ring with its nodes, and the hashes of one arc of it.
pub record Joining (n : Node) (hostname : Text) : Type 0 where
  pub sorted : IsSorted n.driver.node_map
  pub within : OwnersBelow (length n.driver.host_list) n.driver.node_map
  pub enough :
      4
      ≤ length
          (add_all [] (owners (add_nodes hostname (length n.driver.host_list) n.driver.node_map)))

abbrev pub joined : Node → Text → NodeMap
joined n hostname = add_nodes hostname (length n.driver.host_list) n.driver.node_map

module _ (n : Node) (hostname ip : Text) (port : ℕ) (ok : Joining n hostname) (rest : NodeMap)
    (h : ℕ) (arc : Arc (joined n hostname) rest h) (hash_begin hash_end : ℕ) where
  abbrev old_map : NodeMap
  old_map = n.driver.node_map

  abbrev new_id : ℕ
  new_id = length n.driver.host_list

  abbrev new_map : NodeMap
  new_map = joined n hostname

  abbrev order : List ℕ
  order = add_all [] (clockwise h new_map)

  enough_here : 4 ≤ length order
  enough_here = omega (arith, ok.enough, length-clockwise h new_map)

  loop : successors new_id new_map (wrap new_map rest) ≡ some (picked new_id order)
  loop =
      successors-Arc new_id new_map rest h (add_nodes-IsSorted hostname new_id old_map ok.sorted)
        arc ok.enough

  -- The arc's turn of the loop of `add_arcs`.
  abbrev pub arc_turn : Option Node
  arc_turn = do
    (succ, cur_flag) ← successors new_id new_map (wrap new_map rest)
    add_arc n ip port hash_begin hash_end succ

  abbrev pub Stays : Type 0
  Stays =
      (elem new_id (replicas replica_n h new_map) ≡ false)
      × (replicas replica_n h old_map ≡ replicas replica_n h new_map)
      × (arc_turn ≡ some n)

  -- The host `src` is asked to move the arc to the new server.
  abbrev pub move_asked : Host → Node
  move_asked src =
      let d = record (n.driver) {
        move_cnt = add32 n.driver.move_cnt 1;
        opid = add32 n.driver.opid 1;
      } in
      send_move (with_driver n d) d.opid d.localhost.ip d.localhost.port src.ip src.port ip port
        hash_begin hash_end true

  abbrev pub Moves : Type 0
  Moves =
      (elem new_id (replicas replica_n h new_map) ≡ true)
      × (s : ℕ) × (src : Host) × (get_elem? n.driver.host_list s ≡ some src)
      × (elem s (replicas replica_n h old_map) ≡ true)
      × (elem s (replicas replica_n h new_map) ≡ false)
      × (arc_turn ≡ some (move_asked src))

  add_arc_three :
      (succ : List ℕ) → length succ ≡ 3 → add_arc n ip port hash_begin hash_end succ ≡ some n
  unfolding add_arc
  add_arc_three succ l = rw l refl

  add_arc_four :
      (succ : List ℕ) (s : ℕ) (src : Host)
      → length succ ≡ 4
      → last succ ≡ some s
      → get_elem? n.driver.host_list s ≡ some src
      → add_arc n ip port hash_begin hash_end succ ≡ some (move_asked src)
  unfolding add_arc next_move
  add_arc_four succ s src l back at = rw (l, back, at) refl

  stays : elem new_id (replicas replica_n h new_map) ≡ false → Stays
  unfolding replicas first_hosts
  stays e = (
    e,
    replicas_same hostname new_id 3 h old_map ok.within e (omega (arith, enough_here)),
    rw (loop, e)
        (add_arc_three (take 3 order) (length-take_le 3 order (omega (arith, enough_here)))),
  )

  moves : elem new_id (replicas replica_n h new_map) ≡ true → Moves
  unfolding replicas first_hosts drop_host
  moves e =
      let (s, back, among, new) =
        last_picked 3 order (omega (arith, enough_here))
          (add_all-IsDistinct [] (clockwise h new_map) tt) in
      let apart : s ≢ new_id = λ same. cc (e, new, ap (λ j. elem j (take 3 order)) same) in
      let old : elem s (replicas 3 h old_map) ≡ true =
        ap (elem s) (replicas_shift hostname new_id 3 h old_map ok.within e)
        ∙ elem-drop_host new_id s (take 4 order) apart
        ∙ among in
      let (src, at) = get_elem?-some n.driver.host_list s (
        elem-All new_id s (replicas 3 h old_map) (replicas-below new_id 3 h old_map ok.within)
          old) in
      let asked : arc_turn ≡ some (move_asked src) =
        rw (loop, e)
          (add_arc_four (take 4 order) s src (length-take_le 4 order enough_here) back at) in
      (e, s, src, at, old, new, asked)

  -- The turn of `addServer` for one arc, when at least four servers own a node of the new ring, the
  -- old ring is sorted and its owners are indices of the host list. Either the new server is no
  -- replica of the arc's keys: then their replicas stay the same, and nothing is sent. Or it is one:
  -- then one message asks a server to move the arc to it, and to remove it; that server was a
  -- replica of the keys and is none now.
  pub add_arc_moves : Stays ⊎ Moves
  add_arc_moves = elim (Bool-cases (elem new_id (replicas replica_n h new_map))) [
    | inl e ↦ inr (moves e)
    | inr e ↦ inl (stays e)
  ]
