-- ===== src/Membership/Depart.antt =====
-- src/driver.cpp, `removeServer` from its first test to the wait for the moves.
use mathlib.Core.List.{append_assoc, append-nil}
use thkvs.Base.{
  if◌then◌else◌, bind-some, ℕ, ◌+◌, ◌%◌, ◌<◌, ◌≡◌, refl, sym, ap, ◌∙◌, inl, inr, List, [], ◌∷◌,
  ◌++◌, false, Option, none, some, ◌>>=◌, length, Text, arith,
}
use thkvs.Driver.{with_driver}
use thkvs.Membership.{successors, first_key, remove_arc, remove_arcs, host_id, remove_server_start}
use thkvs.Membership.Around.{Arc, arc_at, arc_end}
use thkvs.Membership.Copies.{Leaving, copy_asked, remove_arc_copies}
use thkvs.Message.{Message}
use thkvs.Ring.{NodeMap, wrap}
use thkvs.Send.{send_move}
use thkvs.State.{Node, Host}

module _ (hostid : ℕ) where
  one_turn :
      (n n' : Node) (m rest : NodeMap) (k i h : ℕ)
      → first_key (wrap m rest) ≡ some h
      → (successors hostid m (wrap m rest) >>= λ p. remove_arc n hostid k h p.0) ≡ some n'
      → remove_arcs n hostid m ((k, i) ∷ rest) ≡ remove_arcs n' hostid m rest
  unfolding remove_arcs
  one_turn n n' m rest k i h e turn = rw e (
      bind-some (successors hostid m (wrap m rest)) (λ p. remove_arc n hostid k h p.0)
        (λ n1. remove_arcs n1 hostid m rest) n' turn)

  copy_asked-sends :
      (n : Node) (ok : Leaving n) (rest : NodeMap) (k h : ℕ) (arc : Arc n.driver.node_map rest k)
      (src dest : Host)
      → (msg : Message) × ((copy_asked n hostid ok rest k arc k h src dest).send_que
          ≡ n.send_que ++ msg ∷ [])
  unfolding send_move
  copy_asked-sends n ok rest k h arc src dest = (_, refl)

  -- What the loop asks for from an arc on, and the moves it counts.
  abbrev Asks : Node → NodeMap → Type 0
  Asks n rest =
      (n' : Node) × (sent : List Message) × (remove_arcs n hostid n.driver.node_map rest ≡ some n')
      × (n'.send_que ≡ n.send_que ++ sent)
      × (n'.driver.move_cnt ≡ (n.driver.move_cnt + length sent) % 0x1_0000_0000)

  remove_arcs-Asks :
      (rest pre : NodeMap) (n : Node)
      → Leaving n
      → n.driver.node_map ≡ pre ++ rest
      → n.driver.move_cnt < 0x1_0000_0000
      → Asks n rest
  unfolding send_move
  remove_arcs-Asks [] pre n ok cut small =
      (n, [], unfold remove_arcs in refl, sym (append-nil n.send_que), omega arith)
  remove_arcs-Asks ((k, i) ∷ rest) pre n ok cut small =
      let m = n.driver.node_map in
      let (h, e) = arc_end pre (k, i) rest m cut in
      let arc : Arc m rest k = arc_at pre k i rest m cut ok.sorted in
      let cut' : m ≡ (pre ++ (k, i) ∷ []) ++ rest =
        cut ∙ sym (append_assoc pre ((k, i) ∷ []) rest) in
      elim (remove_arc_copies n hostid ok rest k arc k h) [
        | inl (far, same, turn) ↦
            let (n', sent, run, que, moves) =
              remove_arcs-Asks rest (pre ++ (k, i) ∷ []) n ok cut' small in
            (n', sent, one_turn n n m rest k i h e turn ∙ run, que, moves)
        | inr (near, s, d, src, dest, at_s, at_d, other, old, new, kept, turn) ↦
            let n1 : Node = copy_asked n hostid ok rest k arc k h src dest in
            let ok1 : Leaving n1 = record {
              sorted = ok.sorted;
              within = ok.within;
              enough = ok.enough;
            } in
            let (msg, one) = copy_asked-sends n ok rest k h arc src dest in
            let (n', sent, run, que, moves) =
              remove_arcs-Asks rest (pre ++ (k, i) ∷ []) n1 ok1 cut' (omega arith) in
            (
              n',
              msg ∷ sent,
              one_turn n n1 m rest k i h e turn ∙ run,
              que ∙ ap (λ q. q ++ sent) one ∙ append_assoc n.send_que (msg ∷ []) sent,
              omega (arith, moves),
            )
      ]

  -- When the server is not paused, the ring is sorted, its owners are indices of the host list, at
  -- least four servers own a node, and the host list has the server's name, `removeServer` comes to
  -- its wait for the moves, and it waits for as many moves as it has sent messages.
  pub remove_server_asks :
      (n : Node) (hostname : Text)
      → n.driver.enable_flag ≡ false
      → host_id hostname 0 n.driver.host_list ≡ some hostid
      → Leaving n
      → (n' : Node) × (sent : List Message) × (remove_server_start n hostname ≡ some (some n'))
        × (n'.send_que ≡ n.send_que ++ sent)
        × (n'.driver.move_cnt ≡ length sent % 0x1_0000_0000)
  unfolding remove_server_start
  remove_server_asks n hostname running named ok =
      let n0 : Node = with_driver n (record (n.driver) { move_cnt = 0 }) in
      let ok0 : Leaving n0 = record {
        sorted = ok.sorted;
        within = ok.within;
        enough = ok.enough;
      } in
      let m : NodeMap = n.driver.node_map in
      let (n', sent, run, que, moves) = remove_arcs-Asks m [] n0 ok0 refl (omega arith) in
      let finish : Node → Option (Option Node) = λ n1. some (some n1) in
      let found : Option ℕ → Option (Option Node) =
        λ o. elim o [ none ↦ some none | some id ↦ (remove_arcs n0 id m m >>= finish) ] in
      let start : remove_server_start n hostname ≡ some (some n') =
        ap (λ b. if b then some none else found (host_id hostname 0 n.driver.host_list)) running
        ∙ ap found named
        ∙ ap (λ o. o >>= finish) run in
      (n', sent, start, que, omega (arith, moves))
