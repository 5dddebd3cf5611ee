-- ===== src/Membership/Start.antt =====
-- src/driver.cpp, `addServer` from its first test to the wait for the moves.
use mathlib.Core.List.{append_assoc, append-nil}
use thkvs.Base.{
  if◌then◌else◌, bind-some, ℕ, ◌+◌, ◌%◌, ◌<◌, ◌≡◌, refl, sym, ap, ◌∙◌, inl, inr, List, [], ◌∷◌,
  ◌++◌, false, Option, none, some, ◌>>=◌, length, Text, arith,
}
use thkvs.Driver.{with_driver}
use thkvs.Membership.{successors, first_key, add_arc, add_arcs, add_server_start}
use thkvs.Membership.Around.{Arc, arc_at, arc_end}
use thkvs.Membership.Arcs.{Joining, joined, move_asked, add_arc_moves}
use thkvs.Message.{Message}
use thkvs.Ring.{NodeMap, wrap}
use thkvs.Ring.Sorted.{IsSorted, add_nodes-IsSorted}
use thkvs.Send.{send_move}
use thkvs.State.{Node, Host}

module _ (hostname ip : Text) (port : ℕ) where
  one_turn :
      (n n' : Node) (m rest : NodeMap) (k i h : ℕ)
      → first_key (wrap m rest) ≡ some h
      → (successors (length n.driver.host_list) m (wrap m rest) >>= λ p. add_arc n ip port k h p.0)
        ≡ some n'
      → add_arcs n ip port m ((k, i) ∷ rest) ≡ add_arcs n' ip port m rest
  unfolding add_arcs
  one_turn n n' m rest k i h e turn = rw e (
      bind-some (successors (length n.driver.host_list) m (wrap m rest))
        (λ p. add_arc n ip port k h p.0) (λ n1. add_arcs n1 ip port m rest) n' turn)

  move_asked-sends :
      (n : Node) (ok : Joining n hostname) (rest : NodeMap) (k h : ℕ)
      (arc : Arc (joined n hostname) rest k) (src : Host)
      → (msg : Message) × ((move_asked n hostname ip port ok rest k arc k h src).send_que
          ≡ n.send_que ++ msg ∷ [])
  unfolding send_move
  move_asked-sends n ok rest k h arc src = (_, refl)

  -- What the loop asks for from an arc on, and the moves it counts.
  abbrev Asks : Node → NodeMap → Type 0
  Asks n rest =
      (n' : Node) × (sent : List Message) × (add_arcs n ip port (joined n hostname) rest ≡ some n')
      × (n'.send_que ≡ n.send_que ++ sent)
      × (n'.driver.move_cnt ≡ (n.driver.move_cnt + length sent) % 0x1_0000_0000)

  add_arcs-Asks :
      (rest pre : NodeMap) (n : Node)
      → Joining n hostname
      → joined n hostname ≡ pre ++ rest
      → n.driver.move_cnt < 0x1_0000_0000
      → Asks n rest
  unfolding send_move
  add_arcs-Asks [] pre n ok cut small =
      (n, [], unfold add_arcs in refl, sym (append-nil n.send_que), omega arith)
  add_arcs-Asks ((k, i) ∷ rest) pre n ok cut small =
      let m = joined n hostname in
      let (h, e) = arc_end pre (k, i) rest m cut in
      let sorted : IsSorted m =
        add_nodes-IsSorted hostname (length n.driver.host_list) n.driver.node_map ok.sorted in
      let arc : Arc m rest k = arc_at pre k i rest m cut sorted in
      let cut' : m ≡ (pre ++ (k, i) ∷ []) ++ rest =
        cut ∙ sym (append_assoc pre ((k, i) ∷ []) rest) in
      elim (add_arc_moves n hostname ip port ok rest k arc k h) [
        | inl (far, same, turn) ↦
            let (n', sent, run, que, moves) =
              add_arcs-Asks rest (pre ++ (k, i) ∷ []) n ok cut' small in
            (n', sent, one_turn n n m rest k i h e turn ∙ run, que, moves)
        | inr (near, s, src, at, old, new, turn) ↦
            let n1 : Node = move_asked n hostname ip port ok rest k arc k h src in
            let ok1 : Joining n1 hostname = record {
              sorted = ok.sorted;
              within = ok.within;
              enough = ok.enough;
            } in
            let (msg, one) = move_asked-sends n ok rest k h arc src in
            let (n', sent, run, que, moves) =
              add_arcs-Asks rest (pre ++ (k, i) ∷ []) n1 ok1 cut' (omega arith) in
            (
              n',
              msg ∷ sent,
              one_turn n n1 m rest k i h e turn ∙ run,
              que ∙ ap (λ q. q ++ sent) one ∙ append_assoc n.send_que (msg ∷ []) sent,
              omega (arith, moves),
            )
      ]

  -- When the server is not paused, the ring is sorted, its owners are indices of the host list, and
  -- at least four servers own a node of the new ring, `addServer` comes to its wait for the moves,
  -- and it waits for as many moves as it has sent messages.
  pub add_server_asks :
      (n : Node)
      → n.driver.enable_flag ≡ false
      → Joining n hostname
      → (n' : Node) × (sent : List Message) × (add_server_start n hostname ip port ≡ some (some n'))
        × (n'.send_que ≡ n.send_que ++ sent)
        × (n'.driver.move_cnt ≡ length sent % 0x1_0000_0000)
  unfolding add_server_start
  add_server_asks n running ok =
      let n0 : Node = with_driver n (record (n.driver) { move_cnt = 0 }) in
      let ok0 : Joining n0 hostname = record {
        sorted = ok.sorted;
        within = ok.within;
        enough = ok.enough;
      } in
      let m : NodeMap = joined n hostname in
      let (n', sent, run, que, moves) = add_arcs-Asks m [] n0 ok0 refl (omega arith) in
      let finish : Node → Option (Option Node) = λ n1. some (some n1) in
      let start : add_server_start n hostname ip port ≡ some (some n') =
        ap (λ b. if b then some none else (add_arcs n0 ip port m m >>= finish)) running
        ∙ ap (λ o. o >>= finish) run in
      (n', sent, start, que, omega (arith, moves))
