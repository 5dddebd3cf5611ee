-- ===== src/Tests/Servers.antt =====
-- Servers that join and leave: the theorems on the ring and on the moves at one input each.
use thkvs.Base.{
  suc, ◌%◌, ℕ, ◌≤◌, ◌≡◌, refl, ◌⊎◌, List, [], ◌∷◌, ◌++◌, true, false, none, some, elem, length,
  codes, arith,
}
use thkvs.Driver.{new}
use thkvs.Membership.Start.{add_server_asks}
use thkvs.Message.{Message}
use thkvs.Membership.{
  add_server_start, wants_more, visit_successor, act_add_server, act_remove_server,
  add_server_announce,
}
use thkvs.Membership.Around.{Arc}
use thkvs.Membership.Arcs.{Joining, joined, Stays, Moves, add_arc_moves}
use thkvs.Membership.Calls.{joins, announcing, advance}
use thkvs.Membership.Endless.{successors_endless}
use thkvs.Membership.Rebuild.{join, leave, apply_all, history_ring, join_leave}
use thkvs.Membership.Waits.{server_joined, join_waits}
use thkvs.Wait.{falls_asleep, sleeps, answered, notified, woken, turns}
use thkvs.Ring.{NodeMap, owners, wrap, cycle, add_nodes}
use thkvs.Ring.Count.{length-add_nodes, length-clockwise}
use thkvs.Ring.Distinct.{add_all}
use thkvs.Ring.Sorted.{IsSorted, OwnersBelow, add_nodes-IsSorted}
use thkvs.Ring.Succession.{replicas, drop_host, replicas_change}
use thkvs.State.{Node}
use thkvs.Tests.{ring-IsSorted, four_there, ring, four, server, server-IsServing, host}

server-Joining : Joining server (codes "e")
server-Joining = record {
  sorted = ring-IsSorted;
  within = server-IsServing.within;
  enough = omega (arith, four_there, length-add_nodes (codes "e") 4 ring);
}

-- The first arc of a map that is not empty.
abbrev start_of : NodeMap → ℕ
start_of [] = 0
start_of ((k, i) ∷ m) = k

abbrev tail : NodeMap → NodeMap
tail [] = []
tail (x ∷ m) = m

first_arc :
    (m : NodeMap) → 4 ≤ length (add_all [] (owners m)) → IsSorted m → Arc m (tail m) (start_of m)
unfolding add_all
first_arc [] l s = absurd (omega arith)
first_arc ((k, i) ∷ m) l s = record {
  pre = [];
  first = k;
  owner = i;
  cut = refl;
  from = omega arith;
  to = s;
}

abbrev larger : NodeMap
larger = joined server (codes "e")

larger_arc : Arc larger (tail larger) (start_of larger)
larger_arc =
    first_arc larger server-Joining.enough (add_nodes-IsSorted (codes "e") 4 ring ring-IsSorted)

add_arc_moves_example :
    Stays server
      (codes "e")
      (codes "::1")
      8005
      server-Joining
      (tail larger)
      (start_of larger)
      larger_arc
      10
      20
    ⊎ Moves server
        (codes "e")
        (codes "::1")
        8005
        server-Joining
        (tail larger)
        (start_of larger)
        larger_arc
        10
        20
add_arc_moves_example =
    add_arc_moves server (codes "e") (codes "::1") 8005 server-Joining (tail larger)
      (start_of larger) larger_arc 10 20

add_server_asks_example :
    (n' : Node) × (sent : List Message) × (add_server_start server (codes "e") (codes "::1") 8005
      ≡ some (some n'))
    × (n'.send_que ≡ sent)
    × (n'.driver.move_cnt ≡ length sent % 0x1_0000_0000)
add_server_asks_example = add_server_asks (codes "e") (codes "::1") 8005 server refl server-Joining

replicas_change_example :
    let now = replicas 3 25 (add_nodes (codes "e") 4 ring) in
    ((elem 4 now ≡ false) × (replicas 3 25 ring ≡ now))
    ⊎ ((elem 4 now ≡ true)
        × (replicas 3 25 ring ≡ drop_host 4 (replicas 4 25 (add_nodes (codes "e") 4 ring))))
replicas_change_example =
    replicas_change (codes "e") 4 3 25 ring server-IsServing.within
      (omega (arith, server-Joining.enough, length-clockwise 25 (add_nodes (codes "e") 4 ring)))

abbrev changed : Node
changed = record server { driver = new (host (codes "a") 8001) four }

history_ring_example :
    let d =
      (apply_all changed (join (codes "e") (codes "::1") 8005 ∷ leave (codes "b") ∷ [])).driver in
    (d.node_map ≡ (new (host (codes "a") 8001) d.host_list).node_map)
    × IsSorted d.node_map
    × OwnersBelow (length d.host_list) d.node_map
history_ring_example =
    history_ring changed (host (codes "a") 8001) four
      (join (codes "e") (codes "::1") 8005 ∷ leave (codes "b") ∷ []) refl

join_leave_example :
    act_remove_server (act_add_server changed (codes "e") (codes "::1") 8005) (codes "e") ≡ changed
unfolding new
join_leave_example =
    join_leave changed (codes "e") (codes "::1") 8005 refl (refl, (refl, (refl, (refl, tt))))

five_met : 4 ≤ length (add_all [] (owners ((30, 2) ∷ (40, 3) ∷ (50, 0) ∷ []) ++ owners ring))
unfolding add_all
five_met = omega arith

abbrev small : NodeMap
small = (10, 0) ∷ (20, 1) ∷ (30, 2) ∷ []

three_met : length (add_all [] (owners small)) ≤ 3
unfolding add_all
three_met = omega arith

successors_endless_example :
    cycle 1000 wants_more (visit_successor 1) small (wrap small ((30, 2) ∷ [])) ([], false) ≡ none
successors_endless_example =
    successors_endless 1 small refl three_met ((10, 0) ∷ (20, 1) ∷ []) ((30, 2) ∷ []) refl 1000

abbrev three_answers : List (ℕ × ℕ)
three_answers = (7, 0) ∷ (7, 0) ∷ (7, 0) ∷ []

abbrev told : Node
told = add_server_announce server (codes "e") (codes "::1") 8005

join_waits_example :
    ((answered server_joined three_answers told).driver.server_cnt ≡ 1)
    × (woken server_joined
          (advance (joins (codes "e") (codes "::1") 8005))
          three_answers
          (announcing, sleeps, told)
        ≡ (announcing, sleeps, answered server_joined three_answers told))
    × ((k : ℕ)
        → turns server_joined
            (advance (joins (codes "e") (codes "::1") 8005))
            (suc k)
            (notified server_joined three_answers (announcing, falls_asleep, told))
          ≡ (announcing, sleeps, answered server_joined three_answers told))
join_waits_example =
    join_waits server (codes "e") (codes "::1") 8005 three_answers (omega arith) (omega arith)
      (omega arith)
