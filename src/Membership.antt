-- ===== src/Membership.antt =====
-- src/driver.cpp, the servers that join and leave. `addServer` and `removeServer` wait on condition
-- variables in between: they are split at the waits, and `Calls.advance` runs one part when its wait is
-- over. What another thread does meanwhile is a step of its own (`Calls`). `none` is a loop that does not end,
-- or a read out of bounds; a wait that is not over leaves everything as it is.
pub mod Calls
pub mod Rebuild
pub mod Successors
pub mod Around
pub mod Arcs
pub mod Copies
pub mod Start
pub mod Depart
pub mod Endless
pub mod Waits
use thkvs.Base.{
  ℕ, suc, ◌+◌, List, [], ◌∷◌, ◌++◌, map, Bool, true, false, not, ◌||◌, Option, none, some, ◌>>=◌,
  elem, length, get_elem?, ltb, ◌==◌, if◌then◌else◌, Text, text_eq, add32, sub32,
}
use thkvs.Driver.{hostnames, with_driver}
use thkvs.Ring.{NodeMap, wrap, cycle, laps, add_nodes, add_hosts}
use thkvs.Ring.Distinct.{add_new}
use thkvs.Send.{send_add_server, send_remove_server, send_move}
use thkvs.State.{Node, Driver, Host, replica_n}

-- One round of the loops over the successors of an arc: `succ`, and whether `host` has been seen.
unfoldable pub visit_successor : ℕ → List ℕ × Bool → ℕ → List ℕ × Bool
unfolding add_new
visit_successor host (succ, cur_flag) i = (add_new succ i, i == host || cur_flag)

abbrev pub to_nat : Bool → ℕ
to_nat true = 1
to_nat false = 0

-- `succ.size() < THKVS_N + curFlag`
abbrev pub wants_more : List ℕ × Bool → Bool
wants_more s = ltb (length s.0) (replica_n + to_nat s.1)

-- The first hosts past the arc that ends at `jter`: three of them, or four if `host` is among those.
unfoldable pub successors : ℕ → NodeMap → NodeMap → Option (List ℕ × Bool)
unfolding cycle visit_successor
successors host m jter = cycle (laps m) wants_more (visit_successor host) m jter ([], false)

abbrev pub first_key : NodeMap → Option ℕ
first_key [] = none
first_key ((k, i) ∷ m) = some k

abbrev pub last : List ℕ → Option ℕ
last [] = none
last (x ∷ []) = some x
last (x ∷ y ∷ xs) = last (y ∷ xs)

-- `moveCnt++; opid++; id = opid.load();`
next_move : Node → Node × ℕ
next_move n =
    let d = record (n.driver) {
      move_cnt = add32 n.driver.move_cnt 1;
      opid = add32 n.driver.opid 1;
    } in
    (with_driver n d, d.opid)

-- The body of the loop over the arcs: the host that loses its copy of the arc sends it.
unfoldable pub add_arc : Node → Text → ℕ → ℕ → ℕ → List ℕ → Option Node
unfolding next_move send_move
add_arc n ip port hash_begin hash_end succ =
    if not (ltb replica_n (length succ)) then some n else do
      let (n', id) = next_move n
      back ← last succ
      srchost ← get_elem? n.driver.host_list back
      let l = n.driver.localhost
      some (send_move n' id l.ip l.port srchost.ip srchost.port ip port hash_begin hash_end true)

-- The loop over the arcs of the map with the new server's nodes; `iter` is what is left of it.
unfoldable pub add_arcs : Node → Text → ℕ → NodeMap → NodeMap → Option Node
unfolding successors add_arc
add_arcs n ip port m [] = some n
add_arcs n ip port m ((hash_begin, i) ∷ rest) = do
  hash_end ← first_key (wrap m rest)
  (succ, cur_flag) ← successors (length n.driver.host_list) m (wrap m rest)
  n' ← add_arc n ip port hash_begin hash_end succ
  add_arcs n' ip port m rest

-- `addServer` from its first test to the wait for the moves. `none` inside: it returns 1.
unfoldable pub add_server_start : Node → Text → Text → ℕ → Option (Option Node)
unfolding add_arcs
add_server_start n hostname ip port = if n.driver.enable_flag then some none else do
  let d = n.driver
  let tmp_map = add_nodes hostname (length d.host_list) d.node_map
  n' ← add_arcs (with_driver n (record d { move_cnt = 0 })) ip port tmp_map tmp_map
  some (some n')

add_all_servers : Node → ℕ → Text → Text → ℕ → List Host → Node
unfolding send_add_server
add_all_servers n id hostname ip port [] = n
add_all_servers n id hostname ip port (host ∷ hosts) =
    let l = n.driver.localhost in
    add_all_servers (send_add_server n id l.ip l.port host.ip host.port hostname ip port) id
      hostname ip port hosts

-- `addServer` from the end of `setEnableFlag(1)` to the wait for the servers.
unfoldable pub add_server_announce : Node → Text → Text → ℕ → Node
unfolding add_all_servers
add_server_announce n hostname ip port =
    let d = n.driver in
    let d' = record d { server_cnt = length d.host_list; opid = add32 d.opid 1 } in
    add_all_servers (with_driver n d') d.opid hostname ip port d.host_list

unfoldable pub act_add_server : Node → Text → Text → ℕ → Node
act_add_server n hostname ip port =
    let d = n.driver in
    let host : Host = record { hostname = hostname; ip = ip; port = port; count = 0 } in
    with_driver n (record d {
      host_list = d.host_list ++ host ∷ [];
      node_map = add_nodes hostname (length d.host_list) d.node_map;
    })

unfoldable pub add_server_return : Node → ℕ → ℕ → Node
add_server_return n id status =
    with_driver n (record (n.driver) { server_cnt = sub32 n.driver.server_cnt 1 })

-- The index of the last host of that name.
unfoldable pub host_id : Text → ℕ → List Host → Option ℕ
host_id hostname i [] = none
host_id hostname i (host ∷ hosts) = elim (host_id hostname (i + 1) hosts) [
  | some j ↦ some j
  | none ↦ if text_eq host.hostname hostname then some i else none
]

-- `tmpid`: the first successor that stays.
unfoldable pub first_other : ℕ → List ℕ → Option ℕ
first_other host [] = none
first_other host (x ∷ succ) = if x == host then get_elem? succ 0 else some x

-- The body of the loop over the arcs: the arc is copied to the host that gets a copy of it.
unfoldable pub remove_arc : Node → ℕ → ℕ → ℕ → List ℕ → Option Node
unfolding next_move send_move first_other
remove_arc n hostid hash_begin hash_end succ =
    if not (ltb replica_n (length succ)) then some n else do
      let (n', id) = next_move n
      src ← first_other hostid succ
      srchost ← get_elem? n.driver.host_list src
      back ← last succ
      desthost ← get_elem? n.driver.host_list back
      let l = n.driver.localhost
      some (
          send_move n' id l.ip l.port srchost.ip srchost.port desthost.ip desthost.port hash_begin
            hash_end false)

unfoldable pub remove_arcs : Node → ℕ → NodeMap → NodeMap → Option Node
unfolding successors remove_arc
remove_arcs n hostid m [] = some n
remove_arcs n hostid m ((hash_begin, i) ∷ rest) = do
  hash_end ← first_key (wrap m rest)
  (succ, cur_flag) ← successors hostid m (wrap m rest)
  n' ← remove_arc n hostid hash_begin hash_end succ
  remove_arcs n' hostid m rest

unfoldable pub remove_server_start : Node → Text → Option (Option Node)
unfolding remove_arcs host_id
remove_server_start n hostname =
    if n.driver.enable_flag then some none else elim (host_id hostname 0 n.driver.host_list) [
      | none ↦ some none
      | some hostid ↦ do
        let d = n.driver
        n' ← remove_arcs (with_driver n (record d { move_cnt = 0 })) hostid d.node_map d.node_map
        some (some n')
    ]

remove_from_all : Node → ℕ → Text → List Host → Node
unfolding send_remove_server
remove_from_all n id hostname [] = n
remove_from_all n id hostname (host ∷ hosts) =
    let l = n.driver.localhost in
    remove_from_all (send_remove_server n id l.ip l.port host.ip host.port hostname) id hostname
      hosts

unfoldable pub remove_server_announce : Node → Text → Node
unfolding remove_from_all
remove_server_announce n hostname =
    let d = n.driver in
    let d' = record d { server_cnt = sub32 (length d.host_list) 1; opid = add32 d.opid 1 } in
    remove_from_all (with_driver n d') d.opid hostname d.host_list

-- The hosts of another name, in their order.
unfoldable pub other_hosts : Text → List Host → List Host
other_hosts hostname [] = []
other_hosts hostname (host ∷ hosts) =
    if not (text_eq host.hostname hostname)
    then host ∷ other_hosts hostname hosts
    else other_hosts hostname hosts

unfoldable pub act_remove_server : Node → Text → Node
unfolding other_hosts
act_remove_server n hostname =
    let hosts = other_hosts hostname n.driver.host_list in
    with_driver n
      (record (n.driver) { host_list = hosts; node_map = add_hosts 0 (hostnames hosts) [] })

unfoldable pub remove_server_return : Node → ℕ → ℕ → Node
remove_server_return n id status =
    with_driver n (record (n.driver) { server_cnt = sub32 n.driver.server_cnt 1 })

unfoldable pub move_return : Node → ℕ → ℕ → Node
move_return n id status = with_driver n (record (n.driver) { move_cnt = sub32 n.driver.move_cnt 1 })
