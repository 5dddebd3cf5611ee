-- ===== src/Driver.antt =====
-- src/driver.cpp, the requests: a key's replicas, `put` and `get` to them, and their answers. A
-- block that holds `mu` is one step, and so is each function here: what other threads do between
-- two blocks of one function is not modelled. `none` is a loop that does not end, or a read out of
-- bounds.
pub mod Entries
pub mod Hosts
pub mod Quorum
pub mod Reads
pub mod ReadQuorum
pub mod Freshness
pub mod Sent
pub mod Requests
use thkvs.Base.{
  ℕ, ◌+◌, List, [], ◌∷◌, ◌++◌, map, Bool, true, false, not, ◌||◌, Option, none, some, ◌>>=◌, elem,
  length, get_elem?, modify, lookup, emplace, erase, assign, ltb, ◌==◌, if◌then◌else◌, Text, add32,
  sub32, leb_int, minus_one, bit_xor,
}
use thkvs.Base.Int.{ℤ, ltb_ℤ}
use thkvs.Crc.{get_crc}
use thkvs.Jobs.{insert_get_result, insert_put_result}
use thkvs.Ring.{upper_bound, wrap, cycle, laps, add_hosts}
use thkvs.Ring.Distinct.{add_new}
use thkvs.Send.{send_put, send_get}
use thkvs.State.{
  Node, Driver, Host, SyncEntry, replica_n, read_r, write_w, new_sync_entry, new_enable_flag_entry,
}

abbrev pub hostnames : List Host → List Text
hostnames = map (λ h. h.hostname)

-- The constructor, from what the file `config` lists: this server, and all the servers.
unfoldable pub new : Host → List Host → Driver
new localhost hosts = record {
  node_map = add_hosts 0 (hostnames hosts) [];
  entries = [];
  host_list = hosts;
  localhost = localhost;
  enable_flag_entry = new_enable_flag_entry;
  enable_flag = false;
  opid = 0;
  server_cnt = 0;
  enable_cnt = 0;
  move_cnt = 0;
}

abbrev pub with_driver : Node → Driver → Node
with_driver n d = record n { driver = d }

-- `hostList[i].count++`
unfoldable pub count_host : ℕ → List Host → Option (List Host)
count_host i host_list = do
  host ← get_elem? host_list i
  some (modify host_list i (λ h. record h { count = add32 h.count 1 }))

-- One round of the loop of `getHosts`: a host that is new is chosen, and its `count` goes up. With
-- `none` for the list of hosts, an access to it was out of bounds.
unfoldable pub visit : List ℕ × Option (List Host) → ℕ → List ℕ × Option (List Host)
unfolding add_new count_host
visit (hosts, host_list) i =
    (add_new hosts i, if elem i hosts then host_list else host_list >>= count_host i)

-- The status that is returned, `hosts`, and the driver with the counts.
unfoldable pub get_hosts : Driver → Text → Option (ℕ × List ℕ × Driver)
unfolding upper_bound cycle visit get_crc
get_hosts d key = if ltb (length d.host_list) replica_n then some (1, [], d) else do
  let iter = wrap d.node_map (upper_bound (get_crc key) d.node_map)
  (hosts, counted) ←
      cycle (laps d.node_map) (λ s. ltb (length s.0) replica_n) visit d.node_map iter
        ([], some d.host_list)
  host_list ← counted
  some (0, hosts, record d { host_list = host_list })

-- `id = opid++; entries.emplace(id, entry);`
unfoldable pub open_entry : Driver → Driver × ℕ
unfolding emplace
open_entry d =
    let id = d.opid in
    (record d { opid = add32 d.opid 1; entries = emplace id new_sync_entry d.entries }, id)

unfoldable pub put_to : Node → ℕ → Text → Text → List ℕ → Option Node
unfolding send_put
put_to n id key value [] = some n
put_to n id key value (host_idx ∷ hosts) = do
  host ← get_elem? n.driver.host_list host_idx
  let l = n.driver.localhost
  put_to (send_put n id l.ip l.port host.ip host.port key value) id key value hosts

unfoldable pub put_finish : Node → ℕ → ℕ → Node
unfolding insert_put_result
put_finish n id status = insert_put_result n id status

-- The request from its second block on.
unfoldable pub start_put : Node → Text → Text → Option (Node × ℕ)
start_put n key value = do
  let (d, id) = open_entry n.driver
  (status, hosts, d') ← get_hosts d key
  n' ← put_to (with_driver n d') id key value hosts
  some (n', id)

-- While the server is paused the request ends at once, under the id -1, and 0 is returned.
unfoldable pub put : Node → Text → Text → Option (Node × ℕ)
put n key value =
    if n.driver.enable_flag then some (put_finish n minus_one 2, 0) else start_put n key value

-- `tot++; suc += status ^ 1;`
unfoldable pub count_answer : ℕ → SyncEntry → SyncEntry
count_answer status e = record e { tot = add32 e.tot 1; suc = add32 e.suc (bit_xor status 1) }

-- `suc >= quorum || tot - suc > THKVS_N - quorum`
unfoldable pub is_settled : ℕ → SyncEntry → Bool
is_settled quorum e =
    leb_int quorum e.suc || not (leb_int (sub32 e.tot e.suc) (sub32 replica_n quorum))

-- `flag = 2 + status`, and after the block `if (flag > 1)` with the status `flag - 2`.
abbrev pub finish_with : ℕ → (ℕ → Node) → Node → Node
finish_with status finish n =
    let flag = add32 2 status in if leb_int flag 1 then n else finish (sub32 flag 2)

unfoldable pub put_return : Node → ℕ → ℕ → Node
unfolding count_answer is_settled put_finish erase assign
put_return n id status = elim (lookup id n.driver.entries) [
  | none ↦ n
  | some old ↦
      let entry = count_answer status old in
      let d = n.driver in
      let n' = with_driver n (record d { entries = erase id d.entries }) in
      if is_settled write_w entry
      then finish_with status (put_finish n' id) n'
      else with_driver n (record d { entries = assign id entry d.entries })
]

unfoldable pub get_to : Node → ℕ → Text → List ℕ → Option Node
unfolding send_get
get_to n id key [] = some n
get_to n id key (host_idx ∷ hosts) = do
  host ← get_elem? n.driver.host_list host_idx
  let l = n.driver.localhost
  get_to (send_get n id l.ip l.port host.ip host.port key) id key hosts

unfoldable pub get_finish : Node → ℕ → ℕ → Text → Node
unfolding insert_get_result
get_finish n id status value = insert_get_result n id status value

unfoldable pub start_get : Node → Text → Option (Node × ℕ)
start_get n key = do
  let (d, id) = open_entry n.driver
  (status, hosts, d') ← get_hosts d key
  n' ← get_to (with_driver n d') id key hosts
  some (n', id)

unfoldable pub get : Node → Text → Option (Node × ℕ)
get n key = if n.driver.enable_flag then some (get_finish n minus_one 2 [], 0) else start_get n key

-- A value that was found replaces an older one.
unfoldable pub take_newer : ℕ → ℤ → Text → SyncEntry → SyncEntry
take_newer status timestamp value e =
    if status == 0
    then (if ltb_ℤ e.timestamp timestamp
        then record e { timestamp = timestamp; value = value }
        else e)
    else e

-- The value is read behind `entries.erase(id)`, through a reference to the entry: `freed` is what a
-- text reads as when its memory has been freed.
unfoldable pub get_return : (Text → Text) → Node → ℕ → ℕ → ℤ → Text → Node
unfolding count_answer take_newer is_settled get_finish erase assign
get_return freed n id status timestamp value = elim (lookup id n.driver.entries) [
  | none ↦ n
  | some old ↦
      let entry = take_newer status timestamp value (count_answer status old) in
      let d = n.driver in
      let n' = with_driver n (record d { entries = erase id d.entries }) in
      if is_settled read_r entry
      then finish_with status (λ s. get_finish n' id s (freed entry.value)) n'
      else with_driver n (record d { entries = assign id entry d.entries })
]
