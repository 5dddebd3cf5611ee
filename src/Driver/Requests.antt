-- ===== src/Driver/Requests.antt =====
-- src/driver.cpp, `put` and `get`: what they send, and where they fail.
use mathlib.Core.List.{append-nil}
use thkvs.Base.{
  ℕ, ◌<◌, ◌≡◌, ap, ◌∙◌, List, [], ◌++◌, true, false, some, ◌>>=◌, All, length, emplace,
  if◌then◌else◌, Text, add32, minus_one,
}
use thkvs.Crc.{get_crc}
use thkvs.Driver.{
  put, get, start_put, start_get, get_finish, put_to, open_entry, put_finish, with_driver,
}
use thkvs.Driver.Hosts.{addresses, length-addresses, HasReplicas, get_hosts_lem, get_hosts_few}
use thkvs.Driver.Sent.{to_each, put_message, get_message, put_to-to_each, get_to-to_each}
use thkvs.Jobs.{insert_put_result}
use thkvs.Message.{Message}
use thkvs.Ring.Count.{replicas-below}
use thkvs.Ring.Sorted.{OwnersBelow}
use thkvs.Ring.Succession.{replicas}
use thkvs.State.{Node, Host, replica_n, new_sync_entry}

-- The hosts to which a request goes, and the state from which it starts.
pub record IsServing (n : Node) : Type 0 where
  pub running : n.driver.enable_flag ≡ false
  pub enough : HasReplicas n.driver
  pub within : OwnersBelow (length n.driver.host_list) n.driver.node_map

abbrev pub after_request : Node → List Host → List Message → Node
after_request n list messages = record n {
  driver = record (n.driver) {
    opid = add32 n.driver.opid 1;
    entries = emplace n.driver.opid new_sync_entry n.driver.entries;
    host_list = list;
  };
  send_que = n.send_que ++ messages;
}

put-start :
    (n : Node) (key value : Text)
    → n.driver.enable_flag ≡ false
    → put n key value ≡ start_put n key value
unfolding put
put-start n key value e =
    ap (λ b. if b then some (put_finish n minus_one 2, 0) else start_put n key value) e

get-start : (n : Node) (key : Text) → n.driver.enable_flag ≡ false → get n key ≡ start_get n key
unfolding get
get-start n key e = ap (λ b. if b then some (get_finish n minus_one 2 [], 0) else start_get n key) e

module _ (n : Node) (key : Text) (enough : HasReplicas n.driver)
    (within : OwnersBelow (length n.driver.host_list) n.driver.node_map) where
  abbrev keepers : List ℕ
  keepers = replicas replica_n (get_crc key) n.driver.node_map

  opened : HasReplicas (open_entry n.driver).0
  unfolding open_entry
  opened = record { servers = enough.servers; on_ring = enough.on_ring }

  keepers-All :
      (list : List Host)
      → addresses list ≡ addresses n.driver.host_list
      → All (λ i. i < length list) keepers
  keepers-All list same =
      rw (length-addresses list n.driver.host_list same) (
        replicas-below (length n.driver.host_list) replica_n (get_crc key) n.driver.node_map within)

  pub start_put_sends :
      (value : Text)
      → (list : List Host) × (start_put n key value
          ≡ some (
            after_request n list (
                to_each
                  (put_message n.driver.localhost n.driver.opid key value)
                  (addresses n.driver.host_list)
                  (replicas replica_n (get_crc key) n.driver.node_map)),
            n.driver.opid,
          ))
        × (addresses list ≡ addresses n.driver.host_list)
  unfolding start_put open_entry
  start_put_sends value =
      let (list, chosen, same) =
        get_hosts_lem (open_entry n.driver).0 key opened (unfold open_entry in within) in
      let n' : Node = with_driver n (record ((open_entry n.driver).0) { host_list = list }) in
      let sent = put_to-to_each n.driver.opid key value keepers n' (keepers-All list same) in
      (list, rw (chosen, start_put, ◌>>=◌, sent, same), same)

  pub start_get_sends :
      (list : List Host) × (start_get n key
        ≡ some (
          after_request n list (
              to_each
                (get_message n.driver.localhost n.driver.opid key)
                (addresses n.driver.host_list)
                (replicas replica_n (get_crc key) n.driver.node_map)),
          n.driver.opid,
        ))
      × (addresses list ≡ addresses n.driver.host_list)
  unfolding start_get open_entry
  start_get_sends =
      let (list, chosen, same) =
        get_hosts_lem (open_entry n.driver).0 key opened (unfold open_entry in within) in
      let n' : Node = with_driver n (record ((open_entry n.driver).0) { host_list = list }) in
      let sent = get_to-to_each n.driver.opid key [] keepers n' (keepers-All list same) in
      (list, rw (chosen, start_get, ◌>>=◌, sent, same), same)

module _ (n : Node) (key : Text) (serving : IsServing n) where
  -- While the server is not paused, `put` opens one entry under the next id, which it returns, and
  -- sends the key and the value to each of the key's three replicas, in their order round the ring.
  -- But for the hosts' counts nothing else changes.
  pub put_sends :
      (value : Text)
      → (list : List Host) × (put n key value
          ≡ some (
            after_request n list (
                to_each
                  (put_message n.driver.localhost n.driver.opid key value)
                  (addresses n.driver.host_list)
                  (replicas replica_n (get_crc key) n.driver.node_map)),
            n.driver.opid,
          ))
        × (addresses list ≡ addresses n.driver.host_list)
  put_sends value =
      let (list, sent, same) = start_put_sends n key serving.enough serving.within value in
      (list, put-start n key value serving.running ∙ sent, same)

  -- While the server is not paused, `get` opens one entry under the next id, which it returns, and
  -- sends the key to each of the key's three replicas, in their order round the ring. But for the
  -- hosts' counts nothing else changes.
  pub get_sends :
      (list : List Host) × (get n key
        ≡ some (
          after_request n list (
              to_each
                (get_message n.driver.localhost n.driver.opid key)
                (addresses n.driver.host_list)
                (replicas replica_n (get_crc key) n.driver.node_map)),
          n.driver.opid,
        ))
      × (addresses list ≡ addresses n.driver.host_list)
  get_sends =
      let (list, sent, same) = start_get_sends n key serving.enough serving.within in
      (list, get-start n key serving.running ∙ sent, same)

-- With fewer than three servers, `put` on a server that is not paused opens an entry under the next
-- id, which it returns, and sends nothing.
pub put_few :
    (n : Node) (key value : Text)
    → n.driver.enable_flag ≡ false
    → length n.driver.host_list < replica_n
    → put n key value ≡ some (after_request n n.driver.host_list [], n.driver.opid)
unfolding start_put open_entry put_to
put_few n key value running few =
    put-start n key value running
    ∙ rw (get_hosts_few (open_entry n.driver).0 key few, start_put, append-nil)

-- While the server is paused the request is refused: a result with status 2 goes to the workers
-- under the id -1, and the caller gets the id 0.
pub put_paused :
    (n : Node) (key value : Text)
    → n.driver.enable_flag ≡ true
    → put n key value ≡ some (insert_put_result n minus_one 2, 0)
unfolding put put_finish
put_paused n key value paused =
    ap (λ b. if b then some (put_finish n minus_one 2, 0) else start_put n key value) paused
