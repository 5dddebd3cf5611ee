-- ===== src/Pause/Race.antt =====
-- src/driver.cpp, a pause that falls between the two blocks of `put`: the one that reads the flag and
-- the one that opens the entry.
use thkvs.Base.{ℕ, ◌≡◌, refl, ap, List, [], ◌∷◌, true, Option, none, some, length, Text}
use thkvs.Crc.{get_crc}
use thkvs.Driver.{with_driver, start_put}
use thkvs.Driver.Hosts.{HasReplicas, addresses}
use thkvs.Driver.Requests.{after_request, start_put_sends}
use thkvs.Driver.Sent.{to_each, put_message}
use thkvs.Pause.{act_set_enable_flag}
use thkvs.Ring.Sorted.{OwnersBelow}
use thkvs.Ring.Succession.{replicas}
use thkvs.State.{Node, Host, SyncEntry, replica_n}

-- While no entry is open a pause takes effect at once. A `put` that has read the flag before, on a
-- server whose keys have their replicas, goes on after it: it opens an entry and sends its messages,
-- though the server is paused.
pub put_race :
    (n : Node) (key value : Text)
    → n.driver.entries ≡ []
    → HasReplicas n.driver
    → OwnersBelow (length n.driver.host_list) n.driver.node_map
    → (n' : Node) × (list : List Host) × (act_set_enable_flag n true ≡ some n')
      × (n'.driver.enable_flag ≡ true)
      × (start_put n' key value
          ≡ some (
            after_request n' list (
                to_each
                  (put_message n.driver.localhost n.driver.opid key value)
                  (addresses n.driver.host_list)
                  (replicas replica_n (get_crc key) n.driver.node_map)),
            n.driver.opid,
          ))
unfolding act_set_enable_flag
put_race n key value idle enough within =
    let n' : Node = with_driver n (record (n.driver) { enable_flag = true }) in
    let enough' : HasReplicas n'.driver = record {
      servers = enough.servers;
      on_ring = enough.on_ring;
    } in
    let (list, sent, same) = start_put_sends n' key enough' within value in
    let taken : List (ℕ × SyncEntry) → Option Node =
      λ entries. elim entries [ [] ↦ some n' | e ∷ es ↦ none ] in
    (n', list, ap taken idle, refl, sent)
