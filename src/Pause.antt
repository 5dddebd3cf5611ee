-- ===== src/Pause.antt =====
-- src/driver.cpp, the pause of all servers: `setEnableFlag` asks each of them to set its flag, and
-- waits for their answers.
pub mod Race
use thkvs.Base.{ℕ, List, [], ◌∷◌, Bool, Option, none, some, length, add32, sub32}
use thkvs.Driver.{with_driver}
use thkvs.Send.{send_set_enable_flag}
use thkvs.State.{Node, Host}

flag_all : Node → ℕ → Bool → List Host → Node
unfolding send_set_enable_flag
flag_all n id flag [] = n
flag_all n id flag (host ∷ hosts) =
    let l = n.driver.localhost in
    flag_all (send_set_enable_flag n id l.ip l.port host.ip host.port flag) id flag hosts

-- `setEnableFlag` up to its wait for `enableCnt == 0`.
unfoldable pub set_enable_flag : Node → Bool → Node
unfolding flag_all
set_enable_flag n flag =
    let d = n.driver in
    let id = d.opid in
    let d' = record d {
      opid = add32 id 1;
      enable_flag_entry = record { cnt = 0; id = id };
      enable_cnt = length d.host_list;
    } in
    flag_all (with_driver n d') id flag d.host_list

-- `none`: the call waits until there is no entry.
unfoldable pub act_set_enable_flag : Node → Bool → Option Node
act_set_enable_flag n flag = elim n.driver.entries [
  | [] ↦ some (with_driver n (record (n.driver) { enable_flag = flag }))
  | e ∷ es ↦ none
]

unfoldable pub set_enable_flag_return : Node → ℕ → ℕ → Node
set_enable_flag_return n id status =
    with_driver n (record (n.driver) { enable_cnt = sub32 n.driver.enable_cnt 1 })
