-- ===== src/Membership/Calls.antt =====
-- src/driver.cpp, a call of `addServer` or `removeServer` as a state machine: where it waits, and what
-- comes next.
use thkvs.Base.{ℕ, Bool, true, false, ◌==◌, Text}
use thkvs.Membership.{add_server_announce, remove_server_announce}
use thkvs.Pause.{set_enable_flag}
use thkvs.State.{Node}
use thkvs.Wait.{Waiter, wait}

-- Where a call of `addServer` or `removeServer` waits.
pub data Call : Type 0 where
  joins : Text → Text → ℕ → Call
  leaves : Text → Call

pub data Phase : Type 0 where
  moving pausing announcing resuming finished : Phase

abbrev announce : Call → Node → Node
announce (joins hostname ip port) n = add_server_announce n hostname ip port
announce (leaves hostname) n = remove_server_announce n hostname

-- The condition of each wait, and the part behind it up to the next wait.
abbrev pub is_due : Phase → Node → Bool
is_due moving n = n.driver.move_cnt == 0
is_due pausing n = n.driver.enable_cnt == 0
is_due announcing n = n.driver.server_cnt == 0
is_due resuming n = n.driver.enable_cnt == 0
is_due finished n = false

unfoldable pub proceed : Call → Phase → Node → Phase × Node
unfolding set_enable_flag add_server_announce remove_server_announce
proceed c moving n = (pausing, set_enable_flag n true)
proceed c pausing n = (announcing, announce c n)
proceed c announcing n = (resuming, set_enable_flag n false)
proceed c resuming n = (finished, n)
proceed c finished n = (finished, n)

-- A step of the thread that is in the call.
unfoldable pub advance : Call → Phase × Waiter × Node → Phase × Waiter × Node
unfolding wait proceed
advance c (phase, waiter, n) = wait phase (is_due phase) (proceed c phase) waiter n
