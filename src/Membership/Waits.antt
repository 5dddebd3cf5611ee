-- ===== src/Membership/Waits.antt =====
-- src/driver.cpp, the wait for the servers in `addServer` and `removeServer`: how many answers end
-- it, if
-- the thread sleeps when they come, and that it may not end.
use thkvs.Base.{
  ℕ, suc, ◌≤◌, ◌<◌, ◌≡◌, refl, ap, ◌∙◌, List, [], ◌∷◌, false, length, ◌==◌, if◌then◌else◌, Text,
  sub32, arith,
}
use thkvs.Membership.{
  add_all_servers, add_server_announce, add_server_return, remove_from_all, remove_server_announce,
  remove_server_return,
}
use thkvs.Membership.Calls.{joins, leaves, announcing, resuming, advance, proceed}
use thkvs.Pause.{set_enable_flag}
use thkvs.State.{Node, Host}
use thkvs.Wait.{
  looks, falls_asleep, sleeps, answered, notified, woken, turns, woken_counts, notified_missed,
}

-- An answer of a server: its id and its status.
abbrev pub server_joined : ℕ × ℕ → Node → Node
server_joined (id, status) n = add_server_return n id status

abbrev pub server_left : ℕ × ℕ → Node → Node
server_left (id, status) n = remove_server_return n id status

add_all_servers-driver :
    (n : Node) (id : ℕ) (hostname ip : Text) (port : ℕ) (hosts : List Host)
    → (add_all_servers n id hostname ip port hosts).driver.server_cnt ≡ n.driver.server_cnt
unfolding add_all_servers
add_all_servers-driver n id hostname ip port [] = refl
add_all_servers-driver n id hostname ip port (host ∷ hosts) =
    add_all_servers-driver _ id hostname ip port hosts

remove_from_all-driver :
    (n : Node) (id : ℕ) (hostname : Text) (hosts : List Host)
    → (remove_from_all n id hostname hosts).driver.server_cnt ≡ n.driver.server_cnt
unfolding remove_from_all
remove_from_all-driver n id hostname [] = refl
remove_from_all-driver n id hostname (host ∷ hosts) = remove_from_all-driver _ id hostname hosts

answered-server_cnt :
    (f : ℕ × ℕ → Node → Node)
    → ((x : ℕ × ℕ) (m : Node) → (f x m).driver.server_cnt ≡ sub32 m.driver.server_cnt 1)
    → (answers : List (ℕ × ℕ)) (n : Node) (c : ℕ) → n.driver.server_cnt ≡ c
    → c < 0x1_0000_0000
    → length answers ≤ c
    → (answered f answers n).driver.server_cnt ≡ sub32 c (length answers)
unfolding answered
answered-server_cnt f counts [] n c e small l = omega (arith, e)
answered-server_cnt f counts (x ∷ xs) n c e small l =
    answered-server_cnt f counts xs (f x n) (sub32 c 1) (counts x n ∙ ap (λ k. sub32 k 1) e)
      (omega arith) (omega arith)
    ∙ omega arith

-- After `addServer` has told the servers, fewer than 2 ^ 32, answers come, no more than there are
-- servers, and as many are left to come as the count says. If the thread sleeps in its wait when
-- each of them comes, it goes on
-- at the last, and asks the servers to end the pause, and until then it sleeps. If it has looked
-- at the count before they come, and sleeps behind them, it sleeps however many steps it gets, even
-- when all have come.
pub join_waits :
    (n : Node) (hostname ip : Text) (port : ℕ) (answers : List (ℕ × ℕ))
    → 0 < length n.driver.host_list
    → length n.driver.host_list < 0x1_0000_0000
    → length answers ≤ length n.driver.host_list
    → let start = add_server_announce n hostname ip port in
      let n' = answered server_joined answers start in
      let thread = advance (joins hostname ip port) in
      (n'.driver.server_cnt ≡ sub32 (length n.driver.host_list) (length answers))
      × (woken server_joined thread answers (announcing, sleeps, start) ≡ (
          if length answers == length n.driver.host_list
          then (resuming, looks, set_enable_flag n' false)
          else (announcing, sleeps, n')))
      × ((k : ℕ)
          → turns server_joined thread
              (suc k)
              (notified server_joined answers (announcing, falls_asleep, start))
            ≡ (announcing, sleeps, n'))
unfolding advance add_server_announce add_server_return proceed
join_waits n hostname ip port answers some_host big l =
    let start = add_server_announce n hostname ip port in
    let thread = advance (joins hostname ip port) in
    let next = proceed (joins hostname ip port) announcing in
    let count = add_all_servers-driver _ _ hostname ip port n.driver.host_list in
    (
      answered-server_cnt server_joined (λ x m. refl) answers start (length n.driver.host_list)
          count big l,
      woken_counts server_joined thread announcing next (λ m. m.driver.server_cnt) (λ w m. refl)
          (λ x m. refl) answers start (length n.driver.host_list) count some_host big l,
      λ k.
          notified_missed server_joined thread announcing next (λ m. m.driver.server_cnt)
            (λ w m. refl) (λ x m. refl) answers start k,
    )

-- After `removeServer` has told the servers, two or more, its thread sleeps in its wait, and all of
-- them will
-- answer. It goes on when all but one have answered, before the last answer.
pub leave_waits :
    (n : Node) (hostname : Text) (answers : List (ℕ × ℕ))
    → 1 < length n.driver.host_list
    → length n.driver.host_list < 0x1_0000_0000
    → length answers < length n.driver.host_list
    → let start = remove_server_announce n hostname in
      let n' = answered server_left answers start in
      woken server_left (advance (leaves hostname)) answers (announcing, sleeps, start) ≡ (
        if length answers == sub32 (length n.driver.host_list) 1
        then (resuming, looks, set_enable_flag n' false)
        else (announcing, sleeps, n'))
unfolding advance remove_server_announce remove_server_return proceed
leave_waits n hostname answers some_host big l =
    woken_counts server_left (advance (leaves hostname)) announcing
      (proceed (leaves hostname) announcing) (λ m. m.driver.server_cnt) (λ w m. refl) (λ x m. refl)
      answers (remove_server_announce n hostname) (sub32 (length n.driver.host_list) 1)
      (remove_from_all-driver _ _ hostname n.driver.host_list) (omega arith) (omega arith)
      (omega arith)
