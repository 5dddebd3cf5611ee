-- ===== src/Main/Rounds.antt =====
-- main.cpp, the wait of a round of `test`: which number of results ends it, if the thread sleeps
-- when they
-- come, and that it may not end.
use thkvs.Base.{
  ℕ, zero, suc, ◌<◌, ◌≤◌, if◌then◌else◌, ◌≡◌, refl, ap, ◌∙◌, List, [], ◌∷◌, ◌==◌, length, Text,
  sub32, arith,
}
use thkvs.Jobs.{insert_put, insert_get}
use thkvs.Main.{
  Round, puts, gets, requests, put_times, get_times, store_cnt, start_round, next_round, test_step,
}
use thkvs.State.{Node, Job}
use thkvs.Wait.{
  looks, falls_asleep, sleeps, answered, notified, woken, turns, woken_counts, notified_missed,
}
use thkvs.WorkerLoop.{run_result}

put_times-test_cnt :
    (times : ℕ) (key value : Text) (n : Node)
    → (put_times times key value n).worker.test_cnt ≡ n.worker.test_cnt
unfolding put_times insert_put
put_times-test_cnt zero key value n = refl
put_times-test_cnt (suc times) key value n =
    put_times-test_cnt times key value (insert_put n key value).0

get_times-test_cnt :
    (times : ℕ) (key : Text) (n : Node)
    → (get_times times key n).worker.test_cnt ≡ n.worker.test_cnt
unfolding get_times insert_get
get_times-test_cnt zero key n = refl
get_times-test_cnt (suc times) key n = get_times-test_cnt times key (insert_get n key).0

start_round-test_cnt : (r : Round) (n : Node) → (start_round r n).worker.test_cnt ≡ requests r
unfolding start_round
start_round-test_cnt (puts times key value) n =
    put_times-test_cnt times key value (store_cnt times n)
start_round-test_cnt (gets times key) n = get_times-test_cnt times key (store_cnt times n)

-- A worker thread that counts a result.
abbrev pub result : Job → Node → Node
result j n = run_result n j

answered-test_cnt :
    (js : List Job) (n : Node) (c : ℕ)
    → n.worker.test_cnt ≡ c
    → c < 0x1_0000_0000
    → length js ≤ c
    → (answered result js n).worker.test_cnt ≡ sub32 c (length js)
unfolding answered run_result
answered-test_cnt [] n c e small l = omega (arith, e)
answered-test_cnt (j ∷ js) n c e small l =
    answered-test_cnt js (run_result n j) (sub32 c 1) (ap (λ k. sub32 k 1) e) (omega arith)
      (omega arith)
    ∙ omega arith

-- After the start of a round of fewer than 2 ^ 32 requests results are counted, no more than there are
-- requests, whichever requests they answer, and as many are left as the count says. If the main
-- thread sleeps in its wait when each of them comes, it
-- goes on to the next round at the last, and until then it sleeps. If it has looked at the count
-- before they come, and sleeps behind them, it sleeps however many steps it gets, even when all have
-- come.
pub round_waits :
    (r : Round) (rounds : List Round) (n : Node) (js : List Job)
    → 0 < requests r
    → requests r < 0x1_0000_0000
    → length js ≤ requests r
    → let start = start_round r n in
      let n' = answered result js start in
      (n'.worker.test_cnt ≡ sub32 (requests r) (length js))
      × (woken result test_step js (r ∷ rounds, sleeps, start) ≡ (
          if length js == requests r
          then ((next_round rounds n').0, looks, (next_round rounds n').1)
          else (r ∷ rounds, sleeps, n')))
      × ((k : ℕ)
          → turns result test_step (suc k) (notified result js (r ∷ rounds, falls_asleep, start))
            ≡ (r ∷ rounds, sleeps, n'))
unfolding test_step run_result
round_waits r rounds n js some_there small l =
    let start = start_round r n in
    let count = start_round-test_cnt r n in
    (
      answered-test_cnt js start (requests r) count small l,
      woken_counts result test_step (r ∷ rounds) (next_round rounds) (λ m. m.worker.test_cnt)
          (λ w m. refl) (λ j m. refl) js start (requests r) count some_there small l,
      λ k.
          notified_missed result test_step (r ∷ rounds) (next_round rounds) (λ m. m.worker.test_cnt)
            (λ w m. refl) (λ j m. refl) js start k,
    )
