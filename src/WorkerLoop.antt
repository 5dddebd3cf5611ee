-- ===== src/WorkerLoop.antt =====
-- One turn of the loop of `Worker::run` in src/worker.cpp. The call of the driver is one step, and the
-- block under the mutex behind it another, so that answers may come in between; what is printed under
-- `displayFlag` is left out.
pub mod Results
pub mod Early
use thkvs.Base.{ℕ, [], Bool, Option, none, some, ◌>>=◌, lookup, emplace, erase, Text, sub32}
use thkvs.Driver
use thkvs.Queue.{push, pop}
use thkvs.State.{Node, Worker, Job, JobType, Result}

with_worker : Node → Worker → Node
with_worker n w = record n { worker = w }

-- `jobIdMap.emplace(driverId, J->id)`
unfoldable pub remember : ℕ → ℕ → Node → Node
unfolding with_worker emplace
remember driver_id job_id n =
    with_worker n (record (n.worker) { job_id_map = emplace driver_id job_id n.worker.job_id_map })

-- `jobIdMap[driverId]`: 0 where there is none.
abbrev pub job_of : Option ℕ → ℕ
job_of none = 0
job_of (some id) = id

unfoldable pub run_result : Node → Job → Node
unfolding with_worker erase push
run_result n j =
    let w = n.worker in
    let id = job_of (lookup j.id w.job_id_map) in
    with_worker n (record w {
      job_id_map = erase j.id w.job_id_map;
      res_que = push w.res_que (record { id = id; status = j.status; result = j.value });
      test_cnt = sub32 w.test_cnt 1;
    })

-- Where a turn is after its first step: it is over, or the driver has returned an id for a job, and
-- `remember` is next.
pub data Step : Type 0 where
  done : Node → Step
  called : Node → ℕ → ℕ → Step

-- `none` where a call of the driver does not return.
unfoldable pub run_job : Node → Job → Option Step
unfolding run_result
run_job n j = elim j.kind [
  | JobType.j_put ↦ do (n', driver_id) ← Driver.put n j.key j.value; some (called n' driver_id j.id)
  | JobType.j_get ↦ do (n', driver_id) ← Driver.get n j.key; some (called n' driver_id j.id)
  | JobType.j_result ↦ some (done (run_result n j))
]

-- The turn itself; on an empty queue it waits.
unfoldable pub run_once : Node → Option (Option Step)
unfolding run_job pop
run_once n = elim (pop n.worker.job_que) [
  | none ↦ none
  | some (j, rest) ↦ some (run_job (with_worker n (record (n.worker) { job_que = rest })) j)
]
