-- ===== src/Jobs.antt =====
-- The calls of src/worker.cpp that put a job into the queue of the worker threads.
use thkvs.Base.{ℕ, [], Text, add32}
use thkvs.Queue.{push}
use thkvs.State.{Node, Job, j_put, j_get, j_result}

push_job : Node → Job → Node
unfolding push
push_job n j = record n { worker = record (n.worker) { job_que = push n.worker.job_que j } }

-- `jobId++`; the job and the result carry the value that is loaded after it.
next_job_id : Node → Node
next_job_id n = record n { worker = record (n.worker) { job_id = add32 n.worker.job_id 1 } }

unfoldable pub insert_get : Node → Text → Node × ℕ
unfolding push_job next_job_id
insert_get n key =
    let n' = next_job_id n in
    let id = n'.worker.job_id in
    (push_job n' (record { kind = j_get; id = id; status = 0; key = key; value = [] }), id)

unfoldable pub insert_put : Node → Text → Text → Node × ℕ
unfolding push_job next_job_id
insert_put n key value =
    let n' = next_job_id n in
    let id = n'.worker.job_id in
    (push_job n' (record { kind = j_put; id = id; status = 0; key = key; value = value }), id)

unfoldable pub insert_get_result : Node → ℕ → ℕ → Text → Node
unfolding push_job
insert_get_result n driver_id status value =
    push_job n
      (record { kind = j_result; id = driver_id; status = status; key = []; value = value })

unfoldable pub insert_put_result : Node → ℕ → ℕ → Node
unfolding push_job
insert_put_result n driver_id status =
    push_job n (record { kind = j_result; id = driver_id; status = status; key = []; value = [] })
