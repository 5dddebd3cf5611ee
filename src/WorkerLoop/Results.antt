-- ===== src/WorkerLoop/Results.antt =====
-- src/worker.cpp and src/driver.cpp together: the result that a job has in the end, if the id is in
-- the map when its turn comes.
use thkvs.Base.{
  ℕ, ◌≡◌, refl, ap, ◌∙◌, [], ◌∷◌, ◌++◌, List, Bool, none, some, lookup, emplace, lookup-emplace,
  erase, Text, arith,
}
use thkvs.Driver
use thkvs.Driver.{put_finish, get_finish}
use thkvs.Driver.Entries.{code, majority}
use thkvs.Driver.Quorum.{put_answers, put_quorum}
use thkvs.Driver.Reads.{Answer}
use thkvs.Driver.ReadQuorum.{get_answers, settled_entry, get_quorum}
use thkvs.Driver.Requests.{IsServing, after_request, put_sends, get_sends}
use thkvs.Driver.Sent.{to_each, put_message, get_message}
use thkvs.Crc.{get_crc}
use thkvs.Ring.Succession.{replicas}
use thkvs.Driver.Hosts.{addresses}
use thkvs.Jobs.{insert_put_result, insert_get_result}
use thkvs.State.{Node, Host, Job, Result, j_put, j_get, j_result, new_sync_entry, replica_n}
use thkvs.WorkerLoop.{run_once, run_job, done, called, run_result, remember, job_of}

-- A server that serves, at whose front is a job, a request under an id that is not in use.
pub record IsReady (n : Node) (j : Job) (rest : List Job) : Type 0 where
  pub serving : IsServing n
  pub queued : n.worker.job_que ≡ j ∷ rest
  pub no_entry : lookup n.driver.opid n.driver.entries ≡ none
  pub no_job : lookup n.driver.opid n.worker.job_id_map ≡ none

-- A server whose front is the job of an answer to the request `id`, which is that of `job`.
pub record HasAnswer (m : Node) (answer : Job) (later : List Job) (id job : ℕ) : Type 0 where
  pub queued : m.worker.job_que ≡ answer ∷ later
  pub known : lookup id m.worker.job_id_map ≡ some job

abbrev pub taken : Node → List Job → Node
taken n rest = record n { worker = record (n.worker) { job_que = rest } }

pub turn :
    (n : Node) (j : Job) (rest : List Job)
    → n.worker.job_que ≡ j ∷ rest
    → run_once n ≡ some (run_job (taken n rest) j)
unfolding run_once
turn n j rest queued = rw (queued, run_once) refl

pub run_put :
    (n : Node) (j : Job) (after : Node × ℕ)
    → j.kind ≡ j_put
    → Driver.put n j.key j.value ≡ some after
    → run_job n j ≡ some (called after.0 after.1 j.id)
unfolding run_job
run_put n j after kind call = rw (kind, run_job, call) refl

run_get :
    (n : Node) (j : Job) (after : Node × ℕ)
    → j.kind ≡ j_get
    → Driver.get n j.key ≡ some after
    → run_job n j ≡ some (called after.0 after.1 j.id)
unfolding run_job
run_get n j after kind call = rw (kind, run_job, call) refl

abbrev pub result_of : ℕ → ℕ → Text → Result
result_of id status value = record { id = id; status = status; result = value }

-- The job that the driver makes of the end of a request.
abbrev pub answer_job : ℕ → ℕ → Text → Job
answer_job id status value = record {
  kind = j_result;
  id = id;
  status = status;
  key = [];
  value = value;
}

-- The turn on it.
pub answer_turn :
    (m : Node) (later : List Job) (id job status : ℕ) (value : Text)
    → m.worker.job_que ≡ answer_job id status value ∷ later
    → job_of (lookup id m.worker.job_id_map) ≡ job
    → (end : Node) × (run_once m ≡ some (some (done end)))
      × (end.worker.res_que ≡ m.worker.res_que ++ result_of job status value ∷ [])
      × (end.worker.job_id_map ≡ erase id m.worker.job_id_map)
unfolding run_once run_job run_result
answer_turn m later id job status value queued known = (
  run_result (taken m later) (answer_job id status value),
  turn m (answer_job id status value) later queued,
  ap (λ i. m.worker.res_que ++ result_of i status value ∷ []) known,
  refl,
)

module _ (n : Node) (j : Job) (rest : List Job) (ready : IsReady n j rest) where
  taken-IsServing : IsServing (taken n rest)
  taken-IsServing = record {
    running = ready.serving.running;
    enough = ready.serving.enough;
    within = ready.serving.within;
  }

  -- The id is not in the map but after the second step of the turn.
  pub remembered : lookup n.driver.opid (emplace n.driver.opid j.id n.worker.job_id_map) ≡ some j.id
  remembered =
      lookup-emplace n.driver.opid n.driver.opid j.id n.worker.job_id_map ready.no_job
      ∙ ground arith

  pub open_now :
      lookup n.driver.opid (emplace n.driver.opid new_sync_entry n.driver.entries)
      ≡ some new_sync_entry
  open_now =
      lookup-emplace n.driver.opid n.driver.opid new_sync_entry n.driver.entries ready.no_entry
      ∙ ground arith

  -- What the answers leave: the job behind those that wait, and the id in the map.
  abbrev pub Leaves : Node → Job → Type 0
  Leaves k answer =
      (k.worker.job_que ≡ rest ++ answer ∷ [])
      × (lookup n.driver.opid k.worker.job_id_map ≡ some j.id)

  abbrev pub answer_of : (Text → Text) → Answer → Answer → Answer → Job
  answer_of freed a b c =
      answer_job n.driver.opid (code (majority a.failed b.failed c.failed))
        (freed (settled_entry a b c).value)

  abbrev pub after_put : List Host → Node
  after_put list = after_request (taken n rest) list (
      to_each (put_message n.driver.localhost n.driver.opid j.key j.value)
        (addresses n.driver.host_list) (replicas replica_n (get_crc j.key) n.driver.node_map))

  abbrev after_get : List Host → Node
  after_get list = after_request (taken n rest) list (
      to_each (get_message n.driver.localhost n.driver.opid j.key) (addresses n.driver.host_list)
        (replicas replica_n (get_crc j.key) n.driver.node_map))

  pub put_turn :
      j.kind ≡ j_put
      → (list : List Host) × (run_once n ≡ some (some (called (after_put list) n.driver.opid j.id)))
  put_turn put =
      let (list, sent, same) = put_sends (taken n rest) j.key taken-IsServing j.value in
      (
        list,
        turn n j rest ready.queued
            ∙ ap some (run_put (taken n rest) j (after_put list, n.driver.opid) put sent),
      )

  get_turn :
      j.kind ≡ j_get
      → (list : List Host) × (run_once n ≡ some (some (called (after_get list) n.driver.opid j.id)))
  get_turn get =
      let (list, sent, same) = get_sends (taken n rest) j.key taken-IsServing in
      (
        list,
        turn n j rest ready.queued
            ∙ ap some (run_get (taken n rest) j (after_get list, n.driver.opid) get sent),
      )

  -- A put that a worker takes while the server serves, under a request id that is not in use, and
  -- whose id is then put into the map, leaves after three answers of replicas a job behind those
  -- that wait, and the id in the map; when that job is at the front, and the id still in the map, a
  -- worker makes of it one more result, with the id of the put's job, the status of the majority and
  -- an empty text.
  pub put_job_result :
      (a b c : Bool) (m : Node) (later : List Job)
      → j.kind ≡ j_put
      → HasAnswer m (answer_job n.driver.opid (code (majority a b c)) []) later n.driver.opid j.id
      → (n' : Node) × (end : Node) × (run_once n ≡ some (some (called n' n.driver.opid j.id)))
        × Leaves
            (put_answers (remember n.driver.opid j.id n') n.driver.opid (a ∷ b ∷ c ∷ []))
            (answer_job n.driver.opid (code (majority a b c)) [])
        × (run_once m ≡ some (some (done end)))
        × (end.worker.res_que ≡ m.worker.res_que ++ result_of j.id (code (majority a b c)) [] ∷ [])
  unfolding remember put_finish insert_put_result insert_get_result
  put_job_result a b c m later put has =
      let (list, first) = put_turn put in
      let n'' : Node = remember n.driver.opid j.id (after_put list) in
      let answered = put_quorum n'' n.driver.opid open_now a b c in
      let (end, over, result, map) =
        answer_turn m later n.driver.opid j.id (code (majority a b c)) [] has.queued
          (ap job_of has.known) in
      (
        after_put list,
        end,
        first,
        (
          ap (λ (k : Node). k.worker.job_que) answered,
          ap (λ (k : Node). lookup n.driver.opid k.worker.job_id_map) answered ∙ remembered,
        ),
        over,
        result,
      )

  -- A get that a worker takes while the server serves, under a request id that is not in use, and
  -- whose id is then put into the map, leaves after three answers of replicas a job behind those
  -- that wait, and the id in the map; when that job is at the front, and the id still in the map, a
  -- worker makes of it one more result, with the id of the get's job, the status of the majority and,
  -- as its text, what the value of the settled entry reads as when the entry has been erased.
  pub get_job_result :
      (freed : Text → Text) (a b c : Answer) (m : Node) (later : List Job)
      → j.kind ≡ j_get
      → HasAnswer m (answer_of freed a b c) later n.driver.opid j.id
      → (n' : Node) × (end : Node) × (run_once n ≡ some (some (called n' n.driver.opid j.id)))
        × Leaves
            (get_answers freed (remember n.driver.opid j.id n') n.driver.opid (a ∷ b ∷ c ∷ []))
            (answer_of freed a b c)
        × (run_once m ≡ some (some (done end)))
        × (end.worker.res_que
            ≡ m.worker.res_que
              ++ result_of j.id
                  (code (majority a.failed b.failed c.failed))
                  (freed (settled_entry a b c).value)
                ∷ [])
  unfolding remember get_finish insert_get_result
  get_job_result freed a b c m later get has =
      let (list, first) = get_turn get in
      let n'' : Node = remember n.driver.opid j.id (after_get list) in
      let answered = get_quorum freed n'' n.driver.opid open_now a b c in
      let (end, over, result, map) =
        answer_turn m later n.driver.opid j.id (code (majority a.failed b.failed c.failed))
          (freed (settled_entry a b c).value) has.queued (ap job_of has.known) in
      (
        after_get list,
        end,
        first,
        (
          ap (λ (k : Node). k.worker.job_que) answered,
          ap (λ (k : Node). lookup n.driver.opid k.worker.job_id_map) answered ∙ remembered,
        ),
        over,
        result,
      )
