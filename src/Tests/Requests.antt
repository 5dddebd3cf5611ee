-- ===== src/Tests/Requests.antt =====
-- Requests to four servers: the theorems on puts, gets and jobs at one input each.
use thkvs.Base.{◌≡◌, refl, ◌⊎◌, inr, List, [], ◌∷◌, true, false, some, lookup, codes, arith}
use thkvs.Base.Int.{pos}
use thkvs.Crc.{get_crc}
use thkvs.Driver
use thkvs.Driver.{get_hosts, get_finish, put_finish}
use thkvs.Driver.Entries.{closed}
use thkvs.Driver.Freshness.{IsFresh, read_sees_write}
use thkvs.Driver.Hosts.{addresses, get_hosts_lem}
use thkvs.Driver.Quorum.{put_answers, put_quorum}
use thkvs.Driver.ReadQuorum.{get_answers, settled_entry, get_quorum}
use thkvs.Driver.Reads.{Answer}
use thkvs.Driver.Requests.{after_request, put_sends}
use thkvs.Driver.Sent.{to_each, put_message}
use thkvs.Pause.{act_set_enable_flag}
use thkvs.Pause.Race.{put_race}
use thkvs.Ring.Succession.{replicas}
use thkvs.State.{Node, Host, Job, new_sync_entry, replica_n}
use thkvs.Tests.{
  ring, four, serving_driver, server, job_put, job_get, with_job, ring-HasReplicas,
  server-IsServing,
}
use thkvs.WorkerLoop
use thkvs.WorkerLoop.{Step, done, called, remember}
use thkvs.WorkerLoop.Early.{paused_job_result}
use thkvs.WorkerLoop.Results.{
  IsReady, Leaves, answer_job, result_of, put_job_result, get_job_result,
}

-- The server with a request open under the id 6.
abbrev asked : Node
asked = record server { driver = record serving_driver { entries = (6, new_sync_entry) ∷ [] } }

abbrev newer : Answer
newer = record { failed = false; timestamp = pos 20; value = codes "new" }

abbrev older : Answer
older = record { failed = false; timestamp = pos 10; value = codes "old" }

abbrev missing : Answer
missing = record { failed = true; timestamp = pos 0; value = [] }

read_sees_write_example :
    (x : Answer) × ((x ≡ missing) ⊎ (x ≡ older) ⊎ (x ≡ newer))
    × IsFresh (pos 10) x
    × (get_answers (λ v. v) asked 6 (missing ∷ older ∷ newer ∷ [])
        ≡ get_finish (closed asked 6) 6 0 x.value)
read_sees_write_example =
    read_sees_write (pos 10) (omega arith) missing older newer
      (inr (inr ((refl, omega arith), (refl, omega arith)))) (λ v. v) asked 6 (λ v. refl) refl

put_quorum_example :
    put_answers asked 6 (false ∷ true ∷ false ∷ []) ≡ put_finish (closed asked 6) 6 0
put_quorum_example = put_quorum asked 6 refl false true false

get_quorum_example :
    get_answers (λ v. v) asked 6 (older ∷ missing ∷ newer ∷ [])
    ≡ get_finish (closed asked 6) 6 0 (settled_entry older missing newer).value
get_quorum_example = get_quorum (λ v. v) asked 6 refl older missing newer

value_example : (settled_entry older missing newer).value ≡ codes "new"
unfolding Driver.Reads.absorb
value_example = refl

put_sends_example :
    (list : List Host) × (Driver.put server (codes "k") (codes "v")
      ≡ some (
        after_request server list (
            to_each
              (put_message server.driver.localhost 7 (codes "k") (codes "v"))
              (addresses four)
              (replicas replica_n (get_crc (codes "k")) ring)),
        7,
      ))
    × (addresses list ≡ addresses four)
put_sends_example = put_sends server (codes "k") server-IsServing (codes "v")

get_hosts_lem_example :
    (list : List Host) × (get_hosts serving_driver (codes "k")
      ≡ some (
        0,
        replicas replica_n (get_crc (codes "k")) ring,
        record serving_driver { host_list = list },
      ))
    × (addresses list ≡ addresses four)
get_hosts_lem_example =
    get_hosts_lem serving_driver (codes "k") ring-HasReplicas server-IsServing.within

put-IsReady : IsReady (with_job server job_put) job_put []
put-IsReady = record {
  serving = record { running = refl; enough = ring-HasReplicas; within = server-IsServing.within };
  queued = refl;
  no_entry = refl;
  no_job = refl;
}

get-IsReady : IsReady (with_job server job_get) job_get []
get-IsReady = record {
  serving = record { running = refl; enough = ring-HasReplicas; within = server-IsServing.within };
  queued = refl;
  no_entry = refl;
  no_job = refl;
}

-- The server when an answer to request 7, that of job 3, is at its front, and another job behind it.
abbrev with_answer : Job → Node
with_answer answer = record server {
  worker = record (server.worker) { job_que = answer ∷ job_put ∷ []; job_id_map = (7, 3) ∷ [] };
}

put_job_result_example :
    (n' : Node) × (end : Node) × (WorkerLoop.run_once (with_job server job_put)
      ≡ some (some (called n' 7 3)))
    × Leaves
        (with_job server job_put)
        job_put
        []
        put-IsReady
        (put_answers (remember 7 3 n') 7 (true ∷ false ∷ true ∷ []))
        (answer_job 7 1 [])
    × (WorkerLoop.run_once (with_answer (answer_job 7 1 [])) ≡ some (some (done end)))
    × (end.worker.res_que ≡ result_of 3 1 [] ∷ [])
put_job_result_example =
    put_job_result (with_job server job_put) job_put [] put-IsReady true false true
      (with_answer (answer_job 7 1 [])) (job_put ∷ []) refl (record { queued = refl; known = refl })

abbrev the_answer : Job
the_answer = answer_job 7 0 (settled_entry older missing newer).value

get_job_result_example :
    (n' : Node) × (end : Node) × (WorkerLoop.run_once (with_job server job_get)
      ≡ some (some (called n' 7 3)))
    × Leaves
        (with_job server job_get)
        job_get
        []
        get-IsReady
        (get_answers (λ v. v) (remember 7 3 n') 7 (older ∷ missing ∷ newer ∷ []))
        the_answer
    × (WorkerLoop.run_once (with_answer the_answer) ≡ some (some (done end)))
    × (end.worker.res_que ≡ result_of 3 0 (settled_entry older missing newer).value ∷ [])
get_job_result_example =
    get_job_result (with_job server job_get) job_get [] get-IsReady (λ v. v) older missing newer
      (with_answer the_answer) (job_put ∷ []) refl (record { queued = refl; known = refl })

abbrev paused : Node
paused = with_job (record server { driver = record serving_driver { enable_flag = true } }) job_put

paused_job_result_example :
    (n' : Node) × (end : Node) × (WorkerLoop.run_once paused ≡ some (some (called n' 0 3)))
    × (WorkerLoop.run_once (remember 0 3 n') ≡ some (some (done end)))
    × (end.worker.res_que ≡ result_of 0 2 [] ∷ [])
    × (lookup 0 end.worker.job_id_map ≡ some 3)
paused_job_result_example = paused_job_result paused job_put refl refl refl refl refl

put_race_example :
    (n' : Node) × (list : List Host) × (act_set_enable_flag server true ≡ some n')
    × (n'.driver.enable_flag ≡ true)
    × (Driver.start_put n' (codes "k") (codes "v")
        ≡ some (
          after_request n' list (
              to_each
                (put_message server.driver.localhost 7 (codes "k") (codes "v"))
                (addresses four)
                (replicas replica_n (get_crc (codes "k")) ring)),
          7,
        ))
put_race_example =
    put_race server (codes "k") (codes "v") refl ring-HasReplicas server-IsServing.within
