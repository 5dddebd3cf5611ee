-- ===== src/WorkerLoop/Early.antt =====
-- src/worker.cpp: results of requests whose id is not in the map when they end, so that they are
-- reported
-- for the job 0.
use thkvs.Base.{
  ◌≡◌, refl, ap, ◌∙◌, [], ◌∷◌, ◌++◌, Bool, true, none, some, lookup, emplace, lookup-emplace,
  lookup-erase, minus_one, arith,
}
use thkvs.Driver.{put_finish}
use thkvs.Driver.Entries.{code, majority}
use thkvs.Driver.Quorum.{put_answers, put_quorum}
use thkvs.Driver.Requests.{put_paused}
use thkvs.Jobs.{insert_put_result, insert_get_result}
use thkvs.State.{Node, Job, j_put}
use thkvs.WorkerLoop.{run_once, done, called, remember, job_of}
use thkvs.WorkerLoop.Results.{
  IsReady, taken, turn, run_put, result_of, answer_turn, after_put, put_turn, open_now,
}

-- When all three answers to a put come, and the result is taken, before the worker that called the
-- driver has put the id into the map, and no other job waits, the result is reported with the status
-- of the majority for the job 0, and not for the put's; the id is put into the map behind it, and
-- stays there with the put's job.
pub early_job_result :
    (n : Node) (j : Job) (a b c : Bool)
    → IsReady n j []
    → j.kind ≡ j_put
    → (n' : Node) × (end : Node) × (run_once n ≡ some (some (called n' n.driver.opid j.id)))
      × (run_once (put_answers n' n.driver.opid (a ∷ b ∷ c ∷ [])) ≡ some (some (done end)))
      × (end.worker.res_que ≡ n.worker.res_que ++ result_of 0 (code (majority a b c)) [] ∷ [])
      × (lookup n.driver.opid (remember n.driver.opid j.id end).worker.job_id_map ≡ some j.id)
unfolding remember put_finish insert_put_result insert_get_result
early_job_result n j a b c ready put =
    let (list, first) = put_turn n j [] ready put in
    let n' : Node = after_put n j [] ready list in
    let answered = put_quorum n' n.driver.opid (open_now n j [] ready) a b c in
    let m : Node = put_answers n' n.driver.opid (a ∷ b ∷ c ∷ []) in
    let map : m.worker.job_id_map ≡ n.worker.job_id_map =
      ap (λ (k : Node). k.worker.job_id_map) answered in
    let (end, over, result, erased) =
      answer_turn m [] n.driver.opid 0 (code (majority a b c)) []
        (ap (λ (k : Node). k.worker.job_que) answered)
        (ap (λ l. job_of (lookup n.driver.opid l)) map ∙ ap job_of ready.no_job) in
    let gone : lookup n.driver.opid end.worker.job_id_map ≡ none =
      ap (lookup n.driver.opid) erased
      ∙ lookup-erase n.driver.opid n.driver.opid m.worker.job_id_map
      ∙ ground arith in
    (
      n',
      end,
      first,
      over,
      result
          ∙ ap (λ (k : Node). k.worker.res_que ++ result_of 0 (code (majority a b c)) [] ∷ [])
              answered,
      lookup-emplace n.driver.opid n.driver.opid j.id end.worker.job_id_map gone ∙ ground arith,
    )

-- A put that a worker takes while the server is paused, no other job waits and neither 0 nor -1 is in
-- the map of ids, ends in a result with status 2 whose id is 0, and not the job's: the job's id
-- is in the map under 0, and is still there in the end.
pub paused_job_result :
    (n : Node) (j : Job)
    → n.worker.job_que ≡ j ∷ []
    → n.driver.enable_flag ≡ true
    → lookup minus_one n.worker.job_id_map ≡ none
    → lookup 0 n.worker.job_id_map ≡ none
    → j.kind ≡ j_put
    → (n' : Node) × (end : Node) × (run_once n ≡ some (some (called n' 0 j.id)))
      × (run_once (remember 0 j.id n') ≡ some (some (done end)))
      × (end.worker.res_que ≡ n.worker.res_que ++ result_of 0 2 [] ∷ [])
      × (lookup 0 end.worker.job_id_map ≡ some j.id)
unfolding remember insert_put_result insert_get_result
paused_job_result n j alone paused unknown zero put =
    let n' : Node = insert_put_result (taken n []) minus_one 2 in
    let other : lookup minus_one (emplace 0 j.id n.worker.job_id_map) ≡ none =
      lookup-emplace 0 minus_one j.id n.worker.job_id_map zero ∙ unknown in
    let (end, over, result, erased) =
      answer_turn (remember 0 j.id n') [] minus_one 0 2 [] refl (ap job_of other) in
    (
      n',
      end,
      turn n j [] alone
          ∙ ap some
              (run_put (taken n []) j (n', 0) put (put_paused (taken n []) j.key j.value paused)),
      over,
      result,
      ap (lookup 0) erased
          ∙ lookup-erase minus_one 0 (emplace 0 j.id n.worker.job_id_map)
          ∙ lookup-emplace 0 0 j.id n.worker.job_id_map zero
          ∙ ground arith,
    )
