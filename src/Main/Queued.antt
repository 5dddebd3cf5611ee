-- ===== src/Main/Queued.antt =====
-- main.cpp, the puts and gets that are typed at `display`, and the jobs that they make.
use mathlib.Core.List.{append_assoc, append-nil}
use thkvs.Base.{
  ℕ, suc, ◌≡◌, refl, sym, ap, ◌∙◌, List, [], ◌∷◌, ◌++◌, Option, some, Text, All, length, add32,
  ◌>>=◌,
}
use thkvs.Base.Int.{ℤ}
use thkvs.Disk.{Stream, open_in, skip_space}
use thkvs.Jobs.{insert_put, insert_get}
use thkvs.Queue.{push}
use thkvs.Main.{Command, put, get, Stage, reads, run_command, display_steps}
use thkvs.Main.Script.{typed, CanType, read_command-typed}
use thkvs.State.{Node, Job, j_put, j_get}

-- A put or a get, of words.
abbrev pub IsRequest : Command → Type 0
IsRequest (put key value) = CanType (put key value)
IsRequest (get key) = CanType (get key)
IsRequest c = ⊥

abbrev pub script : List Command → Text
script [] = []
script (c ∷ cs) = typed c (script cs)

-- The jobs that are put into the queue for them, behind the job of this id.
abbrev pub jobs_of : ℕ → List Command → List Job
jobs_of id [] = []
jobs_of id (put key value ∷ cs) =
    let job : Job = record {
      kind = j_put;
      id = add32 id 1;
      status = 0;
      key = key;
      value = value;
    } in
    job ∷ jobs_of (add32 id 1) cs
jobs_of id (get key ∷ cs) =
    let job : Job = record { kind = j_get; id = add32 id 1; status = 0; key = key; value = [] } in
    job ∷ jobs_of (add32 id 1) cs
jobs_of id (_ ∷ cs) = jobs_of id cs

abbrev pub last_id : ℕ → List Command → ℕ
last_id id [] = id
last_id id (c ∷ cs) = last_id (add32 id 1) cs

abbrev pub with_jobs : List Job → ℕ → Node → Node
with_jobs jobs id n = record n {
  worker = record (n.worker) { job_que = n.worker.job_que ++ jobs; job_id = id };
}

with_jobs-append :
    (js ks : List Job) (i k : ℕ) (n : Node)
    → with_jobs ks k (with_jobs js i n) ≡ with_jobs (js ++ ks) k n
with_jobs-append js ks i k n =
    ap (λ que. record n { worker = record (n.worker) { job_que = que; job_id = k } })
      (append_assoc n.worker.job_que js ks)

abbrev pub with_input : Stream → Stage × Node → Option (Stage × Stream × Node)
with_input input q = some (q.0, input, q.1)

abbrev pub later : ℕ → ℤ → Stage × Stream × Node → Option (Stage × Stream × Node)
later k unset q = display_steps k unset q.0 q.1 q.2

-- A step that reads a command and makes one job of it.
display_steps_job :
    (unset : ℤ) (c : Command) (job : Job) (k : ℕ) (input rest : Text) (n : Node)
    → CanType c
    → skip_space input ≡ skip_space (typed c rest)
    → run_command c n ≡ some (reads, with_jobs (job ∷ []) job.id n)
    → display_steps (suc k) unset reads (open_in input) n
      ≡ display_steps k unset reads (open_in (10 ∷ rest)) (with_jobs (job ∷ []) job.id n)
unfolding display_steps
display_steps_job unset c job k input rest n h e r =
    ap (λ p. run_command p.0 n >>= with_input p.1 >>= later k unset)
      (read_command-typed unset c input rest h e)
    ∙ ap (λ o. o >>= with_input (open_in (10 ∷ rest)) >>= later k unset) r

-- The loop of `display` reads requests that are typed, of words, one after the other, and puts for
-- each, in their order, a job into the queue, with the next id; it is then at the next command, and
-- nothing is left to read.
pub display_steps-script :
    (unset : ℤ) (cs : List Command) (input : Text) (n : Node)
    → All IsRequest cs
    → skip_space input ≡ skip_space (script cs)
    → (rest : Text) × (display_steps (length cs) unset reads (open_in input) n
        ≡ some (
          reads,
          open_in rest,
          with_jobs (jobs_of n.worker.job_id cs) (last_id n.worker.job_id cs) n,
        ))
      × (skip_space rest ≡ [])
unfolding display_steps run_command push insert_put insert_get
display_steps-script unset [] input n a e = (
  input,
  ap (λ que. some (reads, open_in input, record n { worker = record (n.worker) { job_que = que } }))
      (sym (append-nil n.worker.job_que)),
  e,
)
display_steps-script unset (put key value ∷ cs) input n a e =
    let id = add32 n.worker.job_id 1 in
    let job : Job = record { kind = j_put; id = id; status = 0; key = key; value = value } in
    let (rest, r, spent) =
      display_steps-script unset cs (10 ∷ script cs) (with_jobs (job ∷ []) id n) a.1 refl in
    (
      rest,
      display_steps_job unset (put key value) job (length cs) input (script cs) n a.0 e refl
          ∙ r
          ∙ ap (λ n. some (reads, open_in rest, n))
              (with_jobs-append (job ∷ []) (jobs_of id cs) id (last_id id cs) n),
      spent,
    )
display_steps-script unset (get key ∷ cs) input n a e =
    let id = add32 n.worker.job_id 1 in
    let job : Job = record { kind = j_get; id = id; status = 0; key = key; value = [] } in
    let (rest, r, spent) =
      display_steps-script unset cs (10 ∷ script cs) (with_jobs (job ∷ []) id n) a.1 refl in
    (
      rest,
      display_steps_job unset (get key) job (length cs) input (script cs) n a.0 e refl
          ∙ r
          ∙ ap (λ n. some (reads, open_in rest, n))
              (with_jobs-append (job ∷ []) (jobs_of id cs) id (last_id id cs) n),
      spent,
    )
display_steps-script unset (_ ∷ cs) input n a e = absurd a.0
