-- ===== src/Tests/Console.antt =====
-- What is typed at the main thread.
use thkvs.Base.{◌>>=◌, suc, ℕ, ◌≡◌, refl, List, [], ◌∷◌, some, Text, codes, arith}
use thkvs.Base.Int.{pos}
use thkvs.Disk.{open_in, skip_space}
use thkvs.Main.{
  Command, put, get, add, read_command, reads, run_command, display_step, display_steps, Round,
  puts, start_round, begin_round, test_step,
}
use thkvs.Main.Script.{typed, read_command-typed}
use thkvs.Main.Queued.{script, jobs_of, last_id, with_jobs, display_steps-script}
use thkvs.Main.Failed.{failed_at, add_without_port}
use thkvs.Main.Rounds.{result, round_waits}
use thkvs.Main.Queued.{with_input}
use thkvs.Wait.{looks, falls_asleep, sleeps, answered, notified, woken, turns}
use thkvs.State.{Node, Job, j_result}
use thkvs.Tests.{server}

abbrev join_line : Command
join_line = add (codes "f") (codes "::1") 8006

read_command-typed_example :
    read_command (pos 7) (open_in (typed join_line (codes "get k")))
    ≡ (join_line, open_in (10 ∷ codes "get k"))
read_command-typed_example =
    read_command-typed (pos 7) join_line (typed join_line (codes "get k")) (codes "get k")
      ((refl, tt), (refl, (refl, (refl, tt))), omega arith) refl

abbrev two_lines : List Command
two_lines = put (codes "k") (codes "v") ∷ get (codes "k") ∷ []

display_steps-script_example :
    (rest : Text) × (display_steps 2 (pos 7) reads (open_in (script two_lines)) server
      ≡ some (
        reads,
        open_in rest,
        with_jobs
            (jobs_of server.worker.job_id two_lines)
            (last_id server.worker.job_id two_lines)
            server,
      ))
    × (skip_space rest ≡ [])
display_steps-script_example =
    display_steps-script (pos 7) two_lines (script two_lines) server
      (((refl, tt), (refl, tt)), ((refl, tt), tt)) refl

abbrev no_port : Text
no_port = codes "add f ::1 x8006"

add_without_port_example :
    (read_command (pos 7) (open_in no_port)
      ≡ (add (codes "f") (codes "::1") 0, failed_at (codes "x8006")))
    × ((n : Node)
        → display_step (pos 7) reads (open_in no_port) n ≡ (
            run_command (add (codes "f") (codes "::1") 0) n
            >>= with_input (failed_at (codes "x8006"))))
    × ((k : ℕ) (n : Node)
        → display_steps k (pos 7) reads (failed_at (codes "x8006")) n
          ≡ some (reads, failed_at (codes "x8006"), n))
add_without_port_example =
    add_without_port (pos 7) (codes "f") (codes "::1") (codes "x8006") no_port (refl, tt)
      (refl, (refl, (refl, tt))) (refl, refl, refl) refl

abbrev one_put : Round
one_put = puts 1 (codes "a") (codes "a")

abbrev two_puts : Round
two_puts = puts 2 (codes "a") (codes "a")

abbrev two_results : List Job
two_results = answer 1 ∷ answer 2 ∷ []
  where
    answer : ℕ → Job
    answer id = record { kind = j_result; id = id; status = 0; key = []; value = [] }

abbrev counting : Node
counting = start_round two_puts server

round_waits_example :
    ((answered result two_results counting).worker.test_cnt ≡ 0)
    × (woken result test_step two_results (two_puts ∷ one_put ∷ [], sleeps, counting)
        ≡ (one_put ∷ [], looks, begin_round one_put (answered result two_results counting)))
    × ((k : ℕ)
        → turns result test_step
            (suc k)
            (notified result two_results (two_puts ∷ one_put ∷ [], falls_asleep, counting))
          ≡ (two_puts ∷ one_put ∷ [], sleeps, answered result two_results counting))
round_waits_example =
    round_waits two_puts (one_put ∷ []) server two_results (omega arith) (omega arith) (omega arith)
