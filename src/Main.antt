-- ===== src/Main.antt =====
-- main.cpp, the main thread behind the start of the others: the commands of `display`, read from
-- `cin`, and the rounds of `test`. A wait is a state of the thread; what is printed is left out, and
-- so are the times that are taken for it.
pub mod Script
pub mod Queued
pub mod Failed
pub mod Rounds
use thkvs.Base.{
  ℕ, zero, suc, ◌+◌, ◌-◌, ◌%◌, List, [], ◌∷◌, ◌++◌, Bool, true, false, not, Option, none, some,
  ◌==◌, if◌then◌else◌, Text, text_eq, codes, decimal, ◌>>=◌, sub32,
}
use thkvs.Base.Int.{ℤ, pos, negsuc}
use thkvs.Disk.{Stream, read_string, read_int}
use thkvs.Jobs.{insert_put, insert_get}
use thkvs.Membership.{add_server_start, remove_server_start}
use thkvs.Membership.Calls.{Call, joins, leaves, Phase, moving, finished, advance}
use thkvs.Pause.{set_enable_flag}
use thkvs.Wait.{Waiter, looks, wait}
use thkvs.State.{Node}

-- A turn of the loop of `display`, once the words it needs are read.
pub data Command : Type 0 where
  put : Text → Text → Command
  get : Text → Command
  set : Bool → Command
  add : Text → Text → ℕ → Command
  test : Command
  remove : Text → Command
  unknown : Command

-- The bits of an `int`.
abbrev pub int_bits : ℤ → ℕ
int_bits (pos n) = n
int_bits (negsuc n) = sub32 0 (suc n)

-- The operands: `key`, `value`, `hostname` and `ip` are new in each turn, and empty. `port` is not
-- set before it is read, and holds `unset` if nothing is stored in it.
abbrev pub read_put : Stream → Command × Stream
read_put input =
    let (key, input1) = read_string input [] in
    let (value, input2) = read_string input1 [] in (put key value, input2)

abbrev pub read_add : ℤ → Stream → Command × Stream
read_add unset input =
    let (hostname, input1) = read_string input [] in
    let (ip, input2) = read_string input1 [] in
    let (port, input3) = read_int input2 unset in (add hostname ip (int_bits port), input3)

abbrev pub read_one : (Text → Command) → Stream → Command × Stream
read_one command input = let (key, input1) = read_string input [] in (command key, input1)

unfoldable pub read_operands : ℤ → Text → Stream → Command × Stream
read_operands unset op input =
    if text_eq op (codes "put")
    then read_put input
    else if text_eq op (codes "get")
    then read_one get input
    else if text_eq op (codes "set")
    then read_one (λ key. set (not (text_eq key (codes "0")))) input
    else if text_eq op (codes "add")
    then read_add unset input
    else if text_eq op (codes "test")
    then (test, input)
    else if text_eq op (codes "remove")
    then read_one remove input
    else (unknown, input)

unfoldable pub read_command : ℤ → Stream → Command × Stream
unfolding read_operands
read_command unset input = let (op, input1) = read_string input [] in read_operands unset op input1

-- Where the main thread is: at the next command, in the wait of `setEnableFlag`, or in one of
-- `addServer` and `removeServer`.
pub data Stage : Type 0 where
  reads : Stage
  sets : Waiter → Stage
  calls : Call → Phase → Waiter → Stage

-- What `addServer` and `removeServer` leave: they have returned 1, or wait for the moves.
abbrev pub stage_begun : Call → Node → Option Node → Stage × Node
stage_begun call n none = (reads, n)
stage_begun call n (some n') = (calls call moving looks, n')

-- `none`: the loop over the successors does not end. `test` only prints.
unfoldable pub run_command : Command → Node → Option (Stage × Node)
unfolding insert_put insert_get set_enable_flag add_server_start remove_server_start
run_command (put key value) n = some (reads, (insert_put n key value).0)
run_command (get key) n = some (reads, (insert_get n key).0)
run_command (set flag) n = some (sets looks, set_enable_flag n flag)
run_command (add hostname ip port) n = do
  started ← add_server_start n hostname ip port
  some (stage_begun (joins hostname ip port) n started)
run_command test n = some (reads, n)
run_command (remove hostname) n = do
  started ← remove_server_start n hostname
  some (stage_begun (leaves hostname) n started)
run_command unknown n = some (reads, n)

abbrev pub stage_of : Call → Phase → Waiter → Stage
stage_of call finished waiter = reads
stage_of call phase waiter = calls call phase waiter

-- A step of the main thread, in a wait a step of the wait.
unfoldable pub display_step : ℤ → Stage → Stream → Node → Option (Stage × Stream × Node)
unfolding read_command run_command advance wait
display_step unset reads input n = do
  let (command, input') = read_command unset input
  (stage, n') ← run_command command n
  some (stage, input', n')
display_step unset (sets waiter) input n =
    let (over, waiter', n') =
      wait false (λ m. m.driver.enable_cnt == 0) (λ m. (true, m)) waiter n in
    some (if over then reads else sets waiter', input, n')
display_step unset (calls call phase waiter) input n =
    let (phase', waiter', n') = advance call (phase, waiter, n) in
    some (stage_of call phase' waiter', input, n')

-- `steps` steps of `while (true)`.
unfoldable pub display_steps : ℕ → ℤ → Stage → Stream → Node → Option (Stage × Stream × Node)
unfolding display_step
display_steps zero unset stage input n = some (stage, input, n)
display_steps (suc steps) unset stage input n = do
  (stage', input', n') ← display_step unset stage input n
  display_steps steps unset stage' input' n'

-- `Worker::setDisplay()`
unfoldable pub set_display : Node → Node
set_display n = record n { worker = record (n.worker) { display_flag = true } }

-- A round of `test`: how many requests are made after the count is set to as many.
pub data Round : Type 0 where
  puts : ℕ → Text → Text → Round
  gets : ℕ → Text → Round

abbrev pub requests : Round → ℕ
requests (puts times key value) = times
requests (gets times key) = times

unfoldable pub put_times : ℕ → Text → Text → Node → Node
unfolding insert_put
put_times zero key value n = n
put_times (suc times) key value n = put_times times key value (insert_put n key value).0

unfoldable pub get_times : ℕ → Text → Node → Node
unfolding insert_get
get_times zero key n = n
get_times (suc times) key n = get_times times key (insert_get n key).0

-- `Worker::testCnt.store(cnt)`
abbrev pub store_cnt : ℕ → Node → Node
store_cnt cnt n = record n { worker = record (n.worker) { test_cnt = cnt } }

-- A round up to its wait.
unfoldable pub start_round : Round → Node → Node
unfolding put_times get_times
start_round (puts times key value) n = put_times times key value (store_cnt times n)
start_round (gets times key) n = get_times times key (store_cnt times n)

-- The condition of the wait.
abbrev pub is_over : Node → Bool
is_over n = n.worker.test_cnt == 0

-- `for (int i = 0; i < times; i++) value = value + letter`
abbrev pub repeated : ℕ → Text → Text
repeated zero letter = []
repeated (suc times) letter = repeated times letter ++ letter

-- The keys "0" to "99" are put before the first round.
unfoldable pub warm_up : ℕ → ℕ → Node → Node
unfolding insert_put
warm_up zero i n = n
warm_up (suc left) i n = warm_up left (suc i) (insert_put n (decimal i) (codes "a")).0

abbrev pub put_rounds : List Round
put_rounds =
    puts 1000 (codes "a") (codes "a")
    ∷ puts 1000 (codes "a") (repeated 10 (codes "b"))
    ∷ puts 1000 (codes "a") (repeated 100 (codes "c"))
    ∷ puts 1000 (codes "a") (repeated 1000 (codes "d"))
    ∷ puts 1000 (codes "a") (repeated 10000 (codes "d"))
    ∷ []

abbrev pub last_round : Round
last_round = gets 10000 (codes "a")

-- Before the gets one more put is made.
unfoldable pub begin_round : Round → Node → Node
unfolding start_round insert_put
begin_round (puts times key value) n = start_round (puts times key value) n
begin_round (gets times key) n = start_round (gets times key) (insert_put n key (codes "a")).0

abbrev next_round : List Round → Node → List Round × Node
next_round [] n = ([], n)
next_round (r ∷ rounds) n = (r ∷ rounds, begin_round r n)

-- `test` up to its first wait: the thread waits in the first of the rounds that are left.
unfoldable pub start_test : Node → List Round × Node
unfolding warm_up begin_round
start_test n = next_round (put_rounds ++ last_round ∷ []) (warm_up 100 0 n)

-- A step of the thread, which waits in the first of the rounds.
unfoldable pub test_step : List Round × Waiter × Node → List Round × Waiter × Node
unfolding begin_round wait
test_step ([], waiter, n) = ([], waiter, n)
test_step (r ∷ rounds, waiter, n) = wait (r ∷ rounds) is_over (next_round rounds) waiter n
