-- ===== src/Blocks/Loop.antt =====
-- src/data.cpp, request 5 in the loop of `run`, the removal of a range, and the loop itself.
use thkvs.Base.{
  ◌≡◌, ℕ, List, [], ◌∷◌, map, Bool, true, false, ◌&&◌, Option, none, some, leb, ◌==◌, if◌then◌else◌,
  take, emplace, length, ◌>>=◌,
}
use thkvs.Base.Int.{ℤ}
use thkvs.Crc.{get_crc}
use thkvs.Queue.{pop}
use thkvs.State.{Node, KeyValue}
use thkvs.Store.{at, get_move_data_return, recv_move_data_return, move_data_return_return}
use thkvs.Disk.{Files, write_file, open_in}
use thkvs.Blocks.{Value, Hashlist, Blocks, block_name, declare, read_values, sort_first, lines}
use thkvs.Blocks.Serve.{overlaps, put_blocks, get_all, range_blocks, take_in_all, blocks_of}

-- An entry in the range is marked; `flag` of any other keeps what it held.
abbrev pub mark : ℕ → ℕ → Value → Value
mark begin end v = if leb begin v.key && leb v.key end then record v { flag = true } else v

-- The entries that are written back.
abbrev pub unmarked : List Value → List Value
unmarked [] = []
unmarked (v ∷ vs) = let rest = unmarked vs in if v.flag then rest else v ∷ rest

abbrev pub after_removal : Hashlist → List Hashlist × Files → List Hashlist × Files
after_removal b (hl, files) = (b ∷ hl, files)

-- op 5, for a range that is to be removed; a file that cannot be read ends the loop.
unfoldable pub remove_blocks : ℕ → ℕ → List Hashlist → Files → List Value → List Hashlist × Files
unfolding read_values
remove_blocks begin end [] files tmp = ([], files)
remove_blocks begin end (b ∷ bs) files tmp = elim (overlaps b begin end) [
  | false ↦ after_removal b (remove_blocks begin end bs files tmp)
  | true ↦ elim (files (block_name b)) [
    | none ↦ (b ∷ bs, files)
    | some bytes ↦
        let read = sort_first b.cnt (read_values (mark begin end) b.cnt (open_in bytes) tmp) in
        let kept = unmarked (take b.cnt read) in
        after_removal (record b { cnt = length kept })
          (remove_blocks begin end bs (write_file (block_name b) (lines kept) files) read)
  ]
]

-- What the variables that are not set hold: the array, and `V.time_stamp` in request 4.
pub record Unset : Type 0 where
  pub tmp : List Value
  pub time_stamp : ℤ

-- `mre[id]`, `mbe[id]` and `men[id]` are put there if they are missing.
abbrev pub look_up_range : Node → ℕ → Node
unfolding emplace
look_up_range n id =
    let s = n.store in
    record n { store = record s { mbe = emplace id 0 s.mbe; men = emplace id 0 s.men } }

abbrev pub look_up_remove : Node → ℕ → Node
unfolding emplace
look_up_remove n id =
    let s = n.store in record n { store = record s { mre = emplace id false s.mre } }

unfoldable pub finish_move : Unset → KeyValue → Blocks → Node → Blocks × Node
unfolding remove_blocks move_data_return_return
finish_move u kv s n =
    let n1 = look_up_remove n kv.id in
    let n2 = look_up_range n1 kv.id in
    if at false kv.id n.store.mre
    then (let (hl, files) =
          remove_blocks (at 0 kv.id n.store.mbe) (at 0 kv.id n.store.men) s.hl s.files
            (declare u.tmp) in
        (record { hl = hl; files = files }, move_data_return_return n2 kv.id kv.ip kv.port 0))
    else (s, move_data_return_return n1 kv.id kv.ip kv.port 0)

-- One request; `now` is what `getTime` returns. The first part of the result is whether the loop
-- goes on: an error in request 4 ends it.
unfoldable pub serve : Unset → ℤ → KeyValue → Blocks → Node → Option (Bool × Blocks × Node)
unfolding put_blocks get_all range_blocks take_in_all finish_move get_move_data_return
    recv_move_data_return
serve u now kv s n =
    if kv.op == 5
    then some (true, (finish_move u kv s n).0, (finish_move u kv s n).1)
    else if kv.op == 1
    then (let p = put_blocks kv (get_crc kv.key) now s.hl s.files (declare u.tmp) n in
        some (true, blocks_of p, p.node))
    else if kv.op == 2
    then some (true, s, get_all kv (get_crc kv.key) s n)
    else if kv.op == 3
    then (let found = range_blocks kv.begin kv.end s.hl s.files in
        some (
          true,
          s,
          get_move_data_return n kv.id kv.remotesrcip kv.remotesrcport kv.remotedestip
              kv.remotedestport (map (λ w. w.0) found) (map (λ w. w.1) found),
        ))
    else if kv.op == 4
    then elim (take_in_all kv u.time_stamp kv.key_vec kv.value_vec s (declare u.tmp) n) [
      | none ↦ none
      | some (err, s', n') ↦ some (
          if err
          then (false, s', n')
          else (true, s', recv_move_data_return n' kv.id kv.ip kv.port 0))
    ]
    else some (true, s, n)

-- One turn of the loop; an empty queue waits, which is `none` too.
unfoldable pub turn_once : Unset → ℤ → Blocks → Node → Option (Bool × Blocks × Node)
unfolding pop serve
turn_once u now s n = pop n.store.que >>= λ (kv, rest).
    serve u now kv s (record n { store = record (n.store) { que = rest } })

-- Turns of the loop, each with the time and the variables it finds.
pub data Turns : Blocks → Node → Blocks → Node → Type 0 where
  begun : {s : Blocks} {n : Node} → Turns s n s n
  turned :
      {s s' s'' : Blocks} {n n' n'' : Node} (u : Unset) (now : ℤ)
      → turn_once u now s n ≡ some (true, s', n')
      → Turns s' n' s'' n''
      → Turns s n s'' n''
