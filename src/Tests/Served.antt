-- ===== src/Tests/Served.antt =====
-- The data thread after one put: another put is answered.
use thkvs.Base.{
  ℕ, ◌≤◌, ◌≡◌, refl, inl, List, [], ◌∷◌, Bool, true, Option, none, some, codes, length, arith,
}
use thkvs.Base.Int.{pos}
use thkvs.State.{Node, KeyValue}
use thkvs.Queue.{pop}
use thkvs.Store.{new_request}
use thkvs.Store.Digits.{conkey, digits_before}
use thkvs.Blocks.{Blocks, start_run, save, place, store_in, read_value, read_values, file_name}
use thkvs.Blocks.Serve.{stop, put_blocks}
use thkvs.Blocks.Loop.{serve, turn_once, Turns, begun, turned}
use thkvs.Blocks.Answers.{put_replies, Replied, serve-Replied}
use thkvs.Blocks.Twice.{put_blocks_replies}
use thkvs.Tests.{server}
use thkvs.Tests.Data.{no_files, unset, array, put_k, one_entry, one_entry-Refines}

abbrev waiting : Node
waiting = record server { store = record (server.store) { que = put_k ∷ [] } }

abbrev left_by : Option (Bool × Blocks × Node) → Blocks × Node
left_by none = (start_run no_files, waiting)
left_by (some r) = (r.1, r.2)

abbrev after_turn : Blocks × Node
after_turn = left_by (turn_once unset (pos 100) (start_run no_files) waiting)

one_turn : Turns (start_run no_files) waiting after_turn.0 after_turn.1
unfolding turn_once pop serve
one_turn = turned unset (pos 100) refl begun

abbrev put_j : KeyValue
put_j = new_request 6 (codes "::1") 8001 (codes "j") (codes "w") 1

serve-Replied_example :
    (s' : Blocks) × (n' : Node) × (serve unset (pos 300) put_j after_turn.0 after_turn.1
      ≡ some (true, s', n'))
    × Replied put_j after_turn.1 n'
serve-Replied_example =
    serve-Replied no_files waiting after_turn.1 after_turn.0 unset (pos 300) put_j one_turn
      (omega arith, tt) (inl refl)

put_blocks_replies_example :
    (statuses : List ℕ) × ((put_blocks put_j 9
        (pos 300)
        one_entry.hl
        one_entry.files
        array
        server).node
      ≡ put_replies put_j statuses server)
    × (1 ≤ length statuses)
    × (length statuses ≤ 2)
unfolding put_blocks stop store_in place save read_values read_value file_name conkey digits_before
    start_run
put_blocks_replies_example =
    put_blocks_replies put_j 9 (pos 300) one_entry one_entry-Refines.gs array server
      one_entry-Refines.kept refl
