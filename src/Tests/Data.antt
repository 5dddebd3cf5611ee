-- ===== src/Tests/Data.antt =====
-- The data thread on a disk without files: two puts and a get, a range that moves, a block that is
-- divided.
use thkvs.Base.{
  ℕ, zero, suc, ◌+◌, ◌≤◌, ◌≡◌, refl, inl, inr, List, [], ◌∷◌, true, false, none, some, codes,
  decimal, digits_onto, length, All, arith,
}
use thkvs.Base.Int.{pos}
use thkvs.State.{Node, KeyValue}
use thkvs.Store.{new_request, get_return}
use thkvs.Send.{send, send_get_ret}
use thkvs.Queue.{push}
use thkvs.Store.Digits.{conkey, digits_before, toint, read_digits}
use thkvs.Crc.{get_crc}
use thkvs.Disk.{Files}
use thkvs.Blocks.{
  Value, Hashlist, Blocks, start_run, save, place, store_in, read_value, read_values, file_name,
}
use thkvs.Blocks.Serve.{
  blocks_of, stop, go_on, after_split, put_blocks, take_blocks, read_range, read_words, take_in_all,
  range_blocks, get_all, get_blocks, find_words, answer,
}
use thkvs.Blocks.Loop.{Unset, serve, remove_blocks}
use thkvs.Blocks.Lines.{Fits}
use thkvs.Blocks.Filled.{IsFilled}
use thkvs.Blocks.Marks.{InRange}
use thkvs.Blocks.Kept.{Held, IsKept, copies_in, holders}
use thkvs.Blocks.Refinement.{Map, set, Refines}
use thkvs.Blocks.Updates.{put_blocks-Refines}
use thkvs.Blocks.Ranges.{all_within, range_blocks_kept}
use thkvs.Blocks.Moved.{keys, values, clear_takes}
use thkvs.Blocks.Handover.{moved_map, handover}
use thkvs.Blocks.Removal.{remove_blocks-IsKept}
use thkvs.Blocks.Sessions.{
  DataCall, IsCall, serve_all, clear, replay, Replies, serve_all_refines, start_run-Refines,
}
use thkvs.Tests.{server}

abbrev pub no_files : Files
no_files = λ name. none

abbrev empty : Map
empty = λ h. none

abbrev blank : Value
blank = record { flag = true; id = 9; key = 77; time_stamp = pos 5; value = codes "x" }

abbrev repeated : ℕ → List Value
repeated zero = []
repeated (suc n) = blank ∷ repeated n

abbrev pub array : List Value
array = repeated 22

abbrev pub unset : Unset
unset = record { tmp = array; time_stamp = pos 3 }

abbrev pub put_k : KeyValue
put_k = new_request 4 (codes "::1") 8001 (codes "k") (codes "v") 1

abbrev get_k : KeyValue
get_k = new_request 5 (codes "::1") 8001 (codes "k") (codes "haha") 2

abbrev calls : List DataCall
calls =
    record { unset = unset; now = 100; kv = put_k }
    ∷ record { unset = unset; now = 200; kv = get_k }
    ∷ []

calls-All : All IsCall calls
calls-All = (
  record {
    kind = inl (refl, (refl, tt));
    bytes = (omega arith, tt);
    room = omega arith;
    now = omega arith;
  },
  (
    record { kind = inr refl; bytes = (omega arith, tt); room = omega arith; now = omega arith },
    tt,
  ),
)

calls-clear : clear calls (start_run no_files) server ≡ true
unfolding serve put_blocks stop store_in place save read_values read_value file_name conkey
    digits_before get_crc start_run
calls-clear = refl

serve_all_refines_example :
    (s' : Blocks) × (n' : Node) × (serve_all calls (start_run no_files) server ≡ some (s', n'))
    × Refines s' (replay calls empty)
    × Replies calls empty server n'
serve_all_refines_example =
    serve_all_refines calls (start_run no_files) empty server calls-All (start_run-Refines no_files)
      (λ h. tt) calls-clear

-- One entry, of the hash 5.
abbrev pub one_entry : Blocks
one_entry =
    blocks_of
      (put_blocks put_k 5 (pos 100) (start_run no_files).hl (start_run no_files).files array server)

start_holds : holders 5 (start_run no_files).hl ≡ 1
unfolding start_run
start_holds = refl

pub one_entry-Refines : Refines one_entry (set empty 5 (codes "v") (pos 100))
one_entry-Refines =
    (put_blocks-Refines put_k 5 (pos 100) (omega arith, omega arith) (omega arith)
      (start_run no_files) array (omega arith) server empty (start_run-Refines no_files) start_holds
      (refl, tt)).0

range_blocks_kept_example :
    range_blocks 3 5 one_entry.hl one_entry.files ≡ all_within 3 5 one_entry-Refines.gs
range_blocks_kept_example =
    range_blocks_kept 3 5 one_entry one_entry-Refines.gs one_entry-Refines.kept

remove_blocks-IsKept_example :
    let out = remove_blocks 3 5 one_entry.hl one_entry.files array in
    (ks : List Held) × IsKept (record { hl = out.0; files = out.1 }) ks
    × ((h : ℕ) → InRange 3 5 h → copies_in h ks ≡ [])
remove_blocks-IsKept_example =
    remove_blocks-IsKept 3 5 one_entry one_entry-Refines.gs array one_entry-Refines.kept
      (omega arith)

one_entry_clear :
    clear_takes put_k
      (pos 3)
      (range_blocks 3 5 one_entry.hl one_entry.files)
      (start_run no_files)
      array
      server
    ≡ true
unfolding put_blocks stop store_in place save read_values read_value file_name conkey digits_before
    start_run range_blocks read_range read_words toint read_digits take_blocks decimal digits_onto
    go_on after_split
one_entry_clear = refl

handover_example :
    let found = range_blocks 3 5 one_entry.hl one_entry.files in
    (b' : Blocks) × (take_in_all put_k
        (pos 3)
        (keys found)
        (values found)
        (start_run no_files)
        array
        server
      ≡ some (false, b', server))
    × Refines b' (moved_map 3 5 (pos 3) (set empty 5 (codes "v") (pos 100)) empty)
handover_example =
    handover 3 5 put_k (pos 3) one_entry (start_run no_files) (set empty 5 (codes "v") (pos 100))
      empty array server (omega arith, omega arith) (omega arith) one_entry-Refines
      (start_run-Refines no_files) one_entry_clear

abbrev value_of : ℕ → Value
value_of k = record { flag = false; id = 0; key = k; time_stamp = pos k; value = codes "v" }

abbrev numbered : ℕ → ℕ → List Value
numbered zero lo = []
numbered (suc n) lo = value_of lo ∷ numbered n (suc lo)

numbered-IsFilled : (n lo hi : ℕ) → lo + n ≤ suc hi → IsFilled lo hi (numbered n lo)
numbered-IsFilled zero lo hi l = tt
numbered-IsFilled (suc n) lo hi l =
    (omega arith, omega arith, numbered-IsFilled n (suc lo) hi (omega arith))

numbered-All : (n lo : ℕ) → lo + n ≤ 1000 → All Fits (numbered n lo)
numbered-All zero lo l = tt
numbered-All (suc n) lo l = (
  record { key = omega arith; value = (refl, tt); time_stamp = (omega arith, omega arith) },
  numbered-All n (suc lo) (omega arith),
)

abbrev full_block : Hashlist
full_block = record { begin = 0; end = 0xffff_ffff; cnt = 20 }

-- The hash at which a block is divided lies in both parts: the next put of it goes to the first part,
-- the second one keeps the entry it has, and a get sends two answers.
abbrev puts : ℕ → Blocks → Blocks
puts zero s = s
puts (suc n) s =
    let s' = puts n s in blocks_of (put_blocks put_k n (pos 100) s'.hl s'.files array server)

abbrev put_twice : Blocks
put_twice =
    let s = puts 21 (start_run no_files) in
    blocks_of (put_blocks put_k 10 (pos 300) s.hl s.files array server)

put_twice_answers : length (get_all get_k 10 put_twice server).send_que ≡ 2
unfolding put_blocks stop store_in place save read_values read_value file_name conkey digits_before
    start_run decimal digits_onto go_on after_split get_all get_blocks find_words read_words toint
    read_digits answer get_return send_get_ret send push
put_twice_answers = refl
