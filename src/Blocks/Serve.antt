-- ===== src/Blocks/Serve.antt =====
-- src/data.cpp, requests 1 to 4 in the loop of `run`: put, get, read a range, take entries in.
use thkvs.Base.{
  ℕ, zero, suc, ◌-◌, ◌^◌, List, [], ◌∷◌, ◌++◌, Bool, true, false, ◌&&◌, ◌||◌, Option, none, some,
  ltb, leb, ◌==◌, if◌then◌else◌, Text,
}
use thkvs.Base.Int.{ℤ, pos, negsuc}
use thkvs.State.{Node, KeyValue}
use thkvs.Store.{put_return, get_return, recv_move_data_return}
use thkvs.Store.Digits.{toint, tolonglong}
use thkvs.Disk.{Files, Stream, open_in, read_string}
use thkvs.Blocks.{Value, Hashlist, Blocks, block_name, holds, store_in}

-- How far a loop over the blocks has come at its end: the blocks it went over, the ones it pushed,
-- the files, the array `tmp` and the process.
pub record Pass : Type 0 where
  pub hl : List Hashlist
  pub pushed : List Hashlist
  pub files : Files
  pub tmp : List Value
  pub node : Node
  pub err : Bool

unfoldable pub stop : List Hashlist → Files → List Value → Node → Bool → Pass
stop hl files tmp node err = record {
  hl = hl;
  pushed = [];
  files = files;
  tmp = tmp;
  node = node;
  err = err;
}

-- Goes on behind a block, which has become `b`.
unfoldable pub go_on : Hashlist → Pass → Pass
go_on b p = record p { hl = b ∷ p.hl }

unfoldable pub after_split : Hashlist → Hashlist → Pass → Pass
after_split b t p = record p { hl = b ∷ p.hl; pushed = t ∷ p.pushed }

abbrev pub blocks_of : Pass → Blocks
blocks_of p = record { hl = p.hl ++ p.pushed; files = p.files }

-- op 1: an entry that fits ends the loop, and a block that is divided does not.
unfoldable pub put_blocks : KeyValue → ℕ → ℤ → List Hashlist → Files → List Value → Node → Pass
unfolding stop go_on after_split
put_blocks kv hash time_stamp [] files tmp n = stop [] files tmp n false
put_blocks kv hash time_stamp (b ∷ bs) files tmp n = elim (holds b hash) [
  | false ↦ go_on b (put_blocks kv hash time_stamp bs files tmp n)
  | true ↦ elim (files (block_name b)) [
    | none ↦ stop (b ∷ bs) files tmp (put_return n kv.id kv.ip kv.port 1) false
    | some bytes ↦
        let s = store_in hash kv.value time_stamp b bytes tmp files in
        elim s.split [
          | none ↦ stop (s.block ∷ bs) s.files s.tmp (put_return n kv.id kv.ip kv.port 0) false
          | some t ↦
              after_split s.block t (
                put_blocks kv hash time_stamp bs s.files s.tmp (put_return n kv.id kv.ip kv.port 0))
        ]
  ]
]

-- The three texts of a line, as variables.
pub record Words : Type 0 where
  pub key : Text
  pub value : Text
  pub time_stamp : Text

abbrev pub no_words : Words
no_words = record { key = []; value = []; time_stamp = [] }

-- `input >> key >> value >> time_stamp`
unfoldable pub read_words : Stream → Words → Words × Stream
read_words input w =
    let (key, input1) = read_string input w.key in
    let (value, input2) = read_string input1 w.value in
    let (time_stamp, input3) = read_string input2 w.time_stamp in
    (record { key = key; value = value; time_stamp = time_stamp }, input3)

-- Reads up to the first line of the hash; the variables hold the last line that was read.
unfoldable pub find_words : ℕ → ℕ → Stream → Words → Bool × Words
unfolding read_words toint
find_words hash zero input w = (false, w)
find_words hash (suc cnt) input w =
    let (w', input') = read_words input w in
    let rest = find_words hash cnt input' w' in if toint w'.key == hash then (true, w') else rest

-- 64 bits as a `long long`.
abbrev pub signed64 : ℕ → ℤ
signed64 n = if ltb n (2 ^ 63) then pos n else negsuc (2 ^ 64 - 1 - n)

unfoldable pub answer : KeyValue → ℕ → Words → Node → Node
answer kv status w n =
    get_return n kv.id kv.ip kv.port status w.value (signed64 (tolonglong w.time_stamp))

-- op 2: each block that holds the hash answers, if the entry is there. Returns `flag`, the
-- variables and the process.
unfoldable pub get_blocks :
    KeyValue → ℕ → List Hashlist → Files → Words → Bool → Node → Bool × Words × Node
unfolding find_words answer
get_blocks kv hash [] files w flag n = (flag, w, n)
get_blocks kv hash (b ∷ bs) files w flag n = elim (holds b hash) [
  | false ↦ get_blocks kv hash bs files w flag n
  | true ↦ elim (files (block_name b)) [
    | none ↦ (true, w, answer kv 1 w n)
    | some bytes ↦
        let (found, w') = find_words hash b.cnt (open_in bytes) w in
        elim found [
          | true ↦ get_blocks kv hash bs files w' true (answer kv 0 w' n)
          | false ↦ get_blocks kv hash bs files w' flag n
        ]
  ]
]

unfoldable pub get_all : KeyValue → ℕ → Blocks → Node → Node
unfolding get_blocks answer
get_all kv hash s n =
    let (flag, w, n') = get_blocks kv hash s.hl s.files no_words false n in
    if flag then n' else answer kv 1 w n'

-- The test on a block and a range, in requests 3 and 5.
abbrev pub overlaps : Hashlist → ℕ → ℕ → Bool
overlaps b begin end =
    leb b.begin begin && leb begin b.end
    || leb begin b.begin && leb b.end end
    || leb begin b.begin && leb b.begin end

-- The keys and values of a file that lie in the range, as they are written there.
unfoldable pub read_range : ℕ → ℕ → ℕ → Stream → Words → List (Text × Text)
unfolding read_words toint
read_range begin end zero input w = []
read_range begin end (suc cnt) input w =
    let (w', input') = read_words input w in
    let rest = read_range begin end cnt input' w' in
    if leb begin (toint w'.key) && leb (toint w'.key) end then (w'.key, w'.value) ∷ rest else rest

-- op 3
unfoldable pub range_blocks : ℕ → ℕ → List Hashlist → Files → List (Text × Text)
unfolding read_range
range_blocks begin end [] files = []
range_blocks begin end (b ∷ bs) files = elim (overlaps b begin end) [
  | false ↦ range_blocks begin end bs files
  | true ↦ elim (files (block_name b)) [
    | none ↦ []
    | some bytes ↦
        read_range begin end b.cnt (open_in bytes) no_words ++ range_blocks begin end bs files
  ]
]

-- op 4, one entry: every block that holds the hash takes it in.
unfoldable pub take_blocks :
    KeyValue → ℕ → Text → ℤ → List Hashlist → Files → List Value → Node → Pass
unfolding stop go_on after_split
take_blocks kv hash value time_stamp [] files tmp n = stop [] files tmp n false
take_blocks kv hash value time_stamp (b ∷ bs) files tmp n = elim (holds b hash) [
  | false ↦ go_on b (take_blocks kv hash value time_stamp bs files tmp n)
  | true ↦ elim (files (block_name b)) [
    | none ↦ stop (b ∷ bs) files tmp (recv_move_data_return n kv.id kv.ip kv.port 1) true
    | some bytes ↦
        let s = store_in hash value time_stamp b bytes tmp files in
        let rest = take_blocks kv hash value time_stamp bs s.files s.tmp n in
        elim s.split [ none ↦ go_on s.block rest | some t ↦ after_split s.block t rest ]
  ]
]

-- op 4, all entries; whether there was an error is returned too. With fewer values than keys,
-- `front` is called on an empty list, which is `none`.
unfoldable pub take_in_all :
    KeyValue
    → ℤ
    → List Text
    → List Text
    → Blocks
    → List Value
    → Node
    → Option (Bool × Blocks × Node)
unfolding take_blocks toint
take_in_all kv time_stamp [] values s tmp n = some (false, s, n)
take_in_all kv time_stamp (key ∷ keys) [] s tmp n = none
take_in_all kv time_stamp (key ∷ keys) (value ∷ values) s tmp n =
    let p = take_blocks kv (toint key) value time_stamp s.hl s.files tmp n in
    elim p.err [
      | true ↦ some (true, blocks_of p, p.node)
      | false ↦ take_in_all kv time_stamp keys values (blocks_of p) p.tmp p.node
    ]
