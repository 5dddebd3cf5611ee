-- ===== src/Blocks.antt =====
-- src/data.cpp, the loop of `run`: the entries lie in blocks, one file for each, over ranges of
-- hashes. Entries are put into a block here; the child modules are the five kinds of request.
pub mod Serve
pub mod Loop
pub mod Lines
pub mod Filled
pub mod Laid
pub mod Saved
pub mod Names
pub mod Kept
pub mod Cut
pub mod Divided
pub mod Puts
pub mod Refinement
pub mod Updates
pub mod Found
pub mod Gets
pub mod Ranges
pub mod Sessions
pub mod Moved
pub mod Handover
pub mod Marks
pub mod Same
pub mod Removal
pub mod Covered
pub mod Reached
pub mod Answers
pub mod Twice
use thkvs.Base.{
  ℕ, zero, suc, ◌-◌, ◌/◌, List, [], ◌∷◌, ◌++◌, map, Bool, false, ◌&&◌, ◌||◌, Option, none, some,
  ltb, leb, ◌==◌, if◌then◌else◌, Text, codes, decimal, take, modify,
}
use thkvs.Base.Int.{ℤ}
use thkvs.Disk.{
  Files, write_file, rm, rm_texts, Stream, open_in, read_string, read_unsigned, read_long,
  decimal_ℤ,
}
use thkvs.Store.Digits.{conkey}

pub record Value : Type 0 where
  pub flag : Bool
  pub id : ℕ
  pub key : ℕ
  pub time_stamp : ℤ
  pub value : Text

pub record Hashlist : Type 0 where
  pub begin : ℕ
  pub end : ℕ
  pub cnt : ℕ

-- What `run` works on: `hl`, and the files.
pub record Blocks : Type 0 where
  pub hl : List Hashlist
  pub files : Files

unfoldable pub file_name : ℕ → ℕ → Text
unfolding conkey
file_name begin end = conkey begin ++ codes "_" ++ conkey end ++ codes ".txt"

abbrev pub block_name : Hashlist → Text
block_name b = file_name b.begin b.end

-- The files are removed, and one block without entries is made for all hashes.
unfoldable pub start_run : Files → Blocks
unfolding file_name
start_run files = record {
  hl = record { begin = 0; end = 0xffff_ffff; cnt = 0 } ∷ [];
  files = write_file (file_name 0 0xffff_ffff) [] (rm_texts files);
}

-- `output_1 << tmp[j].key << " " << tmp[j].value << " " << tmp[j].time_stamp << endl`
abbrev pub line : Value → Text
line v = decimal v.key ++ (32 ∷ v.value ++ (32 ∷ decimal_ℤ v.time_stamp ++ (10 ∷ [])))

abbrev pub lines : List Value → Text
lines [] = []
lines (v ∷ vs) = line v ++ lines vs

-- `input >> tmp[j].key >> tmp[j].value >> tmp[j].time_stamp`
unfoldable pub read_value : Stream → Value → Value × Stream
read_value input v =
    let (key, input1) = read_unsigned input v.key in
    let (value, input2) = read_string input1 v.value in
    let (time_stamp, input3) = read_long input2 v.time_stamp in
    (record v { key = key; value = value; time_stamp = time_stamp }, input3)

-- The loop that reads `cnt` entries to the front of `tmp`, with what it does to each.
unfoldable pub read_values : (Value → Value) → ℕ → Stream → List Value → List Value
unfolding read_value
read_values change zero input tmp = tmp
read_values change (suc cnt) input [] = []
read_values change (suc cnt) input (v ∷ tmp) =
    let (v', input') = read_value input v in change v' ∷ read_values change cnt input' tmp

abbrev pub insert_sorted : Value → List Value → List Value
insert_sorted v [] = v ∷ []
insert_sorted v (w ∷ vs) =
    let rest = insert_sorted v vs in if ltb w.key v.key then w ∷ rest else v ∷ w ∷ vs

abbrev pub sort : List Value → List Value
sort [] = []
sort (v ∷ vs) = insert_sorted v (sort vs)

abbrev pub drop {ℓ} : {A : Type ℓ} → ℕ → List A → List A
drop zero xs = xs
drop (suc n) [] = []
drop (suc n) (x ∷ xs) = drop n xs

-- `sort(tmp, tmp + cnt)`
abbrev pub sort_first : ℕ → List Value → List Value
sort_first cnt tmp = sort (take cnt tmp) ++ drop cnt tmp

abbrev pub has_key : ℕ → List Value → Bool
has_key hash [] = false
has_key hash (v ∷ vs) = v.key == hash || has_key hash vs

-- `tmp[j].key`, in the array.
abbrev pub key_at : List Value → ℕ → ℕ
key_at [] j = 0
key_at (v ∷ vs) zero = v.key
key_at (v ∷ vs) (suc j) = key_at vs j

-- `Value tmp[22]`: numbers and flags are not set, and the texts are empty.
abbrev pub declare : List Value → List Value
declare [] = []
declare (v ∷ tmp) = record v { value = [] } ∷ declare tmp

-- What becomes of a block that takes an entry in: the block, the one that is pushed when it is
-- divided, the files and the array.
pub record Stored : Type 0 where
  pub block : Hashlist
  pub split : Option Hashlist
  pub files : Files
  pub tmp : List Value

-- At most 20 entries are written back; more are divided between two files.
unfoldable pub save : Hashlist → List Value → Files → Stored
unfolding file_name
save b tmp files =
    let cut = b.cnt / 2 in
    let key = key_at tmp cut in
    if leb b.cnt 20
    then record {
      block = b;
      split = none;
      files = write_file (block_name b) (lines (take b.cnt tmp)) files;
      tmp = tmp;
    }
    else record {
      block = record b { end = key; cnt = cut };
      split = some (record { begin = key; end = b.end; cnt = b.cnt - cut });
      files = rm (block_name b) (
          write_file (file_name key b.end) (lines (drop cut (take b.cnt tmp)))
            (write_file (file_name b.begin key) (lines (take cut tmp)) files));
      tmp = tmp;
    }

abbrev pub update : ℕ → Text → ℤ → Value → Value
update hash value time_stamp v =
    if v.key == hash then record v { value = value; time_stamp = time_stamp } else v

abbrev pub assign_value : ℕ → Text → ℤ → Value → Value
assign_value hash value time_stamp v = record v {
  key = hash;
  value = value;
  time_stamp = time_stamp;
}

-- `flag` says that one of the keys that were read is the hash; if none is, the entry is new.
unfoldable pub place : ℕ → Text → ℤ → Hashlist → List Value → Files → Stored
unfolding save
place hash value time_stamp b read files =
    if has_key hash (take b.cnt read)
    then save b (sort_first b.cnt read) files
    else save (record b { cnt = suc b.cnt })
        (sort_first (suc b.cnt) (modify read b.cnt (assign_value hash value time_stamp))) files

-- A new value for the hash in a block whose file holds `bytes`.
unfoldable pub store_in : ℕ → Text → ℤ → Hashlist → Text → List Value → Files → Stored
unfolding place read_values
store_in hash value time_stamp b bytes tmp files =
    place hash value time_stamp b
      (read_values (update hash value time_stamp) b.cnt (open_in bytes) tmp) files

abbrev pub holds : Hashlist → ℕ → Bool
holds b hash = leb b.begin hash && leb hash b.end
