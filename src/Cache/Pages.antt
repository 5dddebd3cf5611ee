-- ===== src/Cache/Pages.antt =====
-- src/hash_cache.cpp, the pages of the cache and their files. `none` is a pointer that is null or an
-- access out of the bounds of `file_accessed`.
use thkvs.Base.{
  ℕ, suc, List, [], ◌∷◌, ◌++◌, Bool, true, false, Option, none, some, ltb, ◌==◌, if◌then◌else◌,
  Text, text_eq, codes, ◌>>=◌,
}
use thkvs.Base.Int.{ℤ, pos, negsuc}
use thkvs.Disk.{Files, write_file, Stream, open_in, read_string, decimal_ℤ}
use thkvs.Cache.{Links}

pub record Node : Type 0 where
  pub key : Text
  pub value : Text

abbrev pub blank : Node
blank = record { key = []; value = [] }

-- `lock_` and `is_putpape`, which are not read, are left out; `nodes` is `data_`.
pub record Page : Type 0 where
  pub file_num : ℤ
  pub dirty : Bool
  pub nodes : List Node

-- A pointer to a node: its page, and its index there.
pub record Place : Type 0 where
  pub page : ℕ
  pub index : ℕ

-- `free_entries` has its back first; `data_index` is the static variable of `put`. A key with the
-- null pointer in `hash_map`, and one with 0 in `key_file_map`, is one that is not there.
pub record Cache : Type 0 where
  pub entries : ℕ → Page
  pub free_entries : List ℕ
  pub hash_map : Text → Option Place
  pub key_file_map : Text → ℤ
  pub put_page : Option ℕ
  pub put_page_existed : Bool
  pub new_file_index : ℤ
  pub links : Links
  pub file_accessed : ℕ → Bool
  pub data_index : ℕ
  pub files : Files

-- `PAGE_SIZE` and `DISK_SIZE`.
abbrev pub page_size : ℕ
page_size = 50

abbrev pub disk_size : ℕ
disk_size = 200

abbrev pub set_page : ℕ → Page → Cache → Cache
set_page page p c = record c { entries = λ i. if i == page then p else c.entries i }

abbrev pub set_node : Text → Option Place → Cache → Cache
set_node key node c = record c {
  hash_map = λ other. if text_eq key other then node else c.hash_map other;
}

-- `file_accessed[file_num] = accessed`
abbrev pub set_accessed : ℤ → Bool → Cache → Option Cache
set_accessed (negsuc n) accessed c = none
set_accessed (pos n) accessed c =
    if ltb n disk_size
    then some (record c { file_accessed = λ m. if m == n then accessed else c.file_accessed m })
    else none

-- `to_string(file_num) + ".dat"`
abbrev pub page_file : ℤ → Text
page_file file_num = decimal_ℤ file_num ++ codes ".dat"

-- `input >> data[i].key_ >> data[i].value_`, and what is done when that fails.
unfoldable pub read_node : Stream → Node → Node × Stream
read_node input node =
    let (key, input1) = read_string input node.key in
    let (value, input2) = read_string input1 node.value in
    (if input2.failed then blank else record { key = key; value = value }, input2)

unfoldable pub read_nodes : Stream → List Node → List Node
unfolding read_node
read_nodes input [] = []
read_nodes input (old ∷ nodes) =
    let (node, input') = read_node input old in node ∷ read_nodes input' nodes

-- `hash_map[data[i].key_] = data + i`, from the node `i` on.
unfoldable pub point_to : ℕ → ℕ → List Node → Cache → Cache
point_to page i [] c = c
point_to page i (node ∷ nodes) c =
    point_to page (suc i) nodes (set_node node.key (some (record { page = page; index = i })) c)

-- `none` inside: FAILED.
unfoldable pub load_file_to_page : ℤ → ℕ → Cache → Option (Option Cache)
unfolding read_nodes point_to
load_file_to_page file_num page c = elim (c.files (page_file file_num)) [
  | none ↦ some none
  | some bytes ↦ do
    c' ← set_accessed file_num true c
    let nodes = read_nodes (open_in bytes) (c.entries page).nodes
    let p = record (c.entries page) { file_num = file_num; nodes = nodes }
    some (some (point_to page 0 nodes (set_page page p c')))
]

-- `output << data[i].key_ << " " << data[i].value_ << endl`
abbrev pub node_lines : List Node → Text
node_lines [] = []
node_lines (node ∷ nodes) = node.key ++ (32 ∷ node.value ++ (10 ∷ node_lines nodes))

unfoldable pub save_page_to_file : ℕ → Cache → Cache
save_page_to_file page c =
    let p = c.entries page in
    let c' = set_page page (record p { dirty = false }) c in
    record c' { files = write_file (page_file p.file_num) (node_lines p.nodes) c.files }

abbrev pub erase_nodes : List Node → Cache → Cache
erase_nodes [] c = c
erase_nodes (node ∷ nodes) c = erase_nodes nodes (set_node node.key none c)

unfoldable pub erase_page_of_cache : ℕ → Cache → Option Cache
erase_page_of_cache page c = do
  let p = c.entries page
  c' ← set_accessed p.file_num false c
  some (erase_nodes p.nodes c')

abbrev pub key_lines : ℤ → List Node → Text
key_lines file_num [] = []
key_lines file_num (node ∷ nodes) =
    node.key ++ (32 ∷ decimal_ℤ file_num ++ (10 ∷ key_lines file_num nodes))

abbrev pub map_keys : ℤ → List Node → (Text → ℤ) → Text → ℤ
map_keys file_num [] files = files
map_keys file_num (node ∷ nodes) files =
    map_keys file_num nodes (λ other. if text_eq node.key other then file_num else files other)

-- A file that is opened with `ios::app`.
abbrev pub append_file : Text → Text → Files → Files
append_file name bytes files = elim (files name) [
  | none ↦ write_file name bytes files
  | some old ↦ write_file name (old ++ bytes) files
]

unfoldable pub push_key_to_keymap : Option ℕ → Cache → Cache
push_key_to_keymap none c = c
push_key_to_keymap (some page) c =
    let p = c.entries page in
    record c {
      key_file_map = map_keys p.file_num p.nodes c.key_file_map;
      files = append_file (codes "key_file.dat") (key_lines p.file_num p.nodes) c.files;
    }
