-- ===== src/Cache/Start.antt =====
-- src/hash_cache.cpp, the constructor and the destructor: what is read from the files when a cache
-- is made, and written when it is saved.
use thkvs.Base.{
  ℕ, zero, suc, List, [], ◌∷◌, false, none, some, ◌==◌, if◌then◌else◌, Text, text_eq, codes, length,
}
use thkvs.Base.Int.{ℤ, pos}
use thkvs.Disk.{Files, write_file, Stream, open_in, read_string, decimal_ℤ, read_int}
use thkvs.Cache.{Links, new_links}
use thkvs.Cache.Pages.{Cache, page_size, save_page_to_file, push_key_to_keymap}
use thkvs.Cache.Keys.{blanks}

-- `index` is not set where there is nothing to read.
abbrev load_new_file_index : ℤ → Files → ℤ
load_new_file_index unset files = elim (files (codes "file_index.dat")) [
  | none ↦ pos 0
  | some bytes ↦ (read_int (open_in bytes) unset).0
]

abbrev save_new_file_index : Cache → Cache
save_new_file_index c = record c {
  files = write_file (codes "file_index.dat") (decimal_ℤ c.new_file_index) c.files;
}

-- `while (input >> key >> file_num)`; each turn reads a byte at least, so as many turns as there are
-- bytes are enough.
unfoldable pub load_keys : ℕ → Stream → ℤ → (Text → ℤ) → Text → ℤ
load_keys zero input file_num files = files
load_keys (suc turns) input old files =
    let (key, input1) = read_string input [] in
    let (file_num, input2) = read_int input1 old in
    let rest =
      load_keys turns input2 file_num
        (λ other. if text_eq key other then file_num else files other) in
    if input2.failed then files else rest

unfoldable pub load_key_file_map : Files → Text → ℤ
unfolding load_keys
load_key_file_map files = elim (files (codes "key_file.dat")) [
  | none ↦ λ key. pos 0
  | some bytes ↦ load_keys (length bytes) (open_in bytes) (pos 0) (λ key. pos 0)
]

-- The pages below `capacity`, the last of them at the back of `free_entries`.
abbrev free_pages : ℕ → List ℕ
free_pages zero = []
free_pages (suc n) = n ∷ free_pages n

-- The ends of the list are the next two indices. The index of `load_new_file_index`, the file numbers
-- of the pages and the links hold anything where they are not set.
unfoldable pub new_cache : ℕ → ℤ → (ℕ → ℤ) → Links → Files → Cache
unfolding load_key_file_map
new_cache capacity unset_index unset links files = record {
  entries = λ page. record { file_num = unset page; dirty = false; nodes = blanks page_size };
  free_entries = free_pages capacity;
  hash_map = λ key. none;
  key_file_map = load_key_file_map files;
  put_page = none;
  put_page_existed = false;
  new_file_index = load_new_file_index unset_index files;
  links = new_links (record links { head = capacity; tail = suc capacity });
  file_accessed = λ file_num. false;
  data_index = 0;
  files = files;
}

-- The loop of `save_cache`, with a turn for each page of the list.
unfoldable pub save_pages : ℕ → ℕ → Cache → Cache
unfolding save_page_to_file
save_pages zero page c = c
save_pages (suc turns) page c =
    let c' = if (c.entries page).dirty then save_page_to_file page c else c in
    let rest = save_pages turns (c'.links.next page) c' in if page == c.links.tail then c else rest

-- `turns` is the number of the pages of the cache, which the list has no more than.
unfoldable pub save_cache : ℕ → Cache → Cache
unfolding save_pages push_key_to_keymap
save_cache turns c =
    let saved = save_new_file_index (save_pages turns (c.links.next c.links.head) c) in
    push_key_to_keymap saved.put_page saved
