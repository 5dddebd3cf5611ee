-- ===== src/Cache/Keys.antt =====
-- src/hash_cache.cpp, `search`, `get` and `put`, and the pages that they take. `none` is as in
-- Cache.Pages, or a file number above the largest `int`.
use thkvs.Base.{
  ℕ, zero, suc, ◌-◌, ◌^◌, List, [], ◌∷◌, Bool, true, false, not, ◌||◌, Option, none, some, ltb,
  ◌==◌, if◌then◌else◌, Text, text_eq, ◌>>=◌, modify, get_elem?,
}
use thkvs.Base.Int.{ℤ, pos, negsuc}
use thkvs.Cache.{Links, detach, attach, use_page}
use thkvs.Cache.Pages.{
  Node, blank, Page, Place, Cache, page_size, set_page, set_node, load_file_to_page,
  save_page_to_file, erase_page_of_cache, push_key_to_keymap,
}

abbrev pub is_page : Option ℕ → ℕ → Bool
is_page none page = false
is_page (some p) page = p == page

-- With no page free the last of the list is taken: `put_page` is no more if it is this page, and the
-- page is saved if it is dirty. In an empty list it is `head_`, whose `prev` is never set.
unfoldable pub evict : Cache → Option Cache
unfolding push_key_to_keymap save_page_to_file erase_page_of_cache detach
evict c = do
  let page = c.links.prev c.links.tail
  let pushed =
      if is_page c.put_page page
      then push_key_to_keymap (some page) (record c { put_page_existed = false })
      else c
  let saved = if (c.entries page).dirty then save_page_to_file page pushed else pushed
  erased ← erase_page_of_cache page saved
  links ← detach page erased.links
  some (record erased { links = links; free_entries = page ∷ erased.free_entries })

abbrev pub take_free : Cache → Option (ℕ × Cache)
take_free c = elim c.free_entries [
  | [] ↦ none
  | page ∷ rest ↦ some (page, record c { free_entries = rest })
]

unfoldable pub get_new_page : Cache → Option (ℕ × Cache)
unfolding evict
get_new_page c = elim c.free_entries [ [] ↦ evict c >>= take_free | page ∷ rest ↦ take_free c ]

abbrev pub is_zero : ℤ → Bool
is_zero (pos zero) = true
is_zero (pos (suc n)) = false
is_zero (negsuc n) = false

-- With FAILED the page is free again.
abbrev pub if_loaded : ℕ → Cache → Option Cache → Cache
if_loaded page taken none = record taken { free_entries = page ∷ taken.free_entries }
if_loaded page taken (some c) = c

abbrev pub look_again : Text → ℕ → Cache → Option Place × Cache
look_again key page c = elim (c.hash_map key) [
  | none ↦ (none, c)
  | some node ↦ (some node, record c { links = attach page c.links })
]

-- The node, if it is found.
unfoldable pub search : Text → Cache → Option (Option Place × Cache)
unfolding get_new_page load_file_to_page use_page attach
search key c = elim (c.hash_map key) [
  | some node ↦ do links ← use_page node.page c.links; some (some node, record c { links = links })
  | none ↦ if is_zero (c.key_file_map key) then some (none, c) else do
    (page, taken) ← get_new_page c
    loaded ← load_file_to_page (c.key_file_map key) page taken
    some (look_again key page (if_loaded page taken loaded))
]

abbrev pub node_at : Place → Cache → Option Node
node_at place c = get_elem? (c.entries place.page).nodes place.index

unfoldable pub get : Text → Cache → Option (Text × Cache)
unfolding search
get key c = do
  (found, c') ← search key c
  elim found [
    | none ↦ some ([], c')
    | some place ↦ do node ← node_at place c'; some (node.value, c')
  ]

-- The value of a node that is there; another value makes the page dirty.
unfoldable pub change_value : Place → Text → Cache → Option Cache
change_value place value c = do
  node ← node_at place c
  let p = c.entries place.page
  let change = λ (old : Node). record old { value = value }
  some (
      if text_eq value node.value
      then c
      else set_page place.page
          (record p { dirty = true; nodes = modify p.nodes place.index change }) c)

-- `++new_file_index_`
abbrev pub next_index : ℤ → Option ℤ
next_index (pos n) = if ltb n (2 ^ 31 - 1) then some (pos (suc n)) else none
next_index (negsuc zero) = some (pos 0)
next_index (negsuc (suc n)) = some (negsuc n)

abbrev pub blanks : ℕ → List Node
blanks zero = []
blanks (suc n) = blank ∷ blanks n

abbrev pub new_put_page : ℕ → Cache → ℤ → Cache
new_put_page page c index =
    let p : Page = record { file_num = index; dirty = true; nodes = blanks page_size } in
    record (set_page page p c) {
      put_page = some page;
      put_page_existed = true;
      new_file_index = index;
      links = attach page c.links;
    }

-- A new `put_page`.
unfoldable pub start_put_page : Cache → Option Cache
unfolding get_new_page attach
start_put_page c = do
  (page, taken) ← get_new_page c
  index ← next_index taken.new_file_index
  some (new_put_page page taken index)

-- The next node of `put_page`, which it is if `put` writes to one that is there.
abbrev pub with_node : ℕ → Text → Text → Cache → Links → Cache
with_node page key value c links =
    let p = c.entries page in
    let node : Node = record { key = key; value = value } in
    let c' = set_page page (record p { nodes = modify p.nodes c.data_index (λ old. node) }) c in
    record (set_node key (some (record { page = page; index = c.data_index })) c') {
      data_index = suc c.data_index;
      links = links;
    }

unfoldable pub put_node : ℕ → Text → Text → Cache → Option Cache
unfolding use_page
put_node page key value c = do
  old ← get_elem? (c.entries page).nodes c.data_index
  links ← use_page page c.links
  some (with_node page key value c links)

abbrev pub is_full : Cache → Bool
is_full c = c.data_index == page_size || not c.put_page_existed

-- A page with a node left for `put`.
unfoldable pub next_node : Cache → Option Cache
unfolding push_key_to_keymap start_put_page
next_node c =
    let begun =
      if is_full c then record (push_key_to_keymap c.put_page c) { data_index = 0 } else c in
    let started = start_put_page begun in
    if begun.data_index == 0 || not begun.put_page_existed then started else some begun

unfoldable pub put : Text → Text → Cache → Option Cache
unfolding search change_value next_node put_node
put key value c = do
  (found, searched) ← search key c
  elim found [
    | some place ↦ change_value place value searched
    | none ↦ do ready ← next_node searched; page ← ready.put_page; put_node page key value ready
  ]
