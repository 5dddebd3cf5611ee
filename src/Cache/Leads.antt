-- ===== src/Cache/Leads.antt =====
-- src/hash_cache.cpp, a key that is not in the map, and where it leads once a page is loaded from a
-- file.
use thkvs.Base.{
  ℕ, suc, ◌≡◌, refl, List, [], ◌∷◌, Bool, true, false, Option, none, some, ltb, if◌then◌else◌,
  ◌>>=◌, bind_cases, bind_holds, Text, text_eq,
}
use thkvs.Base.Int.{ℤ, pos, negsuc}
use thkvs.Disk.{open_in}
use thkvs.Cache.{detach}
use thkvs.Cache.Pages.{
  Node, Place, Cache, disk_size, page_file, set_page, set_node, set_accessed, read_nodes, point_to,
  load_file_to_page, save_page_to_file, erase_nodes, erase_page_of_cache, push_key_to_keymap,
}
use thkvs.Cache.Keys.{is_page, evict, take_free, get_new_page}

module _ (key : Text) where
  abbrev Lacks : Cache → Type 0
  Lacks c = c.hash_map key ≡ none

  abbrev LacksAfter : Option Cache → Type 0
  LacksAfter none = Unit
  LacksAfter (some c) = Lacks c

  abbrev pub LacksTaken : Option (ℕ × Cache) → Type 0
  LacksTaken none = Unit
  LacksTaken (some (page, c)) = Lacks c

  Lacks-if : (t : Bool) (a b : Cache) → Lacks a → Lacks b → Lacks (if t then a else b)
  Lacks-if true a b h k = h
  Lacks-if false a b h k = k

  set_accessed-Lacks : (n : ℤ) (b : Bool) (c : Cache) → Lacks c → LacksAfter (set_accessed n b c)
  set_accessed-Lacks (negsuc n) b c h = tt
  set_accessed-Lacks (pos n) b c h = choose _ (ltb n disk_size) h
    where
      choose : (c' : Cache) (t : Bool) → Lacks c' → LacksAfter (if t then some c' else none)
      choose c' true h = h
      choose c' false h = tt

  erase_nodes-Lacks : (nodes : List Node) (c : Cache) → Lacks c → Lacks (erase_nodes nodes c)
  erase_nodes-Lacks [] c h = h
  erase_nodes-Lacks (node ∷ nodes) c h =
      erase_nodes-Lacks nodes (set_node node.key none c) (choose (text_eq node.key key))
    where
      choose : (t : Bool) → (if t then none else c.hash_map key) ≡ none
      choose true = refl
      choose false = h

  erase_page_of_cache-Lacks :
      (page : ℕ) (c : Cache) → Lacks c → LacksAfter (erase_page_of_cache page c)
  unfolding erase_page_of_cache
  erase_page_of_cache-Lacks page c h =
      let p = c.entries page in
      bind_cases LacksAfter LacksAfter (set_accessed p.file_num false c) _
        (set_accessed-Lacks p.file_num false c h) tt (λ c' k. erase_nodes-Lacks p.nodes c' k)

  evict-Lacks : (c : Cache) → Lacks c → LacksAfter (evict c)
  unfolding evict push_key_to_keymap save_page_to_file
  evict-Lacks c h =
      let page = c.links.prev c.links.tail in
      let pushed =
        if is_page c.put_page page
        then push_key_to_keymap (some page) (record c { put_page_existed = false })
        else c in
      let saved = if (c.entries page).dirty then save_page_to_file page pushed else pushed in
      let k : Lacks pushed =
        Lacks-if (is_page c.put_page page)
          (push_key_to_keymap (some page) (record c { put_page_existed = false })) c h h in
      let k' : Lacks saved =
        Lacks-if (c.entries page).dirty (save_page_to_file page pushed) pushed k k in
      bind_cases LacksAfter LacksAfter (erase_page_of_cache page saved) _
        (erase_page_of_cache-Lacks page saved k') tt
        (λ erased e. bind_holds LacksAfter (detach page erased.links) _ tt (λ links. e))

  take_free-Lacks : (c : Cache) → Lacks c → LacksTaken (take_free c)
  take_free-Lacks c h = taken c.free_entries
    where
      taken :
          (xs : List ℕ)
          → LacksTaken (elim xs as (λ x. Option (ℕ × Cache)) [
            | [] ↦ none
            | p ∷ rest ↦ some (p, record c { free_entries = rest })
          ])
      taken [] = tt
      taken (p ∷ rest) = h

  pub get_new_page-Lacks : (c : Cache) → Lacks c → LacksTaken (get_new_page c)
  unfolding get_new_page
  get_new_page-Lacks c h = chosen c.free_entries
    where
      chosen :
          (xs : List ℕ)
          → LacksTaken (elim xs as (λ x. Option (ℕ × Cache)) [
            | [] ↦ evict c >>= take_free
            | p ∷ rest ↦ take_free c
          ])
      chosen [] =
          bind_cases LacksAfter LacksTaken (evict c) take_free (evict-Lacks c h) tt
            (λ c' k. take_free-Lacks c' k)
      chosen (p ∷ rest) = take_free-Lacks c h

  -- The key leads to a node of the page, or nowhere.
  abbrev pub LeadsTo : ℕ → Option Place → Type 0
  LeadsTo page none = Unit
  LeadsTo page (some place) = place.page ≡ page

  point_to-LeadsTo :
      (page i : ℕ) (nodes : List Node) (c : Cache)
      → LeadsTo page (c.hash_map key)
      → LeadsTo page ((point_to page i nodes c).hash_map key)
  unfolding point_to
  point_to-LeadsTo page i [] c h = h
  point_to-LeadsTo page i (node ∷ nodes) c h =
      point_to-LeadsTo page (suc i) nodes
        (set_node node.key (some (record { page = page; index = i })) c)
        (choose (text_eq node.key key))
    where
      choose :
          (t : Bool)
          → LeadsTo page (if t then some (record { page = page; index = i }) else c.hash_map key)
      choose true = refl
      choose false = h

  abbrev pub Loaded : ℕ → Option (Option Cache) → Type 0
  Loaded page none = Unit
  Loaded page (some none) = Unit
  Loaded page (some (some c)) = LeadsTo page (c.hash_map key)

  pub Lacks-LeadsTo : (page : ℕ) (c : Cache) → Lacks c → LeadsTo page (c.hash_map key)
  Lacks-LeadsTo page c h = nowhere (c.hash_map key) h
    where
      nowhere : (m : Option Place) → m ≡ none → LeadsTo page m
      nowhere none e = tt
      nowhere (some place) e = cc

  pub load_file_to_page-Loaded :
      (n : ℤ) (page : ℕ) (c : Cache) → Lacks c → Loaded page (load_file_to_page n page c)
  unfolding load_file_to_page
  load_file_to_page-Loaded n page c h = read (c.files (page_file n))
    where
      loaded : Text → Cache → Cache
      loaded bytes c1 =
          let nodes = read_nodes (open_in bytes) (c.entries page).nodes in
          point_to page 0 nodes
            (set_page page (record (c.entries page) { file_num = n; nodes = nodes }) c1)

      read :
          (file : Option Text)
          → Loaded page (elim file as (λ x. Option (Option Cache)) [
            | none ↦ some none
            | some bytes ↦ (set_accessed n true c >>= λ c1. some (some (loaded bytes c1)))
          ])
      read none = tt
      read (some bytes) =
          bind_cases LacksAfter (Loaded page) (set_accessed n true c) _
            (set_accessed-Lacks n true c h) tt
            (λ c1 k.
              let nodes = read_nodes (open_in bytes) (c.entries page).nodes in
              let c2 = set_page page (record (c.entries page) { file_num = n; nodes = nodes }) c1 in
              point_to-LeadsTo page 0 nodes c2 (Lacks-LeadsTo page c2 k))
