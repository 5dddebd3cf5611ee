-- ===== src/Cache/Whole.antt =====
-- src/hash_cache.cpp, what stays in all that `search` and `put` do: the number of nodes of each page,
-- and that `put` has a node left on its page.
use mathlib.Core.Path.{subst}
use thkvs.Base.{
  ℕ, suc, ◌≡◌, refl, sym, ap, ◌∙◌, inl, inr, List, [], ◌∷◌, Bool, true, false, Bool-cases, Option,
  none, some, ltb, ◌==◌, if◌then◌else◌, if_true, if_false, length, ◌>>=◌, >>=-eq-some, Text, arith,
}
use thkvs.Base.Int.{ℤ, pos, negsuc}
use thkvs.Disk.{Stream, open_in}
use thkvs.Cache.Pages.{
  Node, Page, Cache, disk_size, page_file, set_page, set_node, set_accessed, read_node, read_nodes,
  point_to, load_file_to_page, save_page_to_file, erase_nodes, erase_page_of_cache,
  push_key_to_keymap,
}
use thkvs.Cache.{Links, detach}
use thkvs.Cache.Files.{save_page_to_file-nodes}
use thkvs.Cache.Keys.{is_page, evict, take_free, get_new_page}

-- All pages have as many nodes as before, and `put` goes on at the same index.
pub record Keeps (c c' : Cache) : Type 0 where
  pub nodes : (i : ℕ) → length (c'.entries i).nodes ≡ length (c.entries i).nodes
  pub index : c'.data_index ≡ c.data_index

pub Keeps-self : (c : Cache) → Keeps c c
Keeps-self c = record { nodes = λ i. refl; index = refl }

pub Keeps-trans : {a b c : Cache} → Keeps a b → Keeps b c → Keeps a c
Keeps-trans h k = record { nodes = λ i. k.nodes i ∙ h.nodes i; index = k.index ∙ h.index }

pub set_page-Keeps :
    (page : ℕ) (p : Page) (c : Cache)
    → length p.nodes ≡ length (c.entries page).nodes
    → Keeps c (set_page page p c)
set_page-Keeps page p c h = record { nodes = same; index = refl }
  where
    same : (i : ℕ) → length ((set_page page p c).entries i).nodes ≡ length (c.entries i).nodes
    same i = elim (Bool-cases (i == page)) [
      | inl e ↦
          let e' : page ≡ i = ground arith in
          ap (λ (p : Page). length p.nodes) (if_true _ e)
          ∙ h
          ∙ ap (λ k. length (c.entries k).nodes) e'
      | inr e ↦ ap (λ (p : Page). length p.nodes) (if_false _ e)
    ]

pub some-Keeps : {c c0 c' : Cache} → Keeps c c0 → some c0 ≡ some c' → Keeps c c'
some-Keeps {c} {c0} {c'} k h = let e : c0 ≡ c' = cc in subst (Keeps c) e k

set_accessed-Keeps : (n : ℤ) (b : Bool) (c c' : Cache) → set_accessed n b c ≡ some c' → Keeps c c'
set_accessed-Keeps (negsuc n) b c c' h = cc
set_accessed-Keeps (pos n) b c c' h = elim (Bool-cases (ltb n disk_size)) [
  | inl e ↦ some-Keeps (record { nodes = λ i. refl; index = refl }) (sym (if_true none e) ∙ h)
  | inr e ↦ let no : none ≡ some c' = sym (if_false _ e) ∙ h in cc
]

point_to-Keeps : (page i : ℕ) (nodes : List Node) (c : Cache) → Keeps c (point_to page i nodes c)
unfolding point_to
point_to-Keeps page i [] c = Keeps-self c
point_to-Keeps page i (node ∷ nodes) c =
    Keeps-trans (record { nodes = λ i. refl; index = refl })
      (point_to-Keeps page (suc i) nodes
        (set_node node.key (some (record { page = page; index = i })) c))

erase_nodes-Keeps : (nodes : List Node) (c : Cache) → Keeps c (erase_nodes nodes c)
erase_nodes-Keeps [] c = Keeps-self c
erase_nodes-Keeps (node ∷ nodes) c =
    Keeps-trans (record { nodes = λ i. refl; index = refl })
      (erase_nodes-Keeps nodes (set_node node.key none c))

length-read_nodes :
    (input : Stream) (nodes : List Node) → length (read_nodes input nodes) ≡ length nodes
unfolding read_nodes
length-read_nodes input [] = refl
length-read_nodes input (node ∷ nodes) = ap suc (length-read_nodes (read_node input node).1 nodes)

pub push_key_to_keymap-Keeps : (page : Option ℕ) (c : Cache) → Keeps c (push_key_to_keymap page c)
unfolding push_key_to_keymap
push_key_to_keymap-Keeps none c = Keeps-self c
push_key_to_keymap-Keeps (some page) c = record { nodes = λ i. refl; index = refl }

save_page_to_file-Keeps : (page : ℕ) (c : Cache) → Keeps c (save_page_to_file page c)
unfolding save_page_to_file
save_page_to_file-Keeps page c = record {
  nodes = λ i. ap length (save_page_to_file-nodes c page i);
  index = refl;
}

erase_page_of_cache-Keeps :
    (page : ℕ) (c c' : Cache) → erase_page_of_cache page c ≡ some c' → Keeps c c'
unfolding erase_page_of_cache
erase_page_of_cache-Keeps page c c' h =
    let erase = λ (c' : Cache). some (erase_nodes (c.entries page).nodes c') in
    let (accessed, e, r) = >>=-eq-some (set_accessed (c.entries page).file_num false c) erase h in
    Keeps-trans (set_accessed-Keeps (c.entries page).file_num false c accessed e)
      (some-Keeps (erase_nodes-Keeps (c.entries page).nodes accessed) r)

pub Keeps-if : {c a b : Cache} (t : Bool) → Keeps c a → Keeps c b → Keeps c (if t then a else b)
Keeps-if true h k = h
Keeps-if false h k = k

evict-Keeps : (c c' : Cache) → evict c ≡ some c' → Keeps c c'
unfolding evict
evict-Keeps c c' h =
    let page = c.links.prev c.links.tail in
    let pushed =
      if is_page c.put_page page
      then push_key_to_keymap (some page) (record c { put_page_existed = false })
      else c in
    let saved = if (c.entries page).dirty then save_page_to_file page pushed else pushed in
    let pushed-Keeps : Keeps c pushed =
      Keeps-if (is_page c.put_page page)
        (Keeps-trans (record { nodes = λ i. refl; index = refl })
          (push_key_to_keymap-Keeps (some page) (record c { put_page_existed = false })))
        (Keeps-self c) in
    let saved-Keeps : Keeps c saved =
      Keeps-if (c.entries page).dirty
        (Keeps-trans pushed-Keeps (save_page_to_file-Keeps page pushed)) pushed-Keeps in
    let free = λ (c1 : Cache) (links : Links).
      some (record c1 { links = links; free_entries = page ∷ c1.free_entries }) in
    let off = λ (c1 : Cache). detach page c1.links >>= free c1 in
    let (erased, e, r) = >>=-eq-some (erase_page_of_cache page saved) off h in
    let (links, _, r') = >>=-eq-some (detach page erased.links) (free erased) r in
    Keeps-trans saved-Keeps (
      Keeps-trans (erase_page_of_cache-Keeps page saved erased e)
        (some-Keeps (record { nodes = λ i. refl; index = refl }) r'))

take_free-Keeps : (c : Cache) (page : ℕ) (c' : Cache) → take_free c ≡ some (page, c') → Keeps c c'
take_free-Keeps c page c' h = taken c.free_entries h
  where
    taken :
        (xs : List ℕ)
        → (elim xs as (λ x. Option (ℕ × Cache)) [
          | [] ↦ none
          | p ∷ rest ↦ some (p, record c { free_entries = rest })
        ])
          ≡ some (page, c')
        → Keeps c c'
    taken [] h = cc
    taken (p ∷ rest) h =
        let e : record c { free_entries = rest } ≡ c' = cc in
        subst (Keeps c) e (record { nodes = λ i. refl; index = refl })

pub get_new_page-Keeps :
    (c : Cache) (page : ℕ) (c' : Cache) → get_new_page c ≡ some (page, c') → Keeps c c'
unfolding get_new_page
get_new_page-Keeps c page c' h = chosen c.free_entries h
  where
    chosen :
        (xs : List ℕ)
        → (elim xs as (λ x. Option (ℕ × Cache)) [
          | [] ↦ evict c >>= take_free
          | p ∷ rest ↦ take_free c
        ])
          ≡ some (page, c')
        → Keeps c c'
    chosen [] h =
        let (evicted, e, r) = >>=-eq-some (evict c) take_free h in
        Keeps-trans (evict-Keeps c evicted e) (take_free-Keeps evicted page c' r)
    chosen (p ∷ rest) h = take_free-Keeps c page c' h

pub load_file_to_page-Keeps :
    (n : ℤ) (page : ℕ) (c c' : Cache) → load_file_to_page n page c ≡ some (some c') → Keeps c c'
unfolding load_file_to_page
load_file_to_page-Keeps n page c c' h = read (c.files (page_file n)) h
  where
    loaded : Text → Cache → Cache
    loaded bytes c1 =
        let nodes = read_nodes (open_in bytes) (c.entries page).nodes in
        point_to page 0 nodes
          (set_page page (record (c.entries page) { file_num = n; nodes = nodes }) c1)

    loaded-Keeps : (bytes : Text) (c1 : Cache) → Keeps c c1 → Keeps c (loaded bytes c1)
    loaded-Keeps bytes c1 k =
        let nodes = read_nodes (open_in bytes) (c.entries page).nodes in
        let p : Page = record (c.entries page) { file_num = n; nodes = nodes } in
        Keeps-trans k (
          Keeps-trans
            (set_page-Keeps page p c1
              (length-read_nodes (open_in bytes) (c.entries page).nodes ∙ sym (k.nodes page)))
            (point_to-Keeps page 0 nodes (set_page page p c1)))

    read :
        (file : Option Text)
        → (elim file as (λ x. Option (Option Cache)) [
          | none ↦ some none
          | some bytes ↦ (set_accessed n true c >>= λ c1. some (some (loaded bytes c1)))
        ])
          ≡ some (some c')
        → Keeps c c'
    read none h = cc
    read (some bytes) h =
        let (c1, e, r) =
          >>=-eq-some (set_accessed n true c) (λ c1. some (some (loaded bytes c1))) h in
        let e' : some (loaded bytes c1) ≡ some c' = cc in
        some-Keeps (loaded-Keeps bytes c1 (set_accessed-Keeps n true c c1 e)) e'
