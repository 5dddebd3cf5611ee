-- ===== src/Cache/Files.antt =====
-- src/hash_cache.cpp, the file of a page: what is written to it is read again.
use thkvs.Base.{
  ℕ, zero, suc, ◌+◌, ◌<◌, ◌≡◌, refl, ap, ◌∙◌, List, [], ◌∷◌, ◌++◌, true, false, some, Text, text_eq,
  text_eq_iff, All, length, ltb, if_true, if_false, Bool-cases, inl, inr, ◌==◌, if◌then◌else◌,
  arith,
}
use thkvs.Base.Int.{pos}
use thkvs.Disk.{Stream, open_in, skip_space}
use thkvs.Disk.Signed.{IsWord, read_string-word}
use thkvs.Cache.Order.{==_self}
use thkvs.Cache.Pages.{
  Node, Page, Cache, set_page, disk_size, blank, read_node, read_nodes, node_lines, page_file,
  load_file_to_page, save_page_to_file, point_to,
}
use thkvs.Cache.Keys.{blanks}

-- A node that a line can hold.
pub record Fits (node : Node) : Type 0 where
  pub key : IsWord node.key
  pub value : IsWord node.value

-- A stream that has no word left, or has failed.
abbrev failed_stream : Stream
failed_stream = record { rest = []; failed = true }

read_nodes_failed : (nodes : List Node) → read_nodes failed_stream nodes ≡ blanks (length nodes)
unfolding read_nodes read_node
read_nodes_failed [] = refl
read_nodes_failed (node ∷ nodes) = ap (λ ns. blank ∷ ns) (read_nodes_failed nodes)

read_nodes_spent :
    (s : Text) (nodes : List Node)
    → skip_space s ≡ []
    → read_nodes (open_in s) nodes ≡ blanks (length nodes)
unfolding read_nodes read_node
read_nodes_spent s [] h = refl
read_nodes_spent s (node ∷ nodes) h = rw h (ap (λ ns. blank ∷ ns) (read_nodes_failed nodes))

skip_space-blanks : (n : ℕ) → skip_space (node_lines (blanks n)) ≡ []
skip_space-blanks zero = refl
skip_space-blanks (suc n) = skip_space-blanks n

read_node-line :
    (node old : Node) (input rest : Text)
    → Fits node
    → skip_space input ≡ skip_space (node.key ++ (32 ∷ node.value ++ (10 ∷ rest)))
    → read_node (open_in input) old ≡ (node, open_in (10 ∷ rest))
unfolding read_node
read_node-line node old input rest h e =
    rw
      (
        read_string-word (32 ∷ node.value ++ (10 ∷ rest)) refl input node.key old.key e h.key,
        read_string-word (10 ∷ rest) refl (32 ∷ node.value ++ (10 ∷ rest)) node.value old.value refl
            h.value,
      )
      refl

-- Nodes that a line can hold, with blank nodes behind them, are read back.
pub read_nodes-node_lines :
    (ns : List Node) (n : ℕ) (input : Text) (old : List Node)
    → All Fits ns
    → skip_space input ≡ skip_space (node_lines (ns ++ blanks n))
    → length old ≡ length ns + n
    → read_nodes (open_in input) old ≡ ns ++ blanks n
unfolding read_nodes
read_nodes-node_lines [] n input old fits e l =
    read_nodes_spent input old (e ∙ skip_space-blanks n)
    ∙ (let e' : length old ≡ n = omega arith in ap blanks e')
read_nodes-node_lines (v ∷ ns) n input [] fits e l = absurd (omega arith)
read_nodes-node_lines (v ∷ ns) n input (o ∷ old) fits e l =
    ap (λ p. p.0 ∷ read_nodes p.1 old)
      (read_node-line v o input (node_lines (ns ++ blanks n)) fits.0 e)
    ∙ ap (λ xs. v ∷ xs)
        (read_nodes-node_lines ns n (10 ∷ node_lines (ns ++ blanks n)) old fits.1 refl
          (omega arith))

pub point_to-entries :
    (page i : ℕ) (nodes : List Node) (c : Cache) → (point_to page i nodes c).entries ≡ c.entries
unfolding point_to
point_to-entries page i [] c = refl
point_to-entries page i (node ∷ nodes) c = point_to-entries page (suc i) nodes _

-- A page that is loaded from a file with these lines.
load_file_to_page-node_lines :
    (c : Cache) (page n m : ℕ) (ns : List Node)
    → c.files (page_file (pos m)) ≡ some (node_lines (ns ++ blanks n))
    → m < disk_size
    → All Fits ns
    → length (c.entries page).nodes ≡ length ns + n
    → (c' : Cache) × (load_file_to_page (pos m) page c ≡ some (some c'))
      × ((c'.entries page).file_num ≡ pos m)
      × ((c'.entries page).nodes ≡ ns ++ blanks n)
      × ((i : ℕ) → (i == page) ≡ false → c'.entries i ≡ c.entries i)
unfolding load_file_to_page
load_file_to_page-node_lines c page n m ns file l fits long =
    let bytes = node_lines (ns ++ blanks n) in
    let nodes = read_nodes (open_in bytes) (c.entries page).nodes in
    let p : Page = record (c.entries page) { file_num = pos m; nodes = nodes } in
    let accessed : Cache = record c {
      file_accessed = λ k. if k == m then true else c.file_accessed k;
    } in
    let es : (point_to page 0 nodes (set_page page p accessed)).entries
        ≡ (set_page page p accessed).entries =
      point_to-entries page 0 nodes (set_page page p accessed) in
    let self : (point_to page 0 nodes (set_page page p accessed)).entries page ≡ p =
      ap (λ f. f page) es ∙ if_true _ (==_self page) in
    let t : ltb m disk_size ≡ true = ground arith in
    (
      point_to page 0 nodes (set_page page p accessed),
      rw (load_file_to_page, file, t) refl,
      ap (λ q. q.file_num) self,
      ap (λ q. q.nodes) self ∙ read_nodes-node_lines ns n bytes _ fits refl long,
      λ i other. ap (λ f. f i) es ∙ if_false _ other,
    )

pub save_page_to_file-nodes :
    (c : Cache) (page i : ℕ) → ((save_page_to_file page c).entries i).nodes ≡ (c.entries i).nodes
unfolding save_page_to_file
save_page_to_file-nodes c page i = elim (Bool-cases (i == page)) [
  | inl e ↦
      let same : page ≡ i = ground arith in
      ap (λ (p : Page). p.nodes) (if_true _ e) ∙ ap (λ k. (c.entries k).nodes) same
  | inr e ↦ ap (λ (p : Page). p.nodes) (if_false _ e)
]

-- A page whose nodes are words, with blank nodes behind them, is saved, and is loaded from its file
-- to any page with as many nodes: loading succeeds, that page has the same file number and nodes,
-- and the other pages stay as they are.
pub load_file_to_page-save_page_to_file :
    (c : Cache) (page other n m : ℕ) (ns : List Node)
    → (c.entries page).file_num ≡ pos m
    → m < disk_size
    → (c.entries page).nodes ≡ ns ++ blanks n
    → All Fits ns
    → length (c.entries other).nodes ≡ length ns + n
    → (c' : Cache) × (load_file_to_page (pos m) other (save_page_to_file page c) ≡ some (some c'))
      × ((c'.entries other).file_num ≡ pos m)
      × ((c'.entries other).nodes ≡ ns ++ blanks n)
      × ((i : ℕ) → (i == other) ≡ false → c'.entries i ≡ (save_page_to_file page c).entries i)
unfolding save_page_to_file
load_file_to_page-save_page_to_file c page other n m ns e l d fits long =
    load_file_to_page-node_lines (save_page_to_file page c) other n m ns
      (if_true _ (
          ap (λ f. text_eq (page_file f) (page_file (pos m))) e
          ∙ (text_eq_iff (page_file (pos m)) (page_file (pos m))).1 refl)
        ∙ ap (λ nodes. some (node_lines nodes)) d)
      l fits (ap length (save_page_to_file-nodes c page other) ∙ long)
