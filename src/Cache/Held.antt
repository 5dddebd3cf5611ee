-- ===== src/Cache/Held.antt =====
-- src/hash_cache.cpp, a key with its node, which `get` finds and `put` writes.
use mathlib.Core.Path.{subst}
use thkvs.Base.{
  ℕ, zero, suc, ◌≤◌, ◌<◌, ◌≡◌, refl, sym, ap, ◌∙◌, inl, inr, List, [], ◌∷◌, true, Bool-cases,
  Option, some, if◌then◌else◌, if_true, if_false, length, get_elem?, modify, length-modify, ◌>>=◌,
  >>=-eq-some, Text, text_eq, text_eq_iff, arith,
}
use thkvs.Cache.{Links, unlink, attach, use_page}
use thkvs.Cache.Front.{detach-linked}
use thkvs.Cache.Reads.{use_page-linked}
use thkvs.Cache.Order.{==_self}
use thkvs.Cache.Pages.{Node, Page, Place, Cache, page_size, set_page}
use thkvs.Cache.Keys.{search, node_at, get, change_value, with_node, put_node}
use thkvs.Cache.Whole.{Keeps, Keeps-self, set_page-Keeps}

-- The pages have `page_size` nodes, and `put` goes on at one of them or behind the last.
pub record IsSound (c : Cache) : Type 0 where
  pub whole : (i : ℕ) → length (c.entries i).nodes ≡ page_size
  pub index : c.data_index ≤ page_size

pub IsSound-kept : {c c' : Cache} → Keeps c c' → IsSound c → IsSound c'
IsSound-kept k s = record {
  whole = λ i. k.nodes i ∙ s.whole i;
  index = subst (λ n. n ≤ page_size) (sym k.index) s.index;
}

-- The key leads to a node with this value, on a page whose links are set.
pub record Holds (key value : Text) (c : Cache) : Type 0 where
  pub place : Place
  pub node : Node
  pub mapped : c.hash_map key ≡ some place
  pub there : node_at place c ≡ some node
  pub same : node.value ≡ value
  pub linked : c.links.linked place.page ≡ true

search-mapped :
    (key : Text) (place : Place) (c : Cache)
    → c.hash_map key ≡ some place
    → c.links.linked place.page ≡ true
    → search key c
      ≡ some (some place, record c { links = attach place.page (unlink place.page c.links) })
unfolding search use_page
search-mapped key place c h l = rw (search, h, detach-linked c.links place.page l, ◌>>=◌) refl

pub get-Holds :
    (key value : Text) (c : Cache)
    → Holds key value c
    → (c' : Cache) × (get key c ≡ some (value, c'))
unfolding get
get-Holds key value c h = (
  record c { links = attach h.place.page (unlink h.place.page c.links) },
  rw (search-mapped key h.place c h.mapped h.linked, h.there, h.same) refl,
)

get_elem?-modify :
    {A : Type 0} (xs : List A) (i : ℕ) (f : A → A) (x : A)
    → get_elem? xs i ≡ some x
    → get_elem? (modify xs i f) i ≡ some (f x)
get_elem?-modify [] i f x h = cc
get_elem?-modify (y ∷ xs) zero f x h = let e : y ≡ x = cc in ap (λ y. some (f y)) e
get_elem?-modify (y ∷ xs) (suc i) f x h = get_elem?-modify xs i f x h

pub get_elem?_lt :
    {A : Type 0} (xs : List A) (i : ℕ) → i < length xs → (x : A) × (get_elem? xs i ≡ some x)
get_elem?_lt [] i h = absurd (omega arith)
get_elem?_lt (y ∷ xs) zero h = (y, refl)
get_elem?_lt (y ∷ xs) (suc i) h = get_elem?_lt xs i (omega arith)

pub change_value-Holds :
    (key value : Text) (place : Place) (c c' : Cache)
    → c.hash_map key ≡ some place
    → c.links.linked place.page ≡ true
    → change_value place value c ≡ some c'
    → Keeps c c' × Holds key value c'
unfolding change_value
change_value-Holds key value place c c' m linked h =
    let (node, e, r) = >>=-eq-some (node_at place c) changed h in
    elim (Bool-cases (text_eq value node.value)) [
      | inl t ↦ kept node e t (sym (ap some (if_true (renewed node) t)) ∙ r)
      | inr t ↦ written node e (sym (ap some (if_false c t)) ∙ r)
    ]
  where
    renewed : Node → Cache
    renewed node =
        let p = c.entries place.page in
        let change = λ (old : Node). record old { value = value } in
        set_page place.page (record p { dirty = true; nodes = modify p.nodes place.index change }) c

    changed : Node → Option Cache
    changed node = some (if text_eq value node.value then c else renewed node)

    kept :
        (node : Node)
        → node_at place c ≡ some node
        → text_eq value node.value ≡ true
        → some c ≡ some c'
        → Keeps c c' × Holds key value c'
    kept node e t r =
        let same : c ≡ c' = cc in
        subst (λ c'. Keeps c c' × Holds key value c') same
          (
            Keeps-self c,
            record {
              place = place;
              node = node;
              mapped = m;
              there = e;
              same = sym ((text_eq_iff value node.value).0 t);
              linked = linked;
            },
          )

    written :
        (node : Node)
        → node_at place c ≡ some node
        → some (renewed node) ≡ some c'
        → Keeps c c' × Holds key value c'
    written node e r =
        let p = c.entries place.page in
        let change = λ (old : Node). record old { value = value } in
        let same : renewed node ≡ c' = cc in
        subst (λ c'. Keeps c c' × Holds key value c') same
          (
            set_page-Keeps place.page
                (record p { dirty = true; nodes = modify p.nodes place.index change }) c
                (length-modify p.nodes place.index change),
            record {
              place = place;
              node = change node;
              mapped = m;
              there =
                  ap (λ (p : Page). get_elem? p.nodes place.index) (if_true _ (==_self place.page))
                  ∙ get_elem?-modify p.nodes place.index change node e;
              same = refl;
              linked = linked;
            },
          )

with_node-Holds :
    (page : ℕ) (key value : Text) (c : Cache) (links : Links)
    → IsSound c
    → c.data_index < page_size
    → links.linked page ≡ true
    → IsSound (with_node page key value c links)
      × Holds key value (with_node page key value c links)
with_node-Holds page key value c links s l linked =
    let p = c.entries page in
    let node : Node = record { key = key; value = value } in
    let p' : Page = record p { nodes = modify p.nodes c.data_index (λ old. node) } in
    let k = set_page-Keeps page p' c (length-modify p.nodes c.data_index (λ old. node)) in
    let long : c.data_index < length p.nodes =
      subst (λ n. c.data_index < n) (sym (s.whole page)) l in
    let (old, e) = get_elem?_lt p.nodes c.data_index long in
    (
      record { whole = λ i. k.nodes i ∙ s.whole i; index = omega arith },
      record {
        place = record { page = page; index = c.data_index };
        node = node;
        mapped = if_true _ ((text_eq_iff key key).1 refl);
        there =
            ap (λ (p : Page). get_elem? p.nodes c.data_index) (if_true _ (==_self page))
            ∙ get_elem?-modify p.nodes c.data_index (λ old. node) old e;
        same = refl;
        linked = linked;
      },
    )

pub put_node-Holds :
    (page : ℕ) (key value : Text) (c c' : Cache)
    → IsSound c
    → c.data_index < page_size
    → put_node page key value c ≡ some c'
    → IsSound c' × Holds key value c'
unfolding put_node
put_node-Holds page key value c c' s l h =
    let (old, _, r) = >>=-eq-some (get_elem? (c.entries page).nodes c.data_index) linking h in
    let (links, e, r') =
      >>=-eq-some (use_page page c.links) (λ links. some (with_node page key value c links)) r in
    let same : with_node page key value c links ≡ c' = cc in
    subst (λ c. IsSound c × Holds key value c) same
      (with_node-Holds page key value c links s l (use_page-linked page c.links links e))
  where
    linking : Node → Option Cache
    linking old = use_page page c.links >>= λ links. some (with_node page key value c links)
