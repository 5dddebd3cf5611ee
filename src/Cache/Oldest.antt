-- ===== src/Cache/Oldest.antt =====
-- src/hash_cache.cpp, `get_new_page` with no page free: the last page of the list is taken.
use mathlib.Core.Path.{subst}
use mathlib.Core.List.{append-nil}
use thkvs.Base.{
  ℕ, ◌≡◌, refl, sym, ap, ◌∙◌, inl, inr, List, [], ◌∷◌, ◌++◌, Bool, Bool-cases, true, false, Option,
  none, some, ltb, ◌==◌, if◌then◌else◌, if_true, if_false, ◌>>=◌, >>=-eq-some,
}
use thkvs.Base.Int.{ℤ, pos, negsuc}
use thkvs.Cache.{Links, detach, unlink}
use thkvs.Cache.Order.{Chain, IsLinked}
use thkvs.Cache.Front.{detach-IsLinked}
use thkvs.Cache.Pages.{
  Node, Cache, disk_size, set_node, set_accessed, save_page_to_file, erase_nodes,
  erase_page_of_cache, push_key_to_keymap,
}
use thkvs.Cache.Keys.{is_page, evict, take_free, get_new_page}

prev-last : (l : Links) (a : ℕ) (xs : List ℕ) (p b : ℕ) → Chain l a (xs ++ p ∷ []) b → l.prev b ≡ p
prev-last l a [] p b c = c.2.1
prev-last l a (x ∷ xs) p b c = prev-last l x xs p b c.2

set_accessed-links :
    (n : ℤ) (b : Bool) (c c' : Cache) → set_accessed n b c ≡ some c' → c'.links ≡ c.links
set_accessed-links (negsuc n) b c c' h = cc
set_accessed-links (pos n) b c c' h = elim (Bool-cases (ltb n disk_size)) [
  | inl e ↦
      let c0 : Cache = record c { file_accessed = λ m. if m == n then b else c.file_accessed m } in
      let k : some c0 ≡ some c' = sym (if_true none e) ∙ h in
      let same : c0 ≡ c' = cc in sym (ap (λ c. c.links) same)
  | inr e ↦ let no : none ≡ some c' = sym (if_false _ e) ∙ h in cc
]

erase_nodes-links : (nodes : List Node) (c : Cache) → (erase_nodes nodes c).links ≡ c.links
erase_nodes-links [] c = refl
erase_nodes-links (node ∷ nodes) c = erase_nodes-links nodes (set_node node.key none c)

erase_page_of_cache-links :
    (page : ℕ) (c c' : Cache) → erase_page_of_cache page c ≡ some c' → c'.links ≡ c.links
unfolding erase_page_of_cache
erase_page_of_cache-links page c c' h =
    let erase = λ (c' : Cache). some (erase_nodes (c.entries page).nodes c') in
    let (accessed, e, r) = >>=-eq-some (set_accessed (c.entries page).file_num false c) erase h in
    let same : erase_nodes (c.entries page).nodes accessed ≡ c' = cc in
    sym (ap (λ c. c.links) same)
    ∙ erase_nodes-links (c.entries page).nodes accessed
    ∙ set_accessed-links (c.entries page).file_num false c accessed e

push_key_to_keymap-links :
    (page : Option ℕ) (c : Cache) → (push_key_to_keymap page c).links ≡ c.links
unfolding push_key_to_keymap
push_key_to_keymap-links none c = refl
push_key_to_keymap-links (some page) c = refl

if-links :
    (t : Bool) (l : Links) (a b : Cache)
    → a.links ≡ l
    → b.links ≡ l
    → (if t then a else b).links ≡ l
if-links true l a b h k = h
if-links false l a b h k = k

evict-links :
    (c c' : Cache)
    → evict c ≡ some c'
    → let page = c.links.prev c.links.tail in
      (detach page c.links ≡ some c'.links) × (free : List ℕ) × (c'.free_entries ≡ page ∷ free)
unfolding evict save_page_to_file
evict-links c c' h =
    let page = c.links.prev c.links.tail in
    let pushed =
      if is_page c.put_page page
      then push_key_to_keymap (some page) (record c { put_page_existed = false })
      else c in
    let saved = if (c.entries page).dirty then save_page_to_file page pushed else pushed in
    let pushed-links : pushed.links ≡ c.links =
      if-links (is_page c.put_page page) c.links
        (push_key_to_keymap (some page) (record c { put_page_existed = false })) c
        (push_key_to_keymap-links (some page) (record c { put_page_existed = false })) refl in
    let saved-links : saved.links ≡ c.links =
      if-links (c.entries page).dirty c.links (save_page_to_file page pushed) pushed pushed-links
        pushed-links in
    let free = λ (c1 : Cache) (links : Links).
      some (record c1 { links = links; free_entries = page ∷ c1.free_entries }) in
    let off = λ (c1 : Cache). detach page c1.links >>= free c1 in
    let (erased, e, r) = >>=-eq-some (erase_page_of_cache page saved) off h in
    let (links, d, r') = >>=-eq-some (detach page erased.links) (free erased) r in
    let c2 : Cache = record erased { links = links; free_entries = page ∷ erased.free_entries } in
    let same : c2 ≡ c' = cc in
    (
      sym (ap (detach page) (erase_page_of_cache-links page saved erased e ∙ saved-links))
          ∙ d
          ∙ ap (λ (c : Cache). some c.links) same,
      erased.free_entries,
      sym (ap (λ (c : Cache). c.free_entries) same),
    )

some-pair :
    (a b : ℕ) (x y : Cache)
    → ◌≡◌ {A = Option (ℕ × Cache)} (some (a, x)) (some (b, y))
    → (a ≡ b) × (x ≡ y)
some-pair a b x y h = (ap (λ o. number o) h, ap (λ o. state o) h)
  where
    number : Option (ℕ × Cache) → ℕ
    number none = a
    number (some q) = q.0

    state : Option (ℕ × Cache) → Cache
    state none = x
    state (some q) = q.1

-- With no page free, a page that `get_new_page` returns is the last of the list, the one that was
-- not used for the longest time, and the list is left without it, well linked in its old order.
pub get_new_page-IsLinked :
    (c c' : Cache) (xs : List ℕ) (p page : ℕ)
    → c.free_entries ≡ []
    → IsLinked c.links (xs ++ p ∷ [])
    → get_new_page c ≡ some (page, c')
    → (page ≡ p) × IsLinked c'.links xs
unfolding get_new_page
get_new_page-IsLinked c c' xs p page f k h =
    let last : c.links.prev c.links.tail ≡ p =
      prev-last c.links c.links.head xs p c.links.tail k.chain in
    let none_free : (evict c >>= take_free) ≡ some (page, c') =
      sym (
        ap
          (λ fs. elim fs as (λ x. Option (ℕ × Cache)) [
            | [] ↦ evict c >>= take_free
            | p ∷ rest ↦ take_free c
          ])
          f)
      ∙ h in
    let (evicted, e, r) = >>=-eq-some (evict c) take_free none_free in
    let (links, free, fe) = evict-links c evicted e in
    let (first, second) =
      some-pair (c.links.prev c.links.tail) page (record evicted { free_entries = free }) c'
        (sym (
            ap
              (λ fs. elim fs as (λ x. Option (ℕ × Cache)) [
                | [] ↦ none
                | p ∷ rest ↦ some (p, record evicted { free_entries = rest })
              ])
              fe)
          ∙ r) in
    let (detached, rest) = detach-IsLinked c.links xs p [] k in
    let linked : IsLinked (unlink p c.links) xs =
      subst (IsLinked (unlink p c.links)) (append-nil xs) rest in
    let same : some (unlink p c.links) ≡ some evicted.links =
      sym detached ∙ ap (λ p. detach p c.links) (sym last) ∙ links in
    let same_links : unlink p c.links ≡ evicted.links = cc in
    (
      sym first ∙ last,
      subst (λ l. IsLinked l xs) (same_links ∙ ap (λ (c : Cache). c.links) second) linked,
    )
