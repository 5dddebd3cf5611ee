-- ===== src/Cache/Puts.antt =====
-- src/hash_cache.cpp, `put`, and `get` after it.
use mathlib.Core.Path.{subst}
use thkvs.Base.{
  ℕ, suc, ◌-◌, ◌^◌, ltb, ◌<◌, ◌≡◌, ◌⊎◌, refl, sym, ap, ◌∙◌, inl, inr, List, [], ◌∷◌, Bool, true,
  false, not, ◌||◌, Bool-cases, Option, none, some, ◌==◌, if◌then◌else◌, if_true, if_false, ◌>>=◌,
  >>=-eq-some, Text, arith,
}
use thkvs.Base.Int.{ℤ, pos}
use thkvs.Cache.{unlink, attach, use_page}
use thkvs.Cache.Front.{detach-linked}
use thkvs.Cache.Pages.{Page, Place, Cache, page_size, push_key_to_keymap}
use thkvs.Cache.Keys.{
  blanks, next_index, get_new_page, evict, take_free, new_put_page, search, get, change_value,
  start_put_page, with_node, put_node, is_full, next_node, put,
}
use thkvs.Cache.Held.{
  IsSound, IsSound-kept, Holds, get-Holds, change_value-Holds, put_node-Holds, get_elem?_lt,
}
use thkvs.Cache.Whole.{
  Keeps, Keeps-trans, some-Keeps, set_page-Keeps, push_key_to_keymap-Keeps, get_new_page-Keeps,
}
use thkvs.Cache.Reads.{search-Searched, HasLinks, attach-linked}

start_put_page-Keeps : (c c' : Cache) → IsSound c → start_put_page c ≡ some c' → Keeps c c'
unfolding start_put_page
start_put_page-Keeps c c' s h =
    let ((page, taken), e, r) = >>=-eq-some (get_new_page c) begin h in
    let made = λ (index : ℤ). some (new_put_page page taken index) in
    let (index, _, r') = >>=-eq-some (next_index taken.new_file_index) made r in
    let k = get_new_page-Keeps c page taken e in
    let p : Page = record { file_num = index; dirty = true; nodes = blanks page_size } in
    let k' = set_page-Keeps page p taken (sym (k.nodes page ∙ s.whole page)) in
    Keeps-trans k (some-Keeps (record { nodes = k'.nodes; index = refl }) r')
  where
    begin : ℕ × Cache → Option Cache
    begin (page, taken) =
        next_index taken.new_file_index >>= λ index. some (new_put_page page taken index)

begun_IsSound :
    (c : Cache) (full : Bool)
    → (c.data_index == page_size) ≡ true ⊎ (c.data_index == page_size) ≡ false
    → is_full c ≡ full
    → IsSound c
    → let begun = if full then record (push_key_to_keymap c.put_page c) { data_index = 0 } else c in
      IsSound begun × (begun.data_index < page_size)
begun_IsSound c true _ e s =
    let k = push_key_to_keymap-Keeps c.put_page c in
    (record { whole = λ i. k.nodes i ∙ s.whole i; index = omega arith }, omega arith)
begun_IsSound c false d e s = (s, let i = s.index in ground arith)

next_node-IsSound :
    (c c' : Cache) → IsSound c → next_node c ≡ some c' → IsSound c' × (c'.data_index < page_size)
unfolding next_node
next_node-IsSound c c' s h =
    let begun =
      if is_full c then record (push_key_to_keymap c.put_page c) { data_index = 0 } else c in
    let (sound, less) =
      begun_IsSound c (is_full c) (Bool-cases (c.data_index == page_size)) refl s in
    started begun sound less (begun.data_index == 0 || not begun.put_page_existed) h
  where
    started :
        (begun : Cache)
        → IsSound begun
        → begun.data_index < page_size
        → (start : Bool) → (if start then start_put_page begun else some begun) ≡ some c'
        → IsSound c' × (c'.data_index < page_size)
    started begun sound less true h =
        let k = start_put_page-Keeps begun c' sound h in
        (IsSound-kept k sound, subst (λ n. n < page_size) (sym k.index) less)
    started begun sound less false h =
        let e : begun ≡ c' = cc in
        subst (λ c. IsSound c × (c.data_index < page_size)) e (sound, less)

-- In a cache whose pages have `page_size` nodes, where the index of `put` is at most this, a `put`
-- that returns leaves such a cache, and `get` of its key then returns, with the value put.
pub get-put :
    (key value : Text) (c c' : Cache)
    → IsSound c
    → put key value c ≡ some c'
    → IsSound c' × (c'' : Cache) × (get key c' ≡ some (value, c''))
unfolding put
get-put key value c c' s h =
    let ((found, searched), e, r) = >>=-eq-some (search key c) written h in
    let (k, same, set) = search-Searched key c found searched e in
    let (sound, holds) = held found searched (IsSound-kept k s) (sym same) set r in
    let (after, got) = get-Holds key value c' holds in (sound, after, got)
  where
    insert : Cache → Option Cache
    insert ready = ready.put_page >>= λ page. put_node page key value ready

    written : Option Place × Cache → Option Cache
    written (found, searched) = elim found [
      | some place ↦ change_value place value searched
      | none ↦ next_node searched >>= insert
    ]

    held :
        (found : Option Place) (searched : Cache)
        → IsSound searched
        → searched.hash_map key ≡ found
        → HasLinks searched.links found
        → written (found, searched) ≡ some c'
        → IsSound c' × Holds key value c'
    held (some place) searched sound m set h =
        let (k, holds) = change_value-Holds key value place searched c' m set h in
        (IsSound-kept k sound, holds)
    held none searched sound m set h =
        let (ready, e, r) = >>=-eq-some (next_node searched) insert h in
        let (page, _, r') = >>=-eq-some ready.put_page (λ page. put_node page key value ready) r in
        let (sound', less) = next_node-IsSound searched ready sound e in
        put_node-Holds page key value ready c' sound' less r'

get_new_page_free :
    (c : Cache) (page : ℕ) (free : List ℕ)
    → c.free_entries ≡ page ∷ free
    → get_new_page c ≡ some (page, record c { free_entries = free })
unfolding get_new_page
get_new_page_free c page free f =
    ap
      (λ fs. elim fs as (λ x. Option (ℕ × Cache)) [
        | [] ↦ evict c >>= take_free
        | p ∷ rest ↦ take_free c
      ])
      f
    ∙ ap
        (λ fs. elim fs as (λ x. Option (ℕ × Cache)) [
          | [] ↦ none
          | p ∷ rest ↦ some (p, record c { free_entries = rest })
        ])
        f

start_put_page_returns :
    (c : Cache) (page n : ℕ) (free : List ℕ)
    → c.free_entries ≡ page ∷ free
    → c.new_file_index ≡ pos n
    → n < 2 ^ 31 - 1
    → (c' : Cache) × (start_put_page c ≡ some c')
      × (c'.put_page ≡ some page)
      × (c'.links.linked page ≡ true)
unfolding start_put_page get_new_page
start_put_page_returns c page n free f i l =
    let less : ltb n (2 ^ 31 - 1) ≡ true = ground arith in
    let taken : Cache = record c { free_entries = free } in
    let begin = λ (q : ℕ × Cache).
      next_index q.1.new_file_index >>= λ index. some (new_put_page q.0 q.1 index) in
    let made = λ (index : ℤ). some (new_put_page page taken index) in
    (
      new_put_page page taken (pos (suc n)),
      ap (λ q. q >>= begin) (get_new_page_free c page free f)
          ∙ ap (λ index. next_index index >>= made) i
          ∙ ap (λ index. index >>= made) (if_true none less),
      refl,
      attach-linked page c.links,
    )

-- A page that `put` goes on with, whose links are set, or a free one, and a file number left.
record CanPut (c : Cache) (page n : ℕ) (free : List ℕ) : Type 0 where
  free_page : c.free_entries ≡ page ∷ free
  file_left : c.new_file_index ≡ pos n
  page_there :
      c.put_page_existed ≡ true → (p : ℕ) × (c.put_page ≡ some p) × (c.links.linked p ≡ true)

begun-CanPut :
    (c : Cache) (page n : ℕ) (free : List ℕ) (full : Bool)
    → CanPut c page n free
    → CanPut
        (if full then record (push_key_to_keymap c.put_page c) { data_index = 0 } else c)
        page
        n
        free
unfolding push_key_to_keymap
begun-CanPut c page n free false h = h
begun-CanPut c page n free true h = pushed c.put_page
  where
    pushed :
        (p : Option ℕ) → CanPut (record (push_key_to_keymap p c) { data_index = 0 }) page n free
    pushed none = record {
      free_page = h.free_page;
      file_left = h.file_left;
      page_there = h.page_there;
    }
    pushed (some p) = record {
      free_page = h.free_page;
      file_left = h.file_left;
      page_there = h.page_there;
    }

next_node_returns :
    (c : Cache) (page n : ℕ) (free : List ℕ)
    → CanPut c page n free
    → n < 2 ^ 31 - 1
    → (c' : Cache) × (p : ℕ) × (next_node c ≡ some c')
      × (c'.put_page ≡ some p)
      × (c'.links.linked p ≡ true)
unfolding next_node
next_node_returns c page n free h l =
    let begun =
      if is_full c then record (push_key_to_keymap c.put_page c) { data_index = 0 } else c in
    let can = begun-CanPut c page n free (is_full c) h in
    elim (Bool-cases (begun.data_index == 0 || not begun.put_page_existed)) [
      | inl e ↦
          let (c', r, q, linked) =
            start_put_page_returns begun page n free can.free_page can.file_left l in
          (c', page, if_true (some begun) e ∙ r, q, linked)
      | inr e ↦
          let there : begun.put_page_existed ≡ true =
            or_false (begun.data_index == 0) begun.put_page_existed e in
          let (p, q, linked) = can.page_there there in
          (begun, p, if_false (start_put_page begun) e, q, linked)
    ]
  where
    or_false : (a b : Bool) → (a || not b) ≡ false → b ≡ true
    or_false true b h = cc
    or_false false true h = refl
    or_false false false h = cc

put_node_returns :
    (page : ℕ) (key value : Text) (c : Cache)
    → IsSound c
    → c.data_index < page_size
    → c.links.linked page ≡ true
    → (c' : Cache) × (put_node page key value c ≡ some c')
unfolding put_node use_page
put_node_returns page key value c s l linked =
    let (old, e) =
      get_elem?_lt (c.entries page).nodes c.data_index
        (subst (λ n. c.data_index < n) (sym (s.whole page)) l) in
    (
      with_node page key value c (attach page (unlink page c.links)),
      rw (e, put_node, detach-linked c.links page linked, ◌>>=◌) refl,
    )

-- `put` of a key that is not there.
put-put_node :
    (key value : Text) (c ready : Cache) (page : ℕ)
    → c.hash_map key ≡ none
    → c.key_file_map key ≡ pos 0
    → next_node c ≡ some ready
    → ready.put_page ≡ some page
    → put key value c ≡ put_node page key value ready
unfolding put search
put-put_node key value c ready page m k r q = rw (put, search, m, k, r, q) (unfold put_node in refl)

-- In a cache whose pages have `page_size` nodes, where the index of `put` is at most this, with a page
-- free, a file number left and, if `put_page` exists, with it in place and its links set, `put`
-- of a key that is neither in the cache nor in a file returns, and `get` of the key then returns, with
-- the value put.
pub put_returns :
    (key value : Text) (c : Cache) (page n : ℕ) (free : List ℕ)
    → IsSound c
    → c.hash_map key ≡ none
    → c.key_file_map key ≡ pos 0
    → c.free_entries ≡ page ∷ free
    → c.new_file_index ≡ pos n
    → n < 2 ^ 31 - 1
    → (c.put_page_existed ≡ true → (p : ℕ) × (c.put_page ≡ some p) × (c.links.linked p ≡ true))
    → (c' : Cache) × (c'' : Cache) × (put key value c ≡ some c') × (get key c' ≡ some (value, c''))
put_returns key value c page n free s m k f i l e =
    let (ready, p, r, q, linked) =
      next_node_returns c page n free (record { free_page = f; file_left = i; page_there = e }) l in
    let (sound, less) = next_node-IsSound c ready s r in
    let (c', w) = put_node_returns p key value ready sound less linked in
    let returns : put key value c ≡ some c' = put-put_node key value c ready p m k r q ∙ w in
    let (kept, c'', got) = get-put key value c c' s returns in (c', c'', returns, got)
