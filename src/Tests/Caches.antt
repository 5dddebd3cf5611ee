-- ===== src/Tests/Caches.antt =====
-- A cache of two pages without files, and a list of three pages.
use thkvs.Base.{ltb, ℕ, ◌≡◌, refl, [], ◌∷◌, true, none, some, ◌==◌, false, codes, arith}
use thkvs.Base.Int.{pos}
use thkvs.Cache.{Links, assign_link, use_page}
use thkvs.Cache.Order.{IsLinked}
use thkvs.Cache.Front.{use_page-IsLinked}
use thkvs.Cache.Pages.{Node, Cache, set_page, load_file_to_page, save_page_to_file}
use thkvs.Cache.Keys.{blanks, get, put}
use thkvs.Cache.Files.{load_file_to_page-save_page_to_file}
use thkvs.Cache.Held.{IsSound}
use thkvs.Cache.Puts.{get-put, put_returns}
use thkvs.Cache.Start.{new_cache, load_key_file_map}

-- Page 0, page 1 and page 2 between the ends 3 and 4.
abbrev three : Links
three = record {
  next = assign_link 3 0 (assign_link 0 1 (assign_link 1 2 (assign_link 2 4 (λ page. 0))));
  prev = assign_link 4 2 (assign_link 2 1 (assign_link 1 0 (assign_link 0 3 (λ page. 0))));
  linked = λ page. ltb page 3;
  head = 3;
  tail = 4;
}

use_page-IsLinked_example :
    (l' : Links) × (use_page 1 three ≡ some l') × IsLinked l' (1 ∷ 0 ∷ 2 ∷ [])
use_page-IsLinked_example = use_page-IsLinked three (0 ∷ []) 1 (2 ∷ []) (record {
  chain = (refl, refl, (refl, refl, (refl, refl, (refl, refl))));
  set = (refl, (refl, (refl, tt)));
  distinct = (
    (refl, (refl, (refl, (refl, tt)))),
    ((refl, (refl, (refl, tt))), ((refl, (refl, tt)), ((refl, tt), (tt, tt)))),
  );
})

abbrev fresh : Cache
unfolding new_cache load_key_file_map
fresh = new_cache 2 (pos 5) (λ page. pos 0) three (λ name. none)

abbrev apple : Node
apple = record { key = codes "apple"; value = codes "red" }

abbrev one_node : Cache
one_node = set_page 0 (record { file_num = pos 7; dirty = true; nodes = apple ∷ blanks 49 }) fresh

load_file_to_page-save_page_to_file_example :
    (c' : Cache) × (load_file_to_page (pos 7) 1 (save_page_to_file 0 one_node) ≡ some (some c'))
    × ((c'.entries 1).file_num ≡ pos 7)
    × ((c'.entries 1).nodes ≡ apple ∷ blanks 49)
    × ((i : ℕ) → (i == 1) ≡ false → c'.entries i ≡ (save_page_to_file 0 one_node).entries i)
unfolding new_cache
load_file_to_page-save_page_to_file_example =
    load_file_to_page-save_page_to_file one_node 0 1 49 7 (apple ∷ []) refl (omega arith) refl
      (
        record {
          key = (refl, (refl, (refl, (refl, (refl, tt)))));
          value = (refl, (refl, (refl, tt)));
        },
        tt,
      )
      refl

fresh-IsSound : IsSound fresh
unfolding new_cache
fresh-IsSound = record { whole = λ i. refl; index = omega arith }

put_returns_example :
    (c' : Cache) × (c'' : Cache) × (put (codes "apple") (codes "red") fresh ≡ some c')
    × (get (codes "apple") c' ≡ some (codes "red", c''))
unfolding new_cache load_key_file_map
put_returns_example =
    put_returns (codes "apple") (codes "red") fresh 1 0 (0 ∷ []) fresh-IsSound refl refl refl refl
      (omega arith) (λ existed. cc)

after_put : (c' : Cache) × (put (codes "apple") (codes "red") fresh ≡ some c')
unfolding new_cache load_key_file_map
after_put =
    let (c', c'', returns, got) =
      put_returns (codes "apple") (codes "red") fresh 1 0 (0 ∷ []) fresh-IsSound refl refl refl refl
        (omega arith) (λ existed. cc) in
    (c', returns)

get-put_example :
    IsSound after_put.0
    × (c'' : Cache) × (get (codes "apple") after_put.0 ≡ some (codes "red", c''))
get-put_example = get-put (codes "apple") (codes "red") fresh after_put.0 fresh-IsSound after_put.1
