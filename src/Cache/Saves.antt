-- ===== src/Cache/Saves.antt =====
-- src/hash_cache.cpp, the loop of `save_cache`: as many turns as the list has pages are enough.
use mathlib.Core.Path.{subst}
use thkvs.Base.{
  ℕ, zero, suc, ◌≤◌, ◌≡◌, refl, sym, ap, ◌∙◌, List, [], ◌∷◌, Bool, true, false, ◌==◌, if◌then◌else◌,
  if_true, if_false, All, length, arith,
}
use thkvs.Cache.Order.{Chain, ==_self}
use thkvs.Cache.Pages.{Cache, save_page_to_file}
use thkvs.Cache.Start.{save_pages}

-- The pages of a list, saved in its order if they are dirty.
abbrev pub save_each : List ℕ → Cache → Cache
save_each [] c = c
save_each (page ∷ pages) c =
    save_each pages (if (c.entries page).dirty then save_page_to_file page c else c)

-- In a list that ends in `tail_`, and has it at no other place, the loop saves each dirty page.
pub save_pages-save_each :
    (turns a : ℕ) (pages : List ℕ) (c : Cache)
    → Chain c.links a pages c.links.tail
    → All (λ page. (page == c.links.tail) ≡ false) pages
    → length pages ≤ turns
    → save_pages turns (c.links.next a) c ≡ save_each pages c
unfolding save_pages save_page_to_file
save_pages-save_each zero a [] c chain apart l = refl
save_pages-save_each (suc turns) a [] c chain apart l =
    if_true _ (ap (λ page. page == c.links.tail) chain.0 ∙ ==_self c.links.tail)
save_pages-save_each zero a (page ∷ pages) c chain apart l = absurd (omega arith)
save_pages-save_each (suc turns) a (page ∷ pages) c chain apart l =
    subst (λ p. save_pages (suc turns) p c ≡ save_each (page ∷ pages) c) (sym chain.0)
      (turn (c.entries page).dirty
        (λ c' chain apart. save_pages-save_each turns page pages c' chain apart (omega arith)))
  where
    turn :
        (dirty : Bool)
        → ((c' : Cache)
            → Chain c'.links page pages c'.links.tail
            → All (λ page. (page == c'.links.tail) ≡ false) pages
            → save_pages turns (c'.links.next page) c' ≡ save_each pages c')
        → let c' = if dirty then save_page_to_file page c else c in
          (if page == c.links.tail then c else save_pages turns (c'.links.next page) c')
          ≡ save_each pages c'
    turn true rest = if_false _ apart.0 ∙ rest (save_page_to_file page c) chain.2 apart.1
    turn false rest = if_false _ apart.0 ∙ rest c chain.2 apart.1
