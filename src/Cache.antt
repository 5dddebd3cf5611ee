-- ===== src/Cache.antt =====
-- src/hash_cache.cpp, the list of the pages by their last use: a page is its index in `entries_`, and the
-- two ends of the list have indices of their own. Cache.Order and Cache.Front are about the list;
-- Cache.Pages has the pages and their files, Cache.Keys the keys.
pub mod Order
pub mod Front
pub mod Pages
pub mod Keys
pub mod Files
pub mod Start
pub mod Saves
pub mod Whole
pub mod Leads
pub mod Reads
pub mod Held
pub mod Puts
pub mod Oldest
use thkvs.Base.{true, false, Option, none, some, ◌>>=◌, ℕ, Bool, ◌==◌, if◌then◌else◌}

-- The fields `next` and `prev` of the pages and of the ends, `head_` and `tail_`, and for which pages
-- they have been set.
pub record Links : Type 0 where
  pub next : ℕ → ℕ
  pub prev : ℕ → ℕ
  pub linked : ℕ → Bool
  pub head : ℕ
  pub tail : ℕ

abbrev pub assign_link : ℕ → ℕ → (ℕ → ℕ) → ℕ → ℕ
assign_link page to link = λ i. if i == page then to else link i

-- The empty list of a new cache; the fields of the pages are not set.
abbrev pub new_links : Links → Links
new_links unset = record unset {
  next = assign_link unset.head unset.tail unset.next;
  prev = assign_link unset.tail unset.head unset.prev;
  linked = λ page. false;
}

-- The assignments of `detach`.
abbrev pub unlink : ℕ → Links → Links
unlink page l = record l {
  next = assign_link (l.prev page) (l.next page) l.next;
  prev = assign_link (l.next page) (l.prev page) l.prev;
}

-- `none`: the pointers of the page are followed, and have not been set.
unfoldable pub detach : ℕ → Links → Option Links
detach page l = if l.linked page then some (unlink page l) else none

-- The assignments in their order: the page is linked to both neighbours, then they to it.
unfoldable pub attach : ℕ → Links → Links
attach page l =
    let next = assign_link page (l.next l.head) l.next in
    let prev = assign_link page l.head l.prev in
    record l {
      next = assign_link l.head page next;
      prev = assign_link (next l.head) page prev;
      linked = λ i. if i == page then true else l.linked i;
    }

-- `detach(page)` and `attach(page)` in `search`.
unfoldable pub use_page : ℕ → Links → Option Links
unfolding detach attach
use_page page l = do l' ← detach page l; some (attach page l')
