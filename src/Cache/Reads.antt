-- ===== src/Cache/Reads.antt =====
-- src/hash_cache.cpp, what `search` finds.
use mathlib.Core.Path.{subst}
use thkvs.Base.{
  ℕ, true, ap, ◌≡◌, refl, sym, ◌∙◌, inl, inr, Bool-cases, Option, none, some, if◌then◌else◌,
  if_true, if_false, ◌>>=◌, >>=-eq-some, Text,
}
use thkvs.Base.Int.{ℤ}
use thkvs.Cache.{Links, detach, attach, use_page}
use thkvs.Cache.Order.{==_self}
use thkvs.Cache.Leads.{
  LacksTaken, get_new_page-Lacks, LeadsTo, Loaded, Lacks-LeadsTo, load_file_to_page-Loaded,
}
use thkvs.Cache.Pages.{Place, Cache, load_file_to_page}
use thkvs.Cache.Keys.{if_loaded, look_again, is_zero, get_new_page, search}
use thkvs.Cache.Whole.{Keeps, Keeps-self, Keeps-trans, get_new_page-Keeps, load_file_to_page-Keeps}

-- The links of the page that is found have been set.
abbrev pub HasLinks : Links → Option Place → Type 0
HasLinks l none = Unit
HasLinks l (some place) = l.linked place.page ≡ true

pub attach-linked : (page : ℕ) (l : Links) → (attach page l).linked page ≡ true
unfolding attach
attach-linked page l = if_true _ (==_self page)

pub use_page-linked : (page : ℕ) (l l' : Links) → use_page page l ≡ some l' → l'.linked page ≡ true
unfolding use_page
use_page-linked page l l' h =
    let (l0, _, r) = >>=-eq-some (detach page l) (λ l'. some (attach page l')) h in
    let same : attach page l0 ≡ l' = cc in
    sym (ap (λ (l : Links). l.linked page) same) ∙ attach-linked page l0

-- `search` returns what the map has in the end, on a page whose links are set, and leaves the number
-- of the nodes.
abbrev pub Searched : Text → Cache → Option Place → Cache → Type 0
Searched key c found c' = Keeps c c' × (found ≡ c'.hash_map key) × HasLinks c'.links found

Searched-some :
    (key : Text) (c : Cache) (found0 found : Option Place) (c0 c' : Cache)
    → Searched key c found0 c0
    → ◌≡◌ {A = Option (Option Place × Cache)} (some (found0, c0)) (some (found, c'))
    → Searched key c found c'
Searched-some key c found0 found c0 c' k h =
    let e : found0 ≡ found = cc in
    let e' : c0 ≡ c' = cc in subst (λ f. Searched key c f c') e (subst (Searched key c found0) e' k)

look_again-Searched :
    (key : Text) (c c1 : Cache) (page : ℕ)
    → Keeps c c1
    → LeadsTo key page (c1.hash_map key)
    → Searched key c (look_again key page c1).0 (look_again key page c1).1
look_again-Searched key c c1 page k leads = look (c1.hash_map key) refl leads
  where
    again : Option Place → Option Place × Cache
    again m = elim m [
      | none ↦ (none, c1)
      | some node ↦ (some node, record c1 { links = attach page c1.links })
    ]

    look :
        (m : Option Place)
        → c1.hash_map key ≡ m
        → LeadsTo key page m
        → Searched key c (again m).0 (again m).1
    look none same leads = (k, sym same, tt)
    look (some node) same leads = (
      record { nodes = k.nodes; index = k.index },
      sym same,
      ap (attach page c1.links).linked leads ∙ attach-linked page c1.links,
    )

if_loaded-Keeps :
    (n : ℤ) (page : ℕ) (c taken : Cache) (loaded : Option Cache)
    → Keeps c taken
    → load_file_to_page n page taken ≡ some loaded
    → Keeps c (if_loaded page taken loaded)
if_loaded-Keeps n page c taken none k e = record { nodes = k.nodes; index = k.index }
if_loaded-Keeps n page c taken (some c1) k e =
    Keeps-trans k (load_file_to_page-Keeps n page taken c1 e)

if_loaded-LeadsTo :
    (key : Text) (page : ℕ) (taken : Cache) (loaded : Option Cache)
    → taken.hash_map key ≡ none
    → Loaded key page (some loaded)
    → LeadsTo key page ((if_loaded page taken loaded).hash_map key)
if_loaded-LeadsTo key page taken none h k = Lacks-LeadsTo key page taken h
if_loaded-LeadsTo key page taken (some c1) h k = k

pub search-Searched :
    (key : Text) (c : Cache) (found : Option Place) (c' : Cache)
    → search key c ≡ some (found, c')
    → Searched key c found c'
unfolding search
search-Searched key c found c' h = look (c.hash_map key) refl h
  where
    with_links : Place → Links → Option (Option Place × Cache)
    with_links node links = some (some node, record c { links = links })

    end : ℕ → Cache → Option Cache → Option (Option Place × Cache)
    end page taken loaded = some (look_again key page (if_loaded page taken loaded))

    load : ℕ × Cache → Option (Option Place × Cache)
    load (page, taken) = load_file_to_page (c.key_file_map key) page taken >>= end page taken

    missed :
        c.hash_map key ≡ none
        → (get_new_page c >>= load) ≡ some (found, c')
        → Searched key c found c'
    missed lacks h =
        let ((page, taken), e, r) = >>=-eq-some (get_new_page c) load h in
        let (loaded, l, last) =
          >>=-eq-some (load_file_to_page (c.key_file_map key) page taken) (end page taken) r in
        let c1 = if_loaded page taken loaded in
        let lacks' = subst (LacksTaken key) e (get_new_page-Lacks key c lacks) in
        let leads =
          subst (Loaded key page) l
            (load_file_to_page-Loaded key (c.key_file_map key) page taken lacks') in
        Searched-some key c (look_again key page c1).0 found (look_again key page c1).1 c'
          (look_again-Searched key c c1 page
            (if_loaded-Keeps (c.key_file_map key) page c taken loaded
              (get_new_page-Keeps c page taken e) l)
            (if_loaded-LeadsTo key page taken loaded lacks' leads))
          last

    look :
        (m : Option Place)
        → c.hash_map key ≡ m
        → (elim m as (λ x. Option (Option Place × Cache)) [
          | some node ↦ use_page node.page c.links >>= with_links node
          | none ↦
              if is_zero (c.key_file_map key) then some (none, c) else (get_new_page c >>= load)
        ])
          ≡ some (found, c')
        → Searched key c found c'
    look (some node) same h =
        let (links, e, r) = >>=-eq-some (use_page node.page c.links) (with_links node) h in
        Searched-some key c (some node) found (record c { links = links }) c'
          (
            record { nodes = λ i. refl; index = refl },
            sym same,
            use_page-linked node.page c.links links e,
          )
          r
    look none same h = elim (Bool-cases (is_zero (c.key_file_map key))) [
      | inl e ↦
          Searched-some key c none found c c' (Keeps-self c, sym same, tt) (sym (if_true _ e) ∙ h)
      | inr e ↦ missed same (sym (if_false _ e) ∙ h)
    ]
