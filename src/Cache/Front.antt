-- ===== src/Cache/Front.antt =====
-- src/hash_cache.cpp, `attach`, and what a page that is used does to the list.
use mathlib.Core.Path.{subst}
use mathlib.Core.List.{append_assoc}
use thkvs.Base.{
  ℕ, ◌≡◌, refl, sym, ap, ◌∙◌, List, [], ◌∷◌, ◌++◌, false, ◌==◌, true, none, some, ◌>>=◌, Bool-cases,
  inl, inr, if◌then◌else◌, if_true, if_false, All,
}
use thkvs.Cache.{Links, assign_link, unlink, detach, attach, use_page}
use thkvs.Cache.Order.{
  Chain, IsNot, AreDistinct, IsLinked, Chain-elsewhere, ==_self, ==_swap, IsNot-split, detach-Chain,
  AreDistinct-without,
}

-- The links that `attach` leaves, for the page that was first, as it is read twice.
abbrev put_front : ℕ → ℕ → ℕ → Links → Links
put_front page first again l = record l {
  next = assign_link l.head page (assign_link page first l.next);
  prev = assign_link again page (assign_link page l.head l.prev);
  linked = λ i. if i == page then true else l.linked i;
}

-- The change of a link and of one more leaves the link of all other pages.
twice_IsNot :
    (p a q b : ℕ) (link : ℕ → ℕ) (xs : List ℕ)
    → IsNot p xs
    → IsNot q xs
    → All (λ x. assign_link p a (assign_link q b link) x ≡ link x) xs
twice_IsNot p a q b link [] h k = tt
twice_IsNot p a q b link (x ∷ xs) h k =
    (if_false _ h.0 ∙ if_false _ k.0, twice_IsNot p a q b link xs h.1 k.1)

put_front-Chain :
    (l : Links) (p q : ℕ) (xs : List ℕ)
    → l.next l.head ≡ q
    → (p == l.head) ≡ false
    → IsNot p (xs ++ l.tail ∷ [])
    → AreDistinct (l.head ∷ (xs ++ l.tail ∷ []))
    → Chain l l.head xs l.tail
    → Chain (put_front p q q l) l.head (p ∷ xs) l.tail
put_front-Chain l p q [] e n h d c =
    let same : q ≡ l.tail = sym e ∙ c.0 in
    (
      if_true _ (==_self l.head),
      if_false _ (ap (λ k. p == k) same ∙ ==_swap p l.tail ∙ h.0) ∙ if_true _ (==_self p),
      (
        if_false _ n ∙ if_true _ (==_self p) ∙ same,
        if_true _ (ap (λ k. l.tail == k) same ∙ ==_self l.tail),
      ),
    )
put_front-Chain l p q (x ∷ xs) e n h d c =
    let same : q ≡ x = sym e ∙ c.0 in
    let apart = IsNot-split l.head (x ∷ xs) (l.tail ∷ []) d.0 in
    let fresh = IsNot-split p (x ∷ xs) (l.tail ∷ []) h in
    subst (λ q. Chain (put_front p q q l) l.head (p ∷ (x ∷ xs)) l.tail) (sym same)
      (
        if_true _ (==_self l.head),
        if_false _ (==_swap p x ∙ h.0) ∙ if_true _ (==_self p),
        (
          if_false _ n ∙ if_true _ (==_self p),
          if_true _ (==_self x),
          Chain-elsewhere l (put_front p x x l) x xs l.tail
              (twice_IsNot l.head p p x l.next (x ∷ xs) apart.0 fresh.0)
              (twice_IsNot x p p l.head l.prev (xs ++ l.tail ∷ []) d.1.0 h.1) c.2,
        ),
      )

-- A page stays set when another one is.
set_still :
    (l : Links) (p : ℕ) (xs : List ℕ)
    → All (λ x. l.linked x ≡ true) xs
    → All (λ x. (if x == p then true else l.linked x) ≡ true) xs
set_still l p [] h = tt
set_still l p (x ∷ xs) h = (
  elim (Bool-cases (x == p)) [ inl e ↦ if_true _ e | inr e ↦ if_false _ e ∙ h.0 ],
  set_still l p xs h.1,
)

-- A page that is not in the list is put at its front.
pub attach-IsLinked :
    (l : Links) (p : ℕ) (xs : List ℕ)
    → IsNot p (l.head ∷ (xs ++ l.tail ∷ []))
    → IsLinked l xs
    → IsLinked (attach p l) (p ∷ xs)
unfolding attach
attach-IsLinked l p xs h k =
    let n : (p == l.head) ≡ false = ==_swap p l.head ∙ h.0 in
    record {
      chain =
          subst (λ again. Chain (put_front p (l.next l.head) again l) l.head (p ∷ xs) l.tail)
            (sym (if_false _ h.0))
            (put_front-Chain l p (l.next l.head) xs refl n h.1 k.distinct k.chain);
      distinct = ((n, k.distinct.0), (h.1, k.distinct.1));
      set = (if_true _ (==_self p), set_still l p xs k.set);
    }

All-taken :
    (P : ℕ → Type 0) (xs : List ℕ) (p : ℕ) (ys : List ℕ)
    → All P (xs ++ p ∷ ys)
    → P p × All P (xs ++ ys)
All-taken P [] p ys h = (h.0, h.1)
All-taken P (x ∷ xs) p ys h = let r = All-taken P xs p ys h.1 in (r.0, (h.0, r.1))

AreDistinct-taken :
    (a p t : ℕ) (xs ys : List ℕ)
    → AreDistinct (a ∷ ((xs ++ p ∷ ys) ++ t ∷ []))
    → AreDistinct (a ∷ ((xs ++ ys) ++ t ∷ [])) × IsNot p (a ∷ ((xs ++ ys) ++ t ∷ []))
AreDistinct-taken a p t xs ys d =
    let r =
      AreDistinct-without (a ∷ xs) p (ys ++ t ∷ [])
        (subst (λ zs. AreDistinct (a ∷ zs)) (append_assoc xs (p ∷ ys) (t ∷ [])) d) in
    subst (λ zs. AreDistinct (a ∷ zs) × IsNot p (a ∷ zs)) (sym (append_assoc xs ys (t ∷ []))) r

pub detach-linked : (l : Links) (p : ℕ) → l.linked p ≡ true → detach p l ≡ some (unlink p l)
unfolding detach
detach-linked l p h = if_true none h

-- A page that is taken off the list.
pub detach-IsLinked :
    (l : Links) (xs : List ℕ) (p : ℕ) (ys : List ℕ)
    → IsLinked l (xs ++ p ∷ ys)
    → (detach p l ≡ some (unlink p l)) × IsLinked (unlink p l) (xs ++ ys)
detach-IsLinked l xs p ys k =
    let taken = All-taken (λ x. l.linked x ≡ true) xs p ys k.set in
    (
      detach-linked l p taken.0,
      record {
        chain = detach-Chain l xs p ys k;
        distinct = (AreDistinct-taken l.head p l.tail xs ys k.distinct).0;
        set = taken.1;
      },
    )

-- A page of the list that is used becomes its first, and the others keep their order and their
-- links, in both directions.
pub use_page-IsLinked :
    (l : Links) (xs : List ℕ) (p : ℕ) (ys : List ℕ)
    → IsLinked l (xs ++ p ∷ ys)
    → (l' : Links) × (use_page p l ≡ some l') × IsLinked l' (p ∷ (xs ++ ys))
unfolding use_page
use_page-IsLinked l xs p ys k =
    let (detached, linked) = detach-IsLinked l xs p ys k in
    (
      attach p (unlink p l),
      ap (λ o. o >>= λ l'. some (attach p l')) detached,
      attach-IsLinked (unlink p l) p (xs ++ ys)
          (AreDistinct-taken l.head p l.tail xs ys k.distinct).1 linked,
    )
