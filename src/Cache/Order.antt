-- ===== src/Cache/Order.antt =====
-- src/hash_cache.cpp, `attach` and `detach` on a list that is well linked.
use mathlib.Core.Path.{subst}
use mathlib.Core.List.{append_assoc}
use thkvs.Base.{
  ℕ, ◌≡◌, refl, sym, ap, ◌∙◌, List, [], ◌∷◌, ◌++◌, true, false, ◌==◌, if_true, if_false, All,
  All-append, arith,
}
use thkvs.Cache.{Links, assign_link, unlink}

-- From `a` over the pages `xs` to `b`, in both directions.
abbrev pub Chain : Links → ℕ → List ℕ → ℕ → Type 0
Chain l a [] b = (l.next a ≡ b) × (l.prev b ≡ a)
Chain l a (x ∷ xs) b = (l.next a ≡ x) × (l.prev x ≡ a) × Chain l x xs b

abbrev pub IsNot : ℕ → List ℕ → Type 0
IsNot x ys = All (λ y. (y == x) ≡ false) ys

abbrev pub AreDistinct : List ℕ → Type 0
AreDistinct [] = Unit
AreDistinct (x ∷ xs) = IsNot x xs × AreDistinct xs

-- The list of the pages, the last used first.
pub record IsLinked (l : Links) (xs : List ℕ) : Type 0 where
  pub chain : Chain l l.head xs l.tail
  pub set : All (λ x. l.linked x ≡ true) xs
  pub distinct : AreDistinct (l.head ∷ (xs ++ l.tail ∷ []))

-- Links that are changed elsewhere.
pub Chain-elsewhere :
    (l l' : Links) (a : ℕ) (xs : List ℕ) (b : ℕ)
    → All (λ x. l'.next x ≡ l.next x) (a ∷ xs)
    → All (λ x. l'.prev x ≡ l.prev x) (xs ++ b ∷ [])
    → Chain l a xs b
    → Chain l' a xs b
Chain-elsewhere l l' a [] b n p c = (n.0 ∙ c.0, p.0 ∙ c.1)
Chain-elsewhere l l' a (x ∷ xs) b n p c =
    let (c0, c1, c2) = c in (n.0 ∙ c0, p.0 ∙ c1, Chain-elsewhere l l' x xs b n.1 p.1 c2)

pub assign_link-IsNot :
    (page to : ℕ) (link : ℕ → ℕ) (xs : List ℕ)
    → IsNot page xs
    → All (λ x. assign_link page to link x ≡ link x) xs
assign_link-IsNot page to link [] h = tt
assign_link-IsNot page to link (x ∷ xs) h = (if_false _ h.0, assign_link-IsNot page to link xs h.1)

-- The two links that `detach` changes, for neighbours `a` and `b` of the page.
abbrev bridge : ℕ → ℕ → Links → Links
bridge a b l = record l { next = assign_link a b l.next; prev = assign_link b a l.prev }

pub ==_self : (a : ℕ) → (a == a) ≡ true
==_self a = ground arith

pub ==_swap : (a b : ℕ) → (a == b) ≡ (b == a)
==_swap a b = ground arith

pub IsNot-split : (x : ℕ) (ys zs : List ℕ) → IsNot x (ys ++ zs) → IsNot x ys × IsNot x zs
IsNot-split x [] zs h = (tt, h)
IsNot-split x (y ∷ ys) zs h = let r = IsNot-split x ys zs h.1 in ((h.0, r.0), r.1)

AreDistinct-behind : (xs ys : List ℕ) → AreDistinct (xs ++ ys) → AreDistinct ys
AreDistinct-behind [] ys d = d
AreDistinct-behind (x ∷ xs) ys d = AreDistinct-behind xs ys d.1

-- The page that is linked in front of `p`, and the one behind it.
prev-Chain :
    (P : ℕ → Type 0) (l : Links) (a : ℕ) (xs : List ℕ) (p : ℕ) (ys : List ℕ) (b : ℕ)
    → Chain l a (xs ++ p ∷ ys) b
    → All P (a ∷ xs)
    → P (l.prev p)
prev-Chain P l a [] p ys b c h = subst P (sym c.1) h.0
prev-Chain P l a (x ∷ xs) p ys b c h = prev-Chain P l x xs p ys b c.2 h.1

next-Chain :
    (P : ℕ → Type 0) (l : Links) (a : ℕ) (xs : List ℕ) (p : ℕ) (ys : List ℕ) (b : ℕ)
    → Chain l a (xs ++ p ∷ ys) b
    → All P (ys ++ b ∷ [])
    → P (l.next p)
next-Chain P l a [] p [] b c h = subst P (sym c.2.0) h.0
next-Chain P l a [] p (y ∷ ys) b c h = subst P (sym c.2.0) h.0
next-Chain P l a (x ∷ xs) p ys b c h = next-Chain P l x xs p ys b c.2 h

-- Without a page at its front a list is linked by the bridge over it.
bridge_front :
    (l : Links) (a p q : ℕ) (ys : List ℕ) (b : ℕ)
    → l.next p ≡ q
    → AreDistinct (a ∷ (p ∷ (ys ++ b ∷ [])))
    → Chain l a (p ∷ ys) b
    → Chain (bridge a q l) a ys b
bridge_front l a p q [] b e d c =
    let same : q ≡ b = sym e ∙ c.2.0 in
    (if_true _ (==_self a) ∙ same, if_true _ (ap (λ k. b == k) same ∙ ==_self b))
bridge_front l a p q (y ∷ ys) b e d c =
    let same : q ≡ y = sym e ∙ c.2.0 in
    let apart = IsNot-split a (y ∷ ys) (b ∷ []) d.0.1 in
    subst (λ q. Chain (bridge a q l) a (y ∷ ys) b) (sym same)
      (
        if_true _ (==_self a),
        if_true _ (==_self y),
        Chain-elsewhere l (bridge a y l) y ys b (assign_link-IsNot a y l.next (y ∷ ys) apart.0)
            (assign_link-IsNot y a l.prev (ys ++ b ∷ []) d.1.1.0) c.2.2,
      )

bridge-Chain :
    (l : Links) (a : ℕ) (xs : List ℕ) (p : ℕ) (ys : List ℕ) (b : ℕ)
    → AreDistinct (a ∷ ((xs ++ p ∷ ys) ++ b ∷ []))
    → Chain l a (xs ++ p ∷ ys) b
    → Chain (bridge (l.prev p) (l.next p) l) a (xs ++ ys) b
bridge-Chain l a [] p ys b d c =
    subst (λ k. Chain (bridge k (l.next p) l) a ys b) (sym c.1)
      (bridge_front l a p (l.next p) ys b refl d c)
bridge-Chain l a (x ∷ xs) p ys b d c =
    let (c0, c1, c2) = c in
    let around : All (λ y. (y == a) ≡ false) (x ∷ xs) =
      (IsNot-split a (x ∷ xs) (p ∷ ys) (IsNot-split a (x ∷ (xs ++ p ∷ ys)) (b ∷ []) d.0).0).0 in
    let behind : IsNot x ((xs ++ p ∷ ys) ++ b ∷ []) = d.1.0 in
    let after : All (λ y. (y == x) ≡ false) (ys ++ b ∷ []) =
      (IsNot-split x xs (p ∷ (ys ++ b ∷ []))
        (subst (IsNot x) (append_assoc xs (p ∷ ys) (b ∷ [])) behind)).1.1 in
    let before_p : (a == l.prev p) ≡ false =
      ==_swap a (l.prev p) ∙ prev-Chain (λ y. (y == a) ≡ false) l x xs p ys b c2 around in
    let behind_p : (x == l.next p) ≡ false =
      ==_swap x (l.next p) ∙ next-Chain (λ y. (y == x) ≡ false) l x xs p ys b c2 after in
    (if_false _ before_p ∙ c0, if_false _ behind_p ∙ c1, bridge-Chain l x xs p ys b d.1 c2)

-- A page that is taken off the list leaves the others in their order, well linked.
pub detach-Chain :
    (l : Links) (xs : List ℕ) (p : ℕ) (ys : List ℕ)
    → IsLinked l (xs ++ p ∷ ys)
    → Chain (unlink p l) l.head (xs ++ ys) l.tail
detach-Chain l xs p ys k = bridge-Chain l l.head xs p ys l.tail k.distinct k.chain

pub AreDistinct-without :
    (xs : List ℕ) (p : ℕ) (ys : List ℕ)
    → AreDistinct (xs ++ p ∷ ys)
    → AreDistinct (xs ++ ys) × IsNot p (xs ++ ys)
AreDistinct-without [] p ys d = (d.1, d.0)
AreDistinct-without (x ∷ xs) p ys d =
    let r = AreDistinct-without xs p ys d.1 in
    let apart = IsNot-split x xs (p ∷ ys) d.0 in
    (
      (All-append (λ y. (y == x) ≡ false) xs ys apart.0 apart.1.1, r.0),
      (==_swap x p ∙ apart.1.0, r.1),
    )
