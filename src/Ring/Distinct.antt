-- ===== src/Ring/Distinct.antt =====
-- src/driver.cpp, the loops that pick the first few different hosts along the ring.
use thkvs.Base.{
  ℕ, zero, suc, ◌+◌, ◌≤◌, ◌≡◌, refl, sym, ap, ◌∙◌, inl, inr, List, [], ◌∷◌, ◌++◌, false, ◌||◌, some,
  elem, length, length-append, take, ltb, ◌==◌, if◌then◌else◌, Bool-cases, arith,
}
use mathlib.Core.List.{append_assoc, append-nil}
use thkvs.Ring.Cycle.{until}

-- `if (!flag) hosts.emplace_back(i)`, where `flag` says that `i` is in `hosts`.
unfoldable pub add_new : List ℕ → ℕ → List ℕ
add_new hosts i = if elem i hosts then hosts else hosts ++ i ∷ []

unfoldable pub add_all : List ℕ → List ℕ → List ℕ
unfolding add_new
add_all hosts [] = hosts
add_all hosts (x ∷ xs) = add_all (add_new hosts x) xs

-- The first `n` different hosts of a list.
unfoldable pub first_hosts : ℕ → List ℕ → List ℕ
unfolding add_all
first_hosts n xs = take n (add_all [] xs)

abbrev pub IsDistinct : List ℕ → Type 0
IsDistinct [] = Unit {0}
IsDistinct (x ∷ xs) = (elem x xs ≡ false) × IsDistinct xs

pub elem-append : (i : ℕ) (xs ys : List ℕ) → elem i (xs ++ ys) ≡ elem i xs || elem i ys
elem-append i [] ys = refl
elem-append i (x ∷ xs) ys = ground (arith, elem-append i xs ys)

pub elem-add_new : (i x : ℕ) (hosts : List ℕ) → elem i (add_new hosts x) ≡ (x == i || elem i hosts)
unfolding add_new
elem-add_new i x hosts = elim (Bool-cases (x == i)) [
  | inl e ↦ let e' : x ≡ i = ground arith in rw e' (ground (arith, elem-append i hosts (i ∷ [])))
  | inr e ↦ ground (arith, elem-append i hosts (x ∷ []))
]

-- The hosts that are chosen are those that were there and those on the way, and no others.
pub elem-add_all :
    (i : ℕ) (hosts xs : List ℕ) → elem i (add_all hosts xs) ≡ elem i hosts || elem i xs
unfolding add_all
elem-add_all i hosts [] = ground arith
elem-add_all i hosts (x ∷ xs) =
    ground (arith, elem-add_all i (add_new hosts x) xs, elem-add_new i x hosts)

IsDistinct-snoc :
    (xs : List ℕ) (i : ℕ) → IsDistinct xs → elem i xs ≡ false → IsDistinct (xs ++ i ∷ [])
IsDistinct-snoc [] i d h = (refl, tt)
IsDistinct-snoc (x ∷ xs) i d h =
    (ground (arith, elem-append x xs (i ∷ [])), IsDistinct-snoc xs i d.1 (ground arith))

pub add_new-IsDistinct : (hosts : List ℕ) (i : ℕ) → IsDistinct hosts → IsDistinct (add_new hosts i)
unfolding add_new
add_new-IsDistinct hosts i d = elim (Bool-cases (elem i hosts)) [
  | inl e ↦ rw (e, add_new) d
  | inr e ↦ rw (e, add_new) (IsDistinct-snoc hosts i d e)
]

pub add_all-IsDistinct : (hosts xs : List ℕ) → IsDistinct hosts → IsDistinct (add_all hosts xs)
unfolding add_all
add_all-IsDistinct hosts [] d = d
add_all-IsDistinct hosts (x ∷ xs) d =
    add_all-IsDistinct (add_new hosts x) xs (add_new-IsDistinct hosts x d)

elem-take : (n i : ℕ) (xs : List ℕ) → elem i xs ≡ false → elem i (take n xs) ≡ false
elem-take zero i xs h = refl
elem-take (suc n) i [] h = refl
elem-take (suc n) i (x ∷ xs) h = ground (arith, elem-take n i xs)

IsDistinct-take : (n : ℕ) (xs : List ℕ) → IsDistinct xs → IsDistinct (take n xs)
IsDistinct-take zero xs d = tt
IsDistinct-take (suc n) [] d = tt
IsDistinct-take (suc n) (x ∷ xs) d = (elem-take n x xs d.0, IsDistinct-take n xs d.1)

pub length-take_le : (n : ℕ) (xs : List ℕ) → n ≤ length xs → length (take n xs) ≡ n
length-take_le zero xs h = refl
length-take_le (suc n) [] h = absurd (omega arith)
length-take_le (suc n) (x ∷ xs) h = ap suc (length-take_le n xs (omega arith))

pub first_hosts-IsDistinct : (n : ℕ) (xs : List ℕ) → IsDistinct (first_hosts n xs)
unfolding first_hosts
first_hosts-IsDistinct n xs = IsDistinct-take n (add_all [] xs) (add_all-IsDistinct [] xs tt)

pub length-first_hosts :
    (n : ℕ) (xs : List ℕ) → n ≤ length (add_all [] xs) → length (first_hosts n xs) ≡ n
unfolding first_hosts
length-first_hosts n xs h = length-take_le n (add_all [] xs) h

pub elem-first_hosts :
    (n i : ℕ) (xs : List ℕ) → elem i xs ≡ false → elem i (first_hosts n xs) ≡ false
unfolding first_hosts
elem-first_hosts n i xs h = elem-take n i (add_all [] xs) (elem-add_all i [] xs ∙ h)

-- What was chosen stays, and what comes later is behind it.
pub add_all-prefix : (hosts xs : List ℕ) → (more : List ℕ) × (add_all hosts xs ≡ hosts ++ more)
unfolding add_all add_new
add_all-prefix hosts [] = ([], sym (append-nil hosts))
add_all-prefix hosts (x ∷ xs) = elim (Bool-cases (elem x hosts)) [
  | inl e ↦ let (more, p) = add_all-prefix hosts xs in (more, rw e p)
  | inr e ↦
      let (more, p) = add_all-prefix (hosts ++ x ∷ []) xs in
      (x ∷ more, rw e (p ∙ append_assoc hosts (x ∷ []) more))
]

take-append_length : {A : Type 0} (xs ys : List A) → take (length xs) (xs ++ ys) ≡ xs
take-append_length [] ys = refl
take-append_length (x ∷ xs) ys = rw (take-append_length xs ys)

take-add_all : (n : ℕ) (hosts xs : List ℕ) → length hosts ≡ n → take n (add_all hosts xs) ≡ hosts
take-add_all n hosts xs e =
    let (more, p) = add_all-prefix hosts xs in rw (← e, p) (take-append_length hosts more)

length-add_new : (hosts : List ℕ) (x : ℕ) → length (add_new hosts x) ≤ length hosts + 1
unfolding add_new
length-add_new hosts x = ground (arith, length-append hosts (x ∷ []))

-- The loop `while (hosts.size() < n)` stops with the first `n` different hosts, if there are `n`.
pub until-first_hosts :
    (n : ℕ) (hosts xs : List ℕ)
    → length hosts ≤ n
    → n ≤ length (add_all hosts xs)
    → until (λ h. ltb (length h) n) add_new hosts xs ≡ some (take n (add_all hosts xs))
unfolding until
until-first_hosts n hosts [] h k =
    let e : length hosts ≡ n = unfold add_all in omega arith in
    rw (take-add_all n hosts [] e) (ground arith)
until-first_hosts n hosts (x ∷ xs) h k = elim (Bool-cases (ltb (length hosts) n)) [
  | inl more ↦
      rw (more, until)
        (until-first_hosts n (add_new hosts x) xs (ground (arith, length-add_new hosts x))
            (unfold add_all in k)
          ∙ unfold add_all in refl)
  | inr full ↦
      let e : length hosts ≡ n = ground arith in rw (full, until, take-add_all n hosts (x ∷ xs) e)
]
