-- ===== src/Blocks/Gets.antt =====
-- src/data.cpp, request 2 on blocks that stand for a map: what is answered for a hash.
use thkvs.Base.{
  ℕ, ◌^◌, ◌<◌, ◌≡◌, refl, sym, ap, ◌∙◌, ◌⊎◌, inl, inr, List, [], ◌∷◌, ◌++◌, map, Bool, true, false,
  Bool-cases, Option, none, some, if◌then◌else◌, Text, All, arith,
}
use thkvs.Base.Int.{ℤ, pos, negsuc}
use thkvs.State.{Node, KeyValue}
use thkvs.Store.{get_return}
use thkvs.Store.Digits.{tolonglong}
use thkvs.Disk.{Files, open_in, decimal_ℤ}
use thkvs.Blocks.{Blocks, holds, lines}
use thkvs.Blocks.Serve.{Words, no_words, find_words, signed64, answer, get_blocks, get_all}
use thkvs.Blocks.Filled.{copies}
use thkvs.Blocks.Found.{find_in, find_words-lines, find_in-none, find_in-some, answer-pos}
use thkvs.Blocks.Divided.{list_of}
use thkvs.Blocks.Kept.{Held, IsHeld, copies_in}
use thkvs.Blocks.Puts.{copies-Misses}
use thkvs.Blocks.Refinement.{Map, Refines}

append-nil_left : {A : Type 0} (xs ys : List A) → xs ++ ys ≡ [] → xs ≡ []
append-nil_left [] ys e = refl
append-nil_left (x ∷ xs) ys e = cc

append-nil_right : {A : Type 0} (xs ys : List A) → xs ++ ys ≡ [] → ys ≡ []
append-nil_right [] ys e = e
append-nil_right (x ∷ xs) ys e = cc

module _ (kv : KeyValue) (hash : ℕ) (files : Files) where
  -- One turn of the loop, at a block whose file is read.
  get_miss :
      (g : Held) (gs : List Held) (w : Words) (flag : Bool) (n : Node)
      → holds g.0 hash ≡ false
      → get_blocks kv hash (map (λ g. g.0) (g ∷ gs)) files w flag n
        ≡ get_blocks kv hash (map (λ g. g.0) gs) files w flag n
  unfolding get_blocks
  get_miss g gs w flag n q = rw (q, get_blocks) refl

  abbrev next : Bool × Words → List Held → Bool → Node → Bool × Words × Node
  next (found, w) gs flag n = elim found [
    | true ↦ get_blocks kv hash (map (λ g. g.0) gs) files w true (answer kv 0 w n)
    | false ↦ get_blocks kv hash (map (λ g. g.0) gs) files w flag n
  ]

  get_hit :
      (g : Held) (gs : List Held) (w : Words) (flag : Bool) (n : Node) (found : Bool × Words)
      → IsHeld files g
      → holds g.0 hash ≡ true
      → find_in hash g.1 w ≡ found
      → get_blocks kv hash (map (λ g. g.0) (g ∷ gs)) files w flag n ≡ next found gs flag n
  unfolding get_blocks
  get_hit g gs w flag n found k q e =
      let scan : find_words hash g.0.cnt (open_in (lines g.1)) w ≡ found =
        ap (λ c. find_words hash c (open_in (lines g.1)) w) k.cnt
        ∙ find_words-lines hash g.1 (lines g.1) w k.fits refl
        ∙ e in
      rw (q, get_blocks) (rw k.file (ap (λ f. next f gs flag n) scan))

  get_none :
      (gs : List Held) (w : Words) (flag : Bool) (n : Node)
      → All (IsHeld files) gs
      → copies_in hash gs ≡ []
      → (w' : Words) × (get_blocks kv hash (map (λ g. g.0) gs) files w flag n ≡ (flag, w', n))
  unfolding get_blocks
  get_none [] w flag n k e = (w, refl)
  get_none (g ∷ gs) w flag n k e =
      let none_here = append-nil_left (copies hash g.1) (copies_in hash gs) e in
      let none_behind = append-nil_right (copies hash g.1) (copies_in hash gs) e in
      elim (Bool-cases (holds g.0 hash)) [
        | inr q ↦
            let (w', r) = get_none gs w flag n k.1 none_behind in (w', get_miss g gs w flag n q ∙ r)
        | inl q ↦
            let (w1, f) = find_in-none hash g.1 w none_here in
            let (w', r) = get_none gs w1 flag n k.1 none_behind in
            (w', get_hit g gs w flag n (false, w1) k.0 q f ∙ r)
      ]

  has_copies :
      (g : Held) (gs : List Held) (c : Text × ℤ) (cs : List (Text × ℤ))
      → All (IsHeld files) (g ∷ gs)
      → copies hash g.1 ≡ c ∷ cs
      → holds g.0 hash ≡ true
  has_copies g gs c cs k e = elim (Bool-cases (holds g.0 hash)) [
    | inl q ↦ q
    | inr q ↦ let none_here = copies-Misses hash g files k.0 q in absurd cc
  ]

  get_one :
      (gs : List Held) (w : Words) (flag : Bool) (n : Node) (value : Text) (t : ℕ)
      → All (IsHeld files) gs
      → t < 2 ^ 63
      → copies_in hash gs ≡ (value, pos t) ∷ []
      → (w' : Words) × (get_blocks kv hash (map (λ g. g.0) gs) files w flag n
          ≡ (true, w', get_return n kv.id kv.ip kv.port 0 value (pos t)))
  get_one [] w flag n value t k l e = ground arith
  get_one (g ∷ gs) w flag n value t k l e = elim (List-cases (copies hash g.1)) [
    | inl none_here ↦
        let e' = sym (ap (λ c. c ++ copies_in hash gs) none_here) ∙ e in
        elim (Bool-cases (holds g.0 hash)) [
          | inr q ↦
              let (w', r) = get_one gs w flag n value t k.1 l e' in
              (w', get_miss g gs w flag n q ∙ r)
          | inl q ↦
              let (w1, f) = find_in-none hash g.1 w none_here in
              let (w', r) = get_one gs w1 flag n value t k.1 l e' in
              (w', get_hit g gs w flag n (false, w1) k.0 q f ∙ r)
        ]
    | inr (c, cs, some_here) ↦
        let e' : c ∷ (cs ++ copies_in hash gs) ≡ (value, pos t) ∷ [] =
          sym (ap (λ c. c ++ copies_in hash gs) some_here) ∙ e in
        let none_behind : copies_in hash gs ≡ [] = append-nil_right cs (copies_in hash gs) cc in
        let first : copies hash g.1 ≡ (value, pos t) ∷ cs = cc in
        let q = has_copies g gs c cs k some_here in
        let (key, f) = find_in-some hash g.1 w value (pos t) cs first in
        let found : Words = record { key = key; value = value; time_stamp = decimal_ℤ (pos t) } in
        let (w', r) = get_none gs found true (answer kv 0 found n) k.1 none_behind in
        (
          w',
          get_hit g gs w flag n (true, found) k.0 q f
              ∙ r
              ∙ ap (λ n'. (true, w', n')) (answer-pos kv key value t n l),
        )
  ]
    where
      List-cases :
          {A : Type 0} (xs : List A) → (xs ≡ []) ⊎ ((x : A) × (ys : List A) × (xs ≡ x ∷ ys))
      List-cases [] = inl refl
      List-cases (x ∷ xs) = inr (x, xs, refl)

-- What is answered for a hash, by the map.
abbrev pub Reply : KeyValue → Option (Text × ℤ) → Node → Node → Type 0
Reply kv none n n' =
    (value : Text) × (time_stamp : ℤ) × (n' ≡ get_return n kv.id kv.ip kv.port 1 value time_stamp)
Reply kv (some (value, time_stamp)) n n' = n' ≡ get_return n kv.id kv.ip kv.port 0 value time_stamp

abbrev pub NotNegative : Option (Text × ℤ) → Type 0
NotNegative none = Unit
NotNegative (some (value, pos t)) = t < 2 ^ 63
NotNegative (some (value, negsuc t)) = ⊥

-- A get in blocks that stand for a map is answered once: with success and what the map has for
-- the hash, if its timestamp is not negative, and with a failure if the map has nothing there.
pub get_all_refines :
    (kv : KeyValue) (hash : ℕ) (s : Blocks) (m : Map) (n : Node)
    → Refines s m
    → NotNegative (m hash)
    → Reply kv (m hash) n (get_all kv hash s n)
unfolding get_all answer
get_all_refines kv hash s m n r = go (m hash) (r.view hash)
  where
    go :
        (o : Option (Text × ℤ))
        → copies_in hash r.gs ≡ list_of o
        → NotNegative o
        → Reply kv o n (get_all kv hash s n)
    go none e p =
        let (w, q) = get_none kv hash s.files r.gs no_words false n r.kept.held e in
        (
          w.value,
          signed64 (tolonglong w.time_stamp),
          rw r.kept.hl (ap (λ t. if t.0 then t.2 else answer kv 1 t.1 t.2) q),
        )
    go (some (value, pos t)) e p =
        let (w, q) = get_one kv hash s.files r.gs no_words false n value t r.kept.held p e in
        rw r.kept.hl (ap (λ t. if t.0 then t.2 else answer kv 1 t.1 t.2) q)
    go (some (value, negsuc t)) e p = absurd p
