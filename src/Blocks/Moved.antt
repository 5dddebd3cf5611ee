-- ===== src/Blocks/Moved.antt =====
-- src/data.cpp, request 4 as updates of the map, and the entries that request 3 sends.
use thkvs.Base.{
  ℕ, ◌^◌, ◌≤◌, ◌<◌, ◌≡◌, refl, sym, ap, ◌∙◌, inl, inr, List, [], ◌∷◌, ◌++◌, map, Bool, true, false,
  ◌&&◌, Bool-cases, some, leb, ◌==◌, ==_iff, if◌then◌else◌, if_true, if_false, and_left, and_right,
  Text, decimal, All, length, arith,
}
use thkvs.Base.Int.{ℤ}
use thkvs.State.{Node, KeyValue}
use thkvs.Store.Digits.{toint, toint-decimal}
use thkvs.Disk.Signed.{IsWord, IsLong}
use thkvs.Blocks.{Value, Blocks}
use thkvs.Blocks.Serve.{blocks_of, take_blocks, take_in_all}
use thkvs.Blocks.Lines.{Fits}
use thkvs.Blocks.Filled.{copies}
use thkvs.Blocks.Kept.{holders}
use thkvs.Blocks.Refinement.{Map, set, Refines}
use thkvs.Blocks.Updates.{take_blocks-Refines}
use thkvs.Blocks.Ranges.{entries_within}

abbrev pub Entries : Type 0
Entries = List (Text × Text)

abbrev pub keys : Entries → List Text
keys es = map (λ e. e.0) es

abbrev pub values : Entries → List Text
values es = map (λ e. e.1) es

-- The map after the entries are taken in, each with the same timestamp.
abbrev pub take_map : ℤ → Entries → Map → Map
take_map t [] m = m
take_map t (e ∷ es) m = take_map t es (set m (toint e.0) e.1 t)

abbrev pub IsMoved : Text × Text → Type 0
IsMoved e = (toint e.0 < 2 ^ 32) × IsWord e.1

module _ (kv : KeyValue) (time_stamp : ℤ) where
  -- At each entry, one block alone holds the hash.
  abbrev pub clear_takes : Entries → Blocks → List Value → Node → Bool
  clear_takes [] s tmp n = true
  clear_takes (e ∷ es) s tmp n =
      let p = take_blocks kv (toint e.0) e.1 time_stamp s.hl s.files tmp n in
      holders (toint e.0) s.hl == 1 && clear_takes es (blocks_of p) p.tmp p.node

  pub take_in_all_refines :
      (es : Entries) (s : Blocks) (m : Map) (tmp : List Value) (n : Node)
      → IsLong time_stamp
      → All IsMoved es
      → 22 ≤ length tmp
      → Refines s m
      → clear_takes es s tmp n ≡ true
      → (s' : Blocks) × (take_in_all kv time_stamp (keys es) (values es) s tmp n
          ≡ some (false, s', n))
        × Refines s' (take_map time_stamp es m)
  unfolding take_in_all
  take_in_all_refines [] s m tmp n t is room r c = (s, refl, r)
  take_in_all_refines (e ∷ es) s m tmp n t is room r c =
      let p = take_blocks kv (toint e.0) e.1 time_stamp s.hl s.files tmp n in
      let one : holders (toint e.0) s.hl ≡ 1 =
        (==_iff (holders (toint e.0) s.hl) 1).0 (and_left (holders (toint e.0) s.hl == 1) _ c) in
      let (refines, node, fine, size) =
        take_blocks-Refines kv (toint e.0) time_stamp t is.0.0 s tmp room n m r one e.1 is.0.1 in
      let (s', ran, r') =
        take_in_all_refines es (blocks_of p) (set m (toint e.0) e.1 time_stamp) p.tmp p.node t is.1
          (omega (arith, size)) refines (and_right (holders (toint e.0) s.hl == 1) _ c) in
      (
        s',
        ap
              (λ b. elim b [
                | true ↦ some (true, blocks_of p, p.node)
                | false ↦ take_in_all kv time_stamp (keys es) (values es) (blocks_of p) p.tmp p.node
              ])
              fine
            ∙ ran
            ∙ ap (λ k. some (false, s', k)) node,
        r',
      )

module _ (h : ℕ) where
  -- The values under a hash among entries that are sent.
  abbrev pub moved_copies : Entries → List Text
  moved_copies [] = []
  moved_copies (e ∷ es) = if toint e.0 == h then e.1 ∷ moved_copies es else moved_copies es

  pub take_map-none :
      (t : ℤ) (es : Entries) (m : Map) → moved_copies es ≡ [] → take_map t es m h ≡ m h
  take_map-none t [] m e = refl
  take_map-none t (x ∷ es) m e = elim (Bool-cases (toint x.0 == h)) [
    | inl q ↦ absurd (ground arith)
    | inr q ↦ take_map-none t es (set m (toint x.0) x.1 t) (sym (if_false _ q) ∙ e) ∙ if_false _ q
  ]

  pub take_map-one :
      (t : ℤ) (es : Entries) (m : Map) (v : Text)
      → moved_copies es ≡ v ∷ []
      → take_map t es m h ≡ some (v, t)
  take_map-one t [] m v e = absurd (ground arith)
  take_map-one t (x ∷ es) m v e = elim (Bool-cases (toint x.0 == h)) [
    | inl q ↦
        let e' : x.1 ∷ moved_copies es ≡ v ∷ [] = sym (if_true _ q) ∙ e in
        let same : x.1 ≡ v = cc in
        let none_behind : moved_copies es ≡ [] = cc in
        take_map-none t es (set m (toint x.0) x.1 t) none_behind
        ∙ if_true _ q
        ∙ ap (λ v. some (v, t)) same
    | inr q ↦ take_map-one t es (set m (toint x.0) x.1 t) v (sym (if_false _ q) ∙ e)
  ]

  pub moved_copies-append :
      (xs ys : Entries) → moved_copies (xs ++ ys) ≡ moved_copies xs ++ moved_copies ys
  moved_copies-append [] ys = refl
  moved_copies-append (x ∷ xs) ys = elim (Bool-cases (toint x.0 == h)) [
    | inl q ↦ rw q (ap (λ c. x.1 ∷ c) (moved_copies-append xs ys))
    | inr q ↦ rw q (moved_copies-append xs ys)
  ]

  moved_first :
      (v : Value) (es : Entries)
      → Fits v
      → moved_copies ((decimal v.key, v.value) ∷ es)
        ≡ (if v.key == h then v.value ∷ moved_copies es else moved_copies es)
  moved_first v es f = rw (toint-decimal v.key f.key) refl

  module _ (begin end : ℕ) where
    -- Entries of the hash that are sent: all of them if it is in the range, else none.
    pub moved_inside :
        (vs : List Value)
        → All Fits vs
        → (leb begin h && leb h end) ≡ true
        → moved_copies (entries_within begin end vs) ≡ map (λ c. c.0) (copies h vs)
    moved_inside [] f i = refl
    moved_inside (v ∷ vs) f i =
        let first = moved_first v (entries_within begin end vs) f.0 in
        let rest = moved_inside vs f.1 i in
        elim (Bool-cases (v.key == h)) [
          | inl q ↦
              let w : (leb begin v.key && leb v.key end) ≡ true = ground arith in
              ap moved_copies (if_true _ w)
              ∙ first
              ∙ if_true _ q
              ∙ ap (λ c. v.value ∷ c) rest
              ∙ sym (ap (map (λ c. c.0)) (if_true _ q))
          | inr q ↦
              elim (Bool-cases (leb begin v.key && leb v.key end)) [
                | inl w ↦ ap moved_copies (if_true _ w) ∙ first ∙ if_false _ q
                | inr w ↦ ap moved_copies (if_false _ w)
              ]
              ∙ rest
              ∙ sym (ap (map (λ c. c.0)) (if_false _ q))
        ]

    pub moved_outside :
        (vs : List Value)
        → All Fits vs
        → (leb begin h && leb h end) ≡ false
        → moved_copies (entries_within begin end vs) ≡ []
    moved_outside [] f o = refl
    moved_outside (v ∷ vs) f o =
        let rest = moved_outside vs f.1 o in
        elim (Bool-cases (leb begin v.key && leb v.key end)) [
          | inl w ↦
              let q : (v.key == h) ≡ false = ground arith in
              ap moved_copies (if_true _ w)
              ∙ moved_first v (entries_within begin end vs) f.0
              ∙ if_false _ q
              ∙ rest
          | inr w ↦ ap moved_copies (if_false _ w) ∙ rest
        ]
