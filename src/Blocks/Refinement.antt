-- ===== src/Blocks/Refinement.antt =====
-- src/data.cpp, the requests of the data thread on the blocks, and what they do to the map from
-- hashes to values that the blocks stand for.
use mathlib.Core.List.{append-nil, map-append}
use mathlib.Core.Path.{subst}
use thkvs.Base.{
  ℕ, ◌^◌, ◌≤◌, ◌<◌, ◌≡◌, sym, ap, ◌∙◌, inl, inr, List, [], ◌∷◌, ◌++◌, map, true, Bool-cases, Option,
  some, ◌==◌, ==_iff, if◌then◌else◌, Text, All, All-append, length, arith,
}
use thkvs.Base.Int.{ℤ}
use thkvs.Disk.{Files}
use thkvs.Disk.Signed.{IsWord, IsLong}
use thkvs.Blocks.{Value, Hashlist, Blocks, Stored, block_name, holds, lines, store_in}
use thkvs.Blocks.Filled.{copies}
use thkvs.Blocks.Saved.{store_in-lines}
use thkvs.Blocks.Divided.{list_of, Divides, Divides-save}
use thkvs.Blocks.Kept.{
  Held, IsHeld, IsKept, IsApart-sym, ApartFrom, AreApart, copies_in, Misses, All-split,
  IsHeld-Elsewhere, ApartFrom-within, ApartFrom-append, AreApart-pick, AreApart-put,
  AreApart-append,
}
use thkvs.Blocks.Puts.{copies_in-Misses, copies_in-append, rotate}

abbrev pub heads : List Held → List Hashlist
heads gs = map (λ g. g.0) gs

-- A block between others, with new entries, in the place of the one that was divided.
module _ (pre : List Held) (g : Held) (post : List Held) (files : Files) (rs : List Value)
    (room : ℕ) (st : Stored) (held : All (IsHeld files) (pre ++ g ∷ post))
    (apart : AreApart (pre ++ g ∷ post)) (d : Divides g.0 files rs room st) where
  whole : List Held
  whole = (pre ++ d.kept ∷ post) ++ d.new

  whole-heads : (heads pre ++ st.block ∷ heads post) ++ list_of st.split ≡ heads whole
  unfolding whole
  whole-heads =
      rw (d.block, d.split)
        (sym (
          map-append (λ x. x.0) (pre ++ d.kept ∷ post) d.new
          ∙ ap (λ zs. zs ++ heads d.new) (map-append (λ x. x.0) pre (d.kept ∷ post))))

  whole-IsHeld : All (IsHeld st.files) whole
  unfolding whole
  whole-IsHeld =
      let k = All-split (IsHeld files) pre (g ∷ post) held in
      let a = AreApart-pick pre g post apart in
      All-append (IsHeld st.files) (pre ++ d.kept ∷ post) d.new
        (All-append (IsHeld st.files) pre (d.kept ∷ post)
          (IsHeld-Elsewhere g.0 files st.files pre d.elsewhere a.0 k.0)
          (d.kept_held, IsHeld-Elsewhere g.0 files st.files post d.elsewhere a.1 k.1.1))
        d.new_held

  whole-AreApart : AreApart whole
  unfolding whole
  whole-AreApart =
      let a = AreApart-pick pre g post apart in
      let l = d.within.0 in
      let m = d.within.1 in
      let front =
        AreApart-put pre g d.kept post apart (ApartFrom-within g.0 d.kept.0 pre l m a.0)
          (ApartFrom-within g.0 d.kept.0 post l m a.1) in
      AreApart-append (pre ++ d.kept ∷ post) d.new front d.new_apart
        (from_all d.new d.all_within d.apart)
    where
      from_all :
          (ys : List Held)
          → All (λ y. (g.0.begin ≤ y.0.begin) × (y.0.end ≤ g.0.end)) ys
          → ApartFrom d.kept.0 ys
          → All (λ y. ApartFrom y.0 (pre ++ d.kept ∷ post)) ys
      from_all [] w b = tt
      from_all (y ∷ ys) w b =
          let a = AreApart-pick pre g post apart in
          let (l, m) = w.0 in
          (
            ApartFrom-append y.0 pre (d.kept ∷ post) (ApartFrom-within g.0 y.0 pre l m a.0)
                (IsApart-sym d.kept.0 y.0 b.0, ApartFrom-within g.0 y.0 post l m a.1),
            from_all ys w.1 b.1,
          )

  copies_in-whole :
      (h : ℕ)
      → copies_in h whole
        ≡ (copies_in h pre ++ (copies h d.kept.1 ++ copies_in h post)) ++ copies_in h d.new
  unfolding whole
  copies_in-whole h =
      copies_in-append h (pre ++ d.kept ∷ post) d.new
      ∙ ap (λ c. c ++ copies_in h d.new) (copies_in-append h pre (d.kept ∷ post))

  whole-other :
      (h : ℕ) (o : Option (Text × ℤ))
      → copies h rs ≡ copies h g.1
      → copies_in h (pre ++ g ∷ post) ≡ list_of o
      → copies_in h whole ≡ list_of o
  whole-other h o same e =
      copies_in-whole h
      ∙ rotate (copies_in h pre) (copies h d.kept.1) (copies_in h d.new) (copies_in h post) o (
          ap (λ c. copies_in h pre ++ (c ++ copies_in h post)) (sym (d.view h) ∙ same)
          ∙ sym (copies_in-append h pre (g ∷ post))
          ∙ e)

  whole-here : (h : ℕ) → Misses h pre → Misses h post → copies_in h whole ≡ copies h rs
  whole-here h before behind =
      let k = All-split (IsHeld files) pre (g ∷ post) held in
      copies_in-whole h
      ∙ rw
          (
            copies_in-Misses h pre files k.0 before,
            copies_in-Misses h post files k.1.1 behind,
            append-nil,
          )
          (sym (d.view h))

-- The map that blocks may stand for, from hashes to values and timestamps.
abbrev pub Map : Type 0
Map = ℕ → Option (Text × ℤ)

abbrev pub set : Map → ℕ → Text → ℤ → Map
set m hash value time_stamp = λ h. if hash == h then some (value, time_stamp) else m h

-- The blocks hold one entry for each hash of the map, and no others.
pub record Refines (s : Blocks) (m : Map) : Type 0 where
  pub gs : List Held
  pub kept : IsKept s gs
  pub view : (h : ℕ) → copies_in h gs ≡ list_of (m h)

-- The blocks after one of them is stored anew.
abbrev pub blocks_at : List Held → List Held → Stored → Blocks
blocks_at pre post st = record {
  hl = (heads pre ++ st.block ∷ heads post) ++ list_of st.split;
  files = st.files;
}

module _ (hash : ℕ) (value : Text) (time_stamp : ℤ) (w : IsWord value) (t : IsLong time_stamp)
    (small : hash < 2 ^ 32) (s : Blocks) (tmp : List Value) (room : 22 ≤ length tmp) where
  pub store_at_holder :
      (m : Map) (pre : List Held) (g : Held) (post : List Held)
      → IsKept s (pre ++ g ∷ post)
      → ((h : ℕ) → copies_in h (pre ++ g ∷ post) ≡ list_of (m h))
      → Misses hash pre
      → holds g.0 hash ≡ true
      → Misses hash post
      → let st = store_in hash value time_stamp g.0 (lines g.1) tmp s.files in
        Refines (blocks_at pre post st) (set m hash value time_stamp)
        × (length st.tmp ≡ length tmp)
        × (s.files (block_name g.0) ≡ some (lines g.1))
  store_at_holder m pre g post kept view before here behind =
      let k = All-split (IsHeld s.files) pre (g ∷ post) kept.held in
      let kg = k.1.0 in
      let (rs, full, ren, front, size, saved) =
        store_in-lines hash value time_stamp w t small g.0 g.1 tmp s.files kg.cnt kg.fits kg.filled
          (omega (arith, kg.cnt, kg.most)) (ground arith) (ground arith) in
      let st = store_in hash value time_stamp g.0 (lines g.1) tmp s.files in
      let d : Divides g.0 s.files rs (length full) st =
        subst (Divides g.0 s.files rs (length full)) (sym saved) (
          Divides-save g.0 s.files rs full front ren.fits ren.filled kg.range kg.last
            (omega (arith, kg.cnt, kg.most, ren.most))) in
      let view' : (h : ℕ)
          → copies_in h (whole pre g post s.files rs (length full) st kept.held kept.apart d)
            ≡ list_of (set m hash value time_stamp h) =
        λ h. elim (Bool-cases (hash == h)) [
          | inl e ↦
              let same : hash ≡ h = (==_iff hash h).0 e in
              rw (e, ← same)
                (whole-here pre g post s.files rs (length full) st kept.held kept.apart d hash
                    before behind
                  ∙ ren.here)
          | inr e ↦ rw e (
              whole-other pre g post s.files rs (length full) st kept.held kept.apart d h (m h)
                (ren.others h λ q. ground arith) (view h))
        ] in
      (
        record {
          gs = whole pre g post s.files rs (length full) st kept.held kept.apart d;
          kept = record {
            hl = whole-heads pre g post s.files rs (length full) st kept.held kept.apart d;
            held = whole-IsHeld pre g post s.files rs (length full) st kept.held kept.apart d;
            apart = whole-AreApart pre g post s.files rs (length full) st kept.held kept.apart d;
          };
          view = view';
        },
        d.array ∙ size,
        kg.file,
      )
