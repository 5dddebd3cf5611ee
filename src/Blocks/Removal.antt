-- ===== src/Blocks/Removal.antt =====
-- src/data.cpp, request 5: the entries of a range are removed from the files.
use mathlib.Core.Path.{subst}
use thkvs.Base.{
  ℕ, ◌^◌, ◌≤◌, ◌<◌, ◌≡◌, refl, sym, ap, ◌∙◌, inl, inr, List, [], ◌∷◌, ◌++◌, map, true, false,
  Bool-cases, if_false, All, length, take, arith,
}
use thkvs.Disk.{Files, write_file, open_in}
use thkvs.Blocks.{Value, Hashlist, Blocks, block_name, lines, sort, sort_first, drop, read_values}
use thkvs.Blocks.Serve.{overlaps}
use thkvs.Blocks.Loop.{mark, unmarked, after_removal, remove_blocks}
use thkvs.Blocks.Lines.{overlay, read_values-lines}
use thkvs.Blocks.Filled.{IsFilled, sort-IsFilled}
use thkvs.Blocks.Cut.{take-drop}
use thkvs.Blocks.Laid.{take-overlay, length-laid, length-overlay}
use thkvs.Blocks.Marks.{
  InRange, marked, marked-IsFilled, unmarked-IsFilled, unmarked-All, marked-All, length-unmarked,
  copies-survivors_inside,
}
use thkvs.Blocks.Divided.{write_file-same}
use thkvs.Blocks.Puts.{copies-Misses}
use thkvs.Blocks.Same.{SameRanges, AreApart-same}
use thkvs.Blocks.Kept.{
  Held, IsHeld, IsKept, ApartFrom, AreApart, Elsewhere, copies_in, IsHeld-Elsewhere, IsApart-differ,
  IsApart-sym,
}

module _ (begin end : ℕ) where
  -- The blocks `gs` have become the blocks `ks`.
  record Removes (gs : List Held) (files : Files) (out : List Hashlist × Files) : Type 0 where
    pub ks : List Held
    pub hl : out.0 ≡ map (λ k. k.0) ks
    pub held : All (IsHeld (out.1)) ks
    pub same : SameRanges gs ks
    pub gone : (h : ℕ) → InRange begin end h → copies_in h ks ≡ []
    pub untouched :
        (x : Hashlist)
        → ApartFrom x gs
        → x.begin < x.end
        → x.end < 2 ^ 32
        → out.1 (block_name x) ≡ files (block_name x)

  -- The array after the entries are read into it and sorted is as it was read.
  sort_first-overlay :
      (lo hi : ℕ) (es tmp : List Value)
      → length es ≤ length tmp
      → IsFilled lo hi es
      → sort_first (length es) (overlay (mark begin end) es tmp) ≡ overlay (mark begin end) es tmp
  unfolding marked
  sort_first-overlay lo hi es tmp l f =
      let read = overlay (mark begin end) es tmp in
      let front : take (length es) read ≡ marked begin end es tmp =
        take-overlay (mark begin end) es tmp l in
      ap (λ t. sort t ++ drop (length es) read) front
      ∙ ap (λ t. t ++ drop (length es) read)
          (sort-IsFilled lo hi (marked begin end es tmp) (marked-IsFilled begin end lo hi es tmp f)
            ∙ sym front)
      ∙ take-drop (length es) read

  rest_after : Held → List Held → Files → List Value → List Hashlist × Files
  rest_after g gs files tmp =
      let kept = unmarked (marked begin end g.1 tmp) in
      after_removal (record (g.0) { cnt = length kept })
        (remove_blocks begin end (map (λ g. g.0) gs)
          (write_file (block_name g.0) (lines kept) files) (overlay (mark begin end) g.1 tmp))

  remove_here :
      (g : Held) (gs : List Held) (files : Files) (tmp : List Value)
      → IsHeld files g
      → 20 ≤ length tmp
      → overlaps g.0 begin end ≡ true
      → remove_blocks begin end (map (λ g. g.0) (g ∷ gs)) files tmp ≡ rest_after g gs files tmp
  unfolding remove_blocks rest_after marked
  remove_here g gs files tmp k room o =
      let read = overlay (mark begin end) g.1 tmp in
      let fits : length g.1 ≤ length tmp = omega (arith, k.cnt, k.most) in
      let reads : sort_first g.0.cnt
            (read_values (mark begin end) g.0.cnt (open_in (lines g.1)) tmp)
          ≡ read =
        ap (λ c. sort_first c (read_values (mark begin end) c (open_in (lines g.1)) tmp)) k.cnt
        ∙ ap (sort_first (length g.1))
            (read_values-lines (mark begin end) g.1 (lines g.1) tmp k.fits refl fits)
        ∙ sort_first-overlay g.0.begin g.0.end g.1 tmp fits k.filled in
      let front : take g.0.cnt read ≡ marked begin end g.1 tmp =
        ap (λ c. take c read) k.cnt ∙ take-overlay (mark begin end) g.1 tmp fits in
      let turn_once : List Value → List Value → List Hashlist × Files = λ read shown.
        after_removal (record (g.0) { cnt = length (unmarked shown) })
          (remove_blocks begin end (map (λ g. g.0) gs)
            (write_file (block_name g.0) (lines (unmarked shown)) files) read) in
      rw (o, remove_blocks)
        (rw k.file (ap (λ r. turn_once r (take g.0.cnt r)) reads ∙ ap (turn_once read) front))

  remove_miss :
      (g : Held) (gs : List Held) (files : Files) (tmp : List Value)
      → overlaps g.0 begin end ≡ false
      → remove_blocks begin end (map (λ g. g.0) (g ∷ gs)) files tmp
        ≡ after_removal g.0 (remove_blocks begin end (map (λ g. g.0) gs) files tmp)
  unfolding remove_blocks
  remove_miss g gs files tmp o = rw (o, remove_blocks) refl

  -- Goes on behind a block that does not overlap the range.
  Removes-miss :
      (g : Held) (gs : List Held) (files : Files) (out : List Hashlist × Files)
      → IsHeld files g
      → ApartFrom g.0 gs
      → overlaps g.0 begin end ≡ false
      → Removes gs files out
      → Removes (g ∷ gs) files (after_removal g.0 out)
  Removes-miss g gs files out k a o r = record {
    ks = g ∷ r.ks;
    hl = ap (λ hl. g.0 ∷ hl) r.hl;
    held = (
      record {
        file = r.untouched g.0 a k.range k.last ∙ k.file;
        cnt = k.cnt;
        most = k.most;
        fits = k.fits;
        filled = k.filled;
        range = k.range;
        last = k.last;
      },
      r.held,
    );
    same = (refl, refl, r.same);
    gone = λ h i.
        ap (λ c. c ++ copies_in h r.ks)
          (copies-Misses h g files k (let (i0, i1) = i in let l = k.range in ground arith))
        ∙ r.gone h i;
    untouched = λ x b. r.untouched x b.1;
  }

  few :
      (es tmp : List Value) (cnt : ℕ)
      → cnt ≡ length es
      → cnt ≤ 20
      → length es ≤ length tmp
      → length (unmarked (marked begin end es tmp)) ≤ 20
  unfolding marked
  few es tmp cnt e m fits = omega (
    arith,
    length-unmarked begin end (marked begin end es tmp),
    length-laid (mark begin end) es tmp fits,
  )

  -- Goes on behind a block whose entries are written back.
  Removes-here :
      (g : Held) (gs : List Held) (files : Files) (tmp : List Value) (out : List Hashlist × Files)
      → IsHeld files g
      → ApartFrom g.0 gs
      → 20 ≤ length tmp
      → let kept = unmarked (marked begin end g.1 tmp) in
        Removes gs (write_file (block_name g.0) (lines kept) files) out
        → Removes (g ∷ gs) files (after_removal (record (g.0) { cnt = length kept }) out)
  Removes-here g gs files tmp out k a room r =
      let kept = unmarked (marked begin end g.1 tmp) in
      let fits : length g.1 ≤ length tmp = omega (arith, k.cnt, k.most) in
      record {
        ks = (record (g.0) { cnt = length kept }, kept) ∷ r.ks;
        hl = ap (λ hl. record (g.0) { cnt = length kept } ∷ hl) r.hl;
        held = (
          record {
            file =
                r.untouched g.0 a k.range k.last
                ∙ write_file-same (block_name g.0) (lines kept) files;
            cnt = refl;
            most = few g.1 tmp g.0.cnt k.cnt k.most fits;
            fits =
                unmarked-All begin end (marked begin end g.1 tmp)
                  (marked-All begin end g.1 tmp k.fits);
            filled =
                unmarked-IsFilled begin end g.0.begin g.0.end (marked begin end g.1 tmp)
                  (marked-IsFilled begin end g.0.begin g.0.end g.1 tmp k.filled);
            range = k.range;
            last = k.last;
          },
          r.held,
        );
        same = (refl, refl, r.same);
        gone = λ h i.
            ap (λ c. c ++ copies_in h r.ks) (copies-survivors_inside begin end h g.1 tmp i)
            ∙ r.gone h i;
        untouched = λ x b l m.
            r.untouched x b.1 l m
            ∙ if_false _ (IsApart-differ g.0 x (IsApart-sym x g.0 b.0) k.range k.last l m);
      }

  removes :
      (gs : List Held) (files : Files) (tmp : List Value)
      → All (IsHeld files) gs
      → AreApart gs
      → 20 ≤ length tmp
      → Removes gs files (remove_blocks begin end (map (λ g. g.0) gs) files tmp)
  unfolding remove_blocks rest_after
  removes [] files tmp k a room = record {
    ks = [];
    hl = refl;
    held = tt;
    same = tt;
    gone = λ h i. refl;
    untouched = λ x b l m. refl;
  }
  removes (g ∷ gs) files tmp k a room = elim (Bool-cases (overlaps g.0 begin end)) [
    | inr o ↦ subst (Removes (g ∷ gs) files) (sym (remove_miss g gs files tmp o)) (
        Removes-miss g gs files (remove_blocks begin end (map (λ g. g.0) gs) files tmp) k.0 a.0 o
          (removes gs files tmp k.1 a.1 room))
    | inl o ↦
        let files' =
          write_file (block_name g.0) (lines (unmarked (marked begin end g.1 tmp))) files in
        let read = overlay (mark begin end) g.1 tmp in
        let elsewhere : Elsewhere g.0 files files' =
          λ x b l m. if_false _ (IsApart-differ g.0 x b k.0.range k.0.last l m) in
        subst (Removes (g ∷ gs) files) (sym (remove_here g gs files tmp k.0 room o)) (
          Removes-here g gs files tmp (remove_blocks begin end (map (λ g. g.0) gs) files' read) k.0
            a.0 room
            (removes gs files' read (IsHeld-Elsewhere g.0 files files' gs elsewhere a.0 k.1) a.1
              (omega (arith, length-overlay (mark begin end) g.1 tmp))))
  ]

  -- After a range is removed from blocks that are kept well no entry in it is left, whatever an
  -- array of at least 20 elements held before, and the blocks are kept well again.
  pub remove_blocks-IsKept :
      (s : Blocks) (gs : List Held) (tmp : List Value)
      → IsKept s gs
      → 20 ≤ length tmp
      → let out = remove_blocks begin end s.hl s.files tmp in
        (ks : List Held) × IsKept (record { hl = out.0; files = out.1 }) ks
        × ((h : ℕ) → InRange begin end h → copies_in h ks ≡ [])
  remove_blocks-IsKept s gs tmp kept room =
      let r = removes gs s.files tmp kept.held kept.apart room in
      let r' =
        subst (λ hl. Removes gs s.files (remove_blocks begin end hl s.files tmp)) (sym kept.hl) r in
      (
        r'.ks,
        record { hl = r'.hl; held = r'.held; apart = AreApart-same gs r'.ks r'.same kept.apart },
        r'.gone,
      )
