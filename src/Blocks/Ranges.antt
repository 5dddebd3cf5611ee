-- ===== src/Blocks/Ranges.antt =====
-- src/data.cpp, request 3: the entries of a range that are sent to another server.
use thkvs.Base.{
  ℕ, suc, ◌≤◌, ◌≡◌, refl, sym, ap, ◌∙◌, inl, inr, List, [], ◌∷◌, ◌++◌, map, true, false, ◌&&◌,
  Bool-cases, leb, if◌then◌else◌, if_false, Text, decimal, All, length, arith,
}
use thkvs.Store.Digits.{toint, toint-decimal}
use thkvs.Disk.{Files, open_in, skip_space}
use thkvs.Blocks.{Value, Hashlist, Blocks, lines}
use thkvs.Blocks.Serve.{Words, no_words, read_range, range_blocks, overlaps}
use thkvs.Blocks.Lines.{Fits, read_words-line}
use thkvs.Blocks.Filled.{IsFilled}
use thkvs.Blocks.Kept.{Held, IsHeld, IsKept}
use thkvs.Blocks.Found.{words_of}

module _ (begin end : ℕ) where
  -- The keys, in decimal, and the values of the entries in the range.
  abbrev pub entries_within : List Value → List (Text × Text)
  entries_within [] = []
  entries_within (v ∷ vs) =
      if leb begin v.key && leb v.key end
      then (decimal v.key, v.value) ∷ entries_within vs
      else entries_within vs

  abbrev pub all_within : List Held → List (Text × Text)
  all_within [] = []
  all_within (g ∷ gs) = entries_within g.1 ++ all_within gs

  read_range-lines :
      (vs : List Value) (input : Text) (w : Words)
      → All Fits vs
      → skip_space input ≡ skip_space (lines vs)
      → read_range begin end (length vs) (open_in input) w ≡ entries_within vs
  unfolding read_range
  read_range-lines [] input w fits starts = refl
  read_range-lines (v ∷ vs) input w fits starts =
      ap
        (λ p.
          if leb begin (toint p.0.key) && leb (toint p.0.key) end
          then (p.0.key, p.0.value) ∷ read_range begin end (length vs) p.1 p.0
          else read_range begin end (length vs) p.1 p.0)
        (read_words-line v fits.0 input (lines vs) starts w)
      ∙ rw (toint-decimal v.key fits.0.key) (
          ap (λ r. if leb begin v.key && leb v.key end then (decimal v.key, v.value) ∷ r else r)
            (read_range-lines vs (10 ∷ lines vs) (words_of v) fits.1 refl))

  -- A block that does not overlap the range has no entry in it.
  entries_outside :
      (b : Hashlist) (lo : ℕ) (vs : List Value)
      → overlaps b begin end ≡ false
      → b.begin ≤ lo
      → IsFilled lo b.end vs
      → entries_within vs ≡ []
  entries_outside b lo [] o l f = refl
  entries_outside b lo (v ∷ vs) o l f =
      let (f0, f1, f2) = f in
      let outside : (leb begin v.key && leb v.key end) ≡ false = ground arith in
      if_false _ outside ∙ entries_outside b (suc v.key) vs o (omega arith) f2

  range_here :
      (g : Held) (gs : List Held) (files : Files)
      → IsHeld files g
      → overlaps g.0 begin end ≡ true
      → range_blocks begin end (map (λ g. g.0) (g ∷ gs)) files
        ≡ entries_within g.1 ++ range_blocks begin end (map (λ g. g.0) gs) files
  unfolding range_blocks
  range_here g gs files k o =
      let found : read_range begin end g.0.cnt (open_in (lines g.1)) no_words ≡ entries_within g.1 =
        ap (λ c. read_range begin end c (open_in (lines g.1)) no_words) k.cnt
        ∙ read_range-lines g.1 (lines g.1) no_words k.fits refl in
      rw (o, range_blocks)
        (rw k.file (ap (λ r. r ++ range_blocks begin end (map (λ g. g.0) gs) files) found))

  range_miss :
      (g : Held) (gs : List Held) (files : Files)
      → overlaps g.0 begin end ≡ false
      → range_blocks begin end (map (λ g. g.0) (g ∷ gs)) files
        ≡ range_blocks begin end (map (λ g. g.0) gs) files
  unfolding range_blocks
  range_miss g gs files o = rw (o, range_blocks) refl

  range_blocks-held :
      (gs : List Held) (files : Files)
      → All (IsHeld files) gs
      → range_blocks begin end (map (λ g. g.0) gs) files ≡ all_within gs
  unfolding range_blocks
  range_blocks-held [] files k = refl
  range_blocks-held (g ∷ gs) files k = elim (Bool-cases (overlaps g.0 begin end)) [
    | inl o ↦
        range_here g gs files k.0 o
        ∙ ap (λ r. entries_within g.1 ++ r) (range_blocks-held gs files k.1)
    | inr o ↦
        range_miss g gs files o
        ∙ range_blocks-held gs files k.1
        ∙ ap (λ r. r ++ all_within gs)
            (sym (entries_outside g.0 g.0.begin g.1 o (omega arith) k.0.filled))
  ]

  -- What is read for a range from blocks that are kept well is all entries whose hashes lie in
  -- it, with the keys in decimal, in the order of the blocks, and no others.
  pub range_blocks_kept :
      (s : Blocks) (gs : List Held)
      → IsKept s gs
      → range_blocks begin end s.hl s.files ≡ all_within gs
  range_blocks_kept s gs kept =
      ap (λ hl. range_blocks begin end hl s.files) kept.hl ∙ range_blocks-held gs s.files kept.held
