-- ===== src/Blocks/Handover.antt =====
-- src/data.cpp, requests 3 and 4 together: the entries of a range that one server reads, and that
-- another one takes in.
use mathlib.Core.Path.{subst}
use mathlib.Core.List.{map-append}
use thkvs.Base.{
  ℕ, ◌^◌, ◌≤◌, ◌<◌, ◌≡◌, refl, sym, ap, ◌∙◌, inl, inr, List, [], ◌∷◌, ◌++◌, map, true, false, ◌&&◌,
  Bool-cases, Option, none, some, leb, if◌then◌else◌, if_true, if_false, Text, All, All-append,
  length,
}
use thkvs.Base.Int.{ℤ}
use thkvs.State.{Node, KeyValue}
use thkvs.Store.Digits.{toint-decimal}
use thkvs.Disk.Signed.{IsLong}
use thkvs.Disk.{Files}
use thkvs.Blocks.{Value, Blocks}
use thkvs.Blocks.Serve.{take_in_all, range_blocks}
use thkvs.Blocks.Lines.{Fits}
use thkvs.Blocks.Filled.{copies}
use thkvs.Blocks.Divided.{list_of}
use thkvs.Blocks.Kept.{Held, IsHeld, copies_in}
use thkvs.Blocks.Refinement.{Map, Refines}
use thkvs.Blocks.Ranges.{entries_within, all_within, range_blocks_kept}
use thkvs.Blocks.Moved.{
  keys, values, take_map, IsMoved, clear_takes, take_in_all_refines, moved_copies, take_map-none,
  take_map-one, moved_copies-append, moved_inside, moved_outside,
}

module _ (begin end : ℕ) where
  entries_within-All : (vs : List Value) → All Fits vs → All IsMoved (entries_within begin end vs)
  entries_within-All [] f = tt
  entries_within-All (v ∷ vs) f = elim (Bool-cases (leb begin v.key && leb v.key end)) [
    | inl q ↦ rw q (
      (subst (λ k. k < 2 ^ 32) (sym (toint-decimal v.key f.0.key)) f.0.key, f.0.value),
      entries_within-All vs f.1,
    )
    | inr q ↦ rw q (entries_within-All vs f.1)
  ]

  all_within-All :
      (gs : List Held) (files : Files)
      → All (IsHeld files) gs
      → All IsMoved (all_within begin end gs)
  all_within-All [] files k = tt
  all_within-All (g ∷ gs) files k =
      All-append IsMoved (entries_within begin end g.1) (all_within begin end gs)
        (entries_within-All g.1 k.0.fits) (all_within-All gs files k.1)

  all_inside :
      (h : ℕ) (gs : List Held) (files : Files)
      → All (IsHeld files) gs
      → (leb begin h && leb h end) ≡ true
      → moved_copies h (all_within begin end gs) ≡ map (λ c. c.0) (copies_in h gs)
  all_inside h [] files k i = refl
  all_inside h (g ∷ gs) files k i =
      moved_copies-append h (entries_within begin end g.1) (all_within begin end gs)
      ∙ ap (λ c. c ++ moved_copies h (all_within begin end gs))
          (moved_inside h begin end g.1 k.0.fits i)
      ∙ ap (λ c. map (λ c. c.0) (copies h g.1) ++ c) (all_inside h gs files k.1 i)
      ∙ sym (map-append (λ c. c.0) (copies h g.1) (copies_in h gs))

  all_outside :
      (h : ℕ) (gs : List Held) (files : Files)
      → All (IsHeld files) gs
      → (leb begin h && leb h end) ≡ false
      → moved_copies h (all_within begin end gs) ≡ []
  all_outside h [] files k o = refl
  all_outside h (g ∷ gs) files k o =
      moved_copies-append h (entries_within begin end g.1) (all_within begin end gs)
      ∙ ap (λ c. c ++ moved_copies h (all_within begin end gs))
          (moved_outside h begin end g.1 k.0.fits o)
      ∙ all_outside h gs files k.1 o

  -- The map of the server that takes the range in: what the other one has there, and its own.
  abbrev pub moved_map : ℤ → Map → Map → Map
  moved_map time_stamp from to h =
      if leb begin h && leb h end
      then elim (from h) [ none ↦ to h | some v ↦ some (v.0, time_stamp) ]
      else to h

  take_map-moved :
      (time_stamp : ℤ) (gs : List Held) (files : Files) (from to : Map) (h : ℕ)
      → All (IsHeld files) gs
      → copies_in h gs ≡ list_of (from h)
      → take_map time_stamp (all_within begin end gs) to h ≡ moved_map time_stamp from to h
  take_map-moved time_stamp gs files from to h k e = elim (Bool-cases (leb begin h && leb h end)) [
    | inr o ↦
        take_map-none h time_stamp (all_within begin end gs) to (all_outside h gs files k o)
        ∙ sym (if_false _ o)
    | inl i ↦
        inside (from h) (all_inside h gs files k i ∙ ap (map (λ c. c.0)) e) ∙ sym (if_true _ i)
  ]
    where
      inside :
          (o : Option (Text × ℤ))
          → moved_copies h (all_within begin end gs) ≡ map (λ c. c.0) (list_of o)
          → take_map time_stamp (all_within begin end gs) to h
            ≡ elim o [ none ↦ to h | some v ↦ some (v.0, time_stamp) ]
      inside none e = take_map-none h time_stamp (all_within begin end gs) to e
      inside (some v) e = take_map-one h time_stamp (all_within begin end gs) to v.0 e

  -- A range that is read from blocks that stand for one map is taken into blocks that stand for
  -- another: these then stand for the map that has the values of the first in the range, with
  -- the timestamp `time_stamp`, and its own elsewhere. The timestamp is of 64 bits, the array
  -- has 22 elements, and at each entry one block alone holds the hash.
  pub handover :
      (kv : KeyValue) (time_stamp : ℤ) (a b : Blocks) (from to : Map) (tmp : List Value) (n : Node)
      → IsLong time_stamp
      → 22 ≤ length tmp
      → Refines a from
      → Refines b to
      → clear_takes kv time_stamp (range_blocks begin end a.hl a.files) b tmp n ≡ true
      → let found = range_blocks begin end a.hl a.files in
        (b' : Blocks) × (take_in_all kv time_stamp (keys found) (values found) b tmp n
          ≡ some (false, b', n))
        × Refines b' (moved_map time_stamp from to)
  handover kv time_stamp a b from to tmp n t room ra rb c =
      let found = range_blocks begin end a.hl a.files in
      let sent = range_blocks_kept begin end a ra.gs ra.kept in
      let (b', ran, r) =
        take_in_all_refines kv time_stamp found b to tmp n t
          (subst (All IsMoved) (sym sent) (all_within-All ra.gs a.files ra.kept.held)) room rb c in
      (
        b',
        ran,
        record {
          gs = r.gs;
          kept = r.kept;
          view = λ h.
              r.view h
              ∙ ap list_of (
                  ap (λ es. take_map time_stamp es to h) sent
                  ∙ take_map-moved time_stamp ra.gs a.files from to h ra.kept.held (ra.view h));
        },
      )
